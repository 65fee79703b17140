-- ===== src/Schemas/Descriptor.antt =====
-- `ActionDescriptor`, `resolve_action_descriptor_from_snapshot` and the payloads of an approval.
use aadesh.Common.{String, Bool, Option, none, some, ◌==◌, if◌then◌else◌}
use aadesh.Json.{
  Value, Items, null, string, array, object, nil, cons, end, insert_field, as_str, as_bool,
  as_array, get,
}
use aadesh.Outcome.{Outcome, ok, err, corruption, invalid_input, ◌>>=◌, required}
use aadesh.Unicode.{Unicode}

pub record ActionDescriptor : Type 0 where
  pub tool_name : String
  pub action_name : String
  pub args_schema_ref : String
  pub result_schema_ref : Option String
  pub diff_supported : Bool
  pub execution_class : String
  pub default_approval_mode : String
  pub diff_kind : String
  pub editable_payload_schema : Value

abbrev pub and_then {ℓ κ} : {A : Type ℓ} {B : Type κ} → Option A → (A → Option B) → Option B
and_then none f = none
and_then (some a) f = f a

-- A field that has to be a text.
abbrev pub text_field : String → Value → Outcome String
text_field k v = required (and_then (get k v) as_str) corruption

describe_action : String → String → Value → Outcome ActionDescriptor
describe_action tool name action = do
  args_schema_ref ← text_field "args_schema_ref" action
  let result_schema_ref = and_then (get "result_schema_ref" action) as_str
  diff_supported ← required (and_then (get "diff_supported" action) as_bool) corruption
  execution_class ← text_field "execution_class" action
  default_approval_mode ← text_field "default_approval_mode" action
  diff_kind ← text_field "diff_kind" action
  editable ← required (get "editable_payload_schema" action) corruption
  ok (record {
    tool_name = tool;
    action_name = name;
    args_schema_ref = args_schema_ref;
    result_schema_ref = result_schema_ref;
    diff_supported = diff_supported;
    execution_class = execution_class;
    default_approval_mode = default_approval_mode;
    diff_kind = diff_kind;
    editable_payload_schema = editable;
  })

-- The inner loop: none where no action of the capability has the name.
find_action : String → String → Items → Outcome (Option ActionDescriptor)
unfolding describe_action
find_action tool name nil = ok none
find_action tool name (cons action rest) =
    let found = (do d ← describe_action tool name action; ok (some d)) in
    let later = find_action tool name rest in
    do
      snapshot_action_name ← text_field "action_name" action
      if snapshot_action_name == name then found else later

abbrev or_later : Option ActionDescriptor → Outcome ActionDescriptor → Outcome ActionDescriptor
or_later none later = later
or_later (some d) later = ok d

-- The outer loop; another capability of the same tool may still have the action.
find_capability : String → String → Items → Outcome ActionDescriptor
unfolding find_action
find_capability tool name nil = err invalid_input
find_capability tool name (cons capability rest) =
    let later = find_capability tool name rest in
    let here = (do
      actions ← required (and_then (get "actions" capability) as_array) corruption
      found ← find_action tool name actions
      or_later found later) in
    do
      snapshot_tool_name ← text_field "tool_name" capability
      if snapshot_tool_name == tool then here else later

unfoldable pub resolve_action_descriptor_from_snapshot :
    Value → String → String → Outcome ActionDescriptor
unfolding find_capability
resolve_action_descriptor_from_snapshot snapshot tool name = do
  capabilities ← required (and_then (get "capabilities" snapshot) as_array) corruption
  find_capability tool name capabilities

abbrev pub option_text : Option String → Value
option_text none = null
option_text (some s) = string s

-- `default_email_send_payload`
unfoldable pub default_email_send_payload : Unicode → String → Value
default_email_send_payload u body = object (
    insert_field "to" (array (cons (string "user@example.com") nil)) (
      insert_field "cc" (array nil) (
        insert_field "bcc" (array nil) (
          insert_field "subject" (string "Drafted subject")
            (insert_field "body" (string (u.trim body)) end)))))

-- `approval_diff_payload_for_action`
unfoldable pub approval_diff_payload_for_action : ActionDescriptor → Value → Value
approval_diff_payload_for_action d args = object (
    insert_field "kind" (string d.diff_kind) (
      insert_field "tool_id" (string d.tool_name) (
        insert_field "action" (string d.action_name) (
          insert_field "args_schema_ref" (string d.args_schema_ref) (
            insert_field "result_schema_ref" (option_text d.result_schema_ref) (
              insert_field "before" null (
                insert_field "after" args (
                  insert_field "current_args" args
                    (insert_field "editable_payload_schema" d.editable_payload_schema end)))))))))
