-- ===== src/Workflows/Specs.antt =====
-- `parse_workflow_spec_steps`, `register_workflow_spec` and `get_workflow_spec` of storage.rs.
use Prim.Native.String.{◌++◌ as str_append}
use aadesh.Common.{
  String, Bool, Option, none, some, List, [], ◌∷◌, ◌++◌, ◌||◌, ◌==◌, is_some, all, any, find,
  if◌then◌else◌,
}
use aadesh.Chrono.{Time}
use aadesh.Json.{Value, Items, nil, cons, Fields, get_field, as_str, as_array, as_object}
use aadesh.Unicode.{Unicode}
use aadesh.Outcome.{
  Outcome, ok, invalid_input, not_found, unavailable, ◌>>=◌, ◌>>◌, ensure, required, transact,
}
use aadesh.Schemas.Descriptor.{and_then}
use aadesh.Store.{WorkflowSpec, Db, workflow_spec, is_workflow_spec}
use aadesh.Store.Idempotency.{stored_response, store_response, replay_or, as_workflow_spec}
use aadesh.Registry.Canonical.{Encoding, content_hash}

-- A step as the spec names it.
pub record StepSpec : Type 0 where
  pub step_id : String
  pub step_type : String

abbrev pub non_blank : Unicode → String → Option String
non_blank u s = if u.trim s == "" then none else some s

abbrev pub supported_type : String → Option String
supported_type s =
    if (s == "transform") || ((s == "model_call") || ((s == "syscall") || (s == "subworkflow")))
    then some s
    else none

abbrev pub parse_step : Unicode → Value → Outcome StepSpec
parse_step u step = do
  step_obj ← required (as_object step) invalid_input
  step_id ←
      required (and_then (and_then (get_field "step_id" step_obj) as_str) (non_blank u))
        invalid_input
  step_type ←
      required (and_then (and_then (get_field "step_type" step_obj) as_str) supported_type)
        invalid_input
  ok (record { step_id = step_id; step_type = step_type })

abbrev pub parse_steps : Unicode → Items → Outcome (List StepSpec)
parse_steps u nil = ok []
parse_steps u (cons v vs) =
    let rest = parse_steps u vs in do step ← parse_step u v; steps ← rest; ok (step ∷ steps)

abbrev has_field : Fields → String → Bool
has_field root k = is_some (get_field k root)

unfoldable pub parse_workflow_spec_steps : Unicode → Value → Outcome (List StepSpec)
parse_workflow_spec_steps u payload = do
  root ← required (as_object payload) invalid_input
  ensure (all (has_field root) ("steps" ∷ "edges" ∷ "entry_steps" ∷ "exit_steps" ∷ []))
      invalid_input
  steps ← required (and_then (get_field "steps" root) as_array) invalid_input
  parse_steps u steps

pub record WorkflowSpecRegisterInput : Type 0 where
  pub name : String
  pub description : Option String
  pub tags : List String
  pub spec_payload : Value
  pub idempotency_key : Option String

abbrev pub new_spec : Encoding → Time → WorkflowSpecRegisterInput → WorkflowSpec
new_spec c now input = record {
  workflow_ref = str_append "workflow:sha256:" (content_hash c input.spec_payload);
  name = input.name;
  description = input.description;
  author = "root_owner";
  tags = input.tags;
  content_hash = content_hash c input.spec_payload;
  created_at = now;
  payload = input.spec_payload;
}

-- `INSERT OR IGNORE`
abbrev pub insert_spec_or_ignore : WorkflowSpec → Db → Db
insert_spec_or_ignore s db =
    if any (is_workflow_spec s.workflow_ref) db.workflow_specs
    then db
    else record db { workflow_specs = db.workflow_specs ++ s ∷ [] }

-- The response is the row that is stored, the old one where the reference was taken.
unfoldable pub register_spec_work :
    Unicode → Encoding → Time → WorkflowSpecRegisterInput → Db → Outcome (WorkflowSpec × Db)
unfolding parse_workflow_spec_steps store_response
register_spec_work u c now input db = do
  _ ← parse_workflow_spec_steps u input.spec_payload
  let entry = new_spec c now input
  let db' = insert_spec_or_ignore entry db
  stored ← required (find (is_workflow_spec entry.workflow_ref) db'.workflow_specs) unavailable
  final ←
      store_response "/v1/workflow-specs" input.idempotency_key stored.workflow_ref
        (workflow_spec stored) now db'
  ok (stored, final)

unfoldable pub register_workflow_spec :
    Unicode → Encoding → Time → WorkflowSpecRegisterInput → Db → Outcome WorkflowSpec × Db
unfolding register_spec_work stored_response
register_workflow_spec u c now input = transact λ db.
    replay_or as_workflow_spec db (stored_response "/v1/workflow-specs" input.idempotency_key db)
      (register_spec_work u c now input db)

unfoldable pub get_workflow_spec : String → Db → Outcome WorkflowSpec
get_workflow_spec k db = required (find (is_workflow_spec k) db.workflow_specs) not_found
