-- ===== src/Schemas/Normalize.antt =====
-- `normalize_args_for_action` and the normal forms of the two actions' payloads.
use aadesh.Common.{
  String, Bool, true, false, not, ◌&&◌, Option, none, some, List, [], ◌∷◌, ◌++◌, ◌==◌, any,
  if◌then◌else◌,
}
use aadesh.Json.{
  Value, Items, Fields, string, array, object, nil, cons, end, insert_field, get_field, as_array,
  as_object,
}
use aadesh.Outcome.{Outcome, ok, err, invalid_input, ◌>>=◌, ◌>>◌, ensure, required}
use aadesh.Unicode.{Unicode}
use aadesh.Schemas.Descriptor.{and_then}

abbrev pub strings : List String → Items
strings [] = nil
strings (s ∷ ss) = cons (string s) (strings ss)

abbrev pub non_empty : Option String → Option String
non_empty none = none
non_empty (some s) = if s == "" then none else some s

module _ (u : Unicode) where
  -- `item.as_str().map(trim, to_lowercase).filter(non-empty)`
  abbrev pub recipient : Value → Option String
  recipient (string s) = non_empty (some (u.to_lowercase (u.trim s)))
  recipient _ = none

  -- The loop over one field's items, with the recipients so far.
  unfoldable pub recipients : List String → Items → Outcome (List String)
  recipients seen nil = ok seen
  recipients seen (cons item rest) = elim (recipient item) [
    | none ↦ err invalid_input
    | some r ↦ recipients (if any (λ s. s == r) seen then seen else seen ++ r ∷ []) rest
  ]

  unfoldable pub normalize_recipients : String → Fields → Outcome (List String)
  unfolding recipients
  normalize_recipients name fields = do
    values ← required (get_field name fields) invalid_input
    items ← required (as_array values) invalid_input
    recipients [] items

  -- A text that is not empty once it is trimmed.
  abbrev pub trimmed : Value → Option String
  trimmed (string s) = non_empty (some (u.trim s))
  trimmed _ = none

  unfoldable pub normalize_text : String → Fields → Outcome String
  normalize_text name fields = required (and_then (get_field name fields) trimmed) invalid_input

  abbrev pub is_nil : List String → Bool
  is_nil [] = true
  is_nil (s ∷ ss) = false

  abbrev pub email_payload : List String → List String → List String → String → String → Value
  email_payload to cc bcc subject body = object (
      insert_field "body" (string body) (
        insert_field "subject" (string subject) (
          insert_field "bcc" (array (strings bcc))
            (insert_field "cc" (array (strings cc)) (insert_field "to" (array (strings to)) end)))))

  unfoldable pub normalize_email_send_payload : Value → Outcome Value
  unfolding normalize_recipients normalize_text
  normalize_email_send_payload payload = do
    fields ← required (as_object payload) invalid_input
    to ← normalize_recipients "to" fields
    ensure (not (is_nil to)) invalid_input
    cc ← normalize_recipients "cc" fields
    bcc ← normalize_recipients "bcc" fields
    subject ← normalize_text "subject" fields
    body ← normalize_text "body" fields
    ok (email_payload to cc bcc subject body)

  abbrev with_headers : Option Value → Fields → Outcome Value
  with_headers none normalized = ok (object normalized)
  with_headers (some headers) normalized = do
    fields ← required (as_object headers) invalid_input
    ok (object (insert_field "headers" (object fields) normalized))

  unfoldable pub normalize_webhook_post_json_payload : Value → Outcome Value
  unfolding normalize_text
  normalize_webhook_post_json_payload payload = do
    fields ← required (as_object payload) invalid_input
    url ← normalize_text "url" fields
    body ← required (and_then (get_field "payload" fields) as_object) invalid_input
    with_headers (get_field "headers" fields)
        (insert_field "payload" (object body) (insert_field "url" (string url) end))

  unfoldable pub normalize_args_for_action : String → String → Value → Outcome Value
  unfolding normalize_email_send_payload normalize_webhook_post_json_payload
  normalize_args_for_action tool action payload =
      if (tool == "email") && (action == "send")
      then normalize_email_send_payload payload
      else if (tool == "webhook") && (action == "post_json")
      then normalize_webhook_post_json_payload payload
      else err invalid_input
