-- ===== src/Schemas/Results.antt =====
-- `validate_result_for_action`: the shape of what an executed action returned.
use aadesh.Common.{
  String, Bool, true, false, ◌&&◌, ◌||◌, Option, none, some, ◌==◌, is_some, if◌then◌else◌,
}
use aadesh.Json.{Value, Fields, get_field, as_str, as_bool, as_object, is_null, is_i64}
use aadesh.Outcome.{Outcome, ok, err, corruption, invalid_input, ◌>>=◌, ◌>>◌, ensure, required}
use aadesh.Unicode.{Unicode}
use aadesh.Schemas.Descriptor.{and_then}

-- A field with the test `as_i64().is_some()`.
abbrev pub has_integer : Option Value → Bool
has_integer none = false
has_integer (some v) = is_i64 v

abbrev pub text_or_null : Option Value → Bool
text_or_null none = true
text_or_null (some v) = is_null v || is_some (as_str v)

module _ (u : Unicode) where
  require_string_field : Fields → String → Bool → Outcome (Unit {0})
  require_string_field fields name non_empty = do
    value ← required (and_then (get_field name fields) as_str) corruption
    if non_empty && (u.trim value == "") then err corruption else ok tt

  unfoldable pub validate_email_send_result : Value → Outcome (Unit {0})
  unfolding require_string_field
  validate_email_send_result result = do
    fields ← required (as_object result) corruption
    require_string_field fields "provider" true
    require_string_field fields "delivery_state" true
    require_string_field fields "from_address" true
    ensure (has_integer (get_field "recipient_count" fields)) corruption
    ensure (is_some (and_then (get_field "idempotency_supported" fields) as_bool)) corruption
    ensure (text_or_null (get_field "provider_message_id" fields)) corruption

  unfoldable pub validate_webhook_post_json_result : Value → Outcome (Unit {0})
  unfolding require_string_field
  validate_webhook_post_json_result result = do
    fields ← required (as_object result) corruption
    require_string_field fields "provider" true
    require_string_field fields "delivery_state" true
    require_string_field fields "url" true
    ensure (has_integer (get_field "status_code" fields)) corruption
    ensure (is_some (and_then (get_field "idempotency_supported" fields) as_bool)) corruption

  unfoldable pub validate_result_for_action : String → String → Value → Outcome (Unit {0})
  unfolding validate_email_send_result validate_webhook_post_json_result
  validate_result_for_action tool action result =
      if (tool == "email") && (action == "send")
      then validate_email_send_result result
      else if (tool == "webhook") && (action == "post_json")
      then validate_webhook_post_json_result result
      else err invalid_input
