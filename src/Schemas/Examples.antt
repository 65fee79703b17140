-- ===== src/Schemas/Examples.antt =====
-- A payload with blanks and a repeated recipient, and a nested schema.
use aadesh.Common.{◌≡◌, refl, true, false}
use aadesh.Json.{Value, bool, string, array, object, nil, cons, end, field}
use aadesh.Outcome.{ok}
use aadesh.Unicode.{Unicode, IsUnicode}
use aadesh.Schemas.Normalize.{normalize_email_send_payload}
use aadesh.Schemas.Validate.{invalid_input, validate_instance_against_schema}
use aadesh.Schemas.Idempotence.{normalize-normalize}
use aadesh.Schemas.Returns.{Returns, validate-Returns}

abbrev plain : Unicode
plain = record { trim = λ s. s; to_lowercase = λ s. s; contains = λ s t. false }

plain-IsUnicode : IsUnicode plain
plain-IsUnicode = record { trim_trim = λ s. refl; lower_lower = λ s. refl; trim_lower = λ s. refl }

abbrev payload : Value
payload = object (
    field "bcc" (array nil) (
      field "body" (string "see you at noon") (
        field "cc" (array nil) (
          field "extra" (bool true) (
            field "subject" (string "lunch") (
              field "to"
                (array (
                  cons (string "a@example.com")
                    (cons (string "b@example.com") (cons (string "a@example.com") nil))))
                end))))))

abbrev normal : Value
normal = object (
    field "bcc" (array nil) (
      field "body" (string "see you at noon") (
        field "cc" (array nil) (
          field "subject" (string "lunch") (
            field "to" (array (cons (string "a@example.com") (cons (string "b@example.com") nil)))
              end)))))

payload_runs : normalize_email_send_payload plain payload ≡ ok normal
unfolding normalize_email_send_payload
payload_runs = refl

normalize-normalize_example : normalize_email_send_payload plain normal ≡ ok normal
normalize-normalize_example = normalize-normalize plain plain-IsUnicode payload normal payload_runs

abbrev text_schema : Value
text_schema = object (field "type" (string "string") end)

abbrev list_schema : Value
list_schema = object (field "items" text_schema (field "type" (string "array") end))

validate-Returns_example :
    Returns
      (validate_instance_against_schema list_schema (array (cons (bool true) nil)) invalid_input)
validate-Returns_example = validate-Returns list_schema (array (cons (bool true) nil)) invalid_input
