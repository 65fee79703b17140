-- ===== src/Schemas/Validate.antt =====
-- `validate_instance_against_schema`: a subset of JSON Schema, checked by recursion on the schema.
use aadesh.Common.{
  ℕ, zero, suc, String, Bool, true, false, ◌||◌, Option, none, some, List, [], ◌∷◌, ◌==◌, any,
  is_some, if◌then◌else◌,
}
use Prim.Native.Nat.{max}
use aadesh.Json.{
  Value, Items, Fields, string, array, object, nil, cons, end, field, get, get_field, as_str,
  as_bool, as_array, as_object, is_null, is_i64, is_u64,
}
use aadesh.Outcome.{Outcome, StorageError, ok, err, panic, ◌>>=◌, ◌>>◌, ensure, required}
use aadesh.Schemas.Descriptor.{and_then}

-- `ValidationErrorKind`, and `validation_error`, which is the error of that name.
pub data ValidationErrorKind : Type 0 where
  invalid_input corruption : ValidationErrorKind

abbrev pub validation_error : ValidationErrorKind → StorageError
validation_error ValidationErrorKind.invalid_input = StorageError.invalid_input
validation_error ValidationErrorKind.corruption = StorageError.corruption

unfoldable pub instance_matches_type : String → Value → Bool
instance_matches_type expected v =
    if expected == "object"
    then is_some (as_object v)
    else if expected == "array"
    then is_some (as_array v)
    else if expected == "string"
    then is_some (as_str v)
    else if expected == "integer"
    then is_i64 v || is_u64 v
    else if expected == "boolean"
    then is_some (as_bool v)
    else if expected == "null"
    then is_null v
    else false

-- The entries of an array that have to be texts.
abbrev pub texts : Items → Outcome (List String)
texts nil = ok []
texts (cons v rest) =
    let later = texts rest in
    do s ← required (as_str v) StorageError.corruption; ss ← later; ok (s ∷ ss)

-- `type` is a text or an array of texts.
abbrev pub allowed_types : Value → Outcome (List String)
allowed_types (string s) = ok (s ∷ [])
allowed_types (array xs) = texts xs
allowed_types _ = err StorageError.corruption

unfoldable pub validate_type : Value → Value → ValidationErrorKind → Outcome (Unit {0})
unfolding instance_matches_type
validate_type schema_type v kind = do
  types ← allowed_types schema_type
  ensure (any (λ t. instance_matches_type t v) types) (validation_error kind)

-- The loop over `required`.
abbrev pub required_fields : Items → Fields → ValidationErrorKind → Outcome (Unit {0})
required_fields nil fields kind = ok tt
required_fields (cons name rest) fields kind =
    let later = required_fields rest fields kind in
    do
      k ← required (as_str name) StorageError.corruption
      if is_some (get_field k fields) then later else err (validation_error kind)

-- The loop over the keys of the object, where unknown ones are not allowed.
abbrev pub known_fields : Fields → Fields → ValidationErrorKind → Outcome (Unit {0})
known_fields properties end kind = ok tt
known_fields properties (field k v rest) kind =
    let later = known_fields properties rest kind in
    if is_some (get_field k properties) then later else err (validation_error kind)

-- The loops over the properties and over the items; `check` is the recursive call.
abbrev pub Check : Type 0
Check = Value → Value → Outcome (Unit {0})

abbrev pub check_present : Check → Value → Option Value → Outcome (Unit {0})
check_present check schema none = ok tt
check_present check schema (some v) = check schema v

abbrev pub check_properties : Check → Fields → Fields → Outcome (Unit {0})
check_properties check end fields = ok tt
check_properties check (field k schema rest) fields =
    let later = check_properties check rest fields in
    check_present check schema (get_field k fields) >> later

abbrev pub check_items : Check → Value → Items → Outcome (Unit {0})
check_items check schema nil = ok tt
check_items check schema (cons v rest) =
    let later = check_items check schema rest in check schema v >> later

abbrev pub type_part : Option Value → Value → ValidationErrorKind → Outcome (Unit {0})
type_part none v kind = ok tt
type_part (some t) v kind = validate_type t v kind

abbrev pub required_part : Option Items → Value → ValidationErrorKind → Outcome (Unit {0})
required_part none v kind = ok tt
required_part (some names) v kind = do
  fields ← required (as_object v) (validation_error kind)
  required_fields names fields kind

-- `get("additionalProperties").and_then(as_bool).unwrap_or(true)`
abbrev pub additional_allowed : Option Bool → Bool
additional_allowed none = true
additional_allowed (some b) = b

abbrev pub properties_part :
    Check → Bool → Option Fields → Value → ValidationErrorKind → Outcome (Unit {0})
properties_part check allowed none v kind = ok tt
properties_part check allowed (some properties) v kind = do
  fields ← required (as_object v) (validation_error kind)
  if allowed then ok tt else known_fields properties fields kind
  check_properties check properties fields

abbrev pub items_part : Check → Option Value → Value → ValidationErrorKind → Outcome (Unit {0})
items_part check none v kind = ok tt
items_part check (some schema) v kind = do
  items ← required (as_array v) (validation_error kind)
  check_items check schema items

-- The schema's own nesting bounds the recursion; without fuel the model aborts.
unfoldable pub validate_schema_node : ℕ → ValidationErrorKind → Value → Value → Outcome (Unit {0})
validate_schema_node zero kind schema v = panic
validate_schema_node (suc fuel) kind schema v = do
  type_part (get "type" schema) v kind
  required_part (and_then (get "required" schema) as_array) v kind
  properties_part (validate_schema_node fuel kind)
      (additional_allowed (and_then (get "additionalProperties" schema) as_bool))
      (and_then (get "properties" schema) as_object) v kind
  items_part (validate_schema_node fuel kind) (get "items" schema) v kind

unfoldable mutual
  pub depth : Value → ℕ
  depth (array xs) = suc (depth_items xs)
  depth (object fs) = suc (depth_fields fs)
  depth _ = 0

  pub depth_items : Items → ℕ
  depth_items nil = 0
  depth_items (cons v rest) = max (depth v) (depth_items rest)

  pub depth_fields : Fields → ℕ
  depth_fields end = 0
  depth_fields (field k v rest) = max (depth v) (depth_fields rest)

unfoldable pub validate_instance_against_schema :
    Value → Value → ValidationErrorKind → Outcome (Unit {0})
unfolding validate_schema_node
validate_instance_against_schema schema v kind =
    validate_schema_node (suc (depth schema)) kind schema v
