-- ===== src/Schemas/Returns.antt =====
-- The parts of `validate_schema_node` (action_schemas.rs) and their verdicts.
use aadesh.Common.{
  ℕ, zero, suc, ◌<◌, ◌≡◌, refl, Bool, true, false, Option, none, some, arith, is_some,
  if◌then◌else◌,
}
use aadesh.Json.{
  Value, Items, Fields, null, bool, number, string, array, object, nil, cons, end, field, get,
  get_field, as_str, as_bool, as_array, as_object,
}
use aadesh.Outcome.{Outcome, StorageError, ok, err, panic, ◌>>=◌, ensure, required}
use aadesh.Schemas.Descriptor.{and_then}
use aadesh.Schemas.Validate.{
  ValidationErrorKind, Check, check_present, check_properties, check_items, properties_part,
  items_part, type_part, required_part, required_fields, additional_allowed, known_fields,
  validation_error, validate_type, allowed_types, texts, validate_schema_node,
  validate_instance_against_schema, depth, depth_fields,
}
use aadesh.Schemas.Depth.{depth-get-lt, depth-properties-lt}

abbrev pub Returns {ℓ} : {A : Type ℓ} → Outcome A → Type 0
Returns (ok a) = Unit
Returns (err e) = Unit
Returns panic = ⊥

bind-Returns {ℓ κ} :
    {A : Type ℓ} {B : Type κ} (m : Outcome A) (f : A → Outcome B)
    → Returns m
    → ((a : A) → Returns (f a))
    → Returns (m >>= f)
bind-Returns (ok a) f h k = k a
bind-Returns (err e) f h k = tt
bind-Returns panic f h k = h

required-Returns {ℓ} : {A : Type ℓ} (o : Option A) (e : StorageError) → Returns (required o e)
required-Returns none e = tt
required-Returns (some a) e = tt

ensure-Returns : (b : Bool) (e : StorageError) → Returns (ensure b e)
ensure-Returns true e = tt
ensure-Returns false e = tt

if-Returns {ℓ} :
    {A : Type ℓ} (b : Bool) (x y : Outcome A) → Returns x → Returns y → Returns (if b then x else y)
if-Returns true x y h k = h
if-Returns false x y h k = k

texts-Returns : (xs : Items) → Returns (texts xs)
texts-Returns nil = tt
texts-Returns (cons v rest) =
    bind-Returns (required (as_str v) StorageError.corruption) _ (required-Returns _ _)
      (λ s. bind-Returns (texts rest) _ (texts-Returns rest) (λ ss. tt))

allowed_types-Returns : (t : Value) → Returns (allowed_types t)
allowed_types-Returns (string s) = tt
allowed_types-Returns (array xs) = texts-Returns xs
allowed_types-Returns null = tt
allowed_types-Returns (bool b) = tt
allowed_types-Returns (number n) = tt
allowed_types-Returns (object fs) = tt

type_part-Returns :
    (o : Option Value) (v : Value) (kind : ValidationErrorKind) → Returns (type_part o v kind)
unfolding validate_type
type_part-Returns none v kind = tt
type_part-Returns (some t) v kind =
    bind-Returns (allowed_types t) _ (allowed_types-Returns t) (λ ts. ensure-Returns _ _)

required_fields-Returns :
    (names : Items) (fields : Fields) (kind : ValidationErrorKind)
    → Returns (required_fields names fields kind)
required_fields-Returns nil fields kind = tt
required_fields-Returns (cons name rest) fields kind =
    bind-Returns (required (as_str name) StorageError.corruption) _ (required-Returns _ _) (λ k.
      if-Returns (is_some (get_field k fields)) _ _ (required_fields-Returns rest fields kind) tt)

required_part-Returns :
    (o : Option Items) (v : Value) (kind : ValidationErrorKind) → Returns (required_part o v kind)
required_part-Returns none v kind = tt
required_part-Returns (some names) v kind =
    bind-Returns (required (as_object v) (validation_error kind)) _ (required-Returns _ _)
      (λ fields. required_fields-Returns names fields kind)

known_fields-Returns :
    (properties fields : Fields) (kind : ValidationErrorKind)
    → Returns (known_fields properties fields kind)
known_fields-Returns properties end kind = tt
known_fields-Returns properties (field k v rest) kind =
    if-Returns (is_some (get_field k properties)) _ _ (known_fields-Returns properties rest kind) tt

-- The check returns on the schemas that are nested less deep than `d`.
abbrev ReturnsBelow : Check → ℕ → Type 0
ReturnsBelow f d = (s v : Value) → depth s < d → Returns (f s v)

module _ (f : Check) (d : ℕ) (below : ReturnsBelow f d) where
  present-Returns : (s : Value) (o : Option Value) → depth s < d → Returns (check_present f s o)
  present-Returns s none h = tt
  present-Returns s (some v) h = below s v h

  properties-Returns :
      (ps fields : Fields) → depth_fields ps < d → Returns (check_properties f ps fields)
  unfolding depth
  properties-Returns end fields h = tt
  properties-Returns (field k s rest) fields h =
      bind-Returns (check_present f s (get_field k fields)) _ (present-Returns s _ (omega arith))
        (λ x. properties-Returns rest fields (omega arith))

  items-Returns : (s : Value) (xs : Items) → depth s < d → Returns (check_items f s xs)
  items-Returns s nil h = tt
  items-Returns s (cons v rest) h =
      bind-Returns (f s v) _ (below s v h) (λ x. items-Returns s rest h)

  properties_part-Returns :
      (allowed : Bool) (o : Option Fields) (v : Value) (kind : ValidationErrorKind)
      → ((ps : Fields) → o ≡ some ps → depth_fields ps < d)
      → Returns (properties_part f allowed o v kind)
  properties_part-Returns allowed none v kind h = tt
  properties_part-Returns allowed (some ps) v kind h =
      bind-Returns (required (as_object v) (validation_error kind)) _ (required-Returns _ _)
        (λ fields.
          bind-Returns (if allowed then ok tt else known_fields ps fields kind) _
            (if-Returns allowed _ _ tt (known_fields-Returns ps fields kind))
            (λ x. properties-Returns ps fields (h ps refl)))

  items_part-Returns :
      (o : Option Value) (v : Value) (kind : ValidationErrorKind)
      → ((s : Value) → o ≡ some s → depth s < d)
      → Returns (items_part f o v kind)
  items_part-Returns none v kind h = tt
  items_part-Returns (some s) v kind h =
      bind-Returns (required (as_array v) (validation_error kind)) _ (required-Returns _ _)
        (λ xs. items-Returns s xs (h s refl))

node-Returns :
    (n : ℕ) (kind : ValidationErrorKind) (s v : Value)
    → depth s < n
    → Returns (validate_schema_node n kind s v)
unfolding validate_schema_node
node-Returns zero kind s v h = absurd (omega arith)
node-Returns (suc n) kind s v h =
    let below : ReturnsBelow (validate_schema_node n kind) (depth s) =
      λ s' v' d. node-Returns n kind s' v' (omega arith) in
    let f = validate_schema_node n kind in
    bind-Returns (type_part (get "type" s) v kind) _ (type_part-Returns (get "type" s) v kind) (λ x.
      bind-Returns (required_part (and_then (get "required" s) as_array) v kind) _
        (required_part-Returns _ v kind)
        (λ y.
          bind-Returns
            (properties_part f
              (additional_allowed (and_then (get "additionalProperties" s) as_bool))
              (and_then (get "properties" s) as_object) v kind)
            _
            (properties_part-Returns f (depth s) below _ _ v kind (λ ps e. depth-properties-lt s e))
            (λ z.
              items_part-Returns f (depth s) below (get "items" s) v kind
                (λ w e. depth-get-lt "items" s e))))

-- On every schema and every value the validation comes to a verdict, success or an error: its model
-- never runs out of fuel.
pub validate-Returns :
    (schema v : Value) (kind : ValidationErrorKind)
    → Returns (validate_instance_against_schema schema v kind)
unfolding validate_instance_against_schema
validate-Returns schema v kind = node-Returns (suc (depth schema)) kind schema v (omega arith)
