-- ===== src/Schemas/Depth.antt =====
-- The nested schemas that `validate_schema_node` (action_schemas.rs) recurses on.
use aadesh.Common.{
  ◌≤◌, ◌<◌, String, ◌≡◌, refl, inl, inr, Option, none, some, arith, ◌==◌, Bool-cases,
}
use aadesh.Json.{
  Value, Fields, null, bool, number, string, array, object, end, field, get, get_field, as_object,
}
use aadesh.Schemas.Descriptor.{and_then}
use aadesh.Schemas.Validate.{depth, depth_fields}

depth_field-le :
    (k : String) (fs : Fields) {w : Value} → get_field k fs ≡ some w → depth w ≤ depth_fields fs
unfolding depth
depth_field-le k end h = absurd (cc)
depth_field-le k (field j v rest) {w} h = elim (Bool-cases (j == k)) [
  | inl here ↦ let e : v ≡ w = ground arith in rw (← e) (omega arith)
  | inr later ↦ omega (arith, depth_field-le k rest {w = w} (ground arith))
]

pub depth-get-lt : (k : String) (s : Value) {w : Value} → get k s ≡ some w → depth w < depth s
unfolding depth
depth-get-lt k (object fs) {w} h = omega (arith, depth_field-le k fs {w = w} h)
depth-get-lt k null h = absurd (cc)
depth-get-lt k (bool b) h = absurd (cc)
depth-get-lt k (number n) h = absurd (cc)
depth-get-lt k (string s) h = absurd (cc)
depth-get-lt k (array xs) h = absurd (cc)

depth-object-lt :
    (o : Option Value) {ps : Fields}
    → and_then o as_object ≡ some ps
    → (w : Value) × (o ≡ some w) × (depth_fields ps < depth w)
unfolding depth
depth-object-lt none h = absurd (cc)
depth-object-lt (some (object fs)) {ps} h =
    let e : fs ≡ ps = ground arith in (object fs, refl, rw (← e) (omega arith))
depth-object-lt (some null) h = absurd (cc)
depth-object-lt (some (bool b)) h = absurd (cc)
depth-object-lt (some (number n)) h = absurd (cc)
depth-object-lt (some (string s)) h = absurd (cc)
depth-object-lt (some (array xs)) h = absurd (cc)

pub depth-properties-lt :
    (s : Value) {ps : Fields}
    → and_then (get "properties" s) as_object ≡ some ps
    → depth_fields ps < depth s
depth-properties-lt s e =
    let (w, found, deep) = depth-object-lt (get "properties" s) e in
    omega (arith, depth-get-lt "properties" s found)
