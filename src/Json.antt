-- ===== src/Json.antt =====
-- Values of serde_json, as the program reads them.
use Prim.Native.String.{compare}
use Prim.Native.Nat.{Ordering}
use aadesh.Common.{
  ℕ, ◌-◌, ◌^◌, String, Bool, true, false, Option, none, some, leb, ◌==◌, if◌then◌else◌,
}

mutual
  pub data Value : Type 0 where
    null : Value
    bool : Bool → Value
    number : Number → Value
    string : String → Value
    array : Items → Value
    object : Fields → Value

  -- `Number`: an unsigned integer, a negative one `-(n + 1)`, or the bits of a float
  pub data Number : Type 0 where
    pos_int : ℕ → Number
    neg_int : ℕ → Number
    float : ℕ → Number

  pub data Items : Type 0 where
    nil : Items
    cons : Value → Items → Items

  -- `Map<String, Value>`, a map ordered by its keys
  pub data Fields : Type 0 where
    end : Fields
    field : String → Value → Fields → Fields

abbrev pub as_str : Value → Option String
as_str (string s) = some s
as_str _ = none

abbrev pub as_bool : Value → Option Bool
as_bool (bool b) = some b
as_bool _ = none

abbrev pub as_array : Value → Option Items
as_array (array xs) = some xs
as_array _ = none

abbrev pub as_object : Value → Option Fields
as_object (object fs) = some fs
as_object _ = none

abbrev pub is_null : Value → Bool
is_null null = true
is_null _ = false

-- `as_i64().is_some()`: a float never is, an unsigned integer up to `i64::MAX`
abbrev pub is_i64 : Value → Bool
is_i64 (number (pos_int n)) = leb n (2 ^ 63 - 1)
is_i64 (number (neg_int n)) = true
is_i64 _ = false

abbrev pub is_u64 : Value → Bool
is_u64 (number (pos_int n)) = true
is_u64 _ = false

-- `Map::get`
abbrev pub get_field : String → Fields → Option Value
get_field k end = none
get_field k (field j v fs) = if j == k then some v else get_field k fs

-- `Value::get(key)`: none on anything but an object
abbrev pub get : String → Value → Option Value
get k (object fs) = get_field k fs
get k _ = none

-- `Map::insert` keeps the keys in order
abbrev pub insert_field : String → Value → Fields → Fields
insert_field k v end = field k v end
insert_field k v (field j w fs) =
    let later = field j w (insert_field k v fs) in
    elim (compare k j) [
      | Ordering.lt ↦ field k v (field j w fs)
      | Ordering.eq ↦ field k v fs
      | Ordering.gt ↦ later
    ]
