-- ===== src/Registry/Canonical.antt =====
-- `canonical_json_string` of storage.rs: the text of a JSON value whose digest names it.
use Prim.Native.String.{◌++◌ as str_append, compare}
use Prim.Native.Nat.{Ordering}
use aadesh.Common.{String, Bool, true, false, List, [], ◌∷◌}
use aadesh.Json.{
  Value, Number, Items, Fields, null, bool, number, string, array, object, nil, cons, end, field,
}

-- What is not the repository's: the JSON text of a string and of a number by serde_json, and the
-- SHA-256 digest in hexadecimal.
pub record Encoding : Type 0 where
  pub string_text : String → String
  pub number_text : Number → String
  pub sha256_hex : String → String

-- A key of an object with the canonical text of its value.
pub record Entry : Type 0 where
  pub key : String
  pub text : String

abbrev pub insert_entry : Entry → List Entry → List Entry
insert_entry e [] = e ∷ []
insert_entry e (x ∷ xs) =
    let rest = insert_entry e xs in
    elim (compare e.key x.key) [ Ordering.gt ↦ x ∷ rest | _ ↦ e ∷ x ∷ xs ]

-- `keys.sort()`
abbrev pub sort_entries : List Entry → List Entry
sort_entries [] = []
sort_entries (e ∷ es) = insert_entry e (sort_entries es)

-- The texts with commas between them.
abbrev pub comma_separated : List String → String
comma_separated [] = ""
comma_separated (s ∷ []) = s
comma_separated (s ∷ t ∷ ss) = str_append s (str_append "," (comma_separated (t ∷ ss)))

abbrev pub bool_text : Bool → String
bool_text true = "true"
bool_text false = "false"

module _ (c : Encoding) where
  abbrev pub entry_texts : List Entry → List String
  entry_texts [] = []
  entry_texts (e ∷ es) = str_append (c.string_text e.key) (str_append ":" e.text) ∷ entry_texts es

  unfoldable mutual
    pub canonical_json_string : Value → String
    canonical_json_string null = "null"
    canonical_json_string (bool b) = bool_text b
    canonical_json_string (number n) = c.number_text n
    canonical_json_string (string s) = c.string_text s
    canonical_json_string (array xs) =
        str_append "[" (str_append (comma_separated (canonical_items xs)) "]")
    canonical_json_string (object fs) =
        str_append "{"
          (str_append (comma_separated (entry_texts (sort_entries (canonical_fields fs)))) "}")

    pub canonical_items : Items → List String
    canonical_items nil = []
    canonical_items (cons v rest) = canonical_json_string v ∷ canonical_items rest

    pub canonical_fields : Fields → List Entry
    canonical_fields end = []
    canonical_fields (field k v rest) =
        record { key = k; text = canonical_json_string v } ∷ canonical_fields rest

  -- `sha256_hex(&canonical_json_string(…)?)`
  abbrev pub content_hash : Value → String
  content_hash v = c.sha256_hex (canonical_json_string v)
