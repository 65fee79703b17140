-- ===== src/Memory/Texts.antt =====
-- `normalize_key` of cognition.rs, and what its callers do with the words of a key.
use Prim.Native.Char.{Char, code}
use Prim.Native.String.{[] as end_text, ◌∷◌ as ◌∷ₜ◌, ◌++◌ as str_append, len}
use text.Mathlib.Text.{starts_with}
use aadesh.Common.{
  ℕ, String, Bool, true, false, ◌&&◌, ◌||◌, List, [], ◌∷◌, leb, ltb, any, select, ◌==◌, length,
  if◌then◌else◌,
}

-- `char::to_lowercase` follows the tables of Unicode.
abbrev pub Lowercase : Type 0
Lowercase = Char → String

abbrev between : ℕ → ℕ → ℕ → Bool
between low high n = leb low n && leb n high

-- `is_ascii_alphanumeric`
abbrev pub is_alphanumeric : Char → Bool
is_alphanumeric c = between 48 57 (code c) || (between 65 90 (code c) || between 97 122 (code c))

abbrev pub is_separator : Char → Bool
is_separator c = between 95 95 (code c)

-- `chars().flat_map(to_lowercase)`
abbrev pub lowered : Lowercase → String → String
lowered lower end_text = end_text
lowered lower (c ∷ₜ s) = str_append (lower c) (lowered lower s)

-- The loop; the flag is `last_was_sep`.
abbrev pub separated : Bool → String → String
separated sep end_text = end_text
separated sep (c ∷ₜ s) = elim (is_alphanumeric c) [
  | true ↦ c ∷ₜ separated false s
  | false ↦ if sep then separated true s else str_append "_" (separated true s)
]

abbrev pub trim_start : String → String
trim_start end_text = end_text
trim_start (c ∷ₜ s) = let rest = trim_start s in if is_separator c then rest else c ∷ₜ s

abbrev pub trim_end : String → String
trim_end end_text = end_text
trim_end (c ∷ₜ s) =
    let rest = trim_end s in if is_separator c && (rest == "") then "" else c ∷ₜ rest

unfoldable pub normalize_key : Lowercase → String → String
normalize_key lower input = trim_end (trim_start (separated false (lowered lower input)))

-- `str::contains`
abbrev pub contains : String → String → Bool
contains end_text needle = starts_with "" needle
contains (c ∷ₜ s) needle = starts_with (c ∷ₜ s) needle || contains s needle

abbrev pub contains_any : String → List String → Bool
contains_any s needles = any (contains s) needles

abbrev with_first : Char → List String → List String
with_first c [] = (c ∷ₜ "") ∷ []
with_first c (w ∷ ws) = (c ∷ₜ w) ∷ ws

-- `split('_')`
abbrev pub split_words : String → List String
split_words end_text = "" ∷ []
split_words (c ∷ₜ s) =
    let rest = split_words s in if is_separator c then "" ∷ rest else with_first c rest

-- A `HashSet` of words is a list without repetitions.
abbrev pub distinct : List String → List String
distinct [] = []
distinct (w ∷ ws) = let rest = distinct ws in if any (λ v. v == w) rest then rest else w ∷ rest

-- The words of three bytes or more.
abbrev pub tokens : String → List String
tokens key = distinct (select (λ w. leb 3 (len w)) (split_words key))

-- `intersection(…).count()`
abbrev pub common_count : List String → List String → ℕ
common_count left right = length (select (λ w. any (λ v. v == w) right) left)

abbrev pub larger_count : List String → List String → ℕ
larger_count left right = if ltb (length left) (length right) then length right else length left
