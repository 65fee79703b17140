-- ===== src/Unicode.antt =====
-- What the program uses of Rust's `str`: `trim` and `to_lowercase` follow the tables of Unicode, and
-- are parameters of the model.
use aadesh.Common.{String, ◌≡◌, Bool}

pub record Unicode : Type 0 where
  pub trim : String → String
  pub to_lowercase : String → String
  -- `haystack.contains(needle)`
  pub contains : String → String → Bool

-- Documented: no white space is left at the ends of a trimmed text; a text in lower case is its own
-- lower case; changing the case leaves white space alone.
pub record IsUnicode (u : Unicode) : Type 0 where
  pub trim_trim : (s : String) → u.trim (u.trim s) ≡ u.trim s
  pub lower_lower : (s : String) → u.to_lowercase (u.to_lowercase s) ≡ u.to_lowercase s
  pub trim_lower : (s : String) → u.trim (u.to_lowercase (u.trim s)) ≡ u.to_lowercase (u.trim s)
