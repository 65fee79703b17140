-- ===== src/Memory/Statements.antt =====
-- `statement_polarity`, `statements_conflict`, `statements_materially_overlap`,
-- `core_statement_tokens` and `core_statement_overlap` of cognition.rs. A quotient of two counts is
-- compared with a constant by products: on counts far below 2^50 the floats decide the same.
use aadesh.Common.{
  ℕ, ◌*◌, String, Bool, true, false, not, ◌&&◌, ◌||◌, List, [], ◌∷◌, leb, any, select, ◌==◌,
  if◌then◌else◌,
}
use aadesh.Memory.Texts.{
  Lowercase, normalize_key, contains, contains_any, tokens, common_count, larger_count,
}

pub data StatementPolarity : Type 0 where
  positive : StatementPolarity
  negative : StatementPolarity
  neutral : StatementPolarity

abbrev pub negative_words : List String
negative_words =
    "avoid" ∷ "without" ∷ "not" ∷ "never" ∷ "remove" ∷ "removed" ∷ "deprecated" ∷ "deprecate" ∷ []

abbrev pub positive_words : List String
positive_words = "prefer" ∷ "keep" ∷ "use" ∷ "include" ∷ "lead" ∷ "add" ∷ "added" ∷ []

abbrev pub key_polarity : String → StatementPolarity
key_polarity key =
    if contains_any key negative_words
    then negative
    else if contains_any key positive_words
    then positive
    else neutral

abbrev pub opposed : StatementPolarity → StatementPolarity → Bool
opposed positive negative = true
opposed negative positive = true
opposed _ _ = false

abbrev is_empty : List String → Bool
is_empty [] = true
is_empty (w ∷ ws) = false

-- Is the share of common words, of the larger set, at least `num / den`?
abbrev pub share_at_least : ℕ → ℕ → List String → List String → Bool
share_at_least num den left right =
    not (is_empty left || is_empty right)
    && leb (num * larger_count left right) (den * common_count left right)

abbrev pub stop_words : List String
stop_words =
    "the" ∷ "and" ∷ "still" ∷ "after" ∷ "before" ∷ "with" ∷ "without" ∷ "into" ∷ "from" ∷ "this"
    ∷ "that" ∷ "path" ∷ "flow" ∷ "work" ∷ "item" ∷ "issue" ∷ "logic" ∷ "code" ∷ "test" ∷ "tests"
    ∷ "fails" ∷ "failing" ∷ "missing" ∷ "needs" ∷ "need" ∷ "added" ∷ "explicit" ∷ "kept" ∷ "keep"
    ∷ "moved" ∷ "using" ∷ "uses" ∷ "use" ∷ []

module _ (lower : Lowercase) where
  unfoldable pub statement_polarity : String → StatementPolarity
  unfolding normalize_key
  statement_polarity statement = key_polarity (normalize_key lower statement)

  unfoldable pub statements_materially_overlap : String → String → Bool
  unfolding normalize_key
  statements_materially_overlap left right =
      let l = normalize_key lower left in
      let r = normalize_key lower right in
      (l == r) || (contains l r || (contains r l || share_at_least 3 5 (tokens l) (tokens r)))

  unfoldable pub statements_conflict : String → String → Bool
  unfolding normalize_key statement_polarity statements_materially_overlap
  statements_conflict left right =
      opposed (statement_polarity left) (statement_polarity right)
      && (statements_materially_overlap left right
          || leb 3 (
              common_count (tokens (normalize_key lower left))
                (tokens (normalize_key lower right))))

  unfoldable pub core_statement_tokens : String → List String
  unfolding normalize_key
  core_statement_tokens statement =
      select (λ w. not (any (λ v. v == w) stop_words)) (tokens (normalize_key lower statement))

  -- `core_statement_overlap(left, right) >= num / den`
  unfoldable pub core_overlap_at_least : ℕ → ℕ → String → String → Bool
  unfolding core_statement_tokens
  core_overlap_at_least num den left right =
      share_at_least num den (core_statement_tokens left) (core_statement_tokens right)
