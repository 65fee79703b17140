-- ===== src/Memory/Claims.antt =====
-- `claims_redundant`, `claim_is_suppressed`, `dedupe_claims`, `select_ranked_claims`,
-- `fill_with_candidate_claims` and `prune_redundant_risks` of cognition.rs.
use aadesh.Common.{
  ℕ, ℤ, String, Bool, true, false, ◌&&◌, ◌||◌, Option, none, some, List, [], ◌∷◌, ◌++◌, leb, any,
  ◌==◌, length,
}
use aadesh.Chrono.{Time}
use aadesh.Json.{Value, get, as_str}
use aadesh.Schemas.Descriptor.{and_then}
use aadesh.Memory.Texts.{Lowercase}
use aadesh.Memory.Statements.{
  statements_conflict, statements_materially_overlap, core_overlap_at_least,
}

-- Of a claim and its evidence, the fields that the choice and the ranking of claims read.
pub record MemoryClaimEvidence : Type 0 where
  pub evidence_ref : String
  pub evidence_kind : String

pub record MemoryClaimRecord : Type 0 where
  pub claim_id : String
  pub claim_type : String
  pub subject_key : String
  pub status : String
  pub updated_at : Time
  pub value : Value
  pub evidence_quality : Value
  pub evidence : List MemoryClaimEvidence

pub record RankedClaim : Type 0 where
  pub score : ℤ
  pub claim : MemoryClaimRecord

abbrev or_empty : Option String → String
or_empty none = ""
or_empty (some s) = s

abbrev pub claim_statement : MemoryClaimRecord → String
claim_statement c = or_empty (and_then (get "statement" c.value) as_str)

abbrev pub claims_share_primary_evidence : MemoryClaimRecord → MemoryClaimRecord → Bool
claims_share_primary_evidence left right =
    any
      (λ (item : MemoryClaimEvidence).
        any (λ (e : MemoryClaimEvidence). e.evidence_ref == item.evidence_ref) left.evidence)
      right.evidence

-- The first claim of each identifier; `seen` are the identifiers so far.
abbrev pub first_claims : List String → List MemoryClaimRecord → List MemoryClaimRecord
first_claims seen [] = []
first_claims seen (c ∷ cs) = elim (any (λ k. k == c.claim_id) seen) [
  | true ↦ first_claims seen cs
  | false ↦ c ∷ first_claims (c.claim_id ∷ seen) cs
]

unfoldable pub dedupe_claims : List MemoryClaimRecord → List MemoryClaimRecord
dedupe_claims claims = first_claims [] claims

module _ (lower : Lowercase) where
  unfoldable pub claims_redundant : MemoryClaimRecord → MemoryClaimRecord → Bool
  claims_redundant left right =
      let l = claim_statement left in
      let r = claim_statement right in
      statements_conflict lower l r
      || ((left.claim_type == right.claim_type)
          && ((left.subject_key == right.subject_key)
              || (statements_materially_overlap lower l r
                  || ((core_overlap_at_least lower 1 2 l r
                        && claims_share_primary_evidence left right)
                      || core_overlap_at_least lower 3 4 l r))))

  -- One of the statements that the caller suppresses overlaps or contradicts the claim.
  abbrev pub statement_suppressed : List String → MemoryClaimRecord → Bool
  statement_suppressed suppressed candidate =
      any
        (λ s.
          statements_materially_overlap lower s (claim_statement candidate)
          || statements_conflict lower s (claim_statement candidate))
        suppressed

  unfoldable pub claim_is_suppressed :
      List MemoryClaimRecord → MemoryClaimRecord → List String → Bool
  unfolding claims_redundant
  claim_is_suppressed selected candidate suppressed =
      statement_suppressed suppressed candidate
      || any (λ existing. claims_redundant existing candidate) selected

  -- The loop that both selections have.
  abbrev pub pick_claims :
      ℕ → List String → List MemoryClaimRecord → List RankedClaim → List MemoryClaimRecord
  pick_claims max_items suppressed selected [] = selected
  pick_claims max_items suppressed selected (r ∷ ranked) =
      elim (claim_is_suppressed selected r.claim suppressed) [
        | true ↦ pick_claims max_items suppressed selected ranked
        | false ↦ elim (leb max_items (length (selected ++ r.claim ∷ []))) [
          | true ↦ selected ++ r.claim ∷ []
          | false ↦ pick_claims max_items suppressed (selected ++ r.claim ∷ []) ranked
        ]
      ]

  unfoldable pub select_ranked_claims : List RankedClaim → ℕ → List String → List MemoryClaimRecord
  unfolding claim_is_suppressed
  select_ranked_claims ranked max_items suppressed = pick_claims max_items suppressed [] ranked

  unfoldable pub fill_with_candidate_claims :
      List MemoryClaimRecord → List RankedClaim → ℕ → List String → List MemoryClaimRecord
  unfolding claim_is_suppressed
  fill_with_candidate_claims accepted ranked_candidates max_items suppressed =
      elim (leb max_items (length accepted)) [
        | true ↦ accepted
        | false ↦ pick_claims max_items suppressed accepted ranked_candidates
      ]

  abbrev pub max_guidance_items : ℕ
  max_guidance_items = 3

  abbrev pub overlaps_open_loop : List MemoryClaimRecord → MemoryClaimRecord → Bool
  overlaps_open_loop open_loops risk =
      any
        (λ (o : MemoryClaimRecord).
          core_overlap_at_least lower 1 2 (claim_statement o) (claim_statement risk)
          && claims_share_primary_evidence o risk)
        open_loops

  abbrev pub is_pruned : List MemoryClaimRecord → List MemoryClaimRecord → MemoryClaimRecord → Bool
  is_pruned open_loops selected risk =
      (overlaps_open_loop open_loops risk && (risk.status == "candidate"))
      || any (λ existing. claims_redundant existing risk) selected

  abbrev pub prune_each :
      List MemoryClaimRecord
      → List MemoryClaimRecord
      → List MemoryClaimRecord
      → List MemoryClaimRecord
  prune_each open_loops selected [] = selected
  prune_each open_loops selected (risk ∷ risks) = elim (is_pruned open_loops selected risk) [
    | true ↦ prune_each open_loops selected risks
    | false ↦ elim (leb max_guidance_items (length (selected ++ risk ∷ []))) [
      | true ↦ selected ++ risk ∷ []
      | false ↦ prune_each open_loops (selected ++ risk ∷ []) risks
    ]
  ]

  unfoldable pub prune_redundant_risks :
      List MemoryClaimRecord → List MemoryClaimRecord → List MemoryClaimRecord
  prune_redundant_risks risks open_loops = prune_each open_loops [] risks
