-- ===== src/Memory/States.antt =====
-- `determine_claim_state`, `claim_strength_components`, `has_supporting_artifact_evidence`,
-- `has_strong_artifact_evidence` and `merge_evidence` of cognition.rs.
use Prim.Native.String.{compare}
use Prim.Native.Nat.{Ordering, min}
use aadesh.Common.{
  ℕ, ◌+◌, ◌*◌, String, Bool, ◌&&◌, ◌||◌, Option, none, some, List, [], ◌∷◌, ◌==◌, map, leb, ltb,
  if◌then◌else◌,
}
use aadesh.Memory.Stored.{EvidenceRow, MemoryClaimEvidenceInput}

-- What is known of a claim when its state is determined.
pub record Signals : Type 0 where
  pub claim_type : String
  pub scope_type : String
  pub explicit_host_signal : Bool
  pub signal_count : ℕ
  pub supporting_artifact_evidence : Bool
  pub deterministic_evidence : Bool
  pub distinct_workspace_count : ℕ

-- The status, and the confidence in hundredths.
abbrev pub ClaimState : Type 0
ClaimState = String × ℕ

unfoldable pub determine_claim_state : Signals → ClaimState
determine_claim_state s =
    let backed = s.explicit_host_signal && s.supporting_artifact_evidence in
    let repeated = leb 2 s.signal_count in
    if s.claim_type == "decision"
    then (if repeated || backed then ("accepted", 90) else ("candidate", 68))
    else if s.claim_type == "open_loop"
    then (if repeated
        then ("accepted", 94)
        else if backed
        then ("accepted", 86)
        else ("candidate", 72))
    else if s.claim_type == "preference"
    then (if s.scope_type == "user_global"
        then (if leb 2 s.distinct_workspace_count then ("accepted", 84) else ("candidate", 58))
        else if repeated
        then ("accepted", 90)
        else if backed
        then ("accepted", 82)
        else ("candidate", 64))
    else if s.claim_type == "risk"
    then (if repeated || (s.explicit_host_signal && s.deterministic_evidence)
        then ("accepted", if ltb 1 s.signal_count then 90 else 84)
        else ("candidate", 60))
    else ("candidate", 45)

unfoldable pub claim_strength_components : String → Signals → ℕ
claim_strength_components status s =
    (if status == "accepted" then 100 else 0)
    + (if s.explicit_host_signal then 12 else 0)
    + (if s.supporting_artifact_evidence then 10 else 0)
    + (if s.deterministic_evidence then 10 else 0)
    + min s.signal_count 4 * 8

-- `BTreeMap::insert`: the evidence in the order of the references, one for each.
abbrev pub put_by_ref :
    MemoryClaimEvidenceInput → List MemoryClaimEvidenceInput → List MemoryClaimEvidenceInput
put_by_ref e [] = e ∷ []
put_by_ref e (x ∷ xs) =
    let later = x ∷ put_by_ref e xs in
    elim (compare e.evidence_ref x.evidence_ref) [
      | Ordering.lt ↦ e ∷ x ∷ xs
      | Ordering.eq ↦ e ∷ xs
      | Ordering.gt ↦ later
    ]

abbrev pub as_input : EvidenceRow → MemoryClaimEvidenceInput
as_input e = record {
  evidence_ref = e.evidence_ref;
  evidence_kind = e.evidence_kind;
  locator_json = e.locator;
}

abbrev pub insert_all :
    List MemoryClaimEvidenceInput → List MemoryClaimEvidenceInput → List MemoryClaimEvidenceInput
insert_all [] by_ref = by_ref
insert_all (e ∷ es) by_ref = insert_all es (put_by_ref e by_ref)

abbrev existing_inputs : Option (List EvidenceRow) → List MemoryClaimEvidenceInput
existing_inputs none = []
existing_inputs (some rows) = map as_input rows

unfoldable pub merge_evidence :
    Option (List EvidenceRow) → List MemoryClaimEvidenceInput → List MemoryClaimEvidenceInput
merge_evidence existing new_items = insert_all new_items (insert_all (existing_inputs existing) [])
