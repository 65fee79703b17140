-- ===== src/Memory/Examples.antt =====
-- Three decisions, of which the second repeats the first.
use Prim.Native.String.{◌∷◌ as ◌∷ₜ◌}
use mathlib.Core.List.{Sublistᴰ, Memᴰ}
use aadesh.Common.{
  ◌≤◌, none, some, false, pos, String, ◌≡◌, refl, ◌⊎◌, true, List, [], ◌∷◌, ◌++◌, arith, All, map,
  length,
}
use aadesh.Json.{null, string, object, end, insert_field}
use aadesh.Memory.Texts.{Lowercase}
use aadesh.Memory.Statements.{
  negative, statement_polarity, statements_conflict, core_overlap_at_least,
}
use aadesh.Memory.Claims.{
  MemoryClaimRecord, RankedClaim, claims_redundant, claim_is_suppressed, select_ranked_claims,
  fill_with_candidate_claims,
}
use aadesh.Outcome.{ok, err, conflict}
use aadesh.Chrono.{Time}
use aadesh.Memory.Stored.{
  MemoryClaimEvidenceInput, MemoryClaimUpsertInput, MemoryClaimQuery, ClaimTables, StoredClaim,
  claim_row, evidence_row, sort_by_ref, insert_evidence, load_claim_evidence, load_claim_record,
  upsert_memory_claim, list_memory_claims,
}
use aadesh.Memory.States.{Signals, determine_claim_state}
use aadesh.Memory.Upserted.{load_claim_record-upsert}
use aadesh.Memory.Selected.{
  IsAdmissible, select_ranked_claims-IsAdmissible, fill_with_candidate_claims-select_ranked_claims,
}

-- Texts that are in lower case already.
abbrev plain : Lowercase
plain c = c ∷ₜ ""

abbrev decision : String → String → RankedClaim
decision k statement = record {
  score = pos 10;
  claim = record {
    claim_id = k;
    claim_type = "decision";
    subject_key = k;
    status = "accepted";
    updated_at = 1;
    value = object (insert_field "statement" (string statement) end);
    evidence_quality = null;
    evidence = [];
  };
}

abbrev ranked : List RankedClaim
ranked =
    decision "claim:1" "prefer short release notes"
    ∷ decision "claim:2" "prefer short release notes."
    ∷ []

abbrev candidates : List RankedClaim
candidates =
    decision "claim:3" "deploy from main" ∷ decision "claim:4" "avoid short release notes" ∷ []

-- `notes` contains `not`.
notes_are_negative : statement_polarity plain "prefer short release notes" ≡ negative
unfolding statement_polarity
notes_are_negative = refl

chooses_first : map (λ c. c.claim_id) (select_ranked_claims plain ranked 3 []) ≡ "claim:1" ∷ []
unfolding select_ranked_claims claims_redundant statements_conflict core_overlap_at_least
chooses_first = refl

fills_up :
    map
      (λ c. c.claim_id)
      (fill_with_candidate_claims plain (select_ranked_claims plain ranked 3 []) candidates 3 [])
    ≡ "claim:1" ∷ "claim:3" ∷ []
unfolding fill_with_candidate_claims select_ranked_claims claims_redundant statements_conflict
    core_overlap_at_least
fills_up = refl

select_ranked_claims-IsAdmissible_example :
    (length (select_ranked_claims plain ranked 3 []) ≤ 3)
    × Sublistᴰ (select_ranked_claims plain ranked 3 []) (map (λ r. r.claim) ranked)
    × IsAdmissible plain [] (select_ranked_claims plain ranked 3 [])
    × ((3 ≤ length (select_ranked_claims plain ranked 3 []))
        ⊎ All
            (λ c.
              Memᴰ c (select_ranked_claims plain ranked 3 [])
              ⊎ (claim_is_suppressed plain (select_ranked_claims plain ranked 3 []) c [] ≡ true))
            (map (λ r. r.claim) ranked))
select_ranked_claims-IsAdmissible_example =
    select_ranked_claims-IsAdmissible plain [] 3 (omega arith) ranked

fill_with_candidate_claims-select_ranked_claims_example :
    (out : List MemoryClaimRecord) × (more : List MemoryClaimRecord) × (fill_with_candidate_claims
        plain
        (select_ranked_claims plain ranked 3 [])
        candidates
        3
        []
      ≡ out)
    × (out ≡ select_ranked_claims plain ranked 3 [] ++ more)
    × Sublistᴰ more (map (λ r. r.claim) candidates)
    × (length out ≤ 3)
    × IsAdmissible plain [] out
    × ((3 ≤ length out)
        ⊎ All
            (λ c. Memᴰ c out ⊎ (claim_is_suppressed plain out c [] ≡ true))
            (map (λ r. r.claim) candidates))
fill_with_candidate_claims-select_ranked_claims_example =
    fill_with_candidate_claims-select_ranked_claims plain [] 3 (omega arith) ranked candidates

abbrev evidence : String → MemoryClaimEvidenceInput
evidence ref = record { evidence_ref = ref; evidence_kind = "event"; locator_json = none }

abbrev claim : String → MemoryClaimUpsertInput
claim status = record {
  claim_id = some "claim:1";
  claim_type = "decision";
  claim_key = "deploy";
  scope_type = "workspace";
  scope_key = "w:1";
  subject_key = "decision:deploy";
  status = status;
  created_by = "host";
  confidence = 0;
  value_json = null;
  context_predicates_json = null;
  time_start = none;
  time_end = none;
  evidence_quality_json = null;
  promotion_ref = none;
  evidence = evidence "event:2" ∷ evidence "event:1" ∷ [];
}

-- The claim is there already, with other evidence.
abbrev claims_table : ClaimTables
claims_table = record {
  claims =
      claim_row 1 1 "claim:1" (claim "candidate") ∷ claim_row 2 2 "claim:2" (claim "accepted") ∷ [];
  claim_evidence = evidence_row "claim:1" (evidence "event:0") ∷ [];
}

load_claim_record-upsert_example :
    (created : Time) × (c : StoredClaim) × (upsert_memory_claim 5 "claim:9"
        (claim "accepted")
        claims_table
      ≡ (ok c, (upsert_memory_claim 5 "claim:9" (claim "accepted") claims_table).1))
    × (load_claim_record "claim:1"
          (upsert_memory_claim 5 "claim:9" (claim "accepted") claims_table).1
        ≡ ok c)
    × (c.row ≡ claim_row created 5 "claim:1" (claim "accepted"))
    × (c.evidence
        ≡ sort_by_ref (
            evidence_row "claim:1" (evidence "event:2")
            ∷ evidence_row "claim:1" (evidence "event:1")
            ∷ []))
load_claim_record-upsert_example =
    load_claim_record-upsert 5 "claim:9" (claim "accepted") claims_table (refl, (refl, tt))

-- Two pieces of evidence of one reference are refused, after the claim has been written and its
-- earlier evidence has been deleted.
abbrev twice : MemoryClaimUpsertInput
twice = record (claim "accepted") { evidence = evidence "event:2" ∷ evidence "event:2" ∷ [] }

half_written :
    ((upsert_memory_claim 5 "claim:9" twice claims_table).0 ≡ err conflict)
    × (load_claim_evidence "claim:1" (upsert_memory_claim 5 "claim:9" twice claims_table).1
        ≡ evidence_row "claim:1" (evidence "event:2") ∷ [])
unfolding upsert_memory_claim insert_evidence load_claim_evidence
half_written = (refl, refl)

-- The newest claim is accepted: a query for one candidate finds none.
abbrev one_candidate : MemoryClaimQuery
one_candidate = record {
  scope_type = none;
  scope_key = none;
  statuses = "candidate" ∷ [];
  claim_types = [];
  limit = some 1;
}

limit_first : list_memory_claims one_candidate claims_table ≡ []
unfolding list_memory_claims
limit_first = refl

abbrev signals : Signals
signals = record {
  claim_type = "risk";
  scope_type = "workspace";
  explicit_host_signal = true;
  signal_count = 1;
  supporting_artifact_evidence = false;
  deterministic_evidence = true;
  distinct_workspace_count = 1;
}

is_accepted : (determine_claim_state signals).0 ≡ "accepted"
unfolding determine_claim_state
is_accepted = refl
