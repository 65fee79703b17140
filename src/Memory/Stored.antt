-- ===== src/Memory/Stored.antt =====
-- `upsert_memory_claim`, `load_claim_record`, `load_claim_evidence` and `list_memory_claims` of
-- storage.rs, over the tables `claims` and `claim_evidence`.
use Prim.Native.String.{compare}
use Prim.Native.Nat.{Ordering}
use aadesh.Common.{
  ℕ, String, Bool, true, ◌&&◌, Option, none, some, List, [], ◌∷◌, ◌++◌, ◌==◌, any, find, map,
  select, take, sort_by_desc, update_where, delete_where, if◌then◌else◌,
}
use aadesh.Chrono.{Time}
use aadesh.Json.{Value}
use aadesh.Outcome.{Outcome, ok, err, conflict, not_found, ◌>>=◌, required}

-- `claim_evidence`
pub record EvidenceRow : Type 0 where
  pub claim_id : String
  pub evidence_ref : String
  pub evidence_kind : String
  pub locator : Option Value

pub record MemoryClaimEvidenceInput : Type 0 where
  pub evidence_ref : String
  pub evidence_kind : String
  pub locator_json : Option Value

-- The columns of `claims` that the caller gives; the confidence is a float, by its bits.
pub record MemoryClaimUpsertInput : Type 0 where
  pub claim_id : Option String
  pub claim_type : String
  pub claim_key : String
  pub scope_type : String
  pub scope_key : String
  pub subject_key : String
  pub status : String
  pub created_by : String
  pub confidence : ℕ
  pub value_json : Value
  pub context_predicates_json : Value
  pub time_start : Option Time
  pub time_end : Option Time
  pub evidence_quality_json : Value
  pub promotion_ref : Option String
  pub evidence : List MemoryClaimEvidenceInput

-- `claims`
pub record ClaimRow : Type 0 where
  pub claim_id : String
  pub claim_type : String
  pub claim_key : String
  pub scope_type : String
  pub scope_key : String
  pub subject_key : String
  pub status : String
  pub created_at : Time
  pub updated_at : Time
  pub created_by : String
  pub confidence : ℕ
  pub value : Value
  pub context_predicates : Value
  pub time_start : Option Time
  pub time_end : Option Time
  pub evidence_quality : Value
  pub promotion_ref : Option String

pub record ClaimTables : Type 0 where
  pub claims : List ClaimRow
  pub claim_evidence : List EvidenceRow

-- A claim with its evidence, as it is answered.
pub record StoredClaim : Type 0 where
  pub row : ClaimRow
  pub evidence : List EvidenceRow

abbrev pub is_claim : String → ClaimRow → Bool
is_claim k c = c.claim_id == k

abbrev pub is_evidence_of : String → EvidenceRow → Bool
is_evidence_of k e = e.claim_id == k

-- `ORDER BY evidence_ref ASC`
abbrev pub insert_by_ref : EvidenceRow → List EvidenceRow → List EvidenceRow
insert_by_ref e [] = e ∷ []
insert_by_ref e (x ∷ xs) =
    let rest = insert_by_ref e xs in
    elim (compare e.evidence_ref x.evidence_ref) [
      | Ordering.lt ↦ e ∷ x ∷ xs
      | Ordering.eq ↦ e ∷ x ∷ xs
      | Ordering.gt ↦ x ∷ rest
    ]

abbrev pub sort_by_ref : List EvidenceRow → List EvidenceRow
sort_by_ref [] = []
sort_by_ref (x ∷ xs) = insert_by_ref x (sort_by_ref xs)

unfoldable pub load_claim_evidence : String → ClaimTables → List EvidenceRow
load_claim_evidence k t = sort_by_ref (select (is_evidence_of k) t.claim_evidence)

unfoldable pub load_claim_record : String → ClaimTables → Outcome StoredClaim
unfolding load_claim_evidence
load_claim_record k t = do
  row ← required (find (is_claim k) t.claims) not_found
  ok (record { row = row; evidence = load_claim_evidence k t })

abbrev pub claim_row : Time → Time → String → MemoryClaimUpsertInput → ClaimRow
claim_row created now k input = record {
  claim_id = k;
  claim_type = input.claim_type;
  claim_key = input.claim_key;
  scope_type = input.scope_type;
  scope_key = input.scope_key;
  subject_key = input.subject_key;
  status = input.status;
  created_at = created;
  updated_at = now;
  created_by = input.created_by;
  confidence = input.confidence;
  value = input.value_json;
  context_predicates = input.context_predicates_json;
  time_start = input.time_start;
  time_end = input.time_end;
  evidence_quality = input.evidence_quality_json;
  promotion_ref = input.promotion_ref;
}

-- `ON CONFLICT(claim_id) DO UPDATE`: the date of the creation stays.
abbrev pub upsert_row : Time → String → MemoryClaimUpsertInput → List ClaimRow → List ClaimRow
upsert_row now k input claims =
    if any (is_claim k) claims
    then update_where (is_claim k) (λ c. claim_row c.created_at now k input) claims
    else claims ++ claim_row now now k input ∷ []

abbrev pub evidence_row : String → MemoryClaimEvidenceInput → EvidenceRow
evidence_row k e = record {
  claim_id = k;
  evidence_ref = e.evidence_ref;
  evidence_kind = e.evidence_kind;
  locator = e.locator_json;
}

abbrev pub is_evidence : String → String → EvidenceRow → Bool
is_evidence k ref e = (e.claim_id == k) && (e.evidence_ref == ref)

-- The loop over the evidence, each an insert of its own: what was inserted before a conflict stays.
unfoldable pub insert_evidence :
    String
    → List MemoryClaimEvidenceInput
    → List EvidenceRow
    → Outcome (Unit {0}) × List EvidenceRow
insert_evidence k [] rows = (ok tt, rows)
insert_evidence k (e ∷ es) rows =
    let rest = insert_evidence k es (rows ++ evidence_row k e ∷ []) in
    if any (is_evidence k e.evidence_ref) rows then (err conflict, rows) else rest

abbrev pub claim_id_or : String → Option String → String
claim_id_or fresh none = fresh
claim_id_or fresh (some k) = k

-- The statements run one after the other, in no transaction.
unfoldable pub upsert_memory_claim :
    Time → String → MemoryClaimUpsertInput → ClaimTables → Outcome StoredClaim × ClaimTables
unfolding insert_evidence load_claim_record
upsert_memory_claim now fresh input t =
    let k = claim_id_or fresh input.claim_id in
    let written =
      insert_evidence k input.evidence (delete_where (is_evidence_of k) t.claim_evidence) in
    let after : ClaimTables = record {
      claims = upsert_row now k input t.claims;
      claim_evidence = written.1;
    } in
    ((do done ← written.0; load_claim_record k after), after)

pub record MemoryClaimQuery : Type 0 where
  pub scope_type : Option String
  pub scope_key : Option String
  pub statuses : List String
  pub claim_types : List String
  pub limit : Option ℕ

-- `?1 IS NULL OR column = ?1`
abbrev pub matches : Option String → String → Bool
matches none value = true
matches (some s) value = value == s

abbrev pub limit_or_fifty : Option ℕ → ℕ
limit_or_fifty none = 50
limit_or_fifty (some n) = n

abbrev pub listed : List String → String → Bool
listed [] value = true
listed (s ∷ ss) value = any (λ x. x == value) (s ∷ ss)

abbrev pub is_wanted : MemoryClaimQuery → ClaimRow → Bool
is_wanted query c = listed query.statuses c.status && listed query.claim_types c.claim_type

-- The limit is taken before the statuses and the types are looked at.
unfoldable pub list_memory_claims : MemoryClaimQuery → ClaimTables → List StoredClaim
unfolding load_claim_evidence
list_memory_claims query t =
    let in_scope =
      select (λ c. matches query.scope_type c.scope_type && matches query.scope_key c.scope_key)
        t.claims in
    let newest = sort_by_desc (λ c. c.updated_at) (sort_by_desc (λ c. c.created_at) in_scope) in
    map (λ c. record { row = c; evidence = load_claim_evidence c.claim_id t })
      (select (is_wanted query) (take (limit_or_fifty query.limit) newest))
