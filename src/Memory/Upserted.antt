-- ===== src/Memory/Upserted.antt =====
-- A claim that `upsert_memory_claim` (storage.rs) writes.
use aadesh.Common.{
  String, ◌≡◌, refl, sym, ap, ◌∙◌, inl, inr, true, false, some, List, [], ◌∷◌, ◌++◌, arith, ◌==◌,
  eq_iff, eq_refl, any, find, find-append_last, find-update_where, map, select, delete_where,
  Bool-cases,
}
use mathlib.Core.List.{append_assoc, append-nil}
use aadesh.Chrono.{Time}
use aadesh.Outcome.{ok}
use aadesh.Memory.Stored.{
  EvidenceRow, MemoryClaimEvidenceInput, MemoryClaimUpsertInput, ClaimRow, ClaimTables, StoredClaim,
  is_claim, is_evidence_of, sort_by_ref, load_claim_evidence, load_claim_record, claim_row,
  upsert_row, evidence_row, is_evidence, insert_evidence, claim_id_or, upsert_memory_claim,
}

-- One piece of evidence for each reference.
abbrev pub DistinctRefs : List MemoryClaimEvidenceInput → Type 0
DistinctRefs [] = Unit
DistinctRefs (e ∷ es) = (any (λ x. x.evidence_ref == e.evidence_ref) es ≡ false) × DistinctRefs es

module _ (k : String) where
  -- None of the evidence is in the table.
  abbrev AreNew : List MemoryClaimEvidenceInput → List EvidenceRow → Type 0
  AreNew [] rows = Unit
  AreNew (e ∷ es) rows = (any (is_evidence k e.evidence_ref) rows ≡ false) × AreNew es rows

  any-other :
      (ref : String) (e : MemoryClaimEvidenceInput) (rows : List EvidenceRow)
      → any (is_evidence k ref) rows ≡ false
      → (ref == e.evidence_ref) ≡ false
      → any (is_evidence k ref) (rows ++ evidence_row k e ∷ []) ≡ false
  any-other ref e [] h n = ground (arith, eq_iff ref e.evidence_ref, eq_iff e.evidence_ref ref)
  any-other ref e (x ∷ rows) h n = ground (arith, any-other ref e rows)

  AreNew-append :
      (e : MemoryClaimEvidenceInput) (es : List MemoryClaimEvidenceInput) (rows : List EvidenceRow)
      → any (λ x. x.evidence_ref == e.evidence_ref) es ≡ false
      → AreNew es rows
      → AreNew es (rows ++ evidence_row k e ∷ [])
  AreNew-append e [] rows n h = tt
  AreNew-append e (x ∷ es) rows n h = (
    any-other x.evidence_ref e rows h.0 (ground arith),
    AreNew-append e es rows (ground arith) h.1,
  )

  insert_evidence-all :
      (es : List MemoryClaimEvidenceInput) (rows : List EvidenceRow)
      → DistinctRefs es
      → AreNew es rows
      → insert_evidence k es rows ≡ (ok tt, rows ++ map (evidence_row k) es)
  unfolding insert_evidence
  insert_evidence-all [] rows d h = ap (λ xs. (ok tt, xs)) (sym (append-nil rows))
  insert_evidence-all (e ∷ es) rows d h = rw h.0 (
      insert_evidence-all es (rows ++ evidence_row k e ∷ []) d.1 (AreNew-append e es rows d.0 h.1)
      ∙ ap (λ xs. (ok tt, xs))
          (append_assoc rows (evidence_row k e ∷ []) (map (evidence_row k) es)))

  deleted_any :
      (ref : String) (rows : List EvidenceRow)
      → any (is_evidence k ref) (delete_where (is_evidence_of k) rows) ≡ false
  deleted_any ref [] = refl
  deleted_any ref (x ∷ rows) = elim (Bool-cases (is_evidence_of k x)) [
    | inl t ↦ rw t (deleted_any ref rows)
    | inr f ↦ rw f (ground (arith, deleted_any ref rows))
  ]

  AreNew-deleted :
      (es : List MemoryClaimEvidenceInput) (rows : List EvidenceRow)
      → AreNew es (delete_where (is_evidence_of k) rows)
  AreNew-deleted [] rows = tt
  AreNew-deleted (e ∷ es) rows = (deleted_any e.evidence_ref rows, AreNew-deleted es rows)

  selected :
      (rows : List EvidenceRow) (es : List MemoryClaimEvidenceInput)
      → select (is_evidence_of k) (delete_where (is_evidence_of k) rows ++ map (evidence_row k) es)
        ≡ map (evidence_row k) es
  selected [] [] = refl
  selected [] (e ∷ es) = rw (eq_refl k) (ap (λ xs. evidence_row k e ∷ xs) (selected [] es))
  selected (x ∷ rows) es = elim (Bool-cases (is_evidence_of k x)) [
    | inl t ↦ rw t (selected rows es)
    | inr f ↦ rw f (rw f (selected rows es))
  ]

  found_row :
      (rows : List ClaimRow)
      → any (is_claim k) rows ≡ true
      → (c : ClaimRow) × (find (is_claim k) rows ≡ some c)
  found_row [] h = absurd (cc)
  found_row (x ∷ rows) h = elim (Bool-cases (is_claim k x)) [
    | inl t ↦ (x, rw t refl)
    | inr f ↦ (let (c, found) = found_row rows (ground arith) in (c, rw f found))
  ]

  upserted_row :
      (now : Time) (input : MemoryClaimUpsertInput) (rows : List ClaimRow)
      → (created : Time) × (find (is_claim k) (upsert_row now k input rows)
          ≡ some (claim_row created now k input))
  upserted_row now input rows = elim (Bool-cases (any (is_claim k) rows)) [
    | inl known ↦
        (let (c, found) = found_row rows known in
          (
            c.created_at,
            rw known (
                find-update_where (is_claim k) (λ x. claim_row x.created_at now k input) rows
                  (λ y h. eq_refl k) found),
          ))
    | inr new ↦ (
      now,
      rw new (find-append_last (is_claim k) rows (claim_row now now k input) new (eq_refl k)),
    )
  ]

-- A claim that is written with one piece of evidence for each reference can be read back, and is what
-- the call answers: its columns are the given ones, its evidence is the given evidence in the order
-- of the references, and nothing of its earlier evidence is left.
pub load_claim_record-upsert :
    (now : Time) (fresh : String) (input : MemoryClaimUpsertInput) (t : ClaimTables)
    → DistinctRefs input.evidence
    → (created : Time) × (c : StoredClaim) × (upsert_memory_claim now fresh input t
        ≡ (ok c, (upsert_memory_claim now fresh input t).1))
      × (load_claim_record
            (claim_id_or fresh input.claim_id)
            (upsert_memory_claim now fresh input t).1
          ≡ ok c)
      × (c.row ≡ claim_row created now (claim_id_or fresh input.claim_id) input)
      × (c.evidence
          ≡ sort_by_ref (map (evidence_row (claim_id_or fresh input.claim_id)) input.evidence))
unfolding upsert_memory_claim load_claim_record load_claim_evidence
load_claim_record-upsert now fresh input t d =
    let k = claim_id_or fresh input.claim_id in
    let rows = delete_where (is_evidence_of k) t.claim_evidence in
    let written =
      insert_evidence-all k input.evidence rows d
        (AreNew-deleted k input.evidence t.claim_evidence) in
    let (created, found) = upserted_row k now input t.claims in
    let kept = selected k t.claim_evidence input.evidence in
    (
      created,
      record {
        row = claim_row created now k input;
        evidence = sort_by_ref (map (evidence_row k) input.evidence);
      },
      rw written (rw found (rw kept refl)),
      rw written (rw found (rw kept refl)),
      refl,
      refl,
    )
