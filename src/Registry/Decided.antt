-- ===== src/Registry/Decided.antt =====
-- `decide_review_item` (storage.rs), taken apart.
use mathlib.Core.Path.{subst}
use aadesh.Common.{
  String, ◌≡◌, sym, ap, ◌∙◌, ◌⊎◌, inl, inr, eq_of_text, true, Option, none, some, ◌==◌, any, find,
  Bool-cases,
}
use aadesh.Chrono.{Time}
use aadesh.Json.{Value, get, as_str}
use aadesh.Outcome.{
  ok, conflict, invalid_input, not_found, unsupported, ensure, required, >>=-eq-ok, ensure_holds,
  required-some, ok_injective,
}
use aadesh.Schemas.Descriptor.{and_then}
use aadesh.Store.{Review, Db, ReviewDecisionResponse, is_snapshot, is_review}
use aadesh.Store.Idempotency.{stored_response, as_reviewed}
use aadesh.Store.Stored.{with_keys, finishes, settle_replay}
use aadesh.Registry.Versions.{set_capability_version}
use aadesh.Registry.Reviews.{
  ReviewDecisionInput, FreshReview, edited_or, apply_version, apply_decision, record_review,
  is_review_decision, review_response, review_scope, review_work, decide_review_item,
}
use aadesh.Registry.Governed.{IsGoverned, after_keys, last-set}

apply_version-eq :
    (now : Time) (chosen : Value) (db : Db) {q : String × Db}
    → apply_version now chosen db ≡ ok q
    → (and_then (get "capability_snapshot_version" chosen) as_str ≡ some q.0)
      × (any (is_snapshot q.0) db.snapshots ≡ true)
      × (q.1 ≡ record db { versions = set_capability_version now q.0 db.versions })
unfolding apply_version
apply_version-eq now chosen db {q} h =
    let (k, e1, h1) =
      >>=-eq-ok
        (required (and_then (get "capability_snapshot_version" chosen) as_str) invalid_input) _ h in
    let (_, e2, h2) = >>=-eq-ok (ensure (any (is_snapshot k) db.snapshots) invalid_input) _ h1 in
    let same : q ≡ (k, record db { versions = set_capability_version now k db.versions }) =
      ok_injective (sym h2) in
    let name = ap (λ (p : String × Db). p.0) same in
    (
      required-some _ _ e1 ∙ ap some (sym name),
      ap (λ x. any (is_snapshot x) db.snapshots) name ∙ ensure_holds _ _ e2,
      ap (λ (p : String × Db). p.1) same
          ∙ ap (λ x. record db { versions = set_capability_version now x db.versions }) (sym name),
    )

-- What a decision applies: nothing where it rejects, and else a stored snapshot, that of the edited
-- payload or of the proposal.
pub apply_decision-cases :
    (now : Time) (input : ReviewDecisionInput) (r : Review) (db : Db) {p : Option String × Db}
    → apply_decision now input r db ≡ ok p
    → ((input.decision ≡ "reject") × (p ≡ (none, db)))
      ⊎ ((k : String) × (and_then
              (get "capability_snapshot_version" (edited_or input.edited_payload r.proposal))
              as_str
            ≡ some k)
          × (any (is_snapshot k) db.snapshots ≡ true)
          × (p ≡ (some k, record db { versions = set_capability_version now k db.versions })))
unfolding apply_decision
apply_decision-cases now input r db {p} h = elim (Bool-cases (input.decision == "reject")) [
  | inl rejects ↦ inl (eq_of_text _ _ rejects, ok_injective (sym (rw rejects at h)))
  | inr applies ↦
      let chosen = edited_or input.edited_payload r.proposal in
      let (q, e, h1) = >>=-eq-ok (apply_version now chosen db) _ (rw applies at h) in
      let (named, known, same) = apply_version-eq now chosen db e in
      inr (q.0, named, known, ok_injective (sym h1) ∙ ap (λ (d : Db). (some q.0, d)) same)
]

set-IsGoverned :
    (now : Time) (k : String) (db : Db)
    → any (is_snapshot k) db.snapshots ≡ true
    → IsGoverned db
    → IsGoverned (record db { versions = set_capability_version now k db.versions })
set-IsGoverned now k db known g = record {
  current = k;
  is_current = last-set "capability_snapshot" now k db.versions none {k = g.current} g.is_current;
  is_stored = known;
  supported = g.supported;
}

apply_decision-IsGoverned :
    (now : Time) (input : ReviewDecisionInput) (r : Review) (db : Db) {p : Option String × Db}
    → IsGoverned db
    → apply_decision now input r db ≡ ok p
    → IsGoverned p.1
apply_decision-IsGoverned now input r db {p} g h = elim (apply_decision-cases now input r db h) [
  | inl (d, same) ↦ subst (λ (x : Option String × Db). IsGoverned x.1) (sym same) g
  | inr (k, named, known, same) ↦
      subst (λ (x : Option String × Db). IsGoverned x.1) (sym same)
        (set-IsGoverned now k db known g)
]

-- A decision that is worked through and succeeds, taken apart.
pub record Reviews (now : Time) (fresh : FreshReview) (input : ReviewDecisionInput) (db : Db)
    (r : ReviewDecisionResponse) (final : Db) : Type 0 where
  pub row : Review
  pub applied : Option String × Db
  pub found : find (is_review input.item_id) db.reviews ≡ some row
  pub was_pending : row.status ≡ "pending"
  pub applies : apply_decision now input row db ≡ ok applied
  pub responds : r ≡ review_response input applied.0
  pub records :
      final
      ≡ with_keys final.idempotency_keys (record_review now fresh input row applied.0 applied.1)

pub review_work-Reviews :
    (now : Time) (fresh : FreshReview) (input : ReviewDecisionInput) (db : Db)
    (r : ReviewDecisionResponse) (final : Db)
    → review_work now fresh input db ≡ ok (r, final)
    → Reviews now fresh input db r final
unfolding review_work
review_work-Reviews now fresh input db r final h =
    let (row, e1, h1) =
      >>=-eq-ok (required (find (is_review input.item_id) db.reviews) not_found) _ h in
    let (_, e2, h2) = >>=-eq-ok (ensure (row.status == "pending") conflict) _ h1 in
    let (_, e3, h3) =
      >>=-eq-ok (ensure (row.target_domain == "capability_registry") unsupported) _ h2 in
    let (_, e4, h4) = >>=-eq-ok (ensure (is_review_decision input.decision) invalid_input) _ h3 in
    let (p, e5, h5) = >>=-eq-ok (apply_decision now input row db) _ h4 in
    let kept = finishes _ _ _ _ _ (record_review now fresh input row p.0 p.1) h5 in
    record {
      row = row;
      applied = p;
      found = required-some _ _ e1;
      was_pending = eq_of_text _ _ (ensure_holds _ _ e2);
      applies = e5;
      responds = kept.0;
      records = kept.1;
    }

review_work-IsGoverned :
    (now : Time) (fresh : FreshReview) (input : ReviewDecisionInput) (db : Db)
    → IsGoverned db
    → (r : ReviewDecisionResponse) (final : Db) → review_work now fresh input db ≡ ok (r, final)
    → IsGoverned final
review_work-IsGoverned now fresh input db g r final h =
    let w = review_work-Reviews now fresh input db r final h in
    let i = apply_decision-IsGoverned now input w.row db g w.applies in
    let recorded : IsGoverned (record_review now fresh input w.row w.applied.0 w.applied.1) =
      record {
        current = i.current;
        is_current = i.is_current;
        is_stored = i.is_stored;
        supported = i.supported;
      } in
    after_keys recorded w.records

pub decide-IsGoverned :
    (now : Time) (fresh : FreshReview) (input : ReviewDecisionInput) (db : Db)
    → IsGoverned db
    → IsGoverned (decide_review_item now fresh input db).1
unfolding decide_review_item
decide-IsGoverned now fresh input db g =
    settle_replay IsGoverned as_reviewed db
      (stored_response (review_scope input.item_id) input.idempotency_key db)
      (review_work now fresh input db) g (review_work-IsGoverned now fresh input db g)
