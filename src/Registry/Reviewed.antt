-- ===== src/Registry/Reviewed.antt =====
-- `decide_review_item` (storage.rs): the version that a decision makes current, and decisions after it.
use aadesh.Common.{
  String, ◌≡◌, refl, sym, ap, ◌∙◌, ◌⊎◌, inl, inr, true, Option, none, some, List, [], ◌∷◌, arith,
  ◌==◌, any, find, update_where, Bool-cases,
}
use aadesh.Chrono.{Time}
use aadesh.Json.{get, as_str}
use aadesh.Outcome.{ok, err, conflict}
use aadesh.Schemas.Descriptor.{and_then}
use aadesh.Store.{Review, Db, ReviewDecisionResponse, is_snapshot, is_review}
use aadesh.Store.Idempotency.{stored_response, store_response}
use aadesh.Registry.Versions.{last_version, set_capability_version}
use aadesh.Registry.Reviews.{
  ReviewDecisionInput, FreshReview, edited_or, apply_version, apply_decision, resolved,
  record_review, review_response, review_scope, review_work, decide_review_item,
}
use aadesh.Registry.Governed.{last-set}
use aadesh.Registry.Decided.{apply_decision-cases, Reviews, review_work-Reviews}

find_resolved :
    (k : String) (f : Review → Review) (rows : List Review) {r : Review}
    → ((x : Review) → (f x).item_id ≡ x.item_id)
    → find (is_review k) rows ≡ some r
    → find (is_review k) (update_where (is_review k) f rows) ≡ some (f r)
find_resolved k f [] same h = absurd (cc)
find_resolved k f (x ∷ rows) {r} same h = elim (Bool-cases (x.item_id == k)) [
  | inl here ↦ ground (arith, same x)
  | inr later ↦ ground (arith, find_resolved k f rows {r = r} same)
]

apply_decision-reviews :
    (now : Time) (input : ReviewDecisionInput) (r : Review) (db : Db) {p : Option String × Db}
    → apply_decision now input r db ≡ ok p
    → p.1.reviews ≡ db.reviews
apply_decision-reviews now input r db h = elim (apply_decision-cases now input r db h) [
  | inl (d, same) ↦ ap (λ (x : Option String × Db). x.1.reviews) same
  | inr (k, named, known, same) ↦ ap (λ (x : Option String × Db). x.1.reviews) same
]

module _ (now : Time) (fresh : FreshReview) (input : ReviewDecisionInput) (db : Db)
    {r : ReviewDecisionResponse} {final : Db}
    (h : review_work now fresh input db ≡ ok (r, final)) where
  reviews_row :
      (w : Reviews now fresh input db r final)
      → find (is_review input.item_id) final.reviews ≡ some (resolved now w.applied.0 w.row)
  reviews_row w =
      ap (λ (d : Db). find (is_review input.item_id) d.reviews) w.records
      ∙ find_resolved input.item_id (resolved now w.applied.0) w.applied.1.reviews (λ x. refl)
          (ap (find (is_review input.item_id)) (apply_decision-reviews now input w.row db w.applies)
            ∙ w.found)

  -- Let a decision on a review be worked through and succeed. Any later decision on the review that
  -- is no replay, whatever it says, returns a conflict and changes nothing.
  pub reviewed_once :
      (now' : Time) (fresh' : FreshReview) (again : ReviewDecisionInput)
      → again.item_id ≡ input.item_id
      → stored_response (review_scope again.item_id) again.idempotency_key final ≡ none
      → decide_review_item now' fresh' again final ≡ (err conflict, final)
  unfolding decide_review_item review_work
  reviewed_once now' fresh' again same new_key =
      let w = review_work-Reviews now fresh input db r final h in
      rw new_key (rw same (rw (reviews_row w)))

  -- Let a decision on a review be worked through and succeed, while some capability snapshot is
  -- current. The review was pending and is resolved. A rejection leaves the current versions alone
  -- and applies nothing. Any other decision applies the stored snapshot that the edited payload, or
  -- else the proposal, names: it is the current one from then on, and the response names it.
  pub review_applies :
      {current : String}
      → last_version "capability_snapshot" db.versions none ≡ some current
      → (row : Review) × (find (is_review input.item_id) db.reviews ≡ some row)
        × (row.status ≡ "pending")
        × (find (is_review input.item_id) final.reviews ≡ some (resolved now r.applied_version row))
        × (((input.decision ≡ "reject")
              × (final.versions ≡ db.versions)
              × (r.applied_version ≡ none))
            ⊎ ((k : String) × (and_then
                    (get "capability_snapshot_version"
                      (edited_or input.edited_payload row.proposal))
                    as_str
                  ≡ some k)
                × (any (is_snapshot k) db.snapshots ≡ true)
                × (last_version "capability_snapshot" final.versions none ≡ some k)
                × (r.applied_version ≡ some k)))
  review_applies {current} e =
      let w = review_work-Reviews now fresh input db r final h in
      let answer = ap (λ (x : ReviewDecisionResponse). x.applied_version) w.responds in
      let versions = ap (λ (d : Db). d.versions) w.records in
      (
        w.row,
        w.found,
        w.was_pending,
        reviews_row w ∙ ap (λ x. some (resolved now x w.row)) (sym answer),
        elim (apply_decision-cases now input w.row db w.applies) [
          | inl (d, same) ↦ inl (
            d,
            versions ∙ ap (λ (x : Option String × Db). x.1.versions) same,
            answer ∙ ap (λ (x : Option String × Db). x.0) same,
          )
          | inr (k, named, known, same) ↦ inr (
            k,
            named,
            known,
            ap (λ vs. last_version "capability_snapshot" vs none)
                  (versions ∙ ap (λ (x : Option String × Db). x.1.versions) same)
                ∙ last-set "capability_snapshot" now k db.versions none {k = current} e,
            answer ∙ ap (λ (x : Option String × Db). x.0) same,
          )
        ],
      )

-- Take a pending review of the capability registry whose proposal names a stored snapshot, while
-- some capability snapshot is current. To approve it, without an idempotency key and without an
-- edited payload, succeeds and makes the proposed snapshot current, whatever the review's base
-- version and whatever is current by then.
pub approve_ignores_base :
    (now : Time) (fresh : FreshReview) (item : String) (db : Db) {row : Review} {k current : String}
    → find (is_review item) db.reviews ≡ some row
    → row.status ≡ "pending"
    → row.target_domain ≡ "capability_registry"
    → and_then (get "capability_snapshot_version" row.proposal) as_str ≡ some k
    → any (is_snapshot k) db.snapshots ≡ true
    → last_version "capability_snapshot" db.versions none ≡ some current
    → (r : ReviewDecisionResponse) × (final : Db) × (decide_review_item now fresh
          (record {
            item_id = item;
            decision = "approve";
            edited_payload = none;
            idempotency_key = none;
          })
          db
        ≡ (ok r, final))
      × (last_version "capability_snapshot" final.versions none ≡ some k)
unfolding decide_review_item review_work apply_decision apply_version store_response
approve_ignores_base now fresh item db {row} {k} {current} found status domain named known e =
    let input : ReviewDecisionInput = record {
      item_id = item;
      decision = "approve";
      edited_payload = none;
      idempotency_key = none;
    } in
    (
      review_response input (some k),
      record_review now fresh input row (some k)
          (record db { versions = set_capability_version now k db.versions }),
      rw found (rw status (rw domain (rw named (rw known refl)))),
      last-set "capability_snapshot" now k db.versions none {k = current} e,
    )
