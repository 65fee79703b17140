-- ===== src/Approvals/Replay.antt =====
-- `consume_approval_atomic` (storage.rs), repeated under an idempotency key.
use aadesh.Common.{
  String, ◌≡◌, refl, sym, ap, ◌∙◌, inl, inr, true, false, none, some, List, [], ◌∷◌, ◌++◌, arith,
  eq_refl, any, find, Bool-cases, Option-cases,
}
use aadesh.Chrono.{Time}
use aadesh.Unicode.{Unicode}
use aadesh.Outcome.{Outcome, ok, err, conflict, settle_ok, >>=-eq-ok, ok_injective}
use aadesh.Store.{
  Db, IdempotencyKey, StoredResponse, ApprovalDecisionResponse, operation, decision, oob_start,
  oob_verify, accepted, minted, registered, review_item, reviewed, workflow_spec, workflow_instance,
  artifact,
}
use aadesh.Store.Idempotency.{stored_response, store_response, replay_or, as_decision, is_key}
use aadesh.Approvals.Consume.{
  ApprovalConsumeInput, Fresh, approval_scope, consume_work, consume_approval_atomic,
}
use aadesh.Approvals.Steps.{Consumes, consume_work-Consumes}

find_new :
    (scope key : String) (rows : List IdempotencyKey) (row : IdempotencyKey)
    → any (is_key scope key) rows ≡ false
    → is_key scope key row ≡ true
    → find (is_key scope key) (rows ++ row ∷ []) ≡ some row
find_new scope key [] row h e = rw e
find_new scope key (x ∷ rows) row h e = ground (arith, find_new scope key rows row)

-- A response that was stored under a key is found under it.
stored_is_found :
    (scope key request : String) (r : StoredResponse) (now : Time) (db : Db) {db' : Db}
    → store_response scope (some key) request r now db ≡ ok db'
    → (row : IdempotencyKey) × (stored_response scope (some key) db' ≡ some row)
      × (row.response ≡ r)
unfolding store_response stored_response
stored_is_found scope key request r now db {db'} h =
    let row : IdempotencyKey = record {
      endpoint_scope = scope;
      idempotency_key = key;
      request_id = request;
      response = r;
      created_at = now;
    } in
    elim (Bool-cases (any (is_key scope key) db.idempotency_keys)) [
      | inl t ↦ absurd (refuse (rw t at h))
      | inr t ↦
          let grown = ap (λ (d : Db). d.idempotency_keys) (ok_injective (rw t at h)) in
          (
            row,
            rw (← grown) (
                find_new scope key db.idempotency_keys row t
                  (rw (eq_refl scope) (rw (eq_refl key)))),
            refl,
          )
    ]
  where
    refuse : ◌≡◌ {A = Outcome Db} (err conflict) (ok db') → ⊥
    refuse e = cc

decision_of :
    (x : StoredResponse) {r : ApprovalDecisionResponse} → as_decision x ≡ ok r → x ≡ decision r
decision_of (operation o) h = absurd (cc)
decision_of (decision d) h = ap decision (ok_injective h)
decision_of (oob_start o) h = absurd (cc)
decision_of (oob_verify o) h = absurd (cc)
decision_of (accepted o) h = absurd (cc)
decision_of (minted o) h = absurd (cc)
decision_of (registered o) h = absurd (cc)
decision_of (review_item o) h = absurd (cc)
decision_of (reviewed o) h = absurd (cc)
decision_of (workflow_spec o) h = absurd (cc)
decision_of (workflow_instance o) h = absurd (cc)
decision_of (artifact o) h = absurd (cc)

module _ (u : Unicode) (now : Time) (fresh : Fresh) (input : ApprovalConsumeInput) (db : Db) where
  -- A stored response is returned as it is.
  replays :
      (row : IdempotencyKey) {r : ApprovalDecisionResponse}
      → stored_response (approval_scope input.approval_id) input.idempotency_key db ≡ some row
      → row.response ≡ decision r
      → consume_approval_atomic u now fresh input db ≡ (ok r, db)
  unfolding consume_approval_atomic
  replays row e x = rw e (rw x)

  worked :
      {r : ApprovalDecisionResponse} {final : Db}
      → stored_response (approval_scope input.approval_id) input.idempotency_key db ≡ none
      → consume_approval_atomic u now fresh input db ≡ (ok r, final)
      → Consumes u now fresh input db r final
  unfolding consume_approval_atomic
  worked e h =
      consume_work-Consumes u now fresh input db
        (settle_ok db (consume_work u now fresh input db) (rw e at h))

  was_replay :
      (row : IdempotencyKey) {r : ApprovalDecisionResponse} {final : Db}
      → stored_response (approval_scope input.approval_id) input.idempotency_key db ≡ some row
      → consume_approval_atomic u now fresh input db ≡ (ok r, final)
      → (row.response ≡ decision r) × (final ≡ db)
  unfolding consume_approval_atomic
  was_replay row {r} {final} e h =
      let (d, ed, same) = >>=-eq-ok (as_decision row.response) _ (
        settle_ok db (replay_or as_decision db (some row) (consume_work u now fresh input db))
          (rw e at h)) in
      let pair = ok_injective same in
      (
        decision_of row.response
            (ed ∙ ap ok (ap (λ (p : ApprovalDecisionResponse × Db). p.0) pair)),
        sym (ap (λ (p : ApprovalDecisionResponse × Db). p.1) pair),
      )

  -- After a success under a key, the key has the response.
  keeps_response :
      (key : String) {r : ApprovalDecisionResponse} {final : Db}
      → input.idempotency_key ≡ some key
      → consume_approval_atomic u now fresh input db ≡ (ok r, final)
      → (row : IdempotencyKey) × (stored_response
            (approval_scope input.approval_id)
            (some key)
            final
          ≡ some row)
        × (row.response ≡ decision r)
  keeps_response key {r} {final} k h =
      elim (Option-cases
        (stored_response (approval_scope input.approval_id) input.idempotency_key db)) [
          | inl e ↦
              let c = worked e h in
              stored_is_found (approval_scope input.approval_id) key input.approval_id (decision r)
                now c.recorded (rw k at c.stores)
          | inr (row, e) ↦
              let (same, unchanged) = was_replay row e h in (row, rw unchanged (rw k at e), same)
        ]

-- Once a decision under a key has succeeded, be it worked through or itself a replay, every decision
-- on the same approval under the same key, at whatever time and whatever else it asks for, returns
-- the same response and changes nothing.
pub decision_replayed :
    (u : Unicode) (now now' : Time) (fresh fresh' : Fresh) (input again : ApprovalConsumeInput)
    (key : String) (db : Db) {r : ApprovalDecisionResponse} {final : Db}
    → input.idempotency_key ≡ some key
    → again.idempotency_key ≡ some key
    → again.approval_id ≡ input.approval_id
    → consume_approval_atomic u now fresh input db ≡ (ok r, final)
    → consume_approval_atomic u now' fresh' again final ≡ (ok r, final)
decision_replayed u now now' fresh fresh' input again key db {r} {final} k k' same h =
    let (row, e, x) = keeps_response u now fresh input db key k h in
    replays u now' fresh' again final row (rw (same, k') e) x
