-- ===== src/Approvals/Single.antt =====
-- Two decisions on one approval by `consume_approval_atomic` (storage.rs).
use aadesh.Common.{
  String, ◌≡◌, refl, sym, ap, ◌∙◌, inl, inr, false, none, some, List, [], ◌∷◌, arith, ◌==◌, find,
  update_where, Bool-cases,
}
use aadesh.Chrono.{Time}
use aadesh.Unicode.{Unicode}
use aadesh.Outcome.{ok, err, conflict, settle, settle_ok}
use aadesh.Store.{Approval, Db, ApprovalDecisionResponse, decision, is_approval}
use aadesh.Store.Idempotency.{stored_response}
use aadesh.Approvals.Consume.{
  ApprovalConsumeInput, Fresh, Effect, approval_scope, decided_approval, consume_work,
  consume_approval_atomic,
}
use aadesh.Approvals.Steps.{Consumes, consume_work-Consumes}
use aadesh.Approvals.Frames.{
  pass_oob-Same, decide-Same, decide-cases, record_decision-Recorded, store_response-eq,
}

find_decided :
    (k : String) (now : Time) (e : Effect) (rows : List Approval) {a : Approval}
    → find (is_approval k) rows ≡ some a
    → find (is_approval k) (update_where (is_approval k) (decided_approval now e) rows)
      ≡ some (decided_approval now e a)
find_decided k now e [] h = absurd (cc)
find_decided k now e (x ∷ rows) {a} h = elim (Bool-cases (x.approval_id == k)) [
  | inl here ↦ ground arith
  | inr later ↦ ground (arith, find_decided k now e rows {a = a})
]

module _ (u : Unicode) (now : Time) (fresh : Fresh) (input : ApprovalConsumeInput) (db : Db)
    {r : ApprovalDecisionResponse} {final : Db} (c : Consumes u now fresh input db r final) where
  not_pending : (c.effect.approval_status == "pending") ≡ false
  not_pending = elim (decide-cases u now fresh input c.approval c.operation c.checked c.decides) [
    | inl (_, e, _) ↦ rw e refl
    | inr (_, e, _) ↦ rw e refl
  ]

  -- The approval as the decision leaves it.
  pub final_approval :
      find (is_approval input.approval_id) final.approvals
      ≡ some (decided_approval now c.effect c.approval)
  final_approval =
      let passed = (pass_oob-Same now input c.approval db c.passed).0 in
      let decided = (decide-Same u now fresh input c.approval c.operation c.checked c.decides).0 in
      let recorded =
        record_decision-Recorded now fresh input c.approval c.effect c.decided c.records in
      let stored =
        (store_response-eq (approval_scope input.approval_id) input.idempotency_key
          input.approval_id (decision r) now c.recorded c.stores).0 in
      let all =
        stored
        ∙ recorded.approvals
        ∙ ap (update_where (is_approval input.approval_id) (decided_approval now c.effect))
            (decided.approvals ∙ passed.approvals) in
      rw all (find_decided input.approval_id now c.effect db.approvals c.found)

  refused_again :
      (u' : Unicode) (now' : Time) (fresh' : Fresh) (again : ApprovalConsumeInput)
      → again.approval_id ≡ input.approval_id
      → consume_work u' now' fresh' again final ≡ err conflict
  unfolding consume_work
  refused_again u' now' fresh' again same = rw same (rw final_approval (rw not_pending))

fresh_work :
    (u : Unicode) (now : Time) (fresh : Fresh) (input : ApprovalConsumeInput) (db : Db)
    → stored_response (approval_scope input.approval_id) input.idempotency_key db ≡ none
    → consume_approval_atomic u now fresh input db ≡ settle db (consume_work u now fresh input db)
unfolding consume_approval_atomic
fresh_work u now fresh input db e = rw e

-- An approval is decided at most once. Take a decision that is no replay, and that succeeds. Then in
-- the state that it leaves any other decision on the same approval that is no replay either, at
-- whatever time, with whatever payload, challenge or key, returns a conflict and changes nothing.
pub decided_once :
    (u : Unicode) (now : Time) (fresh : Fresh) (input : ApprovalConsumeInput) (db : Db)
    {r : ApprovalDecisionResponse} {final : Db} (now' : Time) (fresh' : Fresh)
    (again : ApprovalConsumeInput)
    → stored_response (approval_scope input.approval_id) input.idempotency_key db ≡ none
    → consume_approval_atomic u now fresh input db ≡ (ok r, final)
    → again.approval_id ≡ input.approval_id
    → stored_response (approval_scope again.approval_id) again.idempotency_key final ≡ none
    → consume_approval_atomic u now' fresh' again final ≡ (err conflict, final)
decided_once u now fresh input db {r} {final} now' fresh' again new h same new' =
    let work =
      settle_ok db (consume_work u now fresh input db)
        (sym (fresh_work u now fresh input db new) ∙ h) in
    let c = consume_work-Consumes u now fresh input db work in
    fresh_work u now' fresh' again final new'
    ∙ ap (settle final) (refused_again u now fresh input db c u now' fresh' again same)
