-- ===== src/Approvals/Steps.antt =====
-- A decision of `consume_approval_atomic` (storage.rs) that succeeds, taken apart into its steps.
use aadesh.Common.{◌≡◌, ap, ◌∙◌, true, ◌||◌, some, arith, ◌==◌, find}
use aadesh.Chrono.{Time}
use aadesh.Unicode.{Unicode}
use aadesh.Outcome.{
  Outcome, ok, conflict, not_found, invalid_input, ensure, required, >>=-eq-ok, ensure_holds,
  required-some,
}
use aadesh.Store.{
  Operation, Approval, Db, ApprovalDecisionResponse, StoredResponse, decision, is_approval,
  is_operation,
}
use aadesh.Store.Idempotency.{store_response}
use aadesh.Approvals.Consume.{
  ApprovalConsumeInput, Fresh, Effect, approval_scope, pass_oob, decide, record_decision,
  decision_response, consume_work,
}

pub record Consumes (u : Unicode) (now : Time) (fresh : Fresh) (input : ApprovalConsumeInput)
    (db : Db) (r : ApprovalDecisionResponse) (final : Db) : Type 0 where
  pub approval : Approval
  pub checked : Db
  pub operation : Operation
  pub effect : Effect
  pub decided : Db
  pub recorded : Db
  pub found : find (is_approval input.approval_id) db.approvals ≡ some approval
  pub was_pending : (approval.status == "pending") ≡ true
  pub is_decision : ((input.decision == "approve") || (input.decision == "deny")) ≡ true
  pub passed : pass_oob now input approval db ≡ ok checked
  pub has_operation : find (is_operation approval.operation_id) checked.operations ≡ some operation
  pub was_awaiting : (operation.state == "awaiting_approval") ≡ true
  pub decides : decide u now fresh input approval operation checked ≡ ok (effect, decided)
  pub records : record_decision now fresh input approval effect decided ≡ ok recorded
  pub responds : r ≡ decision_response input approval effect
  pub stores :
      store_response
        (approval_scope input.approval_id)
        input.idempotency_key
        input.approval_id
        (decision r)
        now
        recorded
      ≡ ok final

last_step :
    (store : StoredResponse → Outcome Db) (resp r : ApprovalDecisionResponse) (z final : Db)
    → store (decision resp) ≡ ok z
    → ◌≡◌ {A = Outcome (ApprovalDecisionResponse × Db)} (ok (resp, z)) (ok (r, final))
    → (r ≡ resp) × (store (decision r) ≡ ok final)
last_step store resp r z final e h =
    let same : r ≡ resp = ground arith in
    let same' : z ≡ final = ground arith in (same, rw same (e ∙ ap ok same'))

pub consume_work-Consumes :
    (u : Unicode) (now : Time) (fresh : Fresh) (input : ApprovalConsumeInput) (db : Db)
    {r : ApprovalDecisionResponse} {final : Db}
    → consume_work u now fresh input db ≡ ok (r, final)
    → Consumes u now fresh input db r final
unfolding consume_work
consume_work-Consumes u now fresh input db {r} {final} h =
    let (a, ea, h1) =
      >>=-eq-ok (required (find (is_approval input.approval_id) db.approvals) not_found) _ h in
    let (_, eb, h2) = >>=-eq-ok (ensure (a.status == "pending") conflict) _ h1 in
    let (_, ec, h3) =
      >>=-eq-ok (ensure ((input.decision == "approve") || (input.decision == "deny")) invalid_input)
        _ h2 in
    let (c, ed, h4) = >>=-eq-ok (pass_oob now input a db) _ h3 in
    let (o, ee, h5) =
      >>=-eq-ok (required (find (is_operation a.operation_id) c.operations) not_found) _ h4 in
    let (_, ef, h6) = >>=-eq-ok (ensure (o.state == "awaiting_approval") conflict) _ h5 in
    let (d, eg, h7) = >>=-eq-ok (decide u now fresh input a o c) _ h6 in
    let (w, eh, h8) = >>=-eq-ok (record_decision now fresh input a d.0 d.1) _ h7 in
    let (z, ei, h9) =
      >>=-eq-ok
        (store_response (approval_scope input.approval_id) input.idempotency_key input.approval_id
          (decision (decision_response input a d.0)) now w)
        _ h8 in
    let last =
      last_step
        (λ x.
          store_response (approval_scope input.approval_id) input.idempotency_key input.approval_id
            x now w)
        (decision_response input a d.0) r z final ei h9 in
    record {
      approval = a;
      checked = c;
      operation = o;
      effect = d.0;
      decided = d.1;
      recorded = w;
      found = required-some _ _ ea;
      was_pending = ensure_holds _ _ eb;
      is_decision = ensure_holds _ _ ec;
      passed = ed;
      has_operation = required-some _ _ ee;
      was_awaiting = ensure_holds _ _ ef;
      decides = eg;
      records = eh;
      responds = last.0;
      stores = last.1;
    }
