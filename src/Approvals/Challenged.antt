-- ===== src/Approvals/Challenged.antt =====
-- The out-of-band challenge of `consume_approval_atomic` (storage.rs), as a whole decision uses it.
use aadesh.Common.{
  String, ◌≡◌, ◌≤◌, ap, ◌∙◌, inl, inr, true, false, some, List, [], ◌∷◌, arith, ◌==◌, eq_iff,
  eq_of_text, find, update_where, is_some, Bool-cases,
}
use aadesh.Chrono.{Time}
use aadesh.Unicode.{Unicode}
use aadesh.Outcome.{ok}
use aadesh.Store.{
  Approval, Challenge, Db, ApprovalDecisionResponse, decision, is_approval, is_challenge,
}
use aadesh.Approvals.Consume.{
  ApprovalConsumeInput, Fresh, approval_scope, can_consume, marked_consumed, consume_work,
}
use aadesh.Approvals.Steps.{consume_work-Consumes}
use aadesh.Approvals.Frames.{
  pass_oob-cases, consume_challenge-eq, decide-Same, record_decision-Recorded, store_response-eq,
}

find_consumed :
    (k : String) (now : Time) (rows : List Challenge) {c : Challenge}
    → find (is_challenge k) rows ≡ some c
    → (c.status == "verified") ≡ true
    → is_some c.consumed_at ≡ false
    → find (is_challenge k) (update_where (can_consume k) (marked_consumed now) rows)
      ≡ some (marked_consumed now c)
find_consumed k now [] h v n = absurd (cc)
find_consumed k now (x ∷ rows) {c} h v n = elim (Bool-cases (x.challenge_id == k)) [
  | inl here ↦ ground arith
  | inr later ↦ ground (arith, find_consumed k now rows {c = c})
]

-- The challenge behind a granted approval, before and after.
pub record ChallengeSpent (now : Time) (input : ApprovalConsumeInput) (db final : Db) : Type 0 where
  pub id : String
  pub challenge : Challenge
  pub named : input.oob_challenge_id ≡ some id
  pub found : find (is_challenge id) db.challenges ≡ some challenge
  pub same_approval : challenge.approval_id ≡ input.approval_id
  pub was_verified : challenge.status ≡ "verified"
  pub was_unspent : is_some challenge.consumed_at ≡ false
  pub was_running : now ≤ challenge.expires_at
  pub is_spent : find (is_challenge id) final.challenges ≡ some (marked_consumed now challenge)

-- If a decision is to approve an item whose mode is `oob_required`, and it is worked through and
-- succeeds, then the caller named a challenge of this approval that was verified, had not been
-- consumed and had not expired, and the state that is left has it as consumed now.
pub challenge_spent :
    (u : Unicode) (now : Time) (fresh : Fresh) (input : ApprovalConsumeInput) (db : Db)
    {r : ApprovalDecisionResponse} {final : Db} {a : Approval}
    → find (is_approval input.approval_id) db.approvals ≡ some a
    → a.approval_mode ≡ "oob_required"
    → input.decision ≡ "approve"
    → consume_work u now fresh input db ≡ ok (r, final)
    → ChallengeSpent now input db final
challenge_spent u now fresh input db {r} {final} {a} f mode approve h =
    let c = consume_work-Consumes u now fresh input db h in
    let same : c.approval ≡ a = ground (arith, c.found) in
    elim (pass_oob-cases now input c.approval db c.passed) [
      | inl (e, _) ↦ absurd (
          ground (
            arith,
            same,
            eq_iff c.approval.approval_mode "oob_required",
            eq_iff input.decision "approve",
          ))
      | inr (k, named, e) ↦
          let (x, found, own, verified, unspent, running, eq) =
            consume_challenge-eq now input.approval_id k db e in
          let decided =
            (decide-Same u now fresh input c.approval c.operation c.checked c.decides).1 in
          let recorded =
            record_decision-Recorded now fresh input c.approval c.effect c.decided c.records in
          let stored =
            (store_response-eq (approval_scope input.approval_id) input.idempotency_key
              input.approval_id (decision r) now c.recorded c.stores).3 in
          let all = stored ∙ recorded.challenges ∙ decided ∙ ap (λ (d : Db). d.challenges) eq in
          record {
            id = k;
            challenge = x;
            named = named;
            found = found;
            same_approval = eq_of_text _ _ own;
            was_verified = eq_of_text _ _ verified;
            was_unspent = unspent;
            was_running = ground arith;
            is_spent = rw all (find_consumed k now db.challenges found verified unspent);
          }
    ]
