-- ===== src/Approvals/Verified.antt =====
-- `verify_oob_challenge` (storage.rs): the challenge before and after a verification.
use aadesh.Common.{
  String, ◌≡◌, ◌≤◌, ◌⊎◌, refl, sym, ap, ◌∙◌, inl, inr, true, not, ◌||◌, some, List, [], ◌∷◌, arith,
  ◌==◌, eq_of_text, find, update_where, ltb, Bool-cases,
}
use aadesh.Chrono.{Time}
use aadesh.Outcome.{
  ok, conflict, not_found, ensure, required, >>=-eq-ok, ensure_holds, required-some, ok_injective,
}
use aadesh.Store.{Challenge, Db, OobVerifyResponse, oob_verify, is_challenge}
use aadesh.Store.Idempotency.{store_response}
use aadesh.Approvals.Oob.{
  OobVerifyInput, oob_scope, verified_response, marked_verified, verify_pending, verify_work,
}
use aadesh.Approvals.Frames.{store_response-eq}

find_verified :
    (k : String) (f : Challenge → Challenge) (rows : List Challenge) {c : Challenge}
    → ((x : Challenge) → (f x).challenge_id ≡ x.challenge_id)
    → find (is_challenge k) rows ≡ some c
    → find (is_challenge k) (update_where (is_challenge k) f rows) ≡ some (f c)
find_verified k f [] same h = absurd (cc)
find_verified k f (x ∷ rows) {c} same h = elim (Bool-cases (x.challenge_id == k)) [
  | inl here ↦ ground (arith, same x)
  | inr later ↦ ground (arith, find_verified k f rows {c = c} same)
]

-- The challenge `c` before, and `c'` after.
abbrev pub Advances : Time → OobVerifyInput → Challenge → Challenge → Type 0
Advances now input c c' =
    (((c.status ≡ "verified") ⊎ (c.status ≡ "consumed")) × (c' ≡ c))
    ⊎ ((c.status ≡ "pending")
        × (now ≤ c.expires_at)
        × (c' ≡ marked_verified now input.response_payload c))

pub record IsVerified (now : Time) (input : OobVerifyInput) (db final : Db) : Type 0 where
  pub before : Challenge
  pub after : Challenge
  pub found : find (is_challenge input.challenge_id) db.challenges ≡ some before
  pub same_approval : before.approval_id ≡ input.approval_id
  pub stored : find (is_challenge input.challenge_id) final.challenges ≡ some after
  pub advances : Advances now input before after
  pub same_operations : final.operations ≡ db.operations
  pub same_approvals : final.approvals ≡ db.approvals
  pub same_syscalls : final.syscalls ≡ db.syscalls

abbrev written : Time → OobVerifyInput → Db → Db
written now input db = record db {
  challenges =
      update_where (is_challenge input.challenge_id) (marked_verified now input.response_payload)
        db.challenges;
}

module _ (now : Time) (input : OobVerifyInput) (db : Db) {r : OobVerifyResponse} {final : Db} where
  pending-IsVerified :
      (c : Challenge)
      → find (is_challenge input.challenge_id) db.challenges ≡ some c
      → c.approval_id ≡ input.approval_id
      → verify_pending now input c db ≡ ok (r, final)
      → IsVerified now input db final
  unfolding verify_pending
  pending-IsVerified c found own h =
      let (_, e1, h1) = >>=-eq-ok (ensure (c.status == "pending") conflict) _ h in
      let (_, e2, h2) = >>=-eq-ok (ensure (not (ltb c.expires_at now)) conflict) _ h1 in
      let (x, e3, h3) =
        >>=-eq-ok
          (store_response (oob_scope input.approval_id "verify") input.idempotency_key
            input.challenge_id (oob_verify (verified_response input)) now (written now input db))
          _ h2 in
      let last : final ≡ x = ap (λ (p : OobVerifyResponse × Db). p.1) (ok_injective (sym h3)) in
      let kept = store_response-eq _ _ _ _ now (written now input db) e3 in
      let mark = marked_verified now input.response_payload in
      record {
        before = c;
        after = mark c;
        found = found;
        same_approval = own;
        stored =
            ap (λ (d : Db). find (is_challenge input.challenge_id) d.challenges) last
            ∙ ap (find (is_challenge input.challenge_id)) kept.3
            ∙ find_verified input.challenge_id mark db.challenges (λ y. refl) found;
        advances = inr (
          eq_of_text c.status "pending" (ensure_holds _ _ e1),
          not_late (ensure_holds _ _ e2),
          refl,
        );
        same_operations = ap (λ (d : Db). d.operations) last ∙ kept.1;
        same_approvals = ap (λ (d : Db). d.approvals) last ∙ kept.0;
        same_syscalls = ap (λ (d : Db). d.syscalls) last ∙ kept.2;
      }
    where
      not_late : {a b : Time} → not (ltb a b) ≡ true → b ≤ a
      not_late e = ground arith

  -- If a verification is worked through and succeeds, the challenge belongs to the approval that the
  -- caller names. Either it was verified or consumed before and stays as it is, or it was pending and
  -- had not expired, and is stored as verified now with the caller's response. Operations, approvals
  -- and system calls stay as they are.
  pub verify-IsVerified : verify_work now input db ≡ ok (r, final) → IsVerified now input db final
  unfolding verify_work
  verify-IsVerified h =
      let (c, e, h1) =
        >>=-eq-ok (required (find (is_challenge input.challenge_id) db.challenges) not_found) _ h in
      let (_, e1, h2) = >>=-eq-ok (ensure (c.approval_id == input.approval_id) conflict) _ h1 in
      let found = required-some _ _ e in
      let own = eq_of_text c.approval_id input.approval_id (ensure_holds _ _ e1) in
      elim (Bool-cases ((c.status == "verified") || (c.status == "consumed"))) [
        | inl done ↦
            let same : final ≡ db =
              ap (λ (p : OobVerifyResponse × Db). p.1) (ok_injective (sym (rw done at h2))) in
            record {
              before = c;
              after = c;
              found = found;
              same_approval = own;
              stored = rw same found;
              advances = inl (was_done c.status done, refl);
              same_operations = ap (λ (d : Db). d.operations) same;
              same_approvals = ap (λ (d : Db). d.approvals) same;
              same_syscalls = ap (λ (d : Db). d.syscalls) same;
            }
        | inr fresh ↦ pending-IsVerified c found own (rw fresh at h2)
      ]
    where
      was_done :
          (s : String)
          → ((s == "verified") || (s == "consumed")) ≡ true
          → (s ≡ "verified") ⊎ (s ≡ "consumed")
      was_done s t = elim (Bool-cases (s == "verified")) [
        | inl v ↦ inl (eq_of_text s "verified" v)
        | inr n ↦ inr (eq_of_text s "consumed" (ground arith))
      ]
