-- ===== src/Jobs/Fencing.antt =====
-- Lease tokens, a worker and an epoch, that `ack_job` and `fail_job` (job_queue.rs) are called with.
use aadesh.Common.{
  ℕ, ◌≤◌, String, ◌≡◌, refl, ap, inl, inr, true, false, Option, some, List, [], ◌∷◌, arith, ◌==◌,
  eq_of_text, ℤ, pos, any, find, count_where, update_where-none, find_holds, Bool-cases,
}
use aadesh.Chrono.{Time, Plus}
use aadesh.Outcome.{err, conflict}
use aadesh.Jobs.Table.{Job, Jobs, has_id}
use aadesh.Jobs.Row.{IsTable, UniqueIds, Evolves, AllEvolve-find}
use aadesh.Jobs.Finish.{holds_lease, ack_job}
use aadesh.Jobs.Retry.{JobFailInput, owns, fail_job}
use aadesh.Jobs.History.{Call, run, run-Keeps}

holds_none :
    (k worker : String) (epoch : ℤ) (js : Jobs)
    → any (has_id k) js ≡ false
    → count_where (holds_lease k worker epoch) js ≡ 0
holds_none k worker epoch [] h = refl
holds_none k worker epoch (x ∷ js) h = ground (arith, holds_none k worker epoch js)

-- Under the primary key only the row with the identifier can hold the lease.
holds_only :
    (k worker : String) (epoch : ℤ) (js : Jobs) {j : Job}
    → UniqueIds js
    → find (has_id k) js ≡ some j
    → holds_lease k worker epoch j ≡ false
    → count_where (holds_lease k worker epoch) js ≡ 0
holds_only k worker epoch [] u e h = refl
holds_only k worker epoch (x ∷ js) {j} u e h = elim (Bool-cases (x.job_id == k)) [
  | inl here ↦
      let same : x.job_id ≡ k = eq_of_text x.job_id k here in
      let x_is_j : x ≡ j = ground arith in
      let others = holds_none x.job_id worker epoch js u.0 in ground (arith, others, same, x_is_j)
  | inr later ↦ ground (arith, holds_only k worker epoch js {j = j} u.1)
]

-- The row `j` does not accept the token, and has not yet a smaller epoch.
refused_later :
    (k worker : String) (epoch : ℕ) {j j' : Job}
    → Evolves j j'
    → holds_lease k worker (pos epoch) j ≡ false
    → has_id k j ≡ true
    → epoch ≤ j.lease_epoch
    → holds_lease k worker (pos epoch) j' ≡ false
refused_later k worker epoch {j} {j'} v h i e = ground (arith, v.epoch_grows, v.lease_kept)

-- A report of `fail_job` under the token.
abbrev pub failure : String → String → ℕ → String → String → Option Time → JobFailInput
failure k worker epoch code message retry = record {
  job_id = k;
  worker_id = worker;
  lease_epoch = pos epoch;
  error_code = code;
  error_message = message;
  retry_after = retry;
}

module _ (plus : Plus) (calls : List Call) (js : Jobs) {j : Job} (k worker : String) (epoch : ℕ)
    (h : IsTable js) (found : find (has_id k) js ≡ some j)
    (refused : holds_lease k worker (pos epoch) j ≡ false) (issued : epoch ≤ j.lease_epoch) where
  later : (j' : Job) × (find (has_id k) (run plus calls js) ≡ some j') × Evolves j j'
  later = AllEvolve-find k js (run plus calls js) (run-Keeps plus calls js h).evolves found

  still_refused : holds_lease k worker (pos epoch) later.0 ≡ false
  still_refused =
      refused_later k worker epoch later.2 refused (find_holds (has_id k) js found) issued

  -- Take a well-formed table, a job in it, and a token (worker and epoch) that was issued up to now
  -- and that the job does not accept. After any calls whatever, `ack_job` with this token returns a
  -- conflict and leaves the table as it is.
  pub stale_ack_refused :
      (now : Time)
      → ack_job now k worker (pos epoch) (run plus calls js) ≡ (err conflict, run plus calls js)
  unfolding ack_job
  stale_ack_refused now =
      let table = (run-Keeps plus calls js h).is_table in
      let zero_rows =
        holds_only k worker (pos epoch) (run plus calls js) table.unique later.1 still_refused in
      rw zero_rows
        (ap (λ (t : Jobs). (err conflict, t)) (update_where-none _ _ (run plus calls js) zero_rows))

  -- Take a well-formed table, a job in it, and a token (worker and epoch) that was issued up to now
  -- and that the job does not accept. After any calls whatever, `fail_job` with this token,
  -- whatever error it reports, returns a conflict and leaves the table as it is.
  pub stale_fail_refused :
      (now : Time) (code message : String) (retry : Option Time)
      → fail_job plus now (failure k worker epoch code message retry) (run plus calls js)
        ≡ (err conflict, run plus calls js)
  unfolding fail_job
  stale_fail_refused now code message retry =
      let input = failure k worker epoch code message retry in
      let not_owned : owns input later.0 ≡ false =
        ground (arith, still_refused, find_holds (has_id k) (run plus calls js) later.1) in
      rw later.1 (rw not_owned)
