-- ===== src/Jobs/Backoff.antt =====
-- `fail_job` (job_queue.rs): the row that it writes, and the delay before the next attempt.
use Prim.Native.Nat.{min}
use aadesh.Common.{
  ℕ, ◌+◌, ◌-◌, ◌*◌, ◌^◌, ◌≤◌, ◌<◌, ◌≡◌, refl, ap, ◌∙◌, inl, inr, true, false, Option, none, some,
  arith, pos, find, find-update_where, update_where, reaches, leb, ltb, nat_eq, Bool-cases,
}
use aadesh.Chrono.{Time, Plus}
use aadesh.Outcome.{Outcome, ok, panic}
use aadesh.Jobs.Table.{Job, Jobs, dead_lettered, pending, has_id}
use aadesh.Jobs.Retry.{
  JobFailInput, owns, failed, fail_job, retry_delay, next_run_after, capped_minute,
  saturating_thousand,
}

-- The schedule, without the shift of the code: one second, doubled with each attempt, and never more
-- than a minute.
abbrev pub backoff : ℕ → ℕ
backoff k = min (1000 * 2 ^ k) 60000

leb-true : (a b : ℕ) → leb a b ≡ true → a ≤ b
leb-true a b h = ground arith

leb-false : (a b : ℕ) → leb a b ≡ false → b < a
leb-false a b h = ground arith

capped : (n : ℕ) → capped_minute (pos n) ≡ pos (min n 60000)
capped n = elim (Bool-cases (leb n 60000)) [
  | inl e ↦ rw e (ap pos (omega (arith, leb-true n 60000 e)))
  | inr e ↦ rw e (ap pos (omega (arith, leb-false n 60000 e)))
]

-- What is left of the delay once the shift is done.
capped_shift : (n : ℕ) → capped_minute (saturating_thousand (pos n)) ≡ pos (min (1000 * n) 60000)
capped_shift n = elim (Bool-cases (leb (n * 1000) (2 ^ 63 - 1))) [
  | inl e ↦ rw e (capped (n * 1000) ∙ ap pos (omega arith))
  | inr e ↦ rw e (ap pos (omega (arith, leb-false (n * 1000) (2 ^ 63 - 1) e)))
]

-- For the first 63 failures of a job the delay is the one of the schedule: a second, doubled each
-- time, and at most a minute.
pub retry_delay-eq-backoff : (k : ℕ) → k < 63 → retry_delay k ≡ ok (pos (backoff k))
unfolding retry_delay
retry_delay-eq-backoff k h =
    let e : ltb k 63 ≡ true = ground arith in rw e (ap ok (capped_shift (2 ^ k)))

retry_delay-overflow : (k : ℕ) → 63 < k → retry_delay k ≡ panic
unfolding retry_delay
retry_delay-overflow k h =
    let e : ltb k 63 ≡ false = ground arith in
    let e' : nat_eq k 63 ≡ false = ground arith in rw e (rw e')

module _ (plus : Plus) (now : Time) (input : JobFailInput) (js : Jobs) {c : Job}
    (found : find (has_id input.job_id) js ≡ some c) (owned : owns input c ≡ true) where
  abbrev failures : ℕ
  failures = c.attempt_count + 1

  -- The row that a failure writes, and the table with it.
  abbrev stored : Option Time → Job
  stored next = failed now input (reaches failures c.max_attempts) failures next c

  abbrev table : Option Time → Jobs
  table next =
      update_where (has_id input.job_id)
        (failed now input (reaches failures c.max_attempts) failures next) js

  abbrev next_date : Outcome (Option Time)
  next_date = next_run_after plus now (reaches failures c.max_attempts) input.retry_after failures

  fail_effect :
      (next : Option Time)
      → next_date ≡ ok next
      → fail_job plus now input js ≡ (ok (stored next), table next)
  unfolding fail_job
  fail_effect next e = rw found (
      rw owned (
        rw e (
          rw (
            find-update_where (has_id input.job_id)
              (failed now input (reaches failures c.max_attempts) failures next) js (λ x h. h)
              found))))

  fail_panics : next_date ≡ panic → fail_job plus now input js ≡ (panic, js)
  unfolding fail_job
  fail_panics e = rw found (rw owned (rw e))

  -- The last allowed failure of a job that is leased to the caller makes it a dead letter: counted,
  -- dated, without a lease and without a next run. The call returns the row as the table has it.
  pub fail_dead_letters :
      reaches (c.attempt_count + 1) c.max_attempts ≡ true
      → (row : Job) × (after : Jobs) × (fail_job plus now input js ≡ (ok row, after))
        × (find (has_id input.job_id) after ≡ some row)
        × (row.status ≡ dead_lettered)
        × (row.attempt_count ≡ c.attempt_count + 1)
        × (row.completed_at ≡ some now)
        × (row.run_after ≡ none)
        × (row.lease_owner ≡ none)
  fail_dead_letters h =
      let dated : next_date ≡ ok none = rw h (unfold next_run_after in refl) in
      (
        stored none,
        table none,
        fail_effect none dated,
        find-update_where (has_id input.job_id)
            (failed now input (reaches failures c.max_attempts) failures none) js (λ x h. h) found,
        rw h,
        refl,
        rw h,
        refl,
        refl,
      )

  -- An earlier failure of a job that is leased to the caller, one of the first 63, where the caller
  -- names no date and now plus the delay of the schedule is a date, makes the job pending again:
  -- counted, without a lease and a completion date, to run after that delay. The call returns the
  -- row as the table has it.
  pub fail_reschedules :
      (t : Time)
      → reaches (c.attempt_count + 1) c.max_attempts ≡ false
      → input.retry_after ≡ none
      → c.attempt_count < 63
      → plus now (pos (backoff c.attempt_count)) ≡ some t
      → (row : Job) × (after : Jobs) × (fail_job plus now input js ≡ (ok row, after))
        × (find (has_id input.job_id) after ≡ some row)
        × (row.status ≡ pending)
        × (row.attempt_count ≡ c.attempt_count + 1)
        × (row.completed_at ≡ none)
        × (row.run_after ≡ some t)
        × (row.lease_owner ≡ none)
  fail_reschedules t h explicit few e =
      let back : c.attempt_count + 1 - 1 ≡ c.attempt_count = omega arith in
      let delay = retry_delay-eq-backoff c.attempt_count few in
      let dated : next_date ≡ ok (some t) =
        rw h (rw explicit (unfold next_run_after in rw back (rw delay (rw e)))) in
      (
        stored (some t),
        table (some t),
        fail_effect (some t) dated,
        find-update_where (has_id input.job_id)
            (failed now input (reaches failures c.max_attempts) failures (some t)) js (λ x h. h)
            found,
        rw h,
        refl,
        rw h,
        refl,
        refl,
      )

  -- From the 65th failure of a job that is leased to the caller, where another failures is allowed
  -- and the caller names no date, the call aborts and the table stays as it is: the job remains
  -- leased.
  pub fail_overflows :
      reaches (c.attempt_count + 1) c.max_attempts ≡ false
      → input.retry_after ≡ none
      → 63 < c.attempt_count
      → fail_job plus now input js ≡ (panic, js)
  fail_overflows h explicit many =
      let back : c.attempt_count + 1 - 1 ≡ c.attempt_count = omega arith in
      let delay = retry_delay-overflow c.attempt_count many in
      fail_panics (rw h (rw explicit (unfold next_run_after in rw back (rw delay))))
