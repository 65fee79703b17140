-- ===== src/Jobs/Retry.antt =====
-- `fail_job`. Integer overflow aborts, as in the profile that `cargo run` builds.
use aadesh.Common.{
  ℕ, ◌+◌, ◌*◌, ◌-◌, ◌^◌, String, Bool, true, false, Option, none, some, ◌&&◌, ℤ, pos, negsuc,
  holds_text, equals, reaches, ltb, leb, nat_eq, update_where, if◌then◌else◌,
}
use aadesh.Chrono.{Time, Plus}
use aadesh.Outcome.{Outcome, ok, panic, conflict, ◌>>=◌, ◌>>◌, ensure, or_panic, transact}
use aadesh.Jobs.Table.{Job, Jobs, pending, dead_lettered, is_leased, has_id, get_job}

pub record JobFailInput : Type 0 where
  pub job_id : String
  pub worker_id : String
  pub lease_epoch : ℤ
  pub error_code : String
  pub error_message : String
  pub retry_after : Option Time

-- `1_i64 << k`: bit 63 is the sign, and a shift by 64 or more overflows.
abbrev pub shifted_one : ℕ → Outcome ℤ
shifted_one k =
    if ltb k 63 then ok (pos (2 ^ k)) else if nat_eq k 63 then ok (negsuc (2 ^ 63 - 1)) else panic

-- `saturating_mul(1_000)`
abbrev pub saturating_thousand : ℤ → ℤ
saturating_thousand (pos n) =
    if leb (n * 1000) (2 ^ 63 - 1) then pos (n * 1000) else pos (2 ^ 63 - 1)
saturating_thousand (negsuc n) =
    if leb ((n + 1) * 1000) (2 ^ 63) then negsuc ((n + 1) * 1000 - 1) else negsuc (2 ^ 63 - 1)

-- `min(60_000)`
abbrev pub capped_minute : ℤ → ℤ
capped_minute (pos n) = if leb n 60000 then pos n else pos 60000
capped_minute (negsuc n) = negsuc n

-- The delay before the next attempt, in milliseconds; `k` is `next_attempt - 1`.
unfoldable pub retry_delay : ℕ → Outcome ℤ
retry_delay k = do one ← shifted_one k; ok (capped_minute (saturating_thousand one))

unfoldable pub next_run_after : Plus → Time → Bool → Option Time → ℕ → Outcome (Option Time)
unfolding retry_delay
next_run_after plus now true explicit attempt = ok none
next_run_after plus now false (some t) attempt = ok (some t)
next_run_after plus now false none attempt = do
  delay ← retry_delay (attempt - 1)
  t ← or_panic (plus now delay)
  ok (some t)

abbrev pub owns : JobFailInput → Job → Bool
owns input j =
    is_leased j.status
    && (holds_text j.lease_owner input.worker_id && equals j.lease_epoch input.lease_epoch)

abbrev pub failed : Time → JobFailInput → Bool → ℕ → Option Time → Job → Job
failed now input terminal attempt run_after j = record j {
  updated_at = now;
  leased_until = none;
  lease_owner = none;
  status = if terminal then dead_lettered else pending;
  attempt_count = attempt;
  run_after = run_after;
  last_error_code = some input.error_code;
  last_error_message = some input.error_message;
  completed_at = if terminal then some now else none;
}

unfoldable pub fail_job : Plus → Time → JobFailInput → Jobs → Outcome Job × Jobs
unfolding next_run_after
fail_job plus now input = transact λ jobs. do
  current ← get_job input.job_id jobs
  ensure (owns input current) conflict
  let next_attempt = current.attempt_count + 1
  let terminal = reaches next_attempt current.max_attempts
  run_after ← next_run_after plus now terminal input.retry_after next_attempt
  let jobs' =
      update_where (has_id input.job_id) (failed now input terminal next_attempt run_after) jobs
  stored ← get_job input.job_id jobs'
  ok (stored, jobs')
