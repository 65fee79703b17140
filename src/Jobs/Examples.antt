-- ===== src/Jobs/Examples.antt =====
-- A table with a leased and a waiting job, and the calls on it.
use aadesh.Common.{
  map, take, sort_by, select, ◌+◌, ◌*◌, ◌≡◌, refl, inl, inr, none, some, List, [], ◌∷◌, arith, pos,
  negsuc,
}
use aadesh.Chrono.{Plus}
use aadesh.Json.{null}
use aadesh.Outcome.{ok, err, panic, conflict}
use aadesh.Jobs.Table.{Job, Jobs, pending, leased}
use aadesh.Jobs.Row.{IsRow, IsTable}
use aadesh.Jobs.Updates.{Keeps}
use aadesh.Jobs.Enqueue.{JobEnqueueInput}
use aadesh.Jobs.Served.{lease_jobs-leasable_ids}
use aadesh.Jobs.Lease.{is_leasable, lease_jobs}
use aadesh.Jobs.Finish.{ack_job}
use aadesh.Jobs.Retry.{JobFailInput, fail_job, retry_delay}
use aadesh.Jobs.History.{Call, enqueue, lease, ack, fail, cancel, run, run-Keeps}
use aadesh.Jobs.Granted.{Grants, lease_jobs-Grants}
use aadesh.Jobs.Fencing.{failure, stale_ack_refused, stale_fail_refused}
use aadesh.Jobs.Backoff.{retry_delay-eq-backoff, fail_overflows}

abbrev plus : Plus
plus t (pos n) = some (t + n * 1000000)
plus t (negsuc n) = none

abbrev waiting : Job
waiting = record {
  job_id = "job:2";
  created_at = 5;
  updated_at = 5;
  run_after = none;
  leased_until = none;
  lease_owner = none;
  lease_epoch = 0;
  status = pending;
  attempt_count = 0;
  max_attempts = pos 3;
  job_type = "ingest";
  dedupe_key = some "file:7";
  payload = null;
  sensitivity_s = pos 1;
  taint_s = pos 0;
  provenance_refs = null;
  last_error_code = none;
  last_error_message = none;
  completed_at = none;
}

-- Leased to the worker `w2` for the third time, after two failures.
abbrev running : Job
running = record waiting {
  job_id = "job:1";
  created_at = 4;
  leased_until = some 60;
  lease_owner = some "w2";
  lease_epoch = 3;
  status = leased;
  attempt_count = 2;
  dedupe_key = none;
}

abbrev table : Jobs
table = running ∷ waiting ∷ []

running-IsRow : IsRow running
running-IsRow = record {
  owned = refl;
  timed = refl;
  dated = refl;
  retried = λ h. inr refl;
  spent = omega arith;
  unspent = λ h. omega arith;
}

waiting-IsRow : IsRow waiting
waiting-IsRow = record {
  owned = refl;
  timed = refl;
  dated = refl;
  retried = λ h. inl refl;
  spent = omega arith;
  unspent = λ h. absurd (cc);
}

table-IsTable : IsTable table
table-IsTable = record { rows = (running-IsRow, (waiting-IsRow, tt)); unique = (refl, (refl, tt)) }

abbrev new_input : JobEnqueueInput
new_input = record {
  job_id = none;
  job_type = "ingest";
  payload = null;
  dedupe_key = some "file:8";
  run_after = none;
  max_attempts = pos 2;
  sensitivity_s = pos 0;
  taint_s = pos 0;
  provenance_refs = null;
}

abbrev report : JobFailInput
report = failure "job:1" "w2" 3 "io" "disk full" none

abbrev calls : List Call
calls =
    enqueue 70 "job:3" new_input
    ∷ fail 80 report
    ∷ lease 90 "w1" 2 (pos 1000) none
    ∷ ack 95 "job:1" "w2" (pos 3)
    ∷ cancel 99 "job:2"
    ∷ []

stale_ack_refused_example :
    ack_job 120 "job:1" "w1" (pos 2) (run plus calls table) ≡ (err conflict, run plus calls table)
stale_ack_refused_example =
    stale_ack_refused plus calls table {j = running} "job:1" "w1" 2 table-IsTable refl refl
      (omega arith) 120

stale_fail_refused_example :
    fail_job plus 120 (failure "job:1" "w1" 2 "io" "disk full" none) (run plus calls table)
    ≡ (err conflict, run plus calls table)
stale_fail_refused_example =
    stale_fail_refused plus calls table {j = running} "job:1" "w1" 2 table-IsTable refl refl
      (omega arith) 120 "io" "disk full" none

run-Keeps_example : Keeps table (run plus calls table)
run-Keeps_example = run-Keeps plus calls table table-IsTable

lease_jobs-Grants_example :
    (granted : List Job) × (after : Jobs) × (lease_jobs plus 90 "w1" 2 (pos 1) none table
      ≡ (ok granted, after))
    × Grants "w1" 1000090 2 table granted after
lease_jobs-Grants_example =
    lease_jobs-Grants plus 90 1000090 "w1" 2 (pos 1) none table table-IsTable refl

retry_delay-eq-backoff_example : retry_delay 3 ≡ ok (pos 8000)
retry_delay-eq-backoff_example = retry_delay-eq-backoff 3 (omega arith)

-- The same job with more attempts allowed.
abbrev patient : Job
patient = record running { max_attempts = pos 100 }

abbrev stubborn : Job
stubborn = record running { max_attempts = pos 100; attempt_count = 64; lease_epoch = 65 }

abbrev last_report : JobFailInput
last_report = failure "job:1" "w2" 65 "io" "disk full" none

fail_overflows_example : fail_job plus 80 last_report (stubborn ∷ []) ≡ (panic, stubborn ∷ [])
fail_overflows_example =
    fail_overflows plus 80 last_report (stubborn ∷ []) {c = stubborn} refl refl refl refl
      (omega arith)

lease_jobs-leasable_ids_example :
    (granted : List Job) × (after : Jobs) × (lease_jobs plus 90 "w1" 2 (pos 1) none table
      ≡ (ok granted, after))
    × (map (λ (j : Job). j.job_id) granted
        ≡ map
            (λ (j : Job). j.job_id)
            (take 2 (sort_by (λ (j : Job). j.created_at) (select (is_leasable 90 none) table))))
lease_jobs-leasable_ids_example =
    lease_jobs-leasable_ids plus 90 1000090 "w1" 2 (pos 1) none table (refl, (refl, tt)) refl
