-- ===== src/Jobs/Enqueue.antt =====
-- `enqueue_job` of job_queue.rs.
use aadesh.Common.{
  String, Bool, Option, none, some, [], ◌∷◌, ◌++◌, ◌&&◌, ℤ, holds_text, any, head?, select, sort_by,
  if◌then◌else◌,
}
use aadesh.Chrono.{Time}
use aadesh.Json.{Value}
use aadesh.Outcome.{Outcome, ok, err, conflict, ◌>>=◌, transact}
use aadesh.Jobs.Table.{Job, Jobs, pending, is_active, has_id, get_job}

pub record JobEnqueueInput : Type 0 where
  pub job_id : Option String
  pub job_type : String
  pub payload : Value
  pub dedupe_key : Option String
  pub run_after : Option Time
  pub max_attempts : ℤ
  pub sensitivity_s : ℤ
  pub taint_s : ℤ
  pub provenance_refs : Value

-- `dedupe_key = ?1 AND status IN ('pending', 'leased')`
abbrev pub duplicates : String → Job → Bool
duplicates key j = holds_text j.dedupe_key key && is_active j.status

-- The oldest active job under the key, if the caller gives one.
pub find_duplicate : Option String → Jobs → Option Job
find_duplicate none jobs = none
find_duplicate (some key) jobs = head? (sort_by (λ j. j.created_at) (select (duplicates key) jobs))

-- `unwrap_or_else(…)`: the identifier that is made for a job without one
abbrev pub chosen_id : Option String → String → String
chosen_id none fresh = fresh
chosen_id (some k) fresh = k

abbrev pub new_job : Time → String → JobEnqueueInput → Job
new_job now fresh input = record {
  job_id = chosen_id input.job_id fresh;
  created_at = now;
  updated_at = now;
  run_after = input.run_after;
  leased_until = none;
  lease_owner = none;
  lease_epoch = 0;
  status = pending;
  attempt_count = 0;
  max_attempts = input.max_attempts;
  job_type = input.job_type;
  dedupe_key = input.dedupe_key;
  payload = input.payload;
  sensitivity_s = input.sensitivity_s;
  taint_s = input.taint_s;
  provenance_refs = input.provenance_refs;
  last_error_code = none;
  last_error_message = none;
  completed_at = none;
}

-- `INSERT INTO jobs`: the primary key refuses an identifier that is taken.
pub insert_job : Job → Jobs → Outcome Jobs
insert_job job jobs = if any (has_id job.job_id) jobs then err conflict else ok (jobs ++ job ∷ [])

pub enqueue_or_existing : Time → String → JobEnqueueInput → Jobs → Option Job → Outcome (Job × Jobs)
unfolding insert_job
enqueue_or_existing now fresh input jobs (some existing) = do
  job ← get_job existing.job_id jobs
  ok (job, jobs)
enqueue_or_existing now fresh input jobs none = do
  let job = new_job now fresh input
  jobs' ← insert_job job jobs
  stored ← get_job job.job_id jobs'
  ok (stored, jobs')

-- `fresh` is the identifier from `Uuid::new_v4`, which is used if the input has none.
unfoldable pub enqueue_job : Time → String → JobEnqueueInput → Jobs → Outcome Job × Jobs
unfolding enqueue_or_existing
enqueue_job now fresh input =
    transact λ jobs. enqueue_or_existing now fresh input jobs (find_duplicate input.dedupe_key jobs)
