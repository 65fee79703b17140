-- ===== src/Jobs/Table.antt =====
-- The rows of the table `jobs`, and the reads that every operation makes.
use aadesh.Common.{ℕ, String, Bool, true, false, Option, List, ◌==◌, find, ℤ}
use aadesh.Chrono.{Time}
use aadesh.Json.{Value}
use aadesh.Outcome.{Outcome, not_found, required}

-- The values that the queue writes to the column `status`.
pub data JobStatus : Type 0 where
  pending leased completed dead_lettered cancelled : JobStatus

abbrev pub is_pending : JobStatus → Bool
is_pending pending = true
is_pending _ = false

abbrev pub is_leased : JobStatus → Bool
is_leased leased = true
is_leased _ = false

-- `status IN ('pending', 'leased')`
abbrev pub is_active : JobStatus → Bool
is_active pending = true
is_active leased = true
is_active _ = false

pub record Job : Type 0 where
  pub job_id : String
  pub created_at : Time
  pub updated_at : Time
  pub run_after : Option Time
  pub leased_until : Option Time
  pub lease_owner : Option String
  pub lease_epoch : ℕ
  pub status : JobStatus
  pub attempt_count : ℕ
  pub max_attempts : ℤ
  pub job_type : String
  pub dedupe_key : Option String
  pub payload : Value
  pub sensitivity_s : ℤ
  pub taint_s : ℤ
  pub provenance_refs : Value
  pub last_error_code : Option String
  pub last_error_message : Option String
  pub completed_at : Option Time

abbrev pub Jobs : Type 0
Jobs = List Job

abbrev pub has_id : String → Job → Bool
has_id k j = j.job_id == k

-- `get_job_from_tx`, and `get_job`
abbrev pub get_job : String → Jobs → Outcome Job
get_job k jobs = required (find (has_id k) jobs) not_found
