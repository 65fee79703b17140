-- ===== src/Jobs/Lease.antt =====
-- `lease_jobs` of job_queue.rs.
use aadesh.Common.{
  ℕ, ◌+◌, String, Bool, Option, none, some, List, [], ◌∷◌, ◌==◌, ◌&&◌, ℤ, map, take, select,
  sort_by, count_where, update_where, nat_eq, if◌then◌else◌,
}
use aadesh.Chrono.{Time, Plus, is_due}
use aadesh.Outcome.{Outcome, ok, ◌>>=◌, or_panic, transact}
use aadesh.Jobs.Table.{Job, Jobs, leased, is_pending, has_id, get_job}

-- `filter` holds the `job_type` of the lease filter.
abbrev pub is_leasable : Time → Option String → Job → Bool
is_leasable now none j = is_pending j.status && is_due j.run_after now
is_leasable now (some t) j = is_pending j.status && is_due j.run_after now && (j.job_type == t)

-- `SELECT job_id … ORDER BY created_at ASC LIMIT limit`
pub leasable_ids : Time → Option String → ℕ → Jobs → List String
leasable_ids now filter limit jobs =
    map (λ j. j.job_id)
      (take limit (sort_by (λ j. j.created_at) (select (is_leasable now filter) jobs)))

-- `WHERE job_id = ?1 AND status = 'pending'`
abbrev pub can_take : String → Job → Bool
can_take k j = has_id k j && is_pending j.status

abbrev pub taken : Time → Time → String → Job → Job
taken now until worker j = record j {
  updated_at = now;
  leased_until = some until;
  lease_owner = some worker;
  lease_epoch = j.lease_epoch + 1;
  status = leased;
}

abbrev pub take_job : Time → Time → String → String → Jobs → Jobs
take_job now until worker k jobs = update_where (can_take k) (taken now until worker) jobs

-- The loop over the identifiers: a job whose row was not updated is passed over.
pub lease_each : Time → Time → String → List String → Jobs → Outcome (List Job × Jobs)
lease_each now until worker [] jobs = ok ([], jobs)
lease_each now until worker (k ∷ ks) jobs =
    let jobs' = take_job now until worker k jobs in
    let rest = lease_each now until worker ks jobs' in
    if nat_eq (count_where (can_take k) jobs) 0
    then rest
    else do job ← get_job k jobs'; more ← rest; ok (job ∷ more.0, more.1)

unfoldable pub lease_jobs :
    Plus → Time → String → ℕ → ℤ → Option String → Jobs → Outcome (List Job) × Jobs
unfolding lease_each leasable_ids
lease_jobs plus now worker limit duration filter = transact λ jobs. do
  until ← or_panic (plus now duration)
  lease_each now until worker (leasable_ids now filter limit jobs) jobs
