-- ===== src/Jobs/Finish.antt =====
-- `ack_job`, `cancel_job` and `get_job`. They run outside a transaction: what the update wrote stays
-- written, whatever the read after it returns.
use aadesh.Common.{
  String, Bool, none, some, ◌&&◌, ℤ, holds_text, equals, count_where, update_where, nat_eq,
  if◌then◌else◌,
}
use aadesh.Chrono.{Time}
use aadesh.Outcome.{Outcome, err, conflict}
use aadesh.Jobs.Table.{Job, Jobs, completed, cancelled, is_leased, is_active, has_id, get_job}

-- The lease that the caller names is the one that the row has.
abbrev pub holds_lease : String → String → ℤ → Job → Bool
holds_lease k worker epoch j =
    has_id k j
    && (holds_text j.lease_owner worker && (equals j.lease_epoch epoch && is_leased j.status))

abbrev pub acked : Time → Job → Job
acked now j = record j {
  updated_at = now;
  leased_until = none;
  lease_owner = none;
  status = completed;
  completed_at = some now;
}

unfoldable pub ack_job : Time → String → String → ℤ → Jobs → Outcome Job × Jobs
ack_job now k worker epoch jobs =
    let jobs' = update_where (holds_lease k worker epoch) (acked now) jobs in
    if nat_eq (count_where (holds_lease k worker epoch) jobs) 0
    then (err conflict, jobs')
    else (get_job k jobs', jobs')

abbrev pub can_cancel : String → Job → Bool
can_cancel k j = has_id k j && is_active j.status

abbrev pub dropped : Time → Job → Job
dropped now j = record j {
  updated_at = now;
  leased_until = none;
  lease_owner = none;
  status = cancelled;
  completed_at = some now;
}

-- Both branches on `rows_affected` read the job.
unfoldable pub cancel_job : Time → String → Jobs → Outcome Job × Jobs
cancel_job now k jobs =
    let jobs' = update_where (can_cancel k) (dropped now) jobs in
    if nat_eq (count_where (can_cancel k) jobs) 0
    then (get_job k jobs', jobs')
    else (get_job k jobs', jobs')
