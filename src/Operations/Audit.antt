-- ===== src/Operations/Audit.antt =====
-- `append_event` and `append_audit_timeline_item` of storage.rs.
use aadesh.Common.{String, any, find, [], ◌∷◌, ◌++◌, update_where, if◌then◌else◌}
use aadesh.Outcome.{Outcome, ok, err, conflict, not_found, ◌>>=◌, required, transact}
use aadesh.Store.{TimelineItem, Event, Db, is_trace, is_event}
use aadesh.Operations.States.{pushed}

-- The primary key refuses a second event under the reference.
unfoldable pub append_event : Event → Db → Outcome (Unit {0}) × Db
append_event e db =
    if any (is_event e.event_ref) db.events
    then (err conflict, db)
    else (ok tt, record db { events = db.events ++ e ∷ [] })

unfoldable pub append_audit_timeline_item : String → TimelineItem → Db → Outcome (Unit {0}) × Db
append_audit_timeline_item k item = transact λ db. do
  trace ← required (find (is_trace k) db.audit_traces) not_found
  ok (tt, record db { audit_traces = update_where (is_trace k) (pushed item) db.audit_traces })
