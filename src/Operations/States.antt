-- ===== src/Operations/States.antt =====
-- `aggregate_request_status`, `get_request_status`, `get_operation`, `update_operation_state` and
-- `cancel_operation`.
use Prim.Native.String.{◌++◌ as str_append}
use aadesh.Common.{
  String, Bool, true, false, not, ◌||◌, Option, none, some, List, [], ◌∷◌, ◌++◌, ◌==◌, any, all,
  find, map, select, sort_by, update_where, if◌then◌else◌,
}
use aadesh.Chrono.{Time}
use aadesh.Outcome.{Outcome, ok, err, conflict, not_found, ◌>>=◌, ◌>>◌, ensure, required, transact}
use aadesh.Unicode.{Unicode}
use aadesh.Store.{
  Operation, AuditTrace, TimelineItem, operation_cancelled, OperationResponse, operation, Db,
  is_operation, is_trace, is_trace_of,
}
use aadesh.Store.Idempotency.{stored_response, store_response, replay_or, as_operation}

abbrev is_nil : List String → Bool
is_nil [] = true
is_nil (s ∷ ss) = false

unfoldable pub aggregate_request_status : List String → String
aggregate_request_status states =
    if is_nil states
    then "failed"
    else if all (λ s. s == "completed") states
    then "completed"
    else if any (λ s. s == "running") states
    then "running"
    else if any (λ s. s == "awaiting_approval") states
    then "running"
    else if any (λ s. s == "created") states
    then "running"
    else if any (λ s. s == "cancelled") states
    then "cancelled"
    else if any (λ s. s == "blocked") states
    then "blocked"
    else "failed"

pub record RequestStatusResponse : Type 0 where
  pub request_id : String
  pub operation_ids : List String
  pub status : String

status_of : String → List Operation → Outcome RequestStatusResponse
status_of request [] = err not_found
status_of request (o ∷ os) = ok (record {
  request_id = request;
  operation_ids = map (λ x. x.operation_id) (o ∷ os);
  status = aggregate_request_status (map (λ x. x.state) (o ∷ os));
})

unfoldable pub get_request_status : String → Db → Outcome RequestStatusResponse
unfolding status_of aggregate_request_status
get_request_status request db =
    status_of request
      (sort_by (λ o. o.created_at) (select (λ o. o.parent_request_id == request) db.operations))

-- The join of an operation with its audit trace.
unfoldable pub get_operation : String → Db → Outcome OperationResponse
get_operation k db = do
  o ← required (find (is_operation k) db.operations) not_found
  t ← required (find (is_trace_of k) db.audit_traces) not_found
  ok (record { operation = o; audit_trace_id = t.audit_trace_id })

abbrev pub moved_to : String → Option String → Time → Operation → Operation
moved_to state reason now o = record o { state = state; state_reason = reason; updated_at = now }

abbrev pub set_state : String → String → Option String → Time → Db → List Operation
set_state k state reason now db =
    update_where (is_operation k) (moved_to state reason now) db.operations

-- `fresh` is the identifier of the transition.
unfoldable pub update_operation_state :
    Time → String → String → String → Option String → String → Db → Outcome (Unit {0}) × Db
update_operation_state now fresh k state reason audit_trace = transact λ db. do
  current ← required (find (is_operation k) db.operations) not_found
  ok (
    tt,
    record db {
      operations = set_state k state reason now db;
      transitions =
          db.transitions
          ++ record {
            transition_id = fresh;
            operation_id = k;
            ts = now;
            from_state = some current.state;
            to_state = state;
            reason = reason;
            audit_trace_id = audit_trace;
          }
            ∷ [];
    },
  )

abbrev pub is_terminal : String → Bool
is_terminal s = (s == "completed") || ((s == "failed") || ((s == "blocked") || (s == "cancelled")))

-- `reason.filter(|value| !value.trim().is_empty()).unwrap_or("cancelled_by_owner")`
abbrev pub cancel_reason : Unicode → Option String → String
cancel_reason u none = "cancelled_by_owner"
cancel_reason u (some r) = if u.trim r == "" then "cancelled_by_owner" else r

abbrev pub cancel_scope : String → String
cancel_scope k = str_append "/v1/operations/" (str_append k "/cancel")

abbrev pub pushed : TimelineItem → AuditTrace → AuditTrace
pushed item t = record t { timeline = t.timeline ++ item ∷ [] }

abbrev pub cancelled_state : Time → String → String → String → Operation → AuditTrace → Db → Db
cancelled_state now fresh k reason current t db = record db {
  operations = set_state k "cancelled" (some reason) now db;
  transitions =
      db.transitions
      ++ record {
        transition_id = fresh;
        operation_id = k;
        ts = now;
        from_state = some current.state;
        to_state = "cancelled";
        reason = some reason;
        audit_trace_id = t.audit_trace_id;
      }
        ∷ [];
  audit_traces =
      update_where (is_trace t.audit_trace_id) (pushed (operation_cancelled now k reason))
        db.audit_traces;
}

unfoldable pub cancel_work :
    Unicode
    → Time
    → String
    → String
    → Option String
    → Option String
    → Db
    → Outcome (OperationResponse × Db)
unfolding get_operation store_response
cancel_work u now fresh k reason key db = do
  current ← required (find (is_operation k) db.operations) not_found
  t ← required (find (is_trace_of k) db.audit_traces) not_found
  ensure (not (is_terminal current.state)) conflict
  let db' = cancelled_state now fresh k (cancel_reason u reason) current t db
  response ← get_operation k db'
  db'' ←
      store_response (cancel_scope k) key response.operation.parent_request_id (operation response)
        now db'
  ok (response, db'')

unfoldable pub cancel_operation :
    Unicode
    → Time
    → String
    → String
    → Option String
    → Option String
    → Db
    → Outcome OperationResponse × Db
unfolding cancel_work stored_response
cancel_operation u now fresh k reason key = transact λ db.
    replay_or as_operation db (stored_response (cancel_scope k) key db)
      (cancel_work u now fresh k reason key db)
