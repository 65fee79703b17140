-- ===== src/Operations/Examples.antt =====
-- An operation that waits for an approval, and one that is completed.
use aadesh.Common.{String, ◌≡◌, refl, false, none, some, List, [], ◌∷◌}
use aadesh.Json.{null}
use aadesh.Unicode.{Unicode}
use aadesh.Outcome.{ok, err, unavailable}
use aadesh.Store.Idempotency.{stored_response}
use aadesh.Kernel.{RequestEnvelope}
use aadesh.Registry.Versions.{CurrentVersions, last_version, load_current_versions}
use aadesh.Operations.Create.{
  FreshBundle, bundle_rows, bundle_response, create_work, create_operation_bundle,
}
use aadesh.Operations.Created.{
  IsAnnounced, get_operation-create_work, get_request_status-create_work,
  create_operation_bundle-create_work,
}
use aadesh.Store.{
  Operation, OperationResponse, RequestAcceptedResponse, request_received, Db, empty,
}
use aadesh.Operations.States.{get_operation, get_request_status}

abbrev plain : Unicode
plain = record { trim = λ s. s; to_lowercase = λ s. s; contains = λ s t. false }

abbrev states : List String
states = "completed" ∷ "awaiting_approval" ∷ []

abbrev waiting : Operation
waiting = record {
  operation_id = "op:1";
  parent_request_id = "req:1";
  isolation_id = "iso:1";
  state = "awaiting_approval";
  state_reason = some "approval_required";
  requesting_audience_id = "root_owner";
  pinned_active_state_version = "state:1";
  pinned_capability_snapshot_version = "cap:1";
  pinned_audience_graph_version = "graph:1";
  budgets = null;
  operation_goal = null;
  created_at = 1;
  updated_at = 1;
}

abbrev start : Db
start = record empty {
  operations = waiting ∷ record waiting { operation_id = "op:2"; state = "completed" } ∷ [];
  audit_traces =
      record { audit_trace_id = "audit:1"; operation_id = "op:1"; timeline = [] }
      ∷ record { audit_trace_id = "audit:2"; operation_id = "op:2"; timeline = [] }
      ∷ [];
}

abbrev request : RequestEnvelope
request = record {
  request_id = "req:2";
  requesting_audience_id = "root_owner";
  kind = "note";
  content = "write the minutes";
  attachments = [];
  intent_anchor = none;
  budgets = null;
}

abbrev fresh : FreshBundle
fresh = record {
  operation_id = "op:3";
  isolation_id = "iso:3";
  audit_trace_id = "audit:3";
  transition_id = "transition:3";
}

abbrev versions : CurrentVersions
versions = record {
  active_state_version = "state:1";
  audience_graph_version = "graph:1";
  capability_snapshot_version = "cap:1";
}

-- The request `req:1` of the operations above was announced.
abbrev ready : Db
ready = record start {
  events =
      record { event_ref = "event:request:req:1"; created_at = 1; body = request_received "req:1" }
      ∷ [];
  versions =
      record { version_kind = "active_state"; version_id = "state:1"; updated_at = 1 }
      ∷ record { version_kind = "audience_graph"; version_id = "graph:1"; updated_at = 1 }
      ∷ record { version_kind = "capability_snapshot"; version_id = "cap:1"; updated_at = 1 }
      ∷ [];
}

abbrev created : Db
created = bundle_rows plain 9 fresh request versions ready

abbrev answer : RequestAcceptedResponse
answer = bundle_response fresh request

creates : create_work plain false 9 fresh request none ready ≡ ok (answer, created)
unfolding create_work load_current_versions
creates = refl

get_operation-create_work_example :
    (read : OperationResponse) × (get_operation "op:3" created ≡ ok read)
    × (answer.request_id ≡ "req:2")
    × (answer.operation_ids ≡ read.operation.operation_id ∷ [])
    × (answer.audit_trace_ids ≡ read.audit_trace_id ∷ [])
    × (read.operation.state ≡ "created")
    × (read.operation.state_reason ≡ none)
    × (read.operation.parent_request_id ≡ "req:2")
    × (read.operation.requesting_audience_id ≡ "root_owner")
    × (read.operation.budgets ≡ null)
    × (last_version "active_state" ready.versions none
        ≡ some read.operation.pinned_active_state_version)
    × (last_version "audience_graph" ready.versions none
        ≡ some read.operation.pinned_audience_graph_version)
    × (last_version "capability_snapshot" ready.versions none
        ≡ some read.operation.pinned_capability_snapshot_version)
get_operation-create_work_example =
    get_operation-create_work plain false 9 fresh request none ready created answer creates refl
      refl

get_request_status-create_work_example :
    (get_request_status "req:2" created
      ≡ ok (record { request_id = "req:2"; operation_ids = "op:3" ∷ []; status = "running" }))
    × IsAnnounced created
get_request_status-create_work_example =
    get_request_status-create_work plain false 9 fresh request none ready created answer
      (refl, (refl, tt)) creates

create_operation_bundle-create_work_example :
    create_operation_bundle plain false 12 fresh request (some "key") created
    ≡ (err unavailable, created)
unfolding stored_response
create_operation_bundle-create_work_example =
    create_operation_bundle-create_work plain false 9 fresh request none ready created answer plain
      false 12 fresh request (some "key") creates refl refl
