-- ===== src/Operations/Create.antt =====
-- `create_operation_bundle` and `derive_operation_goal` of storage.rs.
use Prim.Native.String.{[] as end_text, ◌∷◌ as ◌∷ₜ◌, ◌++◌ as str_append}
use aadesh.Common.{
  ℕ, zero, suc, String, Bool, not, Option, none, some, [], ◌∷◌, ◌++◌, ◌==◌, any, if◌then◌else◌,
}
use aadesh.Chrono.{Time}
use aadesh.Json.{Value, object, string, end, insert_field}
use aadesh.Unicode.{Unicode}
use aadesh.Outcome.{Outcome, ok, unavailable, ◌>>=◌, ◌>>◌, ensure, transact}
use aadesh.Store.{
  Operation, Db, RequestAcceptedResponse, accepted, request_received, request_accepted, is_event,
}
use aadesh.Store.Idempotency.{stored_response, store_response, replay_or, as_accepted}
use aadesh.Registry.Versions.{CurrentVersions, load_current_versions}
use aadesh.Kernel.{RequestEnvelope, IntentAnchor}

-- The identifiers from `Uuid::new_v4`.
pub record FreshBundle : Type 0 where
  pub operation_id : String
  pub isolation_id : String
  pub audit_trace_id : String
  pub transition_id : String

-- `chars().take(n).collect()`
abbrev pub take_chars : ℕ → String → String
take_chars zero s = end_text
take_chars (suc n) end_text = end_text
take_chars (suc n) (c ∷ₜ s) = c ∷ₜ take_chars n s

abbrev pub anchor_goal : Option IntentAnchor → Option String
anchor_goal none = none
anchor_goal (some a) = a.goal

abbrev pub goal_or_content : Unicode → String → Option String → String
goal_or_content u content none = take_chars 240 content
goal_or_content u content (some goal) = if u.trim goal == "" then take_chars 240 content else goal

unfoldable pub derive_operation_goal : Unicode → RequestEnvelope → Value
derive_operation_goal u request = object (
    insert_field "summary"
      (string (goal_or_content u request.content (anchor_goal request.intent_anchor))) end)

abbrev pub request_event_ref : RequestEnvelope → String
request_event_ref request = str_append "event:request:" request.request_id

abbrev pub created_operation :
    Unicode → Time → FreshBundle → RequestEnvelope → CurrentVersions → Operation
created_operation u now fresh request current = record {
  operation_id = fresh.operation_id;
  parent_request_id = request.request_id;
  isolation_id = fresh.isolation_id;
  state = "created";
  state_reason = none;
  requesting_audience_id = request.requesting_audience_id;
  pinned_active_state_version = current.active_state_version;
  pinned_capability_snapshot_version = current.capability_snapshot_version;
  pinned_audience_graph_version = current.audience_graph_version;
  budgets = request.budgets;
  operation_goal = derive_operation_goal u request;
  created_at = now;
  updated_at = now;
}

abbrev pub bundle_rows : Unicode → Time → FreshBundle → RequestEnvelope → CurrentVersions → Db → Db
bundle_rows u now fresh request current db = record db {
  events =
      db.events
      ++ record {
        event_ref = request_event_ref request;
        created_at = now;
        body = request_received request.request_id;
      }
        ∷ [];
  operations = db.operations ++ created_operation u now fresh request current ∷ [];
  transitions =
      db.transitions
      ++ record {
        transition_id = fresh.transition_id;
        operation_id = fresh.operation_id;
        ts = now;
        from_state = none;
        to_state = "created";
        reason = none;
        audit_trace_id = fresh.audit_trace_id;
      }
        ∷ [];
  audit_traces =
      db.audit_traces
      ++ record {
        audit_trace_id = fresh.audit_trace_id;
        operation_id = fresh.operation_id;
        timeline = request_accepted now (request_event_ref request) fresh.transition_id ∷ [];
      }
        ∷ [];
}

abbrev pub bundle_response : FreshBundle → RequestEnvelope → RequestAcceptedResponse
bundle_response fresh request = record {
  request_id = request.request_id;
  operation_ids = fresh.operation_id ∷ [];
  primary_operation_id = fresh.operation_id;
  audit_trace_ids = fresh.audit_trace_id ∷ [];
}

-- The event of the request is named by the request: a second one under the name is refused by the
-- primary key. `fault` is the test's switch that makes the write of the audit trace fail.
unfoldable pub create_work :
    Unicode
    → Bool
    → Time
    → FreshBundle
    → RequestEnvelope
    → Option String
    → Db
    → Outcome (RequestAcceptedResponse × Db)
unfolding load_current_versions store_response
create_work u fault now fresh request key db = do
  current ← load_current_versions db
  ensure (not (any (is_event (request_event_ref request)) db.events)) unavailable
  ensure (not fault) unavailable
  let response = bundle_response fresh request
  final ←
      store_response "/v1/requests" key request.request_id (accepted response) now
        (bundle_rows u now fresh request current db)
  ok (response, final)

unfoldable pub create_operation_bundle :
    Unicode
    → Bool
    → Time
    → FreshBundle
    → RequestEnvelope
    → Option String
    → Db
    → Outcome RequestAcceptedResponse × Db
unfolding create_work stored_response
create_operation_bundle u fault now fresh request key = transact λ db.
    replay_or as_accepted db (stored_response "/v1/requests" key db)
      (create_work u fault now fresh request key db)
