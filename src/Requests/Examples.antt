-- ===== src/Requests/Examples.antt =====
-- Two requests: one that asks for a draft while the model is out of reach, and one that asks for a
-- send.
use Prim.Native.String.{◌++◌ as str_append}
use aadesh.Common.{String, ◌≡◌, refl, ◌⊎◌, true, none, some, List, [], ◌∷◌, ◌==◌, ◌&&◌, ◌+◌, map}
use aadesh.Json.{null, object, end}
use aadesh.Outcome.{ok, err, unavailable, conflict}
use aadesh.Unicode.{Unicode}
use aadesh.Calls.{◌>>=◌, ◌>>◌, give}
use aadesh.Store.{
  Operation, empty, GateDecisionInput, GateDecision, IdempotencyKey, RequestAcceptedResponse,
  accepted,
}
use aadesh.Store.Idempotency.{stored_response, store_response}
use aadesh.Registry.Snapshots.{resolve_action_descriptor, get_capability_snapshot}
use aadesh.Registry.Versions.{load_current_versions}
use aadesh.Operations.Create.{
  take_chars, create_work, create_operation_bundle, derive_operation_goal,
}
use aadesh.Operations.States.{get_operation, update_operation_state}
use aadesh.Kernel.{
  RequestEnvelope, compile_and_verify_stub, outcome, gate_decision, compiled_slice, predicates,
}
use aadesh.Runner.World.{World, Outside, on_db, reads_db, now_of, new_uuid}
use aadesh.Requests.Records.{put_gate_decision, put_compiled_slice, put_reasoning_output}
use aadesh.Requests.Artifacts.{
  Decode, Decoded, ManualArtifactCreateInput, artifact_response, new_artifact, create_artifact_work,
  get_manual_artifact_context,
}
use aadesh.Requests.Submit.{
  Generate, attachment_context, send_descriptor, store_artifacts, store_reasoning, move_operation,
  apply_outcome, process_created, create_bundle, submit_request,
}
use aadesh.Requests.Grants.{is_completed}
use aadesh.Requests.Sends.{submit_request_permits_nothing, submit_request_completes_no_send}
use aadesh.Requests.Repeated.{submit_request_conflicts_again}
use aadesh.Requests.Kept.{get_manual_artifact_context-create_artifact_work}

-- `contains` for the texts below.
abbrev plain : Unicode
plain = record {
  trim = λ s. s;
  to_lowercase = λ s. s;
  contains = λ s t. (s == "send it") && (t == "send");
}

abbrev asking : String → RequestEnvelope
asking content = record {
  request_id = "req:1";
  requesting_audience_id = "root_owner";
  kind = "email";
  content = content;
  attachments = [];
  intent_anchor = none;
  budgets = null;
}

abbrev outside : Outside
outside = record {
  tools = λ calls request. err unavailable;
  clock = λ n. 10 + n;
  uuid = λ n. "id";
  syscall_retry_attempts = 2;
}

abbrev unreachable : Generate
unreachable now input = err unavailable

abbrev drafts : Generate
drafts now input = ok (record {
  schema_version = "1";
  operation_id = input.operation_id;
  reasoning_output = object end;
  model_id = "model";
  provider_trace_id = none;
})

abbrev start : World
start = record {
  db = record empty {
    versions =
        record { version_kind = "active_state"; version_id = "state:1"; updated_at = 0 }
        ∷ record { version_kind = "capability_snapshot"; version_id = "cap:1"; updated_at = 0 }
        ∷ record { version_kind = "audience_graph"; version_id = "graph:1"; updated_at = 0 }
        ∷ [];
  };
  leases = [];
  tool_calls = [];
  ticks = 0;
}

abbrev states : World → List String
states w = map (λ (o : Operation). o.state) w.db.operations

-- A draft is completed.
drafted :
    states (submit_request plain outside drafts (asking "write it") none start).1 ≡ "completed" ∷ []
unfolding submit_request create_bundle create_operation_bundle create_work load_current_versions
    stored_response store_response derive_operation_goal get_operation process_created
    send_descriptor attachment_context compile_and_verify_stub outcome gate_decision compiled_slice
    predicates store_artifacts put_gate_decision put_compiled_slice store_reasoning
    put_reasoning_output apply_outcome move_operation update_operation_state on_db reads_db now_of
    new_uuid ◌>>=◌ ◌>>◌ give
drafted = refl

-- The model is out of reach: the operation is left `created`, with a gate decision.
left_created :
    (states (submit_request plain outside unreachable (asking "write it") (some "key") start).1
      ≡ "created" ∷ [])
    × (map
          (λ (g : GateDecision). g.gate_decision_id)
          (submit_request plain outside unreachable
            (asking "write it")
            (some "key")
            start).1.db.gate_decisions
        ≡ "gate:id" ∷ [])
unfolding submit_request create_bundle create_operation_bundle create_work load_current_versions
    stored_response store_response derive_operation_goal get_operation process_created
    send_descriptor attachment_context compile_and_verify_stub outcome gate_decision compiled_slice
    predicates store_artifacts put_gate_decision put_compiled_slice store_reasoning
    put_reasoning_output apply_outcome move_operation update_operation_state on_db reads_db now_of
    new_uuid ◌>>=◌ ◌>>◌ give
left_created = (refl, refl)

submit_request_permits_nothing_example :
    ((submit_request plain outside drafts (asking "send it") none start).1.db.syscalls ≡ [])
    × ((submit_request plain outside drafts (asking "send it") none start).1.tool_calls ≡ [])
submit_request_permits_nothing_example =
    submit_request_permits_nothing plain outside drafts (asking "send it") none start

abbrev finished : Operation
finished = record {
  operation_id = "op:0";
  parent_request_id = "req:0";
  isolation_id = "iso:0";
  state = "completed";
  state_reason = none;
  requesting_audience_id = "root_owner";
  pinned_active_state_version = "state:1";
  pinned_capability_snapshot_version = "cap:1";
  pinned_audience_graph_version = "graph:1";
  budgets = null;
  operation_goal = null;
  created_at = 1;
  updated_at = 1;
}

abbrev later : World
later = record start { db = record start.db { operations = finished ∷ [] } }

still_completed :
    is_completed "op:0" (submit_request plain outside drafts (asking "send it") none later).1.db
    ≡ true
unfolding submit_request create_bundle create_operation_bundle create_work load_current_versions
    stored_response store_response derive_operation_goal get_operation process_created
    send_descriptor resolve_action_descriptor get_capability_snapshot attachment_context
    compile_and_verify_stub outcome gate_decision compiled_slice predicates store_artifacts
    put_gate_decision put_compiled_slice store_reasoning put_reasoning_output apply_outcome
    move_operation update_operation_state on_db reads_db now_of new_uuid ◌>>=◌ ◌>>◌ give
still_completed = refl

submit_request_completes_no_send_example : is_completed "op:0" later.db ≡ true
submit_request_completes_no_send_example =
    submit_request_completes_no_send plain outside drafts (asking "send it") none later refl "op:0"
      still_completed

abbrev waiting : Operation
waiting = record finished { operation_id = "op:1"; state = "created" }

abbrev gate_input : GateDecisionInput
gate_input = record {
  pins = record {
    operation_id = "op:1";
    isolation_id = "iso:0";
    audit_trace_id = "audit:1";
    active_state_version = "state:1";
    capability_snapshot_version = "cap:1";
    audience_graph_version = "graph:1";
  };
  risk_r = 1;
  sensitivity_s = 0;
  max_gate = 1;
  approval_mode = "none";
  requesting_audience_id = "root_owner";
  scopes_allowed = null;
  scopes_denied = null;
  sensitivity_ceiling_s = 4;
  predicates = null;
  constraints = null;
}

abbrev answer : RequestAcceptedResponse
answer = record {
  request_id = "req:1";
  operation_ids = "op:1" ∷ [];
  primary_operation_id = "op:1";
  audit_trace_ids = "audit:1" ∷ [];
}

abbrev kept : IdempotencyKey
kept = record {
  endpoint_scope = "/v1/requests";
  idempotency_key = "key";
  request_id = "req:1";
  response = accepted answer;
  created_at = 1;
}

abbrev stopped : World
stopped = record start {
  db = record start.db {
    operations = waiting ∷ [];
    audit_traces = record { audit_trace_id = "audit:1"; operation_id = "op:1"; timeline = [] } ∷ [];
    gate_decisions =
        record { gate_decision_id = "gate:1"; evaluated_at = 1; input = gate_input } ∷ [];
    idempotency_keys = kept ∷ [];
  };
}

is_kept : stored_response "/v1/requests" (some "key") stopped.db ≡ some kept
unfolding stored_response
is_kept = refl

reads_back :
    get_operation "op:1" stopped.db
    ≡ ok (record { operation = waiting; audit_trace_id = "audit:1" })
unfolding get_operation
reads_back = refl

submit_request_conflicts_again_example :
    ((submit_request plain outside drafts (asking "write it") (some "key") stopped).0
      ≡ err conflict)
    × ((submit_request plain outside drafts (asking "write it") (some "key") stopped).1.db
        ≡ stopped.db)
submit_request_conflicts_again_example =
    submit_request_conflicts_again plain outside drafts (asking "write it") (some "key") stopped
      kept answer (record { operation = waiting; audit_trace_id = "audit:1" }) is_kept refl
      reads_back refl refl refl

-- A base64 text of two bytes.
abbrev decode : Decode
decode s = some (record { byte_count = 2; text = some "ok" })

abbrev upload : ManualArtifactCreateInput
upload = record {
  filename = "note.txt";
  media_type = "text/plain";
  content_base64 = "b2s=";
  sensitivity_hint = none;
  idempotency_key = none;
}

abbrev note : Decoded
note = record { byte_count = 2; text = some "ok" }

uploads :
    create_artifact_work decode 5 "artifact:1" upload empty
    ≡ ok (
      artifact_response (new_artifact 5 "artifact:1" upload note),
      record empty { manual_artifacts = new_artifact 5 "artifact:1" upload note ∷ [] },
    )
unfolding create_artifact_work store_response
uploads = refl

get_manual_artifact_context-create_artifact_work_example :
    (decoded : Decoded) × (decode "b2s=" ≡ some decoded)
    × (2 ≡ decoded.byte_count)
    × (◌≡◌ {A = String} "note.txt" "note.txt")
    × (◌≡◌ {A = String} "text/plain" "text/plain")
    × (((decoded.text ≡ none)
          × (get_manual_artifact_context "artifact:1" 1500
                (record empty { manual_artifacts = new_artifact 5 "artifact:1" upload note ∷ [] })
              ≡ ok none))
        ⊎ ((text : String) × (decoded.text ≡ some text)
            × (get_manual_artifact_context "artifact:1" 1500
                  (record empty { manual_artifacts = new_artifact 5 "artifact:1" upload note ∷ [] })
                ≡ ok (
                    some (
                      str_append "file=" (
                        str_append "note.txt" (
                          str_append " media_type=" (
                            str_append "text/plain"
                              (str_append "\n" (take_chars 1500 (take_chars 4096 text)))))))))))
get_manual_artifact_context-create_artifact_work_example =
    get_manual_artifact_context-create_artifact_work decode 5 "artifact:1" upload 1500 empty uploads
