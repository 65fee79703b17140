-- ===== src/Requests/Submit.antt =====
-- `submit_request` of routes.rs. What is only broadcast to observers, the stream of the draft
-- included, is left out.
use Prim.Native.String.{◌++◌ as str_append}
use aadesh.Common.{
  ℕ, String, Bool, false, Option, none, some, List, [], ◌∷◌, ◌==◌, length, if◌then◌else◌,
}
use aadesh.Json.{Value}
use aadesh.Outcome.{Outcome, ok, err, panic}
use aadesh.Unicode.{Unicode}
use aadesh.Calls.{Call, ◌>>=◌, ◌>>◌, give}
use aadesh.Store.{Operation, OperationResponse, RequestAcceptedResponse, Pins, ReasoningOutputInput}
use aadesh.Schemas.Descriptor.{ActionDescriptor}
use aadesh.Registry.Snapshots.{resolve_action_descriptor}
use aadesh.Operations.Create.{create_operation_bundle}
use aadesh.Operations.States.{get_operation, update_operation_state}
use aadesh.Approvals.Items.{create_approval_item}
use aadesh.Kernel.{
  Attachment, RequestEnvelope, KernelOutcome, completed_draft, awaiting_approval, blocked,
  KernelArtifacts, compile_and_verify_stub, approval_item_input,
}
use aadesh.Requests.Records.{put_gate_decision, put_compiled_slice, put_reasoning_output}
use aadesh.Requests.Artifacts.{get_manual_artifact_context}
use aadesh.Runner.World.{World, Outside, on_db, reads_db, now_of, new_uuid}

pub record ModelGenerateInput : Type 0 where
  pub operation_id : String
  pub isolation_id : String
  pub audit_trace_id : String
  pub request_content : String
  pub attachment_count : ℕ
  pub attachment_context : List String

pub record ModelGenerateOutput : Type 0 where
  pub schema_version : String
  pub operation_id : String
  pub reasoning_output : Value
  pub model_id : String
  pub provider_trace_id : Option String

-- A model provider, which may answer by the instant at which it is asked.
abbrev pub Generate : Type 0
Generate = ℕ → ModelGenerateInput → Outcome ModelGenerateOutput

abbrev pub asks : Generate → ModelGenerateInput → Call World ModelGenerateOutput
asks generate input = λ w. (generate w.ticks input, w)

-- `.ok()`
abbrev pub ok_of : {A : Type 0} → Outcome A → Outcome (Option A)
ok_of (ok a) = ok (some a)
ok_of (err e) = ok none
ok_of panic = panic

abbrev pub with_context : Option String → List String → List String
with_context none entries = entries
with_context (some c) entries = c ∷ entries

-- The loop over the attachments.
unfoldable pub attachment_context : List Attachment → Call World (List String)
attachment_context [] = give []
attachment_context (a ∷ as_) =
    if a.ref_type == "manual_artifact"
    then (do
      context ← reads_db (get_manual_artifact_context a.ref_id 1500)
      entries ← attachment_context as_
      give (with_context context entries))
    else attachment_context as_

abbrev pub requests_send : Unicode → RequestEnvelope → Bool
requests_send u request = u.contains (u.to_lowercase request.content) "send"

-- The descriptor of the send, if the text asks for one and the pinned snapshot has it.
unfoldable pub send_descriptor :
    Unicode → RequestEnvelope → Operation → Call World (Option ActionDescriptor)
send_descriptor u request operation =
    if requests_send u request
    then reads_db (λ db.
      ok_of
        (resolve_action_descriptor operation.pinned_capability_snapshot_version "email" "send" db))
    else give none

abbrev pub pins_of : OperationResponse → Pins
pins_of current = record {
  operation_id = current.operation.operation_id;
  isolation_id = current.operation.isolation_id;
  audit_trace_id = current.audit_trace_id;
  active_state_version = current.operation.pinned_active_state_version;
  capability_snapshot_version = current.operation.pinned_capability_snapshot_version;
  audience_graph_version = current.operation.pinned_audience_graph_version;
}

abbrev pub model_input : RequestEnvelope → OperationResponse → List String → ModelGenerateInput
model_input request current context = record {
  operation_id = current.operation.operation_id;
  isolation_id = current.operation.isolation_id;
  audit_trace_id = current.audit_trace_id;
  request_content = request.content;
  attachment_count = length request.attachments;
  attachment_context = context;
}

abbrev pub reasoning_input : OperationResponse → ModelGenerateOutput → ReasoningOutputInput
reasoning_input current output = record {
  operation_id = current.operation.operation_id;
  isolation_id = current.operation.isolation_id;
  audit_trace_id = current.audit_trace_id;
  model_id = output.model_id;
  provider_trace_id = output.provider_trace_id;
  reasoning_output = output.reasoning_output;
}

module _ (u : Unicode) (o : Outside) (generate : Generate) where
  unfoldable pub store_artifacts : KernelArtifacts → Call World (Unit {0})
  store_artifacts artifacts = do
    gate_id ← new_uuid o
    evaluated_at ← now_of o
    gate ←
        on_db (put_gate_decision evaluated_at (str_append "gate:" gate_id) artifacts.gate_decision)
    slice_id ← new_uuid o
    compiled_at ← now_of o
    compiled ←
        on_db
          (put_compiled_slice compiled_at (str_append "slice:" slice_id) artifacts.compiled_slice)
    give tt

  unfoldable pub store_reasoning :
      RequestEnvelope → OperationResponse → List String → Call World (Unit {0})
  store_reasoning request current context = do
    output ← asks generate (model_input request current context)
    stream_id ← new_uuid o
    event ← new_uuid o
    created_at ← now_of o
    reasoning ← on_db (
        put_reasoning_output created_at (str_append "event:reasoning_output:" event)
          (reasoning_input current output))
    give tt

  unfoldable pub move_operation : OperationResponse → String → String → Call World (Unit {0})
  move_operation current state reason = do
    now ← now_of o
    transition ← new_uuid o
    on_db (
        update_operation_state now (str_append "transition:" transition)
          current.operation.operation_id state (some reason) current.audit_trace_id)

  -- The `match` on the outcome of the kernel.
  unfoldable pub apply_outcome : OperationResponse → KernelOutcome → Call World (Unit {0})
  apply_outcome current completed_draft = move_operation current "completed" "draft_ready"
  apply_outcome current (awaiting_approval plan) = do
    approval_id ← new_uuid o
    now ← now_of o
    approval ← on_db (
        create_approval_item now (str_append "approval:" approval_id)
          (approval_item_input current.operation.operation_id current.audit_trace_id plan))
    move_operation current "awaiting_approval" "approval_required"
  apply_outcome current (blocked reason) = move_operation current "blocked" reason

  -- What happens to an operation that is `created`.
  unfoldable pub process_created : RequestEnvelope → OperationResponse → Call World (Unit {0})
  process_created request current = do
    descriptor ← send_descriptor u request current.operation
    context ← attachment_context request.attachments
    let artifacts = compile_and_verify_stub u request (pins_of current) descriptor
    store_artifacts artifacts
    store_reasoning request current context
    apply_outcome current artifacts.outcome

  unfoldable pub create_bundle :
      RequestEnvelope → Option String → Call World RequestAcceptedResponse
  create_bundle request key = do
    operation_id ← new_uuid o
    isolation_id ← new_uuid o
    audit_trace_id ← new_uuid o
    transition_id ← new_uuid o
    now ← now_of o
    on_db (
        create_operation_bundle u false now
          (record {
            operation_id = str_append "op:" operation_id;
            isolation_id = str_append "iso:" isolation_id;
            audit_trace_id = str_append "audit:" audit_trace_id;
            transition_id = str_append "transition:" transition_id;
          })
          request key)

  -- An operation that is no longer `created` is answered by the response of its creation.
  unfoldable pub submit_request :
      RequestEnvelope → Option String → Call World RequestAcceptedResponse
  submit_request request key = do
    data_ ← create_bundle request key
    current ← reads_db (get_operation data_.primary_operation_id)
    (if current.operation.state == "created" then process_created request current else give tt)
    give data_
