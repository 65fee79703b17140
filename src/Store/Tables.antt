-- ===== src/Store/Tables.antt =====
-- The tables as one record, and the tests by which queries find their rows.
use aadesh.Common.{String, Bool, List, [], ◌==◌}
use aadesh.Chrono.{Time}
use aadesh.Store.KernelRows.{GateDecision, CompiledSlice, ManualArtifact}
use aadesh.Store.Rows.{
  Operation, Transition, AuditTrace, Approval, Challenge, Syscall, Event, Version, Snapshot,
  SchemaEntry, Review, ReviewDecision,
}
use aadesh.Store.WorkflowRows.{
  WorkflowSpec, WorkflowInstance, WorkflowTransition, WorkflowStep, WorkflowStepTransition,
}
use aadesh.Store.Responses.{StoredResponse}

-- `idempotency_keys`
pub record IdempotencyKey : Type 0 where
  pub endpoint_scope : String
  pub idempotency_key : String
  pub request_id : String
  pub response : StoredResponse
  pub created_at : Time

pub record Db : Type 0 where
  pub operations : List Operation
  pub transitions : List Transition
  pub audit_traces : List AuditTrace
  pub approvals : List Approval
  pub challenges : List Challenge
  pub syscalls : List Syscall
  pub events : List Event
  pub snapshots : List Snapshot
  pub schemas : List SchemaEntry
  pub versions : List Version
  pub reviews : List Review
  pub review_decisions : List ReviewDecision
  pub workflow_specs : List WorkflowSpec
  pub workflow_instances : List WorkflowInstance
  pub workflow_transitions : List WorkflowTransition
  pub workflow_steps : List WorkflowStep
  pub workflow_step_transitions : List WorkflowStepTransition
  pub gate_decisions : List GateDecision
  pub compiled_slices : List CompiledSlice
  pub manual_artifacts : List ManualArtifact
  pub idempotency_keys : List IdempotencyKey

abbrev pub is_operation : String → Operation → Bool
is_operation k o = o.operation_id == k

abbrev pub is_trace : String → AuditTrace → Bool
is_trace k t = t.audit_trace_id == k

abbrev pub is_trace_of : String → AuditTrace → Bool
is_trace_of k t = t.operation_id == k

abbrev pub is_approval : String → Approval → Bool
is_approval k a = a.approval_id == k

abbrev pub is_challenge : String → Challenge → Bool
is_challenge k c = c.challenge_id == k

abbrev pub is_syscall : String → Syscall → Bool
is_syscall k s = s.syscall_id == k

abbrev pub is_snapshot : String → Snapshot → Bool
is_snapshot k d = d.capability_snapshot_version == k

abbrev pub is_schema : String → SchemaEntry → Bool
is_schema k d = d.schema_ref == k

abbrev pub is_event : String → Event → Bool
is_event k e = e.event_ref == k

abbrev pub is_version : String → Version → Bool
is_version kind v = v.version_kind == kind

abbrev pub is_review : String → Review → Bool
is_review k r = r.item_id == k

abbrev pub is_workflow_spec : String → WorkflowSpec → Bool
is_workflow_spec k s = s.workflow_ref == k

abbrev pub is_workflow_instance : String → WorkflowInstance → Bool
is_workflow_instance k w = w.workflow_instance_id == k

abbrev pub is_manual_artifact : String → ManualArtifact → Bool
is_manual_artifact k a = a.artifact_id == k

-- The tables before the first row.
abbrev pub empty : Db
empty = record {
  operations = [];
  transitions = [];
  audit_traces = [];
  approvals = [];
  challenges = [];
  syscalls = [];
  events = [];
  snapshots = [];
  schemas = [];
  versions = [];
  reviews = [];
  review_decisions = [];
  workflow_specs = [];
  workflow_instances = [];
  workflow_transitions = [];
  workflow_steps = [];
  workflow_step_transitions = [];
  gate_decisions = [];
  compiled_slices = [];
  manual_artifacts = [];
  idempotency_keys = [];
}
