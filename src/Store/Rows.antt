-- ===== src/Store/Rows.antt =====
-- The rows of the tables of crates/adesh-storage-sqlite/migrations that the modelled operations use.
use aadesh.Common.{ℕ, ℤ, String, Bool, Option, List}
use aadesh.Chrono.{Time}
use aadesh.Json.{Value}
use aadesh.Store.KernelRows.{ReasoningOutputInput}

-- `operations`
pub record Operation : Type 0 where
  pub operation_id : String
  pub parent_request_id : String
  pub isolation_id : String
  pub state : String
  pub state_reason : Option String
  pub requesting_audience_id : String
  pub pinned_active_state_version : String
  pub pinned_capability_snapshot_version : String
  pub pinned_audience_graph_version : String
  pub budgets : Value
  pub operation_goal : Value
  pub created_at : Time
  pub updated_at : Time

-- `operation_transitions`
pub record Transition : Type 0 where
  pub transition_id : String
  pub operation_id : String
  pub ts : Time
  pub from_state : Option String
  pub to_state : String
  pub reason : Option String
  pub audit_trace_id : String

-- What the modelled operations push on a timeline.
pub data TimelineItem : Type 0 where
  operation_cancelled : Time → String → String → TimelineItem
  approval_decision : Time → String → String → String → List String → TimelineItem
  request_accepted : Time → String → String → TimelineItem
  syscall_executed : Time → String → String → String → TimelineItem
  syscall_failed : Time → String → TimelineItem
  operation_completed : Time → String → TimelineItem
  other_item : Value → TimelineItem

-- `audit_traces`
pub record AuditTrace : Type 0 where
  pub audit_trace_id : String
  pub operation_id : String
  pub timeline : List TimelineItem

-- `approval_items`
pub record Approval : Type 0 where
  pub approval_id : String
  pub operation_id : String
  pub created_at : Time
  pub updated_at : Time
  pub status : String
  pub approval_mode : String
  pub proposal_bundle : Value
  pub diff_payload : Value
  pub prompt : String
  pub expires_at : Option Time
  pub audit_trace_id : String

-- `oob_challenges`
pub record Challenge : Type 0 where
  pub challenge_id : String
  pub approval_id : String
  pub created_at : Time
  pub expires_at : Time
  pub status : String
  pub verified_at : Option Time
  pub consumed_at : Option Time
  pub response : Option Value

-- `syscalls`
pub record Syscall : Type 0 where
  pub syscall_id : String
  pub operation_id : String
  pub approval_id : Option String
  pub created_at : Time
  pub updated_at : Time
  pub tool_name : String
  pub action_name : String
  pub args_schema_ref : String
  pub result_schema_ref : Option String
  pub status : String
  pub args : Value
  pub result_ref : Option String
  pub audit_trace_id : String

-- What a tool provider returns: crates/adesh-core/src/ports/tool.rs
pub record ToolExecutionResult : Type 0 where
  pub succeeded : Bool
  pub output_kind : String
  pub output_json : Value
  pub content_ref : Option String
  pub sensitivity_s : ℤ
  pub taint_s : ℤ
  pub started_at : Time
  pub ended_at : Time
  pub attempts_used : ℤ

-- What the modelled operations put into an event.
pub data EventBody : Type 0 where
  request_received : String → EventBody
  approval_decided : String → String → String → List String → EventBody
  syscall_result : String → String → String → ToolExecutionResult → EventBody
  reasoning_output : ReasoningOutputInput → EventBody
  review_item_created : String → Value → EventBody
  review_decided : String → String → Option String → Option String → EventBody

-- `experience_events`
pub record Event : Type 0 where
  pub event_ref : String
  pub created_at : Time
  pub body : EventBody

-- `current_versions`
pub record Version : Type 0 where
  pub version_kind : String
  pub version_id : String
  pub updated_at : Time

-- `capability_snapshots`
pub record Snapshot : Type 0 where
  pub capability_snapshot_version : String
  pub created_at : Time
  pub parent_version : Option String
  pub content_hash : String
  pub payload : Value

-- `schema_registry_entries`; the response of the registry has the same fields
pub record SchemaEntry : Type 0 where
  pub schema_ref : String
  pub schema_kind : String
  pub name : String
  pub semver : String
  pub content_hash : String
  pub created_at : Time
  pub status : String
  pub compatibility : String
  pub payload : Value

-- `review_queue_items`
pub record Review : Type 0 where
  pub item_id : String
  pub created_at : Time
  pub updated_at : Time
  pub status : String
  pub source : String
  pub target_domain : String
  pub risk_r_estimate : ℕ
  pub sensitivity_s_estimate : ℕ
  pub requires_oob : Bool
  pub proposal : Value
  pub evidence : Value
  pub impact : Value
  pub base_version : Option String
  pub resolved_version : Option String

-- `review_queue_decisions`
pub record ReviewDecision : Type 0 where
  pub decision_id : String
  pub item_id : String
  pub created_at : Time
  pub decision : String
  pub edited_payload : Option Value
  pub applied_version : Option String
