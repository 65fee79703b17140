-- ===== src/Store/Responses.antt =====
-- The responses of crates/adesh-contracts/src/lib.rs that the storage returns and keeps.
use aadesh.Common.{ℕ, String, Bool, Option, List}
use aadesh.Chrono.{Time}
use aadesh.Json.{Value}
use aadesh.Store.Rows.{Operation, SchemaEntry}
use aadesh.Store.WorkflowRows.{WorkflowSpec}

pub record RequestAcceptedResponse : Type 0 where
  pub request_id : String
  pub operation_ids : List String
  pub primary_operation_id : String
  pub audit_trace_ids : List String

pub record CapabilitySnapshotMintResponse : Type 0 where
  pub capability_snapshot_version : String
  pub created_at : Time

pub record ReviewItemDetail : Type 0 where
  pub item_id : String
  pub status : String
  pub source : String
  pub target_domain : String
  pub risk_r_estimate : ℕ
  pub sensitivity_s_estimate : ℕ
  pub requires_oob : Bool
  pub created_at : Time
  pub proposal : Value
  pub evidence : Value
  pub impact : Value
  pub base_version : Option String

pub record ReviewDecisionResponse : Type 0 where
  pub item_id : String
  pub status : String
  pub decision : String
  pub applied_version : Option String

pub record OperationResponse : Type 0 where
  pub operation : Operation
  pub audit_trace_id : String

pub record ApprovalDecisionResponse : Type 0 where
  pub approval_id : String
  pub operation_id : String
  pub decision : String
  pub status : String
  pub operation_state : String
  pub syscall_ids : List String
  pub audit_trace_id : String

pub record OobStartResponse : Type 0 where
  pub approval_id : String
  pub challenge_id : String
  pub expires_at : Time

pub record OobVerifyResponse : Type 0 where
  pub approval_id : String
  pub challenge_id : String
  pub status : String

pub record WorkflowStepStateResponse : Type 0 where
  pub step_id : String
  pub step_type : String
  pub state : String
  pub attempt : ℕ
  pub operation_id : Option String
  pub approval_id : Option String
  pub syscall_id : Option String
  pub updated_at : Time

pub record WorkflowInstanceResponse : Type 0 where
  pub workflow_instance_id : String
  pub workflow_ref : String
  pub parent_request_id : Option String
  pub parent_operation_id : Option String
  pub state : String
  pub state_reason : Option String
  pub pinned_active_state_version : String
  pub pinned_capability_snapshot_version : String
  pub pinned_audience_graph_version : String
  pub inputs : Value
  pub outputs : Option Value
  pub step_states : List WorkflowStepStateResponse
  pub created_at : Time
  pub updated_at : Time

pub record ManualArtifactResponse : Type 0 where
  pub artifact_id : String
  pub ref_id : String
  pub ref_type : String
  pub filename : String
  pub media_type : String
  pub byte_size : ℕ
  pub sensitivity_hint : Option ℕ
  pub created_at : Time

-- The responses that `idempotency_keys` keeps.
pub data StoredResponse : Type 0 where
  operation : OperationResponse → StoredResponse
  decision : ApprovalDecisionResponse → StoredResponse
  oob_start : OobStartResponse → StoredResponse
  oob_verify : OobVerifyResponse → StoredResponse
  accepted : RequestAcceptedResponse → StoredResponse
  minted : CapabilitySnapshotMintResponse → StoredResponse
  registered : SchemaEntry → StoredResponse
  review_item : ReviewItemDetail → StoredResponse
  reviewed : ReviewDecisionResponse → StoredResponse
  workflow_spec : WorkflowSpec → StoredResponse
  workflow_instance : WorkflowInstanceResponse → StoredResponse
  artifact : ManualArtifactResponse → StoredResponse
