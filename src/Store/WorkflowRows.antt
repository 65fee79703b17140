-- ===== src/Store/WorkflowRows.antt =====
-- The rows of the tables of 0007_workflow_interface.sql (crates/adesh-storage-sqlite/migrations) that
-- workflows live in.
use aadesh.Common.{ℕ, String, Option, List}
use aadesh.Chrono.{Time}
use aadesh.Json.{Value}

-- `workflow_specs`; the response has the same fields
pub record WorkflowSpec : Type 0 where
  pub workflow_ref : String
  pub name : String
  pub description : Option String
  pub author : String
  pub tags : List String
  pub content_hash : String
  pub created_at : Time
  pub payload : Value

-- `workflow_instances`
pub record WorkflowInstance : Type 0 where
  pub workflow_instance_id : String
  pub workflow_ref : String
  pub parent_request_id : Option String
  pub parent_operation_id : Option String
  pub created_at : Time
  pub updated_at : Time
  pub state : String
  pub state_reason : Option String
  pub pinned_active_state_version : String
  pub pinned_capability_snapshot_version : String
  pub pinned_audience_graph_version : String
  pub inputs : Value
  pub outputs : Option Value

-- `workflow_instance_transitions`
pub record WorkflowTransition : Type 0 where
  pub transition_id : String
  pub workflow_instance_id : String
  pub ts : Time
  pub from_state : Option String
  pub to_state : String
  pub reason : Option String

-- `workflow_step_states`
pub record WorkflowStep : Type 0 where
  pub workflow_instance_id : String
  pub step_id : String
  pub step_type : String
  pub state : String
  pub attempt : ℕ
  pub operation_id : Option String
  pub approval_id : Option String
  pub syscall_id : Option String
  pub updated_at : Time

-- `workflow_step_transitions`
pub record WorkflowStepTransition : Type 0 where
  pub transition_id : String
  pub workflow_instance_id : String
  pub step_id : String
  pub ts : Time
  pub from_state : Option String
  pub to_state : String
  pub reason : Option String
  pub linked_operation_id : Option String
  pub linked_approval_id : Option String
  pub linked_syscall_id : Option String
