-- ===== src/Workflows/Instances.antt =====
-- `create_workflow_instance` and `get_workflow_instance` of storage.rs.
use Prim.Native.String.{compare}
use Prim.Native.Nat.{Ordering}
use aadesh.Common.{
  String, Bool, true, not, Option, none, some, List, [], ◌∷◌, ◌++◌, ◌&&◌, ◌==◌, any, find, map,
  select, if◌then◌else◌,
}
use aadesh.Chrono.{Time}
use aadesh.Json.{Value}
use aadesh.Unicode.{Unicode}
use aadesh.Outcome.{Outcome, ok, err, conflict, not_found, ◌>>=◌, required, transact}
use aadesh.Store.{
  WorkflowInstance, WorkflowStep, WorkflowStepStateResponse, WorkflowInstanceResponse, Db,
  workflow_instance, is_workflow_spec, is_workflow_instance, is_operation,
}
use aadesh.Store.Idempotency.{stored_response, store_response, replay_or, as_workflow_instance}
use aadesh.Registry.Versions.{CurrentVersions, load_current_versions}
use aadesh.Workflows.Specs.{StepSpec, parse_workflow_spec_steps}

pub record WorkflowInstanceCreateInput : Type 0 where
  pub workflow_ref : String
  pub parent_request_id : Option String
  pub parent_operation_id : Option String
  pub inputs : Value
  pub idempotency_key : Option String

-- The identifiers from `Uuid::new_v4`; the transition of a step has its own.
pub record FreshWorkflow : Type 0 where
  pub workflow_instance_id : String
  pub transition_id : String
  pub step_transition_id : String → String

-- `ORDER BY step_id ASC`
abbrev pub insert_step : WorkflowStep → List WorkflowStep → List WorkflowStep
insert_step s [] = s ∷ []
insert_step s (x ∷ xs) =
    let rest = insert_step s xs in
    elim (compare s.step_id x.step_id) [ Ordering.gt ↦ x ∷ rest | _ ↦ s ∷ x ∷ xs ]

abbrev pub sort_steps : List WorkflowStep → List WorkflowStep
sort_steps [] = []
sort_steps (s ∷ ss) = insert_step s (sort_steps ss)

-- `parse_workflow_step_state`
abbrev pub step_response : WorkflowStep → WorkflowStepStateResponse
step_response s = record {
  step_id = s.step_id;
  step_type = s.step_type;
  state = s.state;
  attempt = s.attempt;
  operation_id = s.operation_id;
  approval_id = s.approval_id;
  syscall_id = s.syscall_id;
  updated_at = s.updated_at;
}

abbrev pub steps_of : String → List WorkflowStep → List WorkflowStep
steps_of k steps = sort_steps (select (λ s. s.workflow_instance_id == k) steps)

abbrev pub instance_response : WorkflowInstance → List WorkflowStep → WorkflowInstanceResponse
instance_response w steps = record {
  workflow_instance_id = w.workflow_instance_id;
  workflow_ref = w.workflow_ref;
  parent_request_id = w.parent_request_id;
  parent_operation_id = w.parent_operation_id;
  state = w.state;
  state_reason = w.state_reason;
  pinned_active_state_version = w.pinned_active_state_version;
  pinned_capability_snapshot_version = w.pinned_capability_snapshot_version;
  pinned_audience_graph_version = w.pinned_audience_graph_version;
  inputs = w.inputs;
  outputs = w.outputs;
  step_states = map step_response steps;
  created_at = w.created_at;
  updated_at = w.updated_at;
}

-- `get_workflow_instance_from_tx`, and the same on the pool
unfoldable pub get_workflow_instance : String → Db → Outcome WorkflowInstanceResponse
get_workflow_instance k db = do
  w ← required (find (is_workflow_instance k) db.workflow_instances) not_found
  ok (instance_response w (steps_of k db.workflow_steps))

abbrev pub new_instance :
    Time → String → WorkflowInstanceCreateInput → CurrentVersions → WorkflowInstance
new_instance now k input current = record {
  workflow_instance_id = k;
  workflow_ref = input.workflow_ref;
  parent_request_id = input.parent_request_id;
  parent_operation_id = input.parent_operation_id;
  created_at = now;
  updated_at = now;
  state = "created";
  state_reason = none;
  pinned_active_state_version = current.active_state_version;
  pinned_capability_snapshot_version = current.capability_snapshot_version;
  pinned_audience_graph_version = current.audience_graph_version;
  inputs = input.inputs;
  outputs = none;
}

-- The foreign key of the parent operation.
abbrev pub parent_known : Option String → Db → Bool
parent_known none db = true
parent_known (some k) db = any (is_operation k) db.operations

-- The row of the instance and its first transition.
abbrev pub insert_instance : Time → FreshWorkflow → WorkflowInstance → Db → Outcome Db
insert_instance now fresh w db =
    if not (any (is_workflow_instance w.workflow_instance_id) db.workflow_instances)
      && parent_known w.parent_operation_id db
    then ok (record db {
      workflow_instances = db.workflow_instances ++ w ∷ [];
      workflow_transitions =
          db.workflow_transitions
          ++ record {
            transition_id = fresh.transition_id;
            workflow_instance_id = w.workflow_instance_id;
            ts = now;
            from_state = none;
            to_state = "created";
            reason = none;
          }
            ∷ [];
    })
    else err conflict

abbrev pub new_step : Time → String → StepSpec → WorkflowStep
new_step now k s = record {
  workflow_instance_id = k;
  step_id = s.step_id;
  step_type = s.step_type;
  state = "pending";
  attempt = 0;
  operation_id = none;
  approval_id = none;
  syscall_id = none;
  updated_at = now;
}

-- One turn of the loop: the primary key refuses a step that the instance has already.
abbrev pub insert_step_state : Time → FreshWorkflow → String → StepSpec → Db → Outcome Db
insert_step_state now fresh k s db =
    if any (λ x. (x.workflow_instance_id == k) && (x.step_id == s.step_id)) db.workflow_steps
    then err conflict
    else ok (record db {
      workflow_steps = db.workflow_steps ++ new_step now k s ∷ [];
      workflow_step_transitions =
          db.workflow_step_transitions
          ++ record {
            transition_id = fresh.step_transition_id s.step_id;
            workflow_instance_id = k;
            step_id = s.step_id;
            ts = now;
            from_state = none;
            to_state = "pending";
            reason = some "instance_created";
            linked_operation_id = none;
            linked_approval_id = none;
            linked_syscall_id = none;
          }
            ∷ [];
    })

unfoldable pub insert_step_states : Time → FreshWorkflow → String → List StepSpec → Db → Outcome Db
insert_step_states now fresh k [] db = ok db
insert_step_states now fresh k (s ∷ ss) db = do
  db' ← insert_step_state now fresh k s db
  insert_step_states now fresh k ss db'

unfoldable pub create_instance_work :
    Unicode
    → Time
    → FreshWorkflow
    → WorkflowInstanceCreateInput
    → Db
    → Outcome (WorkflowInstanceResponse × Db)
unfolding parse_workflow_spec_steps load_current_versions insert_step_states get_workflow_instance
    store_response
create_instance_work u now fresh input db = do
  spec ← required (find (is_workflow_spec input.workflow_ref) db.workflow_specs) not_found
  steps ← parse_workflow_spec_steps u spec.payload
  current ← load_current_versions db
  let k = fresh.workflow_instance_id
  db1 ← insert_instance now fresh (new_instance now k input current) db
  db2 ← insert_step_states now fresh k steps db1
  response ← get_workflow_instance k db2
  final ←
      store_response "/v1/workflow-instances" input.idempotency_key response.workflow_instance_id
        (workflow_instance response) now db2
  ok (response, final)

unfoldable pub create_workflow_instance :
    Unicode
    → Time
    → FreshWorkflow
    → WorkflowInstanceCreateInput
    → Db
    → Outcome WorkflowInstanceResponse × Db
unfolding create_instance_work stored_response
create_workflow_instance u now fresh input = transact λ db.
    replay_or as_workflow_instance db
      (stored_response "/v1/workflow-instances" input.idempotency_key db)
      (create_instance_work u now fresh input db)
