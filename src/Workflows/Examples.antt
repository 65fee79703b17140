-- ===== src/Workflows/Examples.antt =====
-- A cancelled instance of a workflow of two steps, and calls after it.
use aadesh.Common.{String, ◌≡◌, refl, false, none, some, List, map, [], ◌∷◌}
use aadesh.Json.{Value, null, string, array, object, nil, cons, end, insert_field}
use aadesh.Unicode.{Unicode}
use aadesh.Outcome.{ok}
use aadesh.Store.{WorkflowSpec, WorkflowInstance, WorkflowStep, WorkflowInstanceResponse, Db, empty}
use aadesh.Registry.Canonical.{Encoding}
use aadesh.Workflows.Instances.{
  WorkflowInstanceCreateInput, FreshWorkflow, steps_of, instance_response, get_workflow_instance,
  create_workflow_instance,
}
use aadesh.Workflows.Moves.{WorkflowInstanceStateUpdateInput}
use aadesh.Workflows.Final.{
  WorkflowCall, register_spec, create_instance, update_instance, after_calls,
  get_workflow_instance-after_calls,
}

abbrev plain : Unicode
plain = record { trim = λ s. s; to_lowercase = λ s. s; contains = λ s t. false }

abbrev encoding : Encoding
encoding = record { string_text = λ s. s; number_text = λ n. "0"; sha256_hex = λ s. s }

abbrev step_value : String → String → Value
step_value k kind =
    object (insert_field "step_id" (string k) (insert_field "step_type" (string kind) end))

abbrev payload : Value
payload = object (
    insert_field "steps"
      (array (cons (step_value "send" "syscall") (cons (step_value "draft" "model_call") nil)))
      (insert_field "edges" (array nil)
        (insert_field "entry_steps" (array nil) (insert_field "exit_steps" (array nil) end))))

abbrev spec : WorkflowSpec
spec = record {
  workflow_ref = "workflow:1";
  name = "mail";
  description = none;
  author = "root_owner";
  tags = [];
  content_hash = "1";
  created_at = 1;
  payload = payload;
}

abbrev ended : WorkflowInstance
ended = record {
  workflow_instance_id = "workflow:a";
  workflow_ref = "workflow:1";
  parent_request_id = none;
  parent_operation_id = none;
  created_at = 2;
  updated_at = 3;
  state = "cancelled";
  state_reason = some "cancelled_by_root_owner";
  pinned_active_state_version = "state:1";
  pinned_capability_snapshot_version = "cap:1";
  pinned_audience_graph_version = "graph:1";
  inputs = null;
  outputs = none;
}

abbrev ended_step : WorkflowStep
ended_step = record {
  workflow_instance_id = "workflow:a";
  step_id = "draft";
  step_type = "model_call";
  state = "pending";
  attempt = 0;
  operation_id = none;
  approval_id = none;
  syscall_id = none;
  updated_at = 2;
}

abbrev start : Db
start = record empty {
  versions =
      record { version_kind = "active_state"; version_id = "state:2"; updated_at = 1 }
      ∷ record { version_kind = "audience_graph"; version_id = "graph:1"; updated_at = 1 }
      ∷ record { version_kind = "capability_snapshot"; version_id = "cap:1"; updated_at = 1 }
      ∷ [];
  workflow_specs = spec ∷ [];
  workflow_instances = ended ∷ [];
  workflow_steps = ended_step ∷ [];
}

abbrev fresh : FreshWorkflow
fresh = record {
  workflow_instance_id = "workflow:b";
  transition_id = "workflow-transition:1";
  step_transition_id = λ s. s;
}

abbrev create_input : WorkflowInstanceCreateInput
create_input = record {
  workflow_ref = "workflow:1";
  parent_request_id = none;
  parent_operation_id = none;
  inputs = null;
  idempotency_key = some "key";
}

abbrev cancel_input : String → WorkflowInstanceStateUpdateInput
cancel_input k = record {
  workflow_instance_id = k;
  expected_state = none;
  new_state = "cancelled";
  reason = none;
  idempotency_key = none;
}

abbrev calls : List WorkflowCall
calls =
    register_spec 4 (record {
      name = "mail";
      description = none;
      tags = [];
      spec_payload = payload;
      idempotency_key = none;
    })
    ∷ create_instance 5 fresh create_input
    ∷ update_instance 6 "workflow-transition:2" (cancel_input "workflow:a")
    ∷ update_instance 7 "workflow-transition:3" (cancel_input "workflow:b")
    ∷ []

ended_reads :
    get_workflow_instance "workflow:a" start
    ≡ ok (instance_response ended (steps_of "workflow:a" start.workflow_steps))
unfolding get_workflow_instance
ended_reads = refl

get_workflow_instance-after_calls_example :
    get_workflow_instance "workflow:a" (after_calls plain encoding calls start)
    ≡ ok (instance_response ended (steps_of "workflow:a" start.workflow_steps))
get_workflow_instance-after_calls_example =
    get_workflow_instance-after_calls plain encoding calls "workflow:a" start
      (instance_response ended (steps_of "workflow:a" start.workflow_steps)) ended_reads refl

abbrev step_names : WorkflowInstanceResponse → List String
step_names r = map (λ s. s.step_id) r.step_states

creates :
    (r : WorkflowInstanceResponse) × (after : Db) × (create_workflow_instance plain 5 fresh
        create_input start
      ≡ (ok r, after))
    × (step_names r ≡ "draft" ∷ "send" ∷ [])
    × (r.state ≡ "created")
unfolding create_workflow_instance get_workflow_instance
creates = (_, _, refl, refl, refl)
