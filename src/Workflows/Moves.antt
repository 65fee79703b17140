-- ===== src/Workflows/Moves.antt =====
-- `update_workflow_instance_state` of storage.rs.
use Prim.Native.String.{◌++◌ as str_append}
use aadesh.Common.{
  String, Bool, true, not, Option, none, some, [], ◌∷◌, ◌++◌, ◌||◌, ◌==◌, find, update_where,
}
use aadesh.Chrono.{Time}
use aadesh.Outcome.{Outcome, ok, conflict, not_found, ◌>>=◌, ◌>>◌, ensure, required, transact}
use aadesh.Store.{
  WorkflowInstance, WorkflowInstanceResponse, Db, workflow_instance, is_workflow_instance,
}
use aadesh.Store.Idempotency.{stored_response, store_response, replay_or, as_workflow_instance}
use aadesh.Workflows.Instances.{get_workflow_instance}

pub record WorkflowInstanceStateUpdateInput : Type 0 where
  pub workflow_instance_id : String
  pub expected_state : Option String
  pub new_state : String
  pub reason : Option String
  pub idempotency_key : Option String

abbrev pub is_expected : Option String → String → Bool
is_expected none state = true
is_expected (some s) state = state == s

abbrev pub is_finished : String → Bool
is_finished s = (s == "completed") || ((s == "failed") || (s == "cancelled"))

abbrev pub update_scope : String → String
update_scope k = str_append "/v1/workflow-instances/" (str_append k "/cancel")

abbrev pub instance_moved : Time → String → Option String → WorkflowInstance → WorkflowInstance
instance_moved now state reason w = record w {
  state = state;
  state_reason = reason;
  updated_at = now;
}

abbrev pub moved_rows : Time → String → WorkflowInstanceStateUpdateInput → String → Db → Db
moved_rows now transition input from db = record db {
  workflow_instances =
      update_where (is_workflow_instance input.workflow_instance_id)
        (instance_moved now input.new_state input.reason) db.workflow_instances;
  workflow_transitions =
      db.workflow_transitions
      ++ record {
        transition_id = transition;
        workflow_instance_id = input.workflow_instance_id;
        ts = now;
        from_state = some from;
        to_state = input.new_state;
        reason = input.reason;
      }
        ∷ [];
}

unfoldable pub update_instance_work :
    Time → String → WorkflowInstanceStateUpdateInput → Db → Outcome (WorkflowInstanceResponse × Db)
unfolding get_workflow_instance store_response
update_instance_work now transition input db = do
  w ←
      required (find (is_workflow_instance input.workflow_instance_id) db.workflow_instances)
        not_found
  ensure (is_expected input.expected_state w.state) conflict
  ensure (not (is_finished w.state)) conflict
  let db' = moved_rows now transition input w.state db
  response ← get_workflow_instance input.workflow_instance_id db'
  final ←
      store_response (update_scope input.workflow_instance_id) input.idempotency_key
        response.workflow_instance_id (workflow_instance response) now db'
  ok (response, final)

unfoldable pub update_workflow_instance_state :
    Time → String → WorkflowInstanceStateUpdateInput → Db → Outcome WorkflowInstanceResponse × Db
unfolding update_instance_work stored_response
update_workflow_instance_state now transition input = transact λ db.
    replay_or as_workflow_instance db
      (stored_response (update_scope input.workflow_instance_id) input.idempotency_key db)
      (update_instance_work now transition input db)
