-- ===== src/Workflows/Final.antt =====
-- Any sequence of the calls of storage.rs on workflows, and an instance that is finished.
use aadesh.Common.{String, ◌≡◌, refl, sym, ap, ◌∙◌, true, List, [], ◌∷◌, ◌==◌, find, select}
use aadesh.Chrono.{Time}
use aadesh.Unicode.{Unicode}
use aadesh.Outcome.{ok, not_found, required, >>=-eq-ok, required-some, ok_injective}
use aadesh.Store.{
  WorkflowInstance, WorkflowStep, WorkflowInstanceResponse, Db, is_workflow_instance,
}
use aadesh.Store.Idempotency.{stored_response, as_workflow_spec, as_workflow_instance}
use aadesh.Store.Stored.{settle_replay}
use aadesh.Registry.Canonical.{Encoding}
use aadesh.Workflows.Specs.{WorkflowSpecRegisterInput, register_spec_work, register_workflow_spec}
use aadesh.Workflows.Instances.{
  WorkflowInstanceCreateInput, FreshWorkflow, sort_steps, instance_response, get_workflow_instance,
  create_instance_work, create_workflow_instance,
}
use aadesh.Workflows.Moves.{
  WorkflowInstanceStateUpdateInput, is_finished, update_scope, update_instance_work,
  update_workflow_instance_state,
}
use aadesh.Workflows.Kept.{Has, create_instance_work-Has, register_spec_work-Has}
use aadesh.Workflows.Ended.{update_instance_work-Has}

-- A call with the instant at which it reads the clock, and the identifiers that it makes.
pub data WorkflowCall : Type 0 where
  register_spec : Time → WorkflowSpecRegisterInput → WorkflowCall
  create_instance : Time → FreshWorkflow → WorkflowInstanceCreateInput → WorkflowCall
  update_instance : Time → String → WorkflowInstanceStateUpdateInput → WorkflowCall

-- The tables after a call, whatever the call returns.
unfoldable pub after_call : Unicode → Encoding → WorkflowCall → Db → Db
after_call u c (register_spec now input) db = (register_workflow_spec u c now input db).1
after_call u c (create_instance now fresh input) db =
    (create_workflow_instance u now fresh input db).1
after_call u c (update_instance now transition input) db =
    (update_workflow_instance_state now transition input db).1

unfoldable pub after_calls : Unicode → Encoding → List WorkflowCall → Db → Db
unfolding after_call
after_calls u c [] db = db
after_calls u c (x ∷ xs) db = after_calls u c xs (after_call u c x db)

module _ (u : Unicode) (c : Encoding) (k : String) (w : WorkflowInstance)
    (steps : List WorkflowStep) (finished : is_finished w.state ≡ true) where
  after_call-Has :
      (x : WorkflowCall) (db : Db) → Has k w steps db → Has k w steps (after_call u c x db)
  unfolding after_call register_workflow_spec create_workflow_instance
      update_workflow_instance_state
  after_call-Has (register_spec now input) db h =
      settle_replay (Has k w steps) as_workflow_spec db
        (stored_response "/v1/workflow-specs" input.idempotency_key db)
        (register_spec_work u c now input db) h
        (register_spec_work-Has k w steps u c now input db h)
  after_call-Has (create_instance now fresh input) db h =
      settle_replay (Has k w steps) as_workflow_instance db
        (stored_response "/v1/workflow-instances" input.idempotency_key db)
        (create_instance_work u now fresh input db) h
        (create_instance_work-Has k w steps u now fresh input db h)
  after_call-Has (update_instance now transition input) db h =
      settle_replay (Has k w steps) as_workflow_instance db
        (stored_response (update_scope input.workflow_instance_id) input.idempotency_key db)
        (update_instance_work now transition input db) h
        (update_instance_work-Has k w steps finished now transition input db h)

  after_calls-Has :
      (calls : List WorkflowCall) (db : Db)
      → Has k w steps db
      → Has k w steps (after_calls u c calls db)
  unfolding after_calls
  after_calls-Has [] db h = h
  after_calls-Has (x ∷ xs) db h = after_calls-Has xs (after_call u c x db) (after_call-Has x db h)

-- A workflow instance that is completed, failed or cancelled is final: after any calls that register
-- specs, create instances and update instances, in any order, failing or not, reading it returns
-- what it returned before, its state, its steps and its dates included.
pub get_workflow_instance-after_calls :
    (u : Unicode) (c : Encoding) (calls : List WorkflowCall) (k : String) (db : Db)
    (r : WorkflowInstanceResponse)
    → get_workflow_instance k db ≡ ok r
    → is_finished r.state ≡ true
    → get_workflow_instance k (after_calls u c calls db) ≡ ok r
unfolding get_workflow_instance
get_workflow_instance-after_calls u c calls k db r e finished =
    let (w, e1, h1) =
      >>=-eq-ok (required (find (is_workflow_instance k) db.workflow_instances) not_found) _ e in
    let same = ok_injective (sym h1) in
    let steps = select (λ (s : WorkflowStep). s.workflow_instance_id == k) db.workflow_steps in
    let ended = ap (λ (x : WorkflowInstanceResponse). is_finished x.state) (sym same) ∙ finished in
    let kept = after_calls-Has u c k w steps ended calls db (required-some _ _ e1, refl) in
    rw (kept.0) (ap (λ ss. ok (instance_response w (sort_steps ss))) kept.1 ∙ h1)
