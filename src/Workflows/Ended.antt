-- ===== src/Workflows/Ended.antt =====
-- What `update_workflow_instance_state` (storage.rs) leaves of a finished instance.
use aadesh.Common.{
  String, ◌≡◌, refl, sym, ap, ◌∙◌, inl, inr, true, false, not, some, List, [], ◌∷◌, arith, ◌==◌,
  eq_of_text, find, update_where, Bool-cases,
}
use aadesh.Chrono.{Time}
use aadesh.Outcome.{
  ok, conflict, not_found, ensure, required, >>=-eq-ok, ensure_holds, required-some,
}
use aadesh.Store.{
  WorkflowInstance, WorkflowStep, WorkflowInstanceResponse, Db, is_workflow_instance,
}
use aadesh.Store.Stored.{finishes}
use aadesh.Workflows.Instances.{get_workflow_instance}
use aadesh.Workflows.Moves.{
  WorkflowInstanceStateUpdateInput, is_expected, is_finished, instance_moved, moved_rows,
  update_instance_work,
}
use aadesh.Workflows.Kept.{Has, Has-keys}

find-update_other :
    (i k : String) (f : WorkflowInstance → WorkflowInstance) (rows : List WorkflowInstance)
    {w : WorkflowInstance}
    → ((x : WorkflowInstance) → (f x).workflow_instance_id ≡ x.workflow_instance_id)
    → (i == k) ≡ false
    → find (is_workflow_instance k) rows ≡ some w
    → find (is_workflow_instance k) (update_where (is_workflow_instance i) f rows) ≡ some w
find-update_other i k f [] same n e = e
find-update_other i k f (x ∷ rows) {w} same n e = elim (Bool-cases (is_workflow_instance i x)) [
  | inl here ↦
      let own = eq_of_text x.workflow_instance_id i here in
      let not_k : is_workflow_instance k x ≡ false = ap (λ s. s == k) own ∙ n in
      let not_k' : is_workflow_instance k (f x) ≡ false = ap (λ s. s == k) (same x) ∙ not_k in
      let later = find-update_other i k f rows {w = w} same n (rw not_k at e) in
      rw here (rw not_k' later)
  | inr other ↦ rw other (ground (arith, find-update_other i k f rows {w = w} same n))
]

module _ (k : String) (w : WorkflowInstance) (steps : List WorkflowStep)
    (finished : is_finished w.state ≡ true) where
  pub update_instance_work-Has :
      (now : Time) (transition : String) (input : WorkflowInstanceStateUpdateInput) (db : Db)
      → Has k w steps db
      → (r : WorkflowInstanceResponse) (final : Db)
      → update_instance_work now transition input db ≡ ok (r, final)
      → Has k w steps final
  unfolding update_instance_work
  update_instance_work-Has now transition input db h r final e =
      let i = input.workflow_instance_id in
      let (v, e1, h1) =
        >>=-eq-ok (required (find (is_workflow_instance i) db.workflow_instances) not_found) _ e in
      let (_, e2, h2) =
        >>=-eq-ok (ensure (is_expected input.expected_state v.state) conflict) _ h1 in
      let (_, e3, h3) = >>=-eq-ok (ensure (not (is_finished v.state)) conflict) _ h2 in
      let db' = moved_rows now transition input v.state db in
      let (response, e4, h4) = >>=-eq-ok (get_workflow_instance i db') _ h3 in
      let kept = finishes _ _ _ _ _ db' h4 in
      elim (Bool-cases (i == k)) [
        | inl same ↦
            absurd (unfinished v (eq_of_text i k same) (required-some _ _ e1) (ensure_holds _ _ e3))
        | inr other ↦
            Has-keys k w steps db' final
              (
                find-update_other i k (instance_moved now input.new_state input.reason)
                    db.workflow_instances {w = w} (λ x. refl) other h.0,
                h.1,
              )
              kept.1
      ]
    where
      unfinished :
          (v : WorkflowInstance)
          → input.workflow_instance_id ≡ k
          → find (is_workflow_instance input.workflow_instance_id) db.workflow_instances ≡ some v
          → not (is_finished v.state) ≡ true
          → ⊥
      unfinished v same found goes_on =
          let here =
            ap (λ i. find (is_workflow_instance i) db.workflow_instances) (sym same) ∙ found in
          let row : w ≡ v = some_eq (sym h.0 ∙ here) in
          let done : is_finished v.state ≡ true =
            ap (λ (x : WorkflowInstance). is_finished x.state) (sym row) ∙ finished in
          absurd (ground arith)
        where
          some_eq : {a b : WorkflowInstance} → some a ≡ some b → a ≡ b
          some_eq q = cc
