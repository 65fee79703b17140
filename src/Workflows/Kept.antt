-- ===== src/Workflows/Kept.antt =====
-- What the calls of storage.rs on workflows leave of an instance and its steps.
use mathlib.Core.Path.{subst}
use aadesh.Common.{
  find-append_some, any_found, String, ◌≡◌, refl, sym, ap, ◌∙◌, inl, inr, Bool, true, false, not,
  ◌&&◌, some, List, [], ◌∷◌, ◌++◌, arith, ◌==◌, eq_of_text, any, find, select, if◌then◌else◌,
  Bool-cases,
}
use aadesh.Chrono.{Time}
use aadesh.Unicode.{Unicode}
use aadesh.Outcome.{
  Outcome, ok, err, conflict, not_found, unavailable, required, >>=-eq-ok, ok_injective,
}
use aadesh.Store.{
  WorkflowInstance, WorkflowStep, WorkflowSpec, WorkflowInstanceResponse, Db, is_workflow_spec,
  is_workflow_instance,
}
use aadesh.Store.Stored.{with_keys, finishes}
use aadesh.Registry.Canonical.{Encoding}
use aadesh.Registry.Versions.{load_current_versions}
use aadesh.Workflows.Specs.{
  StepSpec, WorkflowSpecRegisterInput, parse_workflow_spec_steps, new_spec, insert_spec_or_ignore,
  register_spec_work,
}
use aadesh.Workflows.Instances.{
  WorkflowInstanceCreateInput, FreshWorkflow, get_workflow_instance, new_instance, parent_known,
  insert_instance, new_step, insert_step_state, insert_step_states, create_instance_work,
}

module _ (k : String) (w : WorkflowInstance) (steps : List WorkflowStep) where
  abbrev pub owns_step : WorkflowStep → Bool
  owns_step s = s.workflow_instance_id == k

  -- The tables have the instance and its steps.
  abbrev pub Has : Db → Type 0
  Has db =
      (find (is_workflow_instance k) db.workflow_instances ≡ some w)
      × (select owns_step db.workflow_steps ≡ steps)

  pub Has-keys : (db final : Db) → Has db → final ≡ with_keys final.idempotency_keys db → Has final
  Has-keys db final h e = (
    ap (λ (d : Db). find (is_workflow_instance k) d.workflow_instances) e ∙ h.0,
    ap (λ (d : Db). select owns_step d.workflow_steps) e ∙ h.1,
  )

  select-snoc_other :
      (rows : List WorkflowStep) (s : WorkflowStep)
      → owns_step s ≡ false
      → select owns_step (rows ++ s ∷ []) ≡ select owns_step rows
  select-snoc_other [] s n = rw n refl
  select-snoc_other (x ∷ rows) s n = elim (Bool-cases (owns_step x)) [
    | inl t ↦ rw t (ap (λ xs. x ∷ xs) (select-snoc_other rows s n))
    | inr f ↦ rw f (select-snoc_other rows s n)
  ]

  insert_step_states-Has :
      (now : Time) (fresh : FreshWorkflow) (i : String) (specs : List StepSpec) (db : Db) {db' : Db}
      → (i == k) ≡ false
      → Has db
      → insert_step_states now fresh i specs db ≡ ok db'
      → Has db'
  unfolding insert_step_states
  insert_step_states-Has now fresh i [] db n h e = subst Has (ok_injective e) h
  insert_step_states-Has now fresh i (s ∷ specs) db {db'} n h e =
      let (db1, e1, h1) = >>=-eq-ok (insert_step_state now fresh i s db) _ e in
      insert_step_states-Has now fresh i specs db1 n (inserted db1 e1) h1
    where
      inserted : (db1 : Db) → insert_step_state now fresh i s db ≡ ok db1 → Has db1
      inserted db1 e1 =
          elim (Bool-cases (
            any (λ x. (x.workflow_instance_id == i) && (x.step_id == s.step_id))
              db.workflow_steps)) [
                | inl t ↦ absurd (refuse (rw t at e1))
                | inr f ↦
                    subst Has (ok_injective (rw f at e1))
                      (h.0, select-snoc_other db.workflow_steps (new_step now i s) n ∙ h.1)
              ]
        where
          refuse : ◌≡◌ {A = Outcome Db} (err conflict) (ok db1) → ⊥
          refuse q = cc

  insert_instance-Has :
      (now : Time) (fresh : FreshWorkflow) (v : WorkflowInstance) (db : Db) {db' : Db}
      → Has db
      → insert_instance now fresh v db ≡ ok db'
      → ((v.workflow_instance_id == k) ≡ false) × Has db'
  insert_instance-Has now fresh v db {db'} h e =
      elim (Bool-cases (
        not (any (is_workflow_instance v.workflow_instance_id) db.workflow_instances)
        && parent_known v.parent_operation_id db)) [
          | inl t ↦ (
            elim (Bool-cases (v.workflow_instance_id == k)) [
              | inl same ↦ absurd (taken_id (eq_of_text v.workflow_instance_id k same) (both t).0)
              | inr other ↦ other
            ],
            subst Has (ok_injective (rw t at e)) (
              find-append_some (is_workflow_instance k) db.workflow_instances (v ∷ []) {x = w} h.0,
              h.1,
            ),
          )
          | inr f ↦ absurd (refuse (rw f at e))
        ]
    where
      both : {a b : Bool} → (not a && b) ≡ true → (a ≡ false) × (b ≡ true)
      both {a} {b} q = ground arith

      taken_id :
          v.workflow_instance_id ≡ k
          → any (is_workflow_instance v.workflow_instance_id) db.workflow_instances ≡ false
          → ⊥
      taken_id same free =
          let there = any_found (is_workflow_instance k) db.workflow_instances {x = w} h.0 in
          let free' =
            ap (λ i. any (is_workflow_instance i) db.workflow_instances) (sym same) ∙ free in
          absurd (cc)

      refuse : ◌≡◌ {A = Outcome Db} (err conflict) (ok db') → ⊥
      refuse q = cc

  pub create_instance_work-Has :
      (u : Unicode) (now : Time) (fresh : FreshWorkflow) (input : WorkflowInstanceCreateInput)
      (db : Db)
      → Has db
      → (r : WorkflowInstanceResponse) (final : Db)
      → create_instance_work u now fresh input db ≡ ok (r, final)
      → Has final
  unfolding create_instance_work
  create_instance_work-Has u now fresh input db h r final e =
      let (spec, e1, h1) =
        >>=-eq-ok
          (required (find (is_workflow_spec input.workflow_ref) db.workflow_specs) not_found) _ e in
      let (specs, e2, h2) = >>=-eq-ok (parse_workflow_spec_steps u spec.payload) _ h1 in
      let (current, e3, h3) = >>=-eq-ok (load_current_versions db) _ h2 in
      let i = fresh.workflow_instance_id in
      let (db1, e4, h4) =
        >>=-eq-ok (insert_instance now fresh (new_instance now i input current) db) _ h3 in
      let (db2, e5, h5) = >>=-eq-ok (insert_step_states now fresh i specs db1) _ h4 in
      let (response, e6, h6) = >>=-eq-ok (get_workflow_instance i db2) _ h5 in
      let there = insert_instance-Has now fresh (new_instance now i input current) db h e4 in
      let kept = finishes _ _ _ _ _ db2 h6 in
      Has-keys db2 final (insert_step_states-Has now fresh i specs db1 there.0 there.1 e5) kept.1

  pub register_spec_work-Has :
      (u : Unicode) (c : Encoding) (now : Time) (input : WorkflowSpecRegisterInput) (db : Db)
      → Has db
      → (r : WorkflowSpec) (final : Db) → register_spec_work u c now input db ≡ ok (r, final)
      → Has final
  unfolding register_spec_work
  register_spec_work-Has u c now input db h r final e =
      let (_, e1, h1) = >>=-eq-ok (parse_workflow_spec_steps u input.spec_payload) _ e in
      let db' = insert_spec_or_ignore (new_spec c now input) db in
      let (stored, e2, h2) =
        >>=-eq-ok
          (required (find (is_workflow_spec (new_spec c now input).workflow_ref) db'.workflow_specs)
            unavailable)
          _ h1 in
      let kept = finishes _ _ _ _ _ db' h2 in
      Has-keys db' final
        (inserted (any (is_workflow_spec (new_spec c now input).workflow_ref) db.workflow_specs))
        kept.1
    where
      inserted :
          (b : Bool)
          → Has (
              if b
              then db
              else record db { workflow_specs = db.workflow_specs ++ new_spec c now input ∷ [] })
      inserted true = h
      inserted false = h
