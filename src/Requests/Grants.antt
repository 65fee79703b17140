-- ===== src/Requests/Grants.antt =====
-- The tables before and after a call of storage.rs that grants nothing: no system call is added or
-- changed, and, where a send is asked for, no operation is completed.
use aadesh.Common.{
  String, ◌≡◌, refl, sym, ap, ◌∙◌, inl, inr, Bool, true, false, Option, none, some, List, [], ◌∷◌,
  ◌++◌, arith, ◌==◌, any, find, update_where, Bool-cases,
}
use aadesh.Chrono.{Time}
use aadesh.Unicode.{Unicode}
use aadesh.Outcome.{ok, not_found, settle_bind, required}
use aadesh.Store.{
  Operation, Db, RequestAcceptedResponse, GateDecisionInput, CompiledSliceInput,
  ReasoningOutputInput, is_operation, is_approval, is_event,
}
use aadesh.Store.Idempotency.{stored_response, as_accepted}
use aadesh.Store.Stored.{settle_replay}
use aadesh.Operations.Create.{FreshBundle, created_operation, create_work, create_operation_bundle}
use aadesh.Operations.Pinned.{create_work-Creates}
use aadesh.Operations.States.{moved_to, update_operation_state}
use aadesh.Approvals.Items.{ApprovalItemInput, create_approval_item}
use aadesh.Kernel.{RequestEnvelope}
use aadesh.Requests.Records.{
  gate_taken, put_gate_decision, slice_taken, put_compiled_slice, put_reasoning_output,
}

abbrev pub is_done : Option Operation → Bool
is_done none = false
is_done (some o) = o.state == "completed"

abbrev pub is_completed : String → Db → Bool
is_completed k db = is_done (find (is_operation k) db.operations)

module _ (send : Bool) where
  -- From `db` to `db'`.
  abbrev pub GrantsNothing : Db → Db → Type 0
  GrantsNothing db db' =
      (db'.syscalls ≡ db.syscalls)
      × (send ≡ true → (k : String) → is_completed k db' ≡ true → is_completed k db ≡ true)

  pub put_gate_decision-GrantsNothing :
      (now : Time) (fresh : String) (input : GateDecisionInput) (db : Db)
      → GrantsNothing db (put_gate_decision now fresh input db).1
  unfolding put_gate_decision
  put_gate_decision-GrantsNothing now fresh input db =
      elim (Bool-cases (gate_taken fresh input db)) [
        | inl t ↦ rw t (refl, λ s k h. h)
        | inr f ↦ rw f (refl, λ s k h. h)
      ]

  pub put_compiled_slice-GrantsNothing :
      (now : Time) (fresh : String) (input : CompiledSliceInput) (db : Db)
      → GrantsNothing db (put_compiled_slice now fresh input db).1
  unfolding put_compiled_slice
  put_compiled_slice-GrantsNothing now fresh input db =
      elim (Bool-cases (slice_taken fresh input db)) [
        | inl t ↦ rw t (refl, λ s k h. h)
        | inr f ↦ rw f (refl, λ s k h. h)
      ]

  pub put_reasoning_output-GrantsNothing :
      (now : Time) (fresh : String) (input : ReasoningOutputInput) (db : Db)
      → GrantsNothing db (put_reasoning_output now fresh input db).1
  unfolding put_reasoning_output
  put_reasoning_output-GrantsNothing now fresh input db =
      elim (Bool-cases (any (is_event fresh) db.events)) [
        | inl t ↦ rw t (refl, λ s k h. h)
        | inr f ↦ rw f (refl, λ s k h. h)
      ]

  pub create_approval_item-GrantsNothing :
      (now : Time) (fresh : String) (input : ApprovalItemInput) (db : Db)
      → GrantsNothing db (create_approval_item now fresh input db).1
  unfolding create_approval_item
  create_approval_item-GrantsNothing now fresh input db =
      elim (Bool-cases (any (is_approval fresh) db.approvals)) [
        | inl t ↦ rw t (refl, λ s k h. h)
        | inr f ↦ elim (Bool-cases (any (is_operation input.operation_id) db.operations)) [
          | inl known ↦ rw f (rw known (refl, λ s k h. h))
          | inr unknown ↦ rw f (rw unknown (refl, λ s k h. h))
        ]
      ]

  moved_done :
      (i state : String) (reason : Option String) (now : Time) (rows : List Operation) (k : String)
      → (state == "completed") ≡ false
      → is_done
          (find (is_operation k) (update_where (is_operation i) (moved_to state reason now) rows))
        ≡ true
      → is_done (find (is_operation k) rows) ≡ true
  moved_done i state reason now [] k other h = absurd (cc)
  moved_done i state reason now (x ∷ rows) k other h = elim (Bool-cases (is_operation i x)) [
    | inl t ↦ (let h' = rw t at h in ground (arith, moved_done i state reason now rows k other))
    | inr f ↦ (let h' = rw f at h in ground (arith, moved_done i state reason now rows k other))
  ]

  -- The move to `completed` grants nothing where no send is asked for.
  pub update_operation_state-GrantsNothing :
      (now : Time) (fresh i state : String) (reason : Option String) (trace : String) (db : Db)
      → (send ≡ true → (state == "completed") ≡ false)
      → GrantsNothing db (update_operation_state now fresh i state reason trace db).1
  unfolding update_operation_state
  update_operation_state-GrantsNothing now fresh i state reason trace db other =
      settle_bind (λ d. GrantsNothing db d) db
        (required (find (is_operation i) db.operations) not_found) _ (refl, λ s k h. h)
        λ o e. (refl, λ s k h. moved_done i state reason now db.operations k (other s) h)

  appended_done :
      (rows : List Operation) (o : Operation) (k : String)
      → (o.state == "completed") ≡ false
      → is_done (find (is_operation k) (rows ++ o ∷ [])) ≡ true
      → is_done (find (is_operation k) rows) ≡ true
  appended_done [] o k other h = ground arith
  appended_done (x ∷ rows) o k other h = ground (arith, appended_done rows o k other)

  pub create_operation_bundle-GrantsNothing :
      (u : Unicode) (fault : Bool) (now : Time) (fresh : FreshBundle) (request : RequestEnvelope)
      (key : Option String) (db : Db)
      → GrantsNothing db (create_operation_bundle u fault now fresh request key db).1
  unfolding create_operation_bundle
  create_operation_bundle-GrantsNothing u fault now fresh request key db =
      settle_replay (λ d. GrantsNothing db d) as_accepted db (stored_response "/v1/requests" key db)
        (create_work u fault now fresh request key db) (refl, λ s k h. h) work
    where
      work :
          (r : RequestAcceptedResponse) (final : Db)
          → create_work u fault now fresh request key db ≡ ok (r, final)
          → GrantsNothing db final
      work r final e =
          let c = create_work-Creates u fault now fresh request key db e in
          (
            ap (λ (d : Db). d.syscalls) c.records,
            λ s k h.
                appended_done db.operations (created_operation u now fresh request c.current) k refl
                  (ap (λ (d : Db). is_completed k d) (sym c.records) ∙ h),
          )
