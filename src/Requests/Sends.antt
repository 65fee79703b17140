-- ===== src/Requests/Sends.antt =====
-- `submit_request` of routes.rs: what a request can bring about by itself.
use aadesh.Common.{String, ◌≡◌, ◌≢◌, refl, ◌∙◌, Bool, true, false, Option, List, [], ◌∷◌, ◌==◌}
use aadesh.Chrono.{Time}
use aadesh.Unicode.{Unicode}
use aadesh.Outcome.{Outcome}
use aadesh.Calls.{Call}
use aadesh.Calls.Moves.{Order, Moves, Moves-bind, Moves-then, Moves-give, Moves-if}
use aadesh.Store.{Db, Operation, OperationResponse}
use aadesh.Schemas.Descriptor.{ActionDescriptor}
use aadesh.Kernel.{
  Attachment, RequestEnvelope, KernelOutcome, KernelArtifacts, completed_draft, awaiting_approval,
  blocked, predicates, compile_and_verify_stub,
}
use aadesh.Kernel.Gate.{send_needs_approval}
use aadesh.Runner.World.{World, Outside, on_db, reads_db, now_of, new_uuid}
use aadesh.Requests.Submit.{
  Generate, ModelGenerateInput, asks, with_context, attachment_context, requests_send,
  send_descriptor, pins_of, store_artifacts, store_reasoning, move_operation, apply_outcome,
  process_created, create_bundle, submit_request,
}
use aadesh.Requests.Grants.{
  GrantsNothing, is_completed, put_gate_decision-GrantsNothing, put_compiled_slice-GrantsNothing,
  put_reasoning_output-GrantsNothing, create_approval_item-GrantsNothing,
  update_operation_state-GrantsNothing, create_operation_bundle-GrantsNothing,
}

module _ (send : Bool) where
  abbrev pub granting : Order World
  granting = record {
    below = λ w w'. (w'.tool_calls ≡ w.tool_calls) × GrantsNothing send w.db w'.db;
    below_refl = λ w. (refl, (refl, λ s k h. h));
    below_trans = λ u v w a b. (b.0 ∙ a.0, (b.1.0 ∙ a.1.0, λ s k h. a.1.1 s k (b.1.1 s k h)));
  }

  abbrev pub IsGranting : {A : Type 0} → Call World A → Type 0
  IsGranting m = Moves granting m

  on_db-IsGranting :
      {A : Type 0} (m : Db → Outcome A × Db)
      → ((db : Db) → GrantsNothing send db (m db).1)
      → IsGranting (on_db m)
  unfolding on_db
  on_db-IsGranting m h = record { moves = λ w. (refl, h w.db) }

  reads_db-IsGranting : {A : Type 0} (m : Db → Outcome A) → IsGranting (reads_db m)
  unfolding reads_db
  reads_db-IsGranting m = record { moves = λ w. granting.below_refl w }

  now_of-IsGranting : (o : Outside) → IsGranting (now_of o)
  unfolding now_of
  now_of-IsGranting o = record { moves = λ w. granting.below_refl w }

  new_uuid-IsGranting : (o : Outside) → IsGranting (new_uuid o)
  unfolding new_uuid
  new_uuid-IsGranting o = record { moves = λ w. granting.below_refl w }

  asks-IsGranting : (g : Generate) (i : ModelGenerateInput) → IsGranting (asks g i)
  asks-IsGranting g i = record { moves = λ w. granting.below_refl w }

ruleset granting_calls = (
  Moves-bind, Moves-then, Moves-give, on_db-IsGranting, reads_db-IsGranting, now_of-IsGranting,
  new_uuid-IsGranting, asks-IsGranting, put_gate_decision-GrantsNothing,
  put_compiled_slice-GrantsNothing, put_reasoning_output-GrantsNothing,
  create_approval_item-GrantsNothing, create_operation_bundle-GrantsNothing,
)

module _ (u : Unicode) (o : Outside) (generate : Generate) (send : Bool) where
  attachment_context-IsGranting : (as_ : List Attachment) → IsGranting send (attachment_context as_)
  unfolding attachment_context
  attachment_context-IsGranting [] = search granting_calls
  attachment_context-IsGranting (a ∷ as_) =
      let rest = attachment_context-IsGranting as_ in
      Moves-if _ (a.ref_type == "manual_artifact")
        (λ e.
          Moves-bind _ (reads_db-IsGranting send _)
            λ context. Moves-bind _ rest λ entries. Moves-give _ (with_context context entries))
        λ e. rest

  send_descriptor-IsGranting :
      (request : RequestEnvelope) (operation : Operation)
      → IsGranting send (send_descriptor u request operation)
  unfolding send_descriptor
  send_descriptor-IsGranting request operation = search (granting_calls, Moves-if)

  store_artifacts-IsGranting :
      (artifacts : KernelArtifacts) → IsGranting send (store_artifacts u o generate artifacts)
  unfolding store_artifacts
  store_artifacts-IsGranting artifacts = search granting_calls depth 12

  store_reasoning-IsGranting :
      (request : RequestEnvelope) (current : OperationResponse) (context : List String)
      → IsGranting send (store_reasoning u o generate request current context)
  unfolding store_reasoning
  store_reasoning-IsGranting request current context = search granting_calls depth 12

  move_operation-IsGranting :
      (current : OperationResponse) (state reason : String)
      → (send ≡ true → (state == "completed") ≡ false)
      → IsGranting send (move_operation u o generate current state reason)
  unfolding move_operation
  move_operation-IsGranting current state reason other =
      search
        (
          granting_calls,
          λ (now : Time) (fresh i : String) (reason' : Option String) (trace : String) (db : Db).
              update_operation_state-GrantsNothing send now fresh i state reason' trace db other,
        )
        depth 12

  await_approval-IsGranting :
      (current : OperationResponse)
      → IsGranting send
          (move_operation u o generate current "awaiting_approval" "approval_required")
  await_approval-IsGranting current = move_operation-IsGranting current _ _ λ s. refl

  apply_outcome-IsGranting :
      (current : OperationResponse) (out : KernelOutcome)
      → (send ≡ true → out ≢ completed_draft)
      → IsGranting send (apply_outcome u o generate current out)
  unfolding apply_outcome
  apply_outcome-IsGranting current completed_draft draft =
      move_operation-IsGranting current "completed" "draft_ready" λ s. absurd (draft s refl)
  apply_outcome-IsGranting current (awaiting_approval plan) draft =
      search (granting_calls, await_approval-IsGranting) depth 12
  apply_outcome-IsGranting current (blocked reason) draft =
      move_operation-IsGranting current "blocked" reason λ s. refl

  is_asked :
      (request : RequestEnvelope) (d : Option ActionDescriptor)
      → requests_send u request ≡ true
      → (predicates u request d).requested_send ≡ true
  unfolding predicates
  is_asked request d h = h

  kernel_outcome-IsGranting :
      (request : RequestEnvelope) (current : OperationResponse) (d : Option ActionDescriptor)
      → (send ≡ true → requests_send u request ≡ true)
      → IsGranting send (
          apply_outcome u o generate current
            (compile_and_verify_stub u request (pins_of current) d).outcome)
  kernel_outcome-IsGranting request current d asked =
      apply_outcome-IsGranting current _
        λ s. (send_needs_approval u request (pins_of current) d (is_asked request d (asked s))).0

  process_created-IsGranting :
      (request : RequestEnvelope) (current : OperationResponse)
      → (send ≡ true → requests_send u request ≡ true)
      → IsGranting send (process_created u o generate request current)
  unfolding process_created
  process_created-IsGranting request current asked =
      search
        (
          granting_calls, send_descriptor-IsGranting, attachment_context-IsGranting,
          store_artifacts-IsGranting, store_reasoning-IsGranting, kernel_outcome-IsGranting,
        )
        depth 12

  submit_request-IsGranting :
      (request : RequestEnvelope) (key : Option String)
      → (send ≡ true → requests_send u request ≡ true)
      → IsGranting send (submit_request u o generate request key)
  unfolding submit_request create_bundle
  submit_request-IsGranting request key asked =
      search (granting_calls, Moves-if, process_created-IsGranting) depth 20

module _ (u : Unicode) (o : Outside) (generate : Generate) where
  -- A request by itself permits nothing: however its submission comes out, the system calls are those
  -- there were, and no tool is called.
  pub submit_request_permits_nothing :
      (request : RequestEnvelope) (key : Option String) (w : World)
      → ((submit_request u o generate request key w).1.db.syscalls ≡ w.db.syscalls)
        × ((submit_request u o generate request key w).1.tool_calls ≡ w.tool_calls)
  submit_request_permits_nothing request key w =
      let granted =
        (submit_request-IsGranting u o generate false request key λ s. absurd (cc)).moves w in
      (granted.1.0, granted.0)

  -- The submission of a request whose text asks for a send completes no operation, neither its own
  -- nor another: one that is completed after it was completed before it.
  pub submit_request_completes_no_send :
      (request : RequestEnvelope) (key : Option String) (w : World)
      → requests_send u request ≡ true
      → (k : String) → is_completed k (submit_request u o generate request key w).1.db ≡ true
      → is_completed k w.db ≡ true
  submit_request_completes_no_send request key w asked =
      ((submit_request-IsGranting u o generate true request key λ s. asked).moves w).1.1 refl
