-- ===== src/Requests/Repeated.antt =====
-- `submit_request` of routes.rs where an earlier submission stopped after it had stored the gate
-- decision.
use Prim.Native.String.{◌++◌ as str_append}
use aadesh.Common.{
  ◌+◌, String, ◌≡◌, refl, ap, ◌∙◌, true, false, Option, none, some, List, [], ◌∷◌, ◌==◌, any, find,
  Bool-cases, inl, inr,
}
use aadesh.Unicode.{Unicode}
use aadesh.Outcome.{Outcome, ok, err, conflict}
use aadesh.Calls.{◌>>=◌, give}
use aadesh.Store.{
  Db, OperationResponse, RequestAcceptedResponse, accepted, is_manual_artifact, IdempotencyKey,
}
use aadesh.Store.Idempotency.{stored_response}
use aadesh.Calls.Steps.{>>=-ok, >>-err}
use aadesh.Operations.Create.{create_operation_bundle}
use aadesh.Operations.States.{get_operation}
use aadesh.Kernel.{
  Attachment, RequestEnvelope, KernelArtifacts, compile_and_verify_stub, gate_decision,
}
use aadesh.Runner.World.{World, Outside, on_db, reads_db, now_of, new_uuid}
use aadesh.Requests.Records.{is_gate_of, put_gate_decision}
use aadesh.Requests.Artifacts.{found_context, get_manual_artifact_context}
use aadesh.Requests.Submit.{
  Generate, attachment_context, with_context, requests_send, send_descriptor, pins_of,
  store_artifacts, process_created, create_bundle, submit_request,
}

reads_db-ok :
    {A : Type 0} (m : Db → Outcome A) (w : World) {a : A} → m w.db ≡ ok a → reads_db m w ≡ (ok a, w)
unfolding reads_db
reads_db-ok m w e = ap (λ r. (r, w)) e

-- The attachments are only read.
attachment_context_reads :
    (as_ : List Attachment) (w : World)
    → (entries : List String) × (attachment_context as_ w ≡ (ok entries, w))
unfolding attachment_context give reads_db get_manual_artifact_context ◌>>=◌
attachment_context_reads [] w = ([], refl)
attachment_context_reads (a ∷ as_) w = elim (Bool-cases (a.ref_type == "manual_artifact")) [
  | inl t ↦ rw t (read (attachment_context_reads as_ w))
  | inr f ↦ rw f (attachment_context_reads as_ w)
]
  where
    read :
        ((entries : List String) × (attachment_context as_ w ≡ (ok entries, w)))
        → (entries : List String) × ((reads_db (get_manual_artifact_context a.ref_id 1500)
                >>= λ context.
                    attachment_context as_ >>= λ entries. give (with_context context entries))
              w
            ≡ (ok entries, w))
    read (entries, e) = (
      with_context (found_context 1500 (find (is_manual_artifact a.ref_id) w.db.manual_artifacts))
          entries,
      >>=-ok (attachment_context as_) _ e,
    )

module _ (u : Unicode) (o : Outside) (generate : Generate) where
  store_artifacts_conflicts :
      (artifacts : KernelArtifacts) (w : World)
      → any (is_gate_of artifacts.gate_decision.pins.operation_id) w.db.gate_decisions ≡ true
      → store_artifacts u o generate artifacts w
        ≡ (err conflict, record w { ticks = w.ticks + 1 + 1 })
  unfolding store_artifacts ◌>>=◌ new_uuid now_of on_db put_gate_decision
  store_artifacts_conflicts artifacts w h =
      elim (Bool-cases (
        any (λ g. g.gate_decision_id == str_append "gate:" (o.uuid w.ticks)) w.db.gate_decisions)) [
          | inl t ↦ rw t refl
          | inr f ↦ rw f (rw h refl)
        ]

  no_send :
      (request : RequestEnvelope) (current : OperationResponse) (w : World)
      → requests_send u request ≡ false
      → send_descriptor u request current.operation w ≡ (ok none, w)
  unfolding send_descriptor give
  no_send request current w draft = rw draft refl

  gate_stored :
      (request : RequestEnvelope) (current : OperationResponse) (w : World)
      → any (is_gate_of current.operation.operation_id) w.db.gate_decisions ≡ true
      → any
          (is_gate_of
            (compile_and_verify_stub u request
              (pins_of current)
              none).gate_decision.pins.operation_id)
          w.db.gate_decisions
        ≡ true
  unfolding compile_and_verify_stub gate_decision
  gate_stored request current w stored = stored

  process_created_conflicts :
      (request : RequestEnvelope) (current : OperationResponse) (w : World)
      → requests_send u request ≡ false
      → any (is_gate_of current.operation.operation_id) w.db.gate_decisions ≡ true
      → process_created u o generate request current w
        ≡ (err conflict, record w { ticks = w.ticks + 1 + 1 })
  unfolding process_created
  process_created_conflicts request current w draft stored =
      let (entries, reads) = attachment_context_reads request.attachments w in
      >>=-ok (send_descriptor u request current.operation) _ (no_send request current w draft)
      ∙ >>=-ok (attachment_context request.attachments) _ reads
      ∙ >>-err (store_artifacts u o generate _) _
          (store_artifacts_conflicts _ w (gate_stored request current w stored))

  bundle_replayed :
      (request : RequestEnvelope) (key : Option String) (w : World) (row : IdempotencyKey)
      (r : RequestAcceptedResponse)
      → stored_response "/v1/requests" key w.db ≡ some row
      → row.response ≡ accepted r
      → create_bundle u o generate request key w
        ≡ (ok r, record w { ticks = w.ticks + 1 + 1 + 1 + 1 + 1 })
  unfolding create_bundle create_operation_bundle ◌>>=◌ new_uuid now_of on_db
  bundle_replayed request key w row r found is_accepted = rw found (rw is_accepted refl)

  -- Where the submission of a request that asks for no send stopped behind the gate decision (because
  -- the model was out of reach, say), its operation is `created` and has a gate decision. Each
  -- repetition of the request under its idempotency key then fails with a conflict and changes no
  -- table, so that the operation is never carried further.
  pub submit_request_conflicts_again :
      (request : RequestEnvelope) (key : Option String) (w : World) (row : IdempotencyKey)
      (r : RequestAcceptedResponse) (current : OperationResponse)
      → stored_response "/v1/requests" key w.db ≡ some row
      → row.response ≡ accepted r
      → get_operation r.primary_operation_id w.db ≡ ok current
      → current.operation.state ≡ "created"
      → any (is_gate_of current.operation.operation_id) w.db.gate_decisions ≡ true
      → requests_send u request ≡ false
      → ((submit_request u o generate request key w).0 ≡ err conflict)
        × ((submit_request u o generate request key w).1.db ≡ w.db)
  unfolding submit_request
  submit_request_conflicts_again request key w row r current found is_accepted reads created stored
        draft =
      let is_created : (current.operation.state == "created") ≡ true =
        ap (λ s. s == "created") created in
      let v = record w { ticks = w.ticks + 1 + 1 + 1 + 1 + 1 } in
      let again : submit_request u o generate request key w
          ≡ (err conflict, record v { ticks = v.ticks + 1 + 1 }) =
        >>=-ok (create_bundle u o generate request key) _
          (bundle_replayed request key w row r found is_accepted)
        ∙ >>=-ok (reads_db (get_operation r.primary_operation_id)) _ {s = v} (reads_db-ok _ v reads)
        ∙ >>-err _ _ (rw is_created (process_created_conflicts request current v draft stored)) in
      (ap (λ x. x.0) again, ap (λ x. x.1.db) again)
