-- ===== src/Operations/Created.antt =====
-- `create_operation_bundle` (storage.rs), and the reads and requests after it.
use Prim.Native.String.{◌++◌ as str_append}
use aadesh.Common.{
  any-append, any-append_last, find-append_last, All-weaken, String, ◌≡◌, refl, sym, ap, ◌∙◌, inl,
  inr, Bool, true, false, Option, none, some, List, [], ◌∷◌, ◌++◌, ◌==◌, eq_of_text, eq_refl, any,
  find, select, All, All-append, Bool-cases,
}
use mathlib.Core.Path.{subst}
use aadesh.Chrono.{Time}
use aadesh.Unicode.{Unicode}
use aadesh.Outcome.{ok, err, unavailable}
use aadesh.Store.{
  Operation, OperationResponse, AuditTrace, Event, Db, RequestAcceptedResponse, request_received,
  request_accepted, is_event, is_operation, is_trace_of,
}
use aadesh.Store.Idempotency.{stored_response}
use aadesh.Registry.Versions.{last_version, load_current_versions}
use aadesh.Kernel.{RequestEnvelope}
use aadesh.Operations.Create.{
  FreshBundle, request_event_ref, created_operation, create_work, create_operation_bundle,
}
use aadesh.Operations.Pinned.{create_work-Creates, versions-eq}
use aadesh.Operations.States.{get_operation, get_request_status}

-- Every operation has the event of its request.
abbrev pub IsAnnounced : Db → Type 0
IsAnnounced db =
    All
      (λ (o : Operation).
        any (is_event (str_append "event:request:" o.parent_request_id)) db.events ≡ true)
      db.operations

-- No operation belongs to a request that was not announced.
select_unannounced :
    (k : String) (events : List Event) (rows : List Operation)
    → All
        (λ (o : Operation).
          any (is_event (str_append "event:request:" o.parent_request_id)) events ≡ true)
        rows
    → any (is_event (str_append "event:request:" k)) events ≡ false
    → select (λ (o : Operation). o.parent_request_id == k) rows ≡ []
select_unannounced k events [] h n = refl
select_unannounced k events (o ∷ rows) h n = elim (Bool-cases (o.parent_request_id == k)) [
  | inl own ↦ absurd (clash (eq_of_text o.parent_request_id k own))
  | inr other ↦ rw other (select_unannounced k events rows h.1 n)
]
  where
    clash : o.parent_request_id ≡ k → ⊥
    clash e =
        let here = sym (ap (λ x. any (is_event (str_append "event:request:" x)) events) e) ∙ h.0 in
        absurd (cc)

select-append {ℓ} :
    {A : Type ℓ} (p : A → Bool) (xs : List A) (x : A)
    → select p xs ≡ []
    → p x ≡ true
    → select p (xs ++ x ∷ []) ≡ x ∷ []
select-append p [] x h e = rw e
select-append p (y ∷ ys) x h e = elim (Bool-cases (p y)) [
  | inl t ↦ absurd (full (rw t at h))
  | inr f ↦ rw f (select-append p ys x (rw f at h) e)
]
  where
    full : {zs : List _} → y ∷ zs ≡ [] → ⊥
    full q = absurd (cc)

module _ (u : Unicode) (fault : Bool) (now : Time) (fresh : FreshBundle) (request : RequestEnvelope)
    (key : Option String) (db final : Db) (r : RequestAcceptedResponse) where
  abbrev new_event : Event
  new_event = record {
    event_ref = request_event_ref request;
    created_at = now;
    body = request_received request.request_id;
  }

  -- Take a request that is carried out, where the fresh identifier of its operation names no earlier
  -- operation and no earlier trace. Its answer names the request, one operation and one audit trace.
  -- The operation can be read back: it has the audit trace that the answer names, is in state created
  -- without a reason, belongs to the request and its audience, has the budgets of the request, and
  -- pins for each kind the version that was current when the request came.
  pub get_operation-create_work :
      create_work u fault now fresh request key db ≡ ok (r, final)
      → any (is_operation fresh.operation_id) db.operations ≡ false
      → any (is_trace_of fresh.operation_id) db.audit_traces ≡ false
      → (read : OperationResponse) × (get_operation r.primary_operation_id final ≡ ok read)
        × (r.request_id ≡ request.request_id)
        × (r.operation_ids ≡ read.operation.operation_id ∷ [])
        × (r.audit_trace_ids ≡ read.audit_trace_id ∷ [])
        × (read.operation.state ≡ "created")
        × (read.operation.state_reason ≡ none)
        × (read.operation.parent_request_id ≡ request.request_id)
        × (read.operation.requesting_audience_id ≡ request.requesting_audience_id)
        × (read.operation.budgets ≡ request.budgets)
        × (last_version "active_state" db.versions none
            ≡ some read.operation.pinned_active_state_version)
        × (last_version "audience_graph" db.versions none
            ≡ some read.operation.pinned_audience_graph_version)
        × (last_version "capability_snapshot" db.versions none
            ≡ some read.operation.pinned_capability_snapshot_version)
  unfolding get_operation
  get_operation-create_work h no_operation no_trace =
      let w = create_work-Creates u fault now fresh request key db h in
      let o = created_operation u now fresh request w.current in
      let t : AuditTrace = record {
        audit_trace_id = fresh.audit_trace_id;
        operation_id = fresh.operation_id;
        timeline = request_accepted now (request_event_ref request) fresh.transition_id ∷ [];
      } in
      let found_o =
        ap (find (is_operation r.primary_operation_id)) (ap (λ d. d.operations) w.records)
        ∙ ap (λ x. find (is_operation x.primary_operation_id) (db.operations ++ o ∷ [])) w.responds
        ∙ find-append_last (is_operation fresh.operation_id) db.operations o no_operation
            (eq_refl _) in
      let found_t =
        ap (find (is_trace_of r.primary_operation_id)) (ap (λ d. d.audit_traces) w.records)
        ∙ ap (λ x. find (is_trace_of x.primary_operation_id) (db.audit_traces ++ t ∷ [])) w.responds
        ∙ find-append_last (is_trace_of fresh.operation_id) db.audit_traces t no_trace
            (eq_refl _) in
      let (active, audience, capability) = versions-eq db w.pinned in
      (
        record { operation = o; audit_trace_id = fresh.audit_trace_id },
        rw found_o (rw found_t),
        ap (λ x. x.request_id) w.responds,
        ap (λ x. x.operation_ids) w.responds,
        ap (λ x. x.audit_trace_ids) w.responds,
        refl,
        refl,
        refl,
        refl,
        refl,
        active,
        audience,
        capability,
      )

  -- Where every operation so far belongs to an announced request, a request that is carried out is
  -- running, with the one operation it was answered with, and every operation belongs to an
  -- announced request again.
  pub get_request_status-create_work :
      IsAnnounced db
      → create_work u fault now fresh request key db ≡ ok (r, final)
      → (get_request_status request.request_id final
          ≡ ok (record {
            request_id = request.request_id;
            operation_ids = r.operation_ids;
            status = "running";
          }))
        × IsAnnounced final
  unfolding get_request_status
  get_request_status-create_work announced h =
      let w = create_work-Creates u fault now fresh request key db h in
      let o = created_operation u now fresh request w.current in
      let own =
        ap (select (λ (x : Operation). x.parent_request_id == request.request_id))
          (ap (λ d. d.operations) w.records)
        ∙ select-append _ db.operations o
            (select_unannounced request.request_id db.events db.operations announced w.is_new)
            (eq_refl request.request_id) in
      (
        rw own (rw w.responds refl),
        subst IsAnnounced (sym w.records) (
            All-append _ db.operations _
              (All-weaken db.operations
                (λ x.
                  any-append (is_event (str_append "event:request:" x.parent_request_id)) db.events
                    (new_event ∷ []))
                announced)
              (
                any-append_last (is_event (request_event_ref request)) db.events new_event
                    (eq_refl _),
                tt,
              )),
      )

  -- A second request under the identifier of one that was carried out is unavailable, and changes
  -- nothing, unless its idempotency key has a response.
  pub create_operation_bundle-create_work :
      (u2 : Unicode) (fault2 : Bool) (now2 : Time) (fresh2 : FreshBundle)
      (request2 : RequestEnvelope) (key2 : Option String)
      → create_work u fault now fresh request key db ≡ ok (r, final)
      → request2.request_id ≡ request.request_id
      → stored_response "/v1/requests" key2 final ≡ none
      → create_operation_bundle u2 fault2 now2 fresh2 request2 key2 final ≡ (err unavailable, final)
  unfolding create_operation_bundle create_work load_current_versions
  create_operation_bundle-create_work u2 fault2 now2 fresh2 request2 key2 h same unseen =
      let w = create_work-Creates u fault now fresh request key db h in
      let pinned = ap load_current_versions w.records ∙ w.pinned in
      let known =
        ap (λ k. any (is_event (str_append "event:request:" k)) final.events) same
        ∙ ap (any (is_event (request_event_ref request))) (ap (λ d. d.events) w.records)
        ∙ any-append_last (is_event (request_event_ref request)) db.events new_event (eq_refl _) in
      rw unseen (rw pinned (rw known))
