-- ===== src/Operations/Cancelled.antt =====
-- `cancel_operation` (storage.rs) on operations in each state.
use aadesh.Common.{
  String, ◌≡◌, refl, inl, inr, true, false, Option, none, some, List, [], ◌∷◌, ◌++◌, arith, ◌==◌,
  find, update_where, Bool-cases,
}
use aadesh.Chrono.{Time}
use aadesh.Unicode.{Unicode}
use aadesh.Outcome.{ok, err, conflict}
use aadesh.Store.{
  Operation, AuditTrace, TimelineItem, operation_cancelled, OperationResponse, Db, is_operation,
  is_trace, is_trace_of,
}
use aadesh.Operations.States.{
  is_terminal, cancel_reason, moved_to, cancelled_state, pushed, cancel_operation,
}

find_moved :
    (k : String) (f : Operation → Operation) (rows : List Operation) {o : Operation}
    → ((x : Operation) → (f x).operation_id ≡ x.operation_id)
    → find (is_operation k) rows ≡ some o
    → find (is_operation k) (update_where (is_operation k) f rows) ≡ some (f o)
find_moved k f [] same h = absurd (cc)
find_moved k f (x ∷ rows) {o} same h = elim (Bool-cases (x.operation_id == k)) [
  | inl here ↦ ground (arith, same x)
  | inr later ↦ ground (arith, find_moved k f rows {o = o} same)
]

find-pushed :
    (k t : String) (item : TimelineItem) (rows : List AuditTrace) {w : AuditTrace}
    → find (is_trace_of k) rows ≡ some w
    → (w' : AuditTrace) × (find (is_trace_of k) (update_where (is_trace t) (pushed item) rows)
        ≡ some w')
      × (w'.audit_trace_id ≡ w.audit_trace_id)
find-pushed k t item [] h = absurd (cc)
find-pushed k t item (x ∷ rows) {w} h = elim (Bool-cases (x.operation_id == k)) [
  | inl here ↦ elim (Bool-cases (x.audit_trace_id == t)) [
    | inl own ↦ (pushed item x, rw own (rw here), ground arith)
    | inr other ↦ (x, rw other (rw here), ground arith)
  ]
  | inr later ↦
      let ih = find-pushed k t item rows {w = w} (ground arith) in
      (ih.0, ground (arith, ih.1), ih.2)
]

module _ (u : Unicode) (now : Time) (fresh k : String) (reason : Option String) (db : Db)
    {o : Operation} {t : AuditTrace} (found : find (is_operation k) db.operations ≡ some o)
    (traced : find (is_trace_of k) db.audit_traces ≡ some t) where
  -- An operation that is completed, failed, blocked or cancelled is not cancelled: the call, without
  -- an idempotency key, is a conflict and changes nothing.
  pub cancel_terminal_refused :
      is_terminal o.state ≡ true
      → cancel_operation u now fresh k reason none db ≡ (err conflict, db)
  unfolding cancel_operation
  cancel_terminal_refused e = rw found (rw traced (rw e))

  -- An operation in any other state, with its audit trace, is cancelled (the states that are not are
  -- completed, failed, blocked and cancelled): the call, without an idempotency key,
  -- succeeds and returns the operation as the table then has it, which is cancelled for the reason
  -- given, or for the owner's if none or only white space is given. One transition, from the state
  -- before, is added.
  pub cancel_effect :
      is_terminal o.state ≡ false
      → (response : OperationResponse) × (after : Db) × (cancel_operation u now fresh k reason none
            db
          ≡ (ok response, after))
        × (response.operation ≡ moved_to "cancelled" (some (cancel_reason u reason)) now o)
        × (find (is_operation k) after.operations ≡ some response.operation)
        × (response.audit_trace_id ≡ t.audit_trace_id)
        × (after.transitions
            ≡ db.transitions
              ++ record {
                transition_id = fresh;
                operation_id = k;
                ts = now;
                from_state = some o.state;
                to_state = "cancelled";
                reason = some (cancel_reason u reason);
                audit_trace_id = t.audit_trace_id;
              }
                ∷ [])
  unfolding cancel_operation
  cancel_effect e =
      let why = cancel_reason u reason in
      let after = cancelled_state now fresh k why o t db in
      let moved =
        find_moved k (moved_to "cancelled" (some why) now) db.operations (λ x. refl) found in
      let (w, kept, same) =
        find-pushed k t.audit_trace_id (operation_cancelled now k why) db.audit_traces traced in
      (
        record {
          operation = moved_to "cancelled" (some why) now o;
          audit_trace_id = w.audit_trace_id;
        },
        after,
        rw found (rw traced (rw e (rw moved (rw kept)))),
        refl,
        moved,
        same,
        refl,
      )
