-- ===== src/Runner/Spent.antt =====
-- Calls of storage.rs on a system call that is no longer permitted.
use aadesh.Common.{
  String, ◌≡◌, refl, sym, ap, ◌∙◌, inl, inr, true, false, not, Option, none, some, List, [], ◌∷◌,
  ◌++◌, arith, ◌==◌, find, find-append_some, find-update_where, any, update_where, Bool-cases,
  Option-cases,
}
use aadesh.Chrono.{Time}
use aadesh.Unicode.{Unicode}
use aadesh.Outcome.{ok, conflict, not_found, settle_bind, ensure, required, >>=-eq-ok}
use aadesh.Store.{
  Syscall, Event, TimelineItem, Db, is_syscall, is_operation, is_trace, is_trace_of, is_event,
  OperationResponse, ApprovalDecisionResponse,
}
use aadesh.Store.Idempotency.{stored_response, as_operation, as_decision}
use aadesh.Store.Stored.{settle_replay, finishes}
use aadesh.Approvals.Consume.{
  ApprovalConsumeInput, Fresh, approval_scope, permitted_syscall, consume_work,
  consume_approval_atomic,
}
use aadesh.Approvals.Frames.{
  pass_oob-Same, decide-cases, record_decision-Recorded, store_response-eq,
}
use aadesh.Approvals.Steps.{consume_work-Consumes}
use aadesh.Operations.States.{
  get_operation, update_operation_state, cancel_scope, cancelled_state, cancel_reason, cancel_work,
  cancel_operation, is_terminal,
}
use aadesh.Operations.Syscalls.{
  SyscallStatusUpdateInput, is_executable, with_status, update_syscall_status,
}
use aadesh.Operations.Audit.{append_event, append_audit_timeline_item}
use aadesh.Runner.Quiet.{is_past, is_spent}

module _ (k : String) where
  Spent : Db → Type 0
  Spent db = is_spent k db ≡ true

  updated_past :
      (i : String) (now : Time) (input : SyscallStatusUpdateInput) (rows : List Syscall)
      → (input.new_status == "permitted") ≡ false
      → is_past k (find (is_syscall k) rows) ≡ true
      → is_past k (find (is_syscall k) (update_where (is_syscall i) (with_status now input) rows))
        ≡ true
  updated_past i now input [] n h = h
  updated_past i now input (x ∷ rows) n h = elim (Bool-cases (is_syscall i x)) [
    | inl t ↦ rw t (ground (arith, n, updated_past i now input rows n))
    | inr f ↦ rw f (ground (arith, n, updated_past i now input rows n))
  ]

  pub update_syscall_status-Spent :
      (now : Time) (input : SyscallStatusUpdateInput) (db : Db)
      → (input.new_status == "permitted") ≡ false
      → is_spent k db ≡ true
      → is_spent k (update_syscall_status now input db).1 ≡ true
  unfolding update_syscall_status
  update_syscall_status-Spent now input db n h =
      let rows = update_where (is_syscall input.syscall_id) (with_status now input) db.syscalls in
      settle_bind (λ d. is_spent k d ≡ true) db
        (required (find (is_syscall input.syscall_id) db.syscalls) not_found) _ h
        λ s e.
          settle_bind (λ d. is_spent k d ≡ true) db (ensure (is_executable s.status) conflict) _ h
            λ t e'.
              settle_bind (λ d. is_spent k d ≡ true) db
                (required (find (is_syscall input.syscall_id) rows) not_found) _ h
                λ row e''. updated_past input.syscall_id now input db.syscalls n h

  pub update_syscall_status-spends :
      (now : Time) (input : SyscallStatusUpdateInput) (db : Db) {row : Syscall}
      → (input.new_status == "permitted") ≡ false
      → input.syscall_id ≡ k
      → (update_syscall_status now input db).0 ≡ ok row
      → is_spent k (update_syscall_status now input db).1 ≡ true
  unfolding update_syscall_status
  update_syscall_status-spends now input db {row} n own e =
      elim (Option-cases (find (is_syscall input.syscall_id) db.syscalls)) [
        | inl gone ↦ absurd (missing gone)
        | inr (s, found) ↦ elim (Bool-cases (is_executable s.status)) [
          | inl b ↦ written s found b
          | inr b ↦ absurd (refused s found b)
        ]
      ]
    where
      missing : find (is_syscall input.syscall_id) db.syscalls ≡ none → ⊥
      missing gone = let e' = rw gone at e in absurd (cc)

      refused :
          (s : Syscall)
          → find (is_syscall input.syscall_id) db.syscalls ≡ some s
          → is_executable s.status ≡ false
          → ⊥
      refused s found b = let e' = rw b at (rw found at e) in absurd (cc)

      written :
          (s : Syscall)
          → find (is_syscall input.syscall_id) db.syscalls ≡ some s
          → is_executable s.status ≡ true
          → is_spent k (update_syscall_status now input db).1 ≡ true
      written s found b =
          let stored =
            find-update_where (is_syscall input.syscall_id) (with_status now input) db.syscalls
              (λ y h. h) found in
          rw found (
            rw b (
              rw stored (
                ap
                  (λ i. is_past k (
                    find (is_syscall i) (
                      update_where (is_syscall input.syscall_id) (with_status now input)
                        db.syscalls)))
                  (sym own)
                ∙ rw stored (rw n refl))))

  pub update_operation_state-Spent :
      (now : Time) (fresh i state : String) (reason : Option String) (trace : String) (db : Db)
      → is_spent k db ≡ true
      → is_spent k (update_operation_state now fresh i state reason trace db).1 ≡ true
  unfolding update_operation_state
  update_operation_state-Spent now fresh i state reason trace db h =
      settle_bind (λ d. is_spent k d ≡ true) db
        (required (find (is_operation i) db.operations) not_found) _ h λ o e. h

  pub append_event-Spent :
      (e : Event) (db : Db) → is_spent k db ≡ true → is_spent k (append_event e db).1 ≡ true
  unfolding append_event
  append_event-Spent e db h = elim (Bool-cases (any (is_event e.event_ref) db.events)) [
    | inl t ↦ rw t h
    | inr f ↦ rw f h
  ]

  pub append_audit_timeline_item-Spent :
      (i : String) (item : TimelineItem) (db : Db)
      → is_spent k db ≡ true
      → is_spent k (append_audit_timeline_item i item db).1 ≡ true
  unfolding append_audit_timeline_item
  append_audit_timeline_item-Spent i item db h =
      settle_bind (λ d. is_spent k d ≡ true) db
        (required (find (is_trace i) db.audit_traces) not_found) _ h λ t e. h

  pub cancel_operation-Spent :
      (u : Unicode) (now : Time) (fresh i : String) (reason key : Option String) (db : Db)
      → is_spent k db ≡ true
      → is_spent k (cancel_operation u now fresh i reason key db).1 ≡ true
  unfolding cancel_operation cancel_work
  cancel_operation-Spent u now fresh i reason key db h =
      settle_replay (λ d. is_spent k d ≡ true) as_operation db
        (stored_response (cancel_scope i) key db) (cancel_work u now fresh i reason key db) h work
    where
      work :
          (r : OperationResponse) (final : Db)
          → cancel_work u now fresh i reason key db ≡ ok (r, final)
          → is_spent k final ≡ true
      work r final e =
          let (current, e1, h1) =
            >>=-eq-ok (required (find (is_operation i) db.operations) not_found) _ e in
          let (t, e2, h2) =
            >>=-eq-ok (required (find (is_trace_of i) db.audit_traces) not_found) _ h1 in
          let (_, e3, h3) = >>=-eq-ok (ensure (not (is_terminal current.state)) conflict) _ h2 in
          let db' = cancelled_state now fresh i (cancel_reason u reason) current t db in
          let (response, e4, h4) = >>=-eq-ok (get_operation i db') _ h3 in
          let kept = finishes _ _ _ _ _ db' h4 in
          ap (λ (d : Db). is_past k (find (is_syscall k) d.syscalls)) kept.1 ∙ h

  grown_past :
      (rows : List Syscall) (s : Syscall)
      → is_past k (find (is_syscall k) rows) ≡ true
      → is_past k (find (is_syscall k) (rows ++ s ∷ [])) ≡ true
  grown_past rows s h = elim (Option-cases (find (is_syscall k) rows)) [
    | inl n ↦ absurd (missing n)
    | inr (x, e) ↦
        ap (is_past k) (find-append_some (is_syscall k) rows (s ∷ []) {x = x} e ∙ sym e) ∙ h
  ]
    where
      missing : find (is_syscall k) rows ≡ none → ⊥
      missing n = let gone = ap (is_past k) (sym n) ∙ h in absurd (cc)

  pub consume_approval_atomic-Spent :
      (u : Unicode) (now : Time) (fresh : Fresh) (input : ApprovalConsumeInput) (db : Db)
      → is_spent k db ≡ true
      → is_spent k (consume_approval_atomic u now fresh input db).1 ≡ true
  unfolding consume_approval_atomic
  consume_approval_atomic-Spent u now fresh input db h =
      settle_replay (λ d. is_spent k d ≡ true) as_decision db
        (stored_response (approval_scope input.approval_id) input.idempotency_key db)
        (consume_work u now fresh input db) h work
    where
      work :
          (r : ApprovalDecisionResponse) (final : Db)
          → consume_work u now fresh input db ≡ ok (r, final)
          → is_spent k final ≡ true
      work r final e =
          let c = consume_work-Consumes u now fresh input db e in
          let rows : final.syscalls ≡ c.decided.syscalls =
            (store_response-eq _ _ _ _ now c.recorded c.stores).2
            ∙ (record_decision-Recorded now fresh input c.approval c.effect c.decided
                c.records).syscalls in
          let before : c.checked.syscalls ≡ db.syscalls =
            (pass_oob-Same now input c.approval db c.passed).1 in
          ap (λ xs. is_past k (find (is_syscall k) xs)) rows
          ∙ elim (decide-cases u now fresh input c.approval c.operation c.checked c.decides) [
            | inl (_, _, same) ↦
                ap (λ (d : Db). is_past k (find (is_syscall k) d.syscalls)) same
                ∙ ap (λ xs. is_past k (find (is_syscall k) xs)) before
                ∙ h
            | inr (_, _, (p, _, same)) ↦
                let s = permitted_syscall now fresh.syscall_id c.approval p in
                ap (λ (d : Db). is_past k (find (is_syscall k) d.syscalls)) same
                ∙ ap (λ xs. is_past k (find (is_syscall k) (xs ++ s ∷ []))) before
                ∙ grown_past db.syscalls s h
          ]
