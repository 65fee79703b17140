-- ===== src/Approvals/Permitted.antt =====
-- The system calls that `consume_approval_atomic` (storage.rs) adds.
use mathlib.Core.Path.{subst}
use aadesh.Common.{
  String, ◌≡◌, refl, ap, ◌∙◌, inl, inr, true, false, some, List, [], ◌∷◌, ◌++◌, arith, ◌==◌, eq_iff,
  eq_of_text, find, update_where, option_eq, Bool-cases,
}
use aadesh.Chrono.{Time}
use aadesh.Json.{get, as_str}
use aadesh.Unicode.{Unicode}
use aadesh.Outcome.{
  ok, corruption, not_found, ensure, required, >>=-eq-ok, ensure_holds, required-some, ok_injective,
}
use aadesh.Schemas.Descriptor.{ActionDescriptor, and_then, resolve_action_descriptor_from_snapshot}
use aadesh.Schemas.Normalize.{normalize_args_for_action}
use aadesh.Schemas.Validate.{ValidationErrorKind, validate_instance_against_schema}
use aadesh.Store.{
  Operation, Approval, Snapshot, SchemaEntry, Db, ApprovalDecisionResponse, decision, is_approval,
  is_operation, is_snapshot, is_schema,
}
use aadesh.Approvals.Consume.{
  ApprovalConsumeInput, Fresh, approval_scope, or_else, PermittedAction, permitted_action,
  permitted_syscall, moved_operation, approved, denied, Effect, consume_work,
}
use aadesh.Approvals.Steps.{Consumes, consume_work-Consumes}
use aadesh.Approvals.Frames.{
  Same, pass_oob-Same, decide-Same, decide-cases, Recorded, record_decision-Recorded,
  store_response-eq,
}

find_moved :
    (k : String) (f : Operation → Operation) (rows : List Operation) {o : Operation}
    → ((x : Operation) → (f x).operation_id ≡ x.operation_id)
    → find (is_operation k) rows ≡ some o
    → find (is_operation k) (update_where (is_operation k) f rows) ≡ some (f o)
find_moved k f [] same h = absurd (cc)
find_moved k f (x ∷ rows) {o} same h = elim (Bool-cases (x.operation_id == k)) [
  | inl here ↦ ground (arith, same x)
  | inr later ↦ ground (arith, find_moved k f rows {o = o} same)
]

-- An action that is offered by the operation's pinned snapshot, under the schemas that the owner was
-- shown, with arguments in normal form and valid against the stored schema.
pub record IsAllowed (u : Unicode) (input : ApprovalConsumeInput) (a : Approval) (o : Operation)
    (snapshots : List Snapshot) (schemas : List SchemaEntry) (p : PermittedAction) : Type 0 where
  pub snapshot : Snapshot
  pub descriptor : ActionDescriptor
  pub schema : SchemaEntry
  pub pinned : find (is_snapshot o.pinned_capability_snapshot_version) snapshots ≡ some snapshot
  pub shown_tool : and_then (get "tool_id" a.diff_payload) as_str ≡ some p.tool_name
  pub shown_action : and_then (get "action" a.diff_payload) as_str ≡ some p.action_name
  pub shown_schema : and_then (get "args_schema_ref" a.diff_payload) as_str ≡ some p.args_schema_ref
  pub offered :
      resolve_action_descriptor_from_snapshot snapshot.payload p.tool_name p.action_name
      ≡ ok descriptor
  pub same_schema : p.args_schema_ref ≡ descriptor.args_schema_ref
  pub normal :
      normalize_args_for_action u p.tool_name p.action_name
        (or_else input.modified_payload a.proposal_bundle)
      ≡ ok p.args
  pub stored : find (is_schema p.args_schema_ref) schemas ≡ some schema
  pub valid :
      validate_instance_against_schema schema.payload p.args ValidationErrorKind.invalid_input
      ≡ ok tt

permitted_action-IsAllowed :
    (u : Unicode) (input : ApprovalConsumeInput) (a : Approval) (o : Operation) (db : Db)
    {p : PermittedAction}
    → permitted_action u input a o db ≡ ok p
    → IsAllowed u input a o db.snapshots db.schemas p
unfolding permitted_action
permitted_action-IsAllowed u input a o db {p} h =
    let diff = a.diff_payload in
    let (t, e1, h1) = >>=-eq-ok (required (and_then (get "tool_id" diff) as_str) corruption) _ h in
    let (n, e2, h2) = >>=-eq-ok (required (and_then (get "action" diff) as_str) corruption) _ h1 in
    let (s, e3, h3) =
      >>=-eq-ok
        (required (find (is_snapshot o.pinned_capability_snapshot_version) db.snapshots) not_found)
        _ h2 in
    let (d, e4, h4) = >>=-eq-ok (resolve_action_descriptor_from_snapshot s.payload t n) _ h3 in
    let (r, e5, h5) =
      >>=-eq-ok (required (and_then (get "args_schema_ref" diff) as_str) corruption) _ h4 in
    let (_, e6, h6) = >>=-eq-ok (ensure (r == d.args_schema_ref) corruption) _ h5 in
    let (_, e7, h7) =
      >>=-eq-ok
        (ensure (option_eq (and_then (get "result_schema_ref" diff) as_str) d.result_schema_ref)
          corruption)
        _ h6 in
    let (args, e8, h8) =
      >>=-eq-ok (normalize_args_for_action u t n (or_else input.modified_payload a.proposal_bundle))
        _ h7 in
    let (sch, e9, h9) =
      >>=-eq-ok (required (find (is_schema d.args_schema_ref) db.schemas) not_found) _ h8 in
    let (_, e10, h10) =
      >>=-eq-ok
        (validate_instance_against_schema sch.payload args ValidationErrorKind.invalid_input) _
        h9 in
    let same = ok_injective h10 in
    let ref = eq_of_text r d.args_schema_ref (ensure_holds _ _ e6) in
    subst (λ q. IsAllowed u input a o db.snapshots db.schemas q) same
      (record {
        snapshot = s;
        descriptor = d;
        schema = sch;
        pinned = required-some _ _ e3;
        shown_tool = required-some _ _ e1;
        shown_action = required-some _ _ e2;
        shown_schema = required-some _ _ e5 ∙ ap some ref;
        offered = e4;
        same_schema = refl;
        normal = e8;
        stored = required-some _ _ e9;
        valid = e10;
      })

deny-ne-approve : (d : String) → d ≡ "deny" → (d == "approve") ≡ true → ⊥
deny-ne-approve d e t = let t' : false ≡ true = rw e at t in cc

-- The state that a granted approval leaves.
pub record PermitsOne (u : Unicode) (now : Time) (fresh : Fresh) (input : ApprovalConsumeInput)
    (a : Approval) (db final : Db) (r : ApprovalDecisionResponse) : Type 0 where
  pub operation : Operation
  pub action : PermittedAction
  pub allowed : IsAllowed u input a operation db.snapshots db.schemas action
  pub was_awaiting : operation.state ≡ "awaiting_approval"
  pub one_syscall :
      final.syscalls ≡ db.syscalls ++ permitted_syscall now fresh.syscall_id a action ∷ []
  pub runs :
      find (is_operation a.operation_id) final.operations
      ≡ some (moved_operation now (approved fresh.syscall_id) operation)
  pub response : r.syscall_ids ≡ fresh.syscall_id ∷ []

module _ (u : Unicode) (now : Time) (fresh : Fresh) (input : ApprovalConsumeInput) (db : Db)
    {r : ApprovalDecisionResponse} {final : Db} {a : Approval}
    (f : find (is_approval input.approval_id) db.approvals ≡ some a)
    (h : consume_work u now fresh input db ≡ ok (r, final)) where
  parts : Consumes u now fresh input db r final
  parts = consume_work-Consumes u now fresh input db h

  same_approval : parts.approval ≡ a
  same_approval = ground (arith, parts.found)

  open parts use {approval, checked, operation, effect, decided, recorded}

  frame : Recorded now input approval effect decided recorded
  frame = record_decision-Recorded now fresh input approval effect decided parts.records

  before : Same db checked × (checked.syscalls ≡ db.syscalls)
  before = pass_oob-Same now input approval db parts.passed

  stored :
      (final.approvals ≡ recorded.approvals)
      × (final.operations ≡ recorded.operations)
      × (final.syscalls ≡ recorded.syscalls)
      × (final.challenges ≡ recorded.challenges)
  stored =
      store_response-eq (approval_scope input.approval_id) input.idempotency_key input.approval_id
        (decision r) now recorded parts.stores

  final_operation :
      find (is_operation approval.operation_id) final.operations
      ≡ some (moved_operation now effect operation)
  final_operation =
      let same = (decide-Same u now fresh input approval operation checked parts.decides).0 in
      let all =
        stored.1
        ∙ frame.operations
        ∙ ap (update_where (is_operation approval.operation_id) (moved_operation now effect))
            same.operations in
      rw all (
        find_moved approval.operation_id (moved_operation now effect) checked.operations (λ x. refl)
          parts.has_operation)

  final_syscalls : final.syscalls ≡ decided.syscalls
  final_syscalls = stored.2 ∙ frame.syscalls

  in_first_state :
      (p : PermittedAction)
      → IsAllowed u input approval operation checked.snapshots checked.schemas p
      → IsAllowed u input a operation db.snapshots db.schemas p
  in_first_state p w =
      let w' =
        subst (λ y. IsAllowed u input approval operation y checked.schemas p) before.0.snapshots
          w in
      let w'' =
        subst (λ y. IsAllowed u input approval operation db.snapshots y p) before.0.schemas w' in
      subst (λ x. IsAllowed u input x operation db.snapshots db.schemas p) same_approval w''

  moved_as :
      (x : Effect)
      → effect ≡ x
      → find (is_operation a.operation_id) final.operations ≡ some (moved_operation now x operation)
  moved_as x eff =
      let w =
        subst
          (λ y.
            find (is_operation approval.operation_id) final.operations
            ≡ some (moved_operation now y operation))
          eff final_operation in
      subst
        (λ (y : Approval).
          find (is_operation y.operation_id) final.operations
          ≡ some (moved_operation now x operation))
        same_approval w

  responded : (x : Effect) → effect ≡ x → r.syscall_ids ≡ x.syscall_ids
  responded x eff =
      ap (λ (y : ApprovalDecisionResponse). y.syscall_ids) parts.responds
      ∙ ap (λ (y : Effect). y.syscall_ids) eff

  -- Let a decision on the approval `a` be worked through and succeed. If it approves, exactly one
  -- system call is added: the action that the owner was shown, offered by the snapshot that the
  -- operation is pinned to, under the schema that was shown, with the modified or else the proposed
  -- payload in normal form and valid against the stored schema. The operation, which awaited the
  -- approval, runs, and the response names the call.
  pub permits_one : input.decision ≡ "approve" → PermitsOne u now fresh input a db final r
  permits_one e = elim (decide-cases u now fresh input approval operation checked parts.decides) [
    | inl (t, _, _) ↦ absurd (ground (arith, eq_iff input.decision "approve"))
    | inr (_, eff, (p, ep, grown)) ↦ record {
      operation = operation;
      action = p;
      allowed = in_first_state p (permitted_action-IsAllowed u input approval operation checked ep);
      was_awaiting = eq_of_text _ _ parts.was_awaiting;
      one_syscall =
          final_syscalls
          ∙ ap (λ (d : Db). d.syscalls) grown
          ∙ ap (λ xs. xs ++ permitted_syscall now fresh.syscall_id approval p ∷ []) before.1
          ∙ ap (λ x. db.syscalls ++ permitted_syscall now fresh.syscall_id x p ∷ []) same_approval;
      runs = moved_as (approved fresh.syscall_id) eff;
      response = responded (approved fresh.syscall_id) eff;
    }
  ]

  -- Let a decision on the approval `a` be worked through and succeed. If it denies, no system call is
  -- added, the response names none, and the operation is blocked.
  pub permits_none :
      input.decision ≡ "deny"
      → (final.syscalls ≡ db.syscalls)
        × ((o : Operation) × (o.state ≡ "blocked")
            × (find (is_operation a.operation_id) final.operations ≡ some o))
        × (r.syscall_ids ≡ [])
  permits_none e = elim (decide-cases u now fresh input approval operation checked parts.decides) [
    | inl (_, eff, same) ↦ (
      final_syscalls ∙ ap (λ (d : Db). d.syscalls) same ∙ before.1,
      (moved_operation now denied operation, refl, moved_as denied eff),
      responded denied eff,
    )
    | inr (t, _, _) ↦ absurd (deny-ne-approve input.decision e t)
  ]
