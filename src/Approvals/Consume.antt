-- ===== src/Approvals/Consume.antt =====
-- `consume_approval_atomic` of crates/adesh-storage-sqlite/src/storage.rs.
use Prim.Native.String.{◌++◌ as str_append}
use aadesh.Common.{
  String, Bool, not, ◌&&◌, ◌||◌, Option, none, some, List, [], ◌∷◌, ◌++◌, ◌==◌, ltb, any, find,
  update_where, option_eq, is_some, holds_text, if◌then◌else◌,
}
use aadesh.Chrono.{Time}
use aadesh.Json.{Value, get, as_str}
use aadesh.Outcome.{
  Outcome, ok, err, conflict, corruption, not_found, invalid_input, ◌>>=◌, ◌>>◌, ensure, required,
  transact,
}
use aadesh.Unicode.{Unicode}
use aadesh.Schemas.Descriptor.{and_then, resolve_action_descriptor_from_snapshot}
use aadesh.Schemas.Normalize.{normalize_args_for_action}
use aadesh.Schemas.Validate.{ValidationErrorKind, validate_instance_against_schema}
use aadesh.Store.{
  Operation, AuditTrace, TimelineItem, approval_decision, Approval, Challenge, Syscall, Db,
  ApprovalDecisionResponse, decision, is_approval, is_challenge, is_operation, is_trace,
  is_snapshot, is_schema, approval_decided,
}
use aadesh.Store.Idempotency.{stored_response, store_response, replay_or, as_decision}

pub record ApprovalConsumeInput : Type 0 where
  pub approval_id : String
  pub decision : String
  pub modified_payload : Option Value
  pub oob_challenge_id : Option String
  pub idempotency_key : Option String

-- The identifiers from `Uuid::new_v4`.
pub record Fresh : Type 0 where
  pub syscall_id : String
  pub transition_id : String
  pub event_ref : String

abbrev pub approval_scope : String → String
approval_scope approval = str_append "/v1/approvals/" approval

abbrev pub or_else {ℓ} : {A : Type ℓ} → Option A → A → A
or_else none a = a
or_else (some b) a = b

-- `challenge_id = ?1 AND status = 'verified' AND consumed_at IS NULL`
abbrev pub can_consume : String → Challenge → Bool
can_consume k c = is_challenge k c && ((c.status == "verified") && not (is_some c.consumed_at))

abbrev pub marked_consumed : Time → Challenge → Challenge
marked_consumed now c = record c { status = "consumed"; consumed_at = some now }

-- The challenge that an approval by `oob_required` needs, checked and consumed.
unfoldable pub consume_challenge : Time → String → String → Db → Outcome Db
consume_challenge now approval k db = do
  challenge ← required (find (is_challenge k) db.challenges) not_found
  ensure (challenge.approval_id == approval) conflict
  ensure (challenge.status == "verified") conflict
  ensure (not (is_some challenge.consumed_at)) conflict
  ensure (not (ltb challenge.expires_at now)) conflict
  ok (record db { challenges = update_where (can_consume k) (marked_consumed now) db.challenges })

abbrev pub approves : ApprovalConsumeInput → Bool
approves input = input.decision == "approve"

unfoldable pub pass_oob : Time → ApprovalConsumeInput → Approval → Db → Outcome Db
unfolding consume_challenge
pass_oob now input approval db =
    if is_some input.oob_challenge_id && not (approval.approval_mode == "oob_required")
    then err invalid_input
    else if (approval.approval_mode == "oob_required") && approves input
    then (required input.oob_challenge_id invalid_input >>= λ k.
        consume_challenge now input.approval_id k db)
    else ok db

-- The action that an approval permits: its descriptor in the pinned snapshot, and the arguments in
-- their normal form, valid against the stored schema.
pub record PermittedAction : Type 0 where
  pub tool_name : String
  pub action_name : String
  pub args_schema_ref : String
  pub result_schema_ref : Option String
  pub args : Value

unfoldable pub permitted_action :
    Unicode → ApprovalConsumeInput → Approval → Operation → Db → Outcome PermittedAction
permitted_action u input approval operation db = do
  let diff = approval.diff_payload
  tool ← required (and_then (get "tool_id" diff) as_str) corruption
  action ← required (and_then (get "action" diff) as_str) corruption
  snapshot ←
      required (find (is_snapshot operation.pinned_capability_snapshot_version) db.snapshots)
        not_found
  descriptor ← resolve_action_descriptor_from_snapshot snapshot.payload tool action
  args_schema_ref ← required (and_then (get "args_schema_ref" diff) as_str) corruption
  ensure (args_schema_ref == descriptor.args_schema_ref) corruption
  ensure (option_eq (and_then (get "result_schema_ref" diff) as_str) descriptor.result_schema_ref)
      corruption
  args ←
      normalize_args_for_action u tool action
        (or_else input.modified_payload approval.proposal_bundle)
  schema ← required (find (is_schema descriptor.args_schema_ref) db.schemas) not_found
  validate_instance_against_schema schema.payload args ValidationErrorKind.invalid_input
  ok (record {
    tool_name = tool;
    action_name = action;
    args_schema_ref = descriptor.args_schema_ref;
    result_schema_ref = descriptor.result_schema_ref;
    args = args;
  })

abbrev pub permitted_syscall : Time → String → Approval → PermittedAction → Syscall
permitted_syscall now fresh approval action = record {
  syscall_id = fresh;
  operation_id = approval.operation_id;
  approval_id = some approval.approval_id;
  created_at = now;
  updated_at = now;
  tool_name = action.tool_name;
  action_name = action.action_name;
  args_schema_ref = action.args_schema_ref;
  result_schema_ref = action.result_schema_ref;
  status = "permitted";
  args = action.args;
  result_ref = none;
  audit_trace_id = approval.audit_trace_id;
}

-- The primary key, and `UNIQUE(approval_id, tool_name, action_name)`.
abbrev pub clashes : String → Syscall → Syscall → Bool
clashes approval new old =
    (old.syscall_id == new.syscall_id)
    || (holds_text old.approval_id approval
        && ((old.tool_name == new.tool_name) && (old.action_name == new.action_name)))

unfoldable pub insert_syscall : String → Syscall → Db → Outcome Db
insert_syscall approval s db =
    if any (clashes approval s) db.syscalls
    then err conflict
    else ok (record db { syscalls = db.syscalls ++ s ∷ [] })

-- What a decision comes to: the states that follow, their reasons, and the system calls.
pub record Effect : Type 0 where
  pub operation_state : String
  pub approval_status : String
  pub state_reason : String
  pub transition_reason : String
  pub syscall_ids : List String

abbrev pub approved : String → Effect
approved syscall = record {
  operation_state = "running";
  approval_status = "consumed";
  state_reason = "approved_send_pending_execution";
  transition_reason = "approval_consumed";
  syscall_ids = syscall ∷ [];
}

abbrev pub denied : Effect
denied = record {
  operation_state = "blocked";
  approval_status = "denied";
  state_reason = "approval_denied";
  transition_reason = "approval_denied";
  syscall_ids = [];
}

unfoldable pub permit :
    Unicode
    → Time
    → Fresh
    → ApprovalConsumeInput
    → Approval
    → Operation
    → Db
    → Outcome (Effect × Db)
unfolding insert_syscall
permit u now fresh input approval operation db = do
  action ← permitted_action u input approval operation db
  db' ←
      insert_syscall approval.approval_id (permitted_syscall now fresh.syscall_id approval action)
        db
  ok (approved fresh.syscall_id, db')

unfoldable pub decide :
    Unicode
    → Time
    → Fresh
    → ApprovalConsumeInput
    → Approval
    → Operation
    → Db
    → Outcome (Effect × Db)
decide u now fresh input approval operation db =
    if approves input then permit u now fresh input approval operation db else ok (denied, db)

abbrev pub decided_approval : Time → Effect → Approval → Approval
decided_approval now e a = record a { status = e.approval_status; updated_at = now }

abbrev pub moved_operation : Time → Effect → Operation → Operation
moved_operation now e o = record o {
  state = e.operation_state;
  state_reason = some e.state_reason;
  updated_at = now;
}

abbrev pub with_item : TimelineItem → AuditTrace → AuditTrace
with_item item t = record t { timeline = t.timeline ++ item ∷ [] }

-- The updates of the approval and the operation, and the records of the decision.
unfoldable pub record_decision :
    Time → Fresh → ApprovalConsumeInput → Approval → Effect → Db → Outcome Db
record_decision now fresh input approval e db = do
  trace ← required (find (is_trace approval.audit_trace_id) db.audit_traces) corruption
  let item = approval_decision now input.approval_id input.decision e.operation_state e.syscall_ids
  ok (record db {
    approvals = update_where (is_approval input.approval_id) (decided_approval now e) db.approvals;
    operations =
        update_where (is_operation approval.operation_id) (moved_operation now e) db.operations;
    transitions =
        db.transitions
        ++ record {
          transition_id = fresh.transition_id;
          operation_id = approval.operation_id;
          ts = now;
          from_state = some "awaiting_approval";
          to_state = e.operation_state;
          reason = some e.transition_reason;
          audit_trace_id = approval.audit_trace_id;
        }
          ∷ [];
    audit_traces = update_where (is_trace approval.audit_trace_id) (with_item item) db.audit_traces;
    events =
        db.events
        ++ record {
          event_ref = fresh.event_ref;
          created_at = now;
          body =
              approval_decided input.approval_id approval.operation_id input.decision e.syscall_ids;
        }
          ∷ [];
  })

abbrev pub decision_response : ApprovalConsumeInput → Approval → Effect → ApprovalDecisionResponse
decision_response input approval e = record {
  approval_id = input.approval_id;
  operation_id = approval.operation_id;
  decision = input.decision;
  status = e.approval_status;
  operation_state = e.operation_state;
  syscall_ids = e.syscall_ids;
  audit_trace_id = approval.audit_trace_id;
}

unfoldable pub consume_work :
    Unicode → Time → Fresh → ApprovalConsumeInput → Db → Outcome (ApprovalDecisionResponse × Db)
consume_work u now fresh input db = do
  approval ← required (find (is_approval input.approval_id) db.approvals) not_found
  ensure (approval.status == "pending") conflict
  ensure ((input.decision == "approve") || (input.decision == "deny")) invalid_input
  checked ← pass_oob now input approval db
  operation ← required (find (is_operation approval.operation_id) checked.operations) not_found
  ensure (operation.state == "awaiting_approval") conflict
  decided ← decide u now fresh input approval operation checked
  recorded ← record_decision now fresh input approval decided.0 decided.1
  let response = decision_response input approval decided.0
  final ←
      store_response (approval_scope input.approval_id) input.idempotency_key input.approval_id
        (decision response) now recorded
  ok (response, final)

unfoldable pub consume_approval_atomic :
    Unicode → Time → Fresh → ApprovalConsumeInput → Db → Outcome ApprovalDecisionResponse × Db
consume_approval_atomic u now fresh input = transact λ db.
    replay_or as_decision db
      (stored_response (approval_scope input.approval_id) input.idempotency_key db)
      (consume_work u now fresh input db)
