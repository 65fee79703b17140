-- ===== src/Runner/Execute.antt =====
-- `execute_permitted_syscalls_under_lease` of routes.rs. Events that are only broadcast to observers
-- are left out, as is the pause between attempts.
use Prim.Native.String.{◌++◌ as str_append}
use aadesh.Common.{
  ℕ, zero, suc, String, Bool, true, false, Option, none, some, List, [], ◌∷◌, ◌==◌, ◌&&◌, all,
  if◌then◌else◌,
}
use aadesh.Outcome.{Outcome, ok, err, panic}
use aadesh.Calls.{Call, ◌>>=◌, ◌>>◌, give, result_of}
use aadesh.Store.{
  ToolExecutionResult, Syscall, syscall_executed, syscall_failed, operation_completed,
  syscall_result,
}
use aadesh.Operations.States.{get_operation, update_operation_state}
use aadesh.Operations.Syscalls.{get_syscall, list_syscalls_by_operation, update_syscall_status}
use aadesh.Operations.Audit.{append_event, append_audit_timeline_item}
use aadesh.Registry.Entries.{get_schema_entry}
use aadesh.Schemas.Validate.{validate_instance_against_schema, ValidationErrorKind}
use aadesh.Runner.World.{World, Outside, ToolRequest, on_db, reads_db, now_of, new_uuid, call_tool}

abbrev pub tool_request : Syscall → ToolRequest
tool_request s = record {
  syscall_id = s.syscall_id;
  tool_name = s.tool_name;
  action_name = s.action_name;
  args_schema_ref = s.args_schema_ref;
  result_schema_ref = s.result_schema_ref;
  args = s.args;
}

-- `.max(1)`
abbrev pub at_least_one : ℕ → ℕ
at_least_one zero = suc zero
at_least_one (suc n) = suc n

module _ (o : Outside) where
  unfoldable pub set_syscall : String → String → Option String → Call World Syscall
  set_syscall k status result_ref = do
    now ← now_of o
    on_db (
        update_syscall_status now
          (record { syscall_id = k; new_status = status; result_ref = result_ref }))

  unfoldable pub set_operation : String → String → String → String → Call World (Unit {0})
  set_operation k state reason audit_trace = do
    now ← now_of o
    fresh ← new_uuid o
    on_db (
        update_operation_state now (str_append "transition:" fresh) k state (some reason)
          audit_trace)

  unfoldable pub check_result : Option String → ToolExecutionResult → Call World (Unit {0})
  check_result none result = give tt
  check_result (some k) result = do
    schema ← reads_db (get_schema_entry k)
    result_of (
        validate_instance_against_schema schema.payload result.output_json
          ValidationErrorKind.corruption)

  -- What follows an attempt that returned a result.
  unfoldable pub record_result : Syscall → String → ToolExecutionResult → Call World (Unit {0})
  record_result s audit_trace result = do
    check_result s.result_schema_ref result
    id ← new_uuid o
    let result_ref = str_append "event:syscall_result:" id
    on_db (
        append_event (record {
          event_ref = result_ref;
          created_at = result.ended_at;
          body = syscall_result s.syscall_id s.tool_name s.action_name result;
        }))
    updated ← set_syscall s.syscall_id "executed" (some result_ref)
    now ← now_of o
    on_db (
        append_audit_timeline_item audit_trace
          (syscall_executed now updated.syscall_id result_ref updated.status))

  abbrev pub after_answer :
      Syscall → String → Call World Bool → Outcome ToolExecutionResult → Call World Bool
  after_answer s audit_trace again (ok result) = record_result s audit_trace result >> give true
  after_answer s audit_trace again (err e) = again
  after_answer s audit_trace again panic = result_of panic

  -- The loop over the attempts that are left: after an error it goes on, whatever the error.
  unfoldable pub attempt : ℕ → Syscall → String → Call World Bool
  attempt zero s audit_trace = give false
  attempt (suc n) s audit_trace =
      call_tool o (tool_request s) >>= after_answer s audit_trace (attempt n s audit_trace)

  unfoldable pub record_failure : Syscall → String → String → Call World (Unit {0})
  record_failure s operation audit_trace = do
    failed ← set_syscall s.syscall_id "failed" none
    set_operation operation "failed" "syscall_execution_failed" audit_trace
    now ← now_of o
    on_db (append_audit_timeline_item audit_trace (syscall_failed now s.syscall_id))

  -- What the loop does with a call that is permitted.
  unfoldable pub execute_syscall : Syscall → String → String → Call World (Unit {0})
  execute_syscall s operation audit_trace = do
    executing ← set_syscall s.syscall_id "executing" s.result_ref
    executed ← attempt (at_least_one o.syscall_retry_attempts) s audit_trace
    if executed then give tt else record_failure s operation audit_trace

  unfoldable pub execute_one : String → String → String → Call World (Unit {0})
  execute_one operation audit_trace k = do
    s ← reads_db (get_syscall k)
    if s.status == "permitted" then execute_syscall s operation audit_trace else give tt

  unfoldable pub execute_each : String → String → List String → Call World (Unit {0})
  execute_each operation audit_trace [] = give tt
  execute_each operation audit_trace (k ∷ ks) =
      execute_one operation audit_trace k >> execute_each operation audit_trace ks

  abbrev has_some : List Syscall → Bool
  has_some [] = false
  has_some (s ∷ ss) = true

  -- `!syscalls.is_empty() && syscalls.iter().all(…)`
  abbrev pub all_executed : List Syscall → Bool
  all_executed calls = has_some calls && all (λ s. s.status == "executed") calls

  unfoldable pub complete_operation : String → String → Call World (Unit {0})
  complete_operation operation audit_trace = do
    set_operation operation "completed" "syscalls_executed" audit_trace
    now ← now_of o
    on_db (append_audit_timeline_item audit_trace (operation_completed now operation))

  unfoldable pub finish_operation : String → String → Call World (Unit {0})
  finish_operation operation audit_trace = do
    current ← reads_db (get_operation operation)
    calls ← reads_db (λ db. ok (list_syscalls_by_operation operation db))
    (if (current.operation.state == "running") && all_executed calls
        then complete_operation operation audit_trace
        else give tt)

  unfoldable pub execute_permitted_syscalls_under_lease :
      String → String → List String → Call World (Unit {0})
  execute_permitted_syscalls_under_lease operation audit_trace calls = do
    execute_each operation audit_trace calls
    finish_operation operation audit_trace
