-- ===== src/Runner/Examples.antt =====
-- A running operation with a permitted call, met by the recovery at the start of the daemon.
use aadesh.Common.{
  String, String, ◌+◌, ◌≡◌, ◌≤◌, ◌≢◌, refl, true, false, none, some, List, [], ◌∷◌, ◌++◌, map,
  length, eq_iff, arith, pos, negsuc,
}
use mathlib.Core.List.{flat_map}
use aadesh.Json.{null, end, object}
use aadesh.Chrono.{Plus}
use aadesh.Outcome.{Outcome, ok, err, invalid_input}
use aadesh.Unicode.{Unicode}
use aadesh.Calls.{◌>>=◌, ◌>>◌, give, result_of}
use aadesh.Store.{Operation, Syscall, empty, ToolExecutionResult}
use aadesh.Operations.States.{get_operation, update_operation_state}
use aadesh.Operations.Syscalls.{
  get_syscall, list_syscalls_by_operation, update_syscall_status,
  list_recoverable_operation_executions, group_calls, extend_first,
}
use aadesh.Operations.Audit.{append_event, append_audit_timeline_item}
use aadesh.Leases.{try_acquire_operation_lease, release_operation_lease}
use aadesh.Registry.Entries.{get_schema_entry}
use aadesh.Runner.World.{
  World, Outside, ToolCall, ToolRequest, on_db, reads_db, on_leases, now_of, new_uuid, call_tool,
  ticked,
}
use aadesh.Runner.Execute.{
  set_syscall, set_operation, check_result, record_result, attempt, record_failure, execute_syscall,
  execute_one, execute_each, complete_operation, finish_operation,
  execute_permitted_syscalls_under_lease,
}
use aadesh.Runner.Handlers.{
  then_release, execute_permitted_syscalls, recover_each, recover_pending_operation_executions,
}
use aadesh.Runner.Handled.{
  HandlerCall, recover, cancel, handle_all, handle_all_once, handle_all_spent,
}
use aadesh.Runner.Refused.{execution_excluded, attempts_exhausted, failed_calls}
use aadesh.Runner.Quiet.{calls_of, is_spent}
use aadesh.Runner.Taken.{results_of}

abbrev plain : Unicode
plain = record { trim = λ s. s; to_lowercase = λ s. s; contains = λ s t. false }

abbrev adds : Plus
adds t (pos d) = some (t + d)
adds t (negsuc d) = none

abbrev running : Operation
running = record {
  operation_id = "op:1";
  parent_request_id = "req:1";
  isolation_id = "iso:1";
  state = "running";
  state_reason = some "approved_send_pending_execution";
  requesting_audience_id = "root_owner";
  pinned_active_state_version = "state:1";
  pinned_capability_snapshot_version = "cap:1";
  pinned_audience_graph_version = "graph:1";
  budgets = null;
  operation_goal = null;
  created_at = 1;
  updated_at = 1;
}

abbrev call : Syscall
call = record {
  syscall_id = "syscall:1";
  operation_id = "op:1";
  approval_id = some "approval:1";
  created_at = 2;
  updated_at = 2;
  tool_name = "email";
  action_name = "send";
  args_schema_ref = "schema:email";
  result_schema_ref = none;
  status = "permitted";
  args = null;
  result_ref = none;
  audit_trace_id = "audit:1";
}

abbrev ready : World
ready = record {
  db = record empty {
    operations = running ∷ [];
    audit_traces = record { audit_trace_id = "audit:1"; operation_id = "op:1"; timeline = [] } ∷ [];
    syscalls = call ∷ [];
  };
  leases = [];
  tool_calls = [];
  ticks = 0;
}

abbrev sent : ToolExecutionResult
sent = record {
  succeeded = true;
  output_kind = "json";
  output_json = object end;
  content_ref = none;
  sensitivity_s = pos 0;
  taint_s = pos 0;
  started_at = 10;
  ended_at = 11;
  attempts_used = pos 1;
}

-- The first call fails, by an error that is not `Unavailable`, and later ones return.
abbrev second_try : List ToolCall → ToolRequest → Outcome ToolExecutionResult
second_try [] request = err invalid_input
second_try (c ∷ cs) request = ok sent

abbrev never : List ToolCall → ToolRequest → Outcome ToolExecutionResult
never calls request = err invalid_input

abbrev outside : (List ToolCall → ToolRequest → Outcome ToolExecutionResult) → Outside
outside tools = record {
  tools = tools;
  clock = λ n. 10 + n;
  uuid = λ n. "id";
  syscall_retry_attempts = 2;
}

abbrev restarted : List HandlerCall
restarted = recover ∷ recover ∷ cancel "op:1" none ∷ []

handle_all_once_example :
    (new : List ToolCall) × (calls_of "syscall:1"
        (handle_all plain adds (outside second_try) restarted ready).tool_calls
      ≡ [] ++ new)
    × (length new ≤ 2)
    × (results_of new ≤ 1)
handle_all_once_example =
    handle_all_once plain adds (outside second_try) "syscall:1" restarted ready

-- The recovery repeats the call once, and completes the operation.
recovered :
    map
      (λ (c : ToolCall). c.returned)
      (handle_all plain adds (outside second_try) (recover ∷ recover ∷ []) ready).tool_calls
    ≡ false ∷ true ∷ []
unfolding handle_all recover_pending_operation_executions list_recoverable_operation_executions
    group_calls extend_first recover_each execute_permitted_syscalls then_release
    execute_permitted_syscalls_under_lease execute_each execute_one execute_syscall attempt
    record_result check_result record_failure set_syscall set_operation finish_operation
    complete_operation get_syscall get_operation update_syscall_status update_operation_state
    list_syscalls_by_operation append_event append_audit_timeline_item flat_map
    try_acquire_operation_lease release_operation_lease on_db reads_db on_leases now_of new_uuid
    call_tool ◌>>=◌ ◌>>◌ give result_of
recovered = refl

-- The schema of the result is missing: the tool has returned, and the call is left executing, which
-- no recovery takes up.
abbrev unchecked : World
unchecked = record ready {
  db = record ready.db { syscalls = record call { result_schema_ref = some "schema:lost" } ∷ [] };
}

abbrev always : List ToolCall → ToolRequest → Outcome ToolExecutionResult
always calls request = ok sent

left_executing :
    let w = handle_all plain adds (outside always) (recover ∷ recover ∷ []) unchecked in
    (map (λ (s : Syscall). s.status) w.db.syscalls ≡ "executing" ∷ [])
    × (map (λ (c : ToolCall). c.returned) w.tool_calls ≡ true ∷ [])
unfolding handle_all recover_pending_operation_executions list_recoverable_operation_executions
    group_calls extend_first recover_each execute_permitted_syscalls then_release
    execute_permitted_syscalls_under_lease execute_each execute_one execute_syscall attempt
    record_result check_result record_failure set_syscall set_operation finish_operation
    complete_operation get_schema_entry get_syscall get_operation update_syscall_status
    update_operation_state list_syscalls_by_operation append_event append_audit_timeline_item
    flat_map try_acquire_operation_lease release_operation_lease on_db reads_db on_leases now_of
    new_uuid call_tool ◌>>=◌ ◌>>◌ give result_of
left_executing = (refl, refl)

abbrev taken_up : World
taken_up = record ready {
  db = record ready.db { syscalls = record call { status = "executing" } ∷ [] };
}

handle_all_spent_example :
    (calls_of "syscall:1" (handle_all plain adds (outside always) restarted taken_up).tool_calls
      ≡ [])
    × (is_spent "syscall:1" (handle_all plain adds (outside always) restarted taken_up).db ≡ true)
handle_all_spent_example =
    handle_all_spent plain adds (outside always) "syscall:1" restarted taken_up refl

attempts_exhausted_example :
    attempt (outside never) 3 call "audit:1" ready
    ≡ (ok false, record ready { tool_calls = failed_calls 3 "syscall:1" })
attempts_exhausted_example =
    attempts_exhausted (outside never) call "audit:1" (λ calls. (invalid_input, refl)) 3 ready

abbrev leased : World
leased = record ready {
  leases =
      record {
        operation_id = "op:1";
        lease_owner = "recovery:op:1";
        leased_until = 100;
        lease_epoch = 1;
        last_heartbeat_at = none;
        updated_at = 1;
      }
      ∷ [];
}

other_runner : ◌≢◌ {A = String} "recovery:op:1" "executor:req:2"
other_runner e = ground (arith, eq_iff "recovery:op:1" "executor:req:2")

execution_excluded_example :
    execute_permitted_syscalls plain adds
      (outside always)
      "req:2"
      "op:1"
      "audit:1"
      ("syscall:1" ∷ [])
      leased
    ≡ (ok tt, ticked leased)
execution_excluded_example =
    execution_excluded plain adds (outside always) "req:2" "op:1" "audit:1" ("syscall:1" ∷ [])
      leased 30010 refl _ refl other_runner (omega arith)
