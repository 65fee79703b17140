-- ===== src/Runner/Attempts.antt =====
-- `execute_permitted_syscalls_under_lease` of routes.rs and its parts, for one system call.
use aadesh.Common.{String, ◌≡◌, refl, false, Option, none, some, ◌==◌}
use aadesh.Chrono.{Time}
use aadesh.Store.{ToolExecutionResult, Syscall}
use aadesh.Calls.Moves.{Moves, Moves-bind, Moves-then, Moves-give, Moves-result_of, Moves-if}
use aadesh.Runner.World.{Outside}
use aadesh.Runner.Execute.{
  set_syscall, set_operation, check_result, record_result, record_failure, finish_operation,
  complete_operation,
}
use aadesh.Runner.Quiet.{
  calls_of, is_spent, IsQuiet, IsQuiet-reads_db, IsQuiet-on_db, IsQuiet-on_leases, IsQuiet-now_of,
  IsQuiet-new_uuid,
}
use aadesh.Runner.Spent.{
  update_syscall_status-Spent, update_operation_state-Spent, append_event-Spent,
  append_audit_timeline_item-Spent,
}

pub ruleset quiet = (
  Moves-bind, Moves-then, Moves-give, Moves-result_of, IsQuiet-reads_db, IsQuiet-on_db,
  IsQuiet-on_leases, IsQuiet-now_of, IsQuiet-new_uuid, Moves-if, update_operation_state-Spent,
  append_event-Spent, append_audit_timeline_item-Spent,
)

module _ (k : String) (o : Outside) where
  set_syscall-IsQuiet :
      (i status : String) (result_ref : Option String)
      → (status == "permitted") ≡ false
      → IsQuiet k (set_syscall o i status result_ref)
  unfolding set_syscall
  set_syscall-IsQuiet i status result_ref n = search (
    quiet,
    λ (now : Time).
        update_syscall_status-Spent k now
          (record { syscall_id = i; new_status = status; result_ref = result_ref }),
  )

  pub set_executing-IsQuiet :
      (i : String) (result_ref : Option String) → IsQuiet k (set_syscall o i "executing" result_ref)
  set_executing-IsQuiet i result_ref = set_syscall-IsQuiet i "executing" result_ref refl

  set_executed-IsQuiet :
      (i : String) (result_ref : Option String) → IsQuiet k (set_syscall o i "executed" result_ref)
  set_executed-IsQuiet i result_ref = set_syscall-IsQuiet i "executed" result_ref refl

  set_failed-IsQuiet :
      (i : String) (result_ref : Option String) → IsQuiet k (set_syscall o i "failed" result_ref)
  set_failed-IsQuiet i result_ref = set_syscall-IsQuiet i "failed" result_ref refl

  set_operation-IsQuiet :
      (i state reason trace : String) → IsQuiet k (set_operation o i state reason trace)
  unfolding set_operation
  set_operation-IsQuiet i state reason trace = search quiet

  check_result-IsQuiet :
      (r : Option String) (result : ToolExecutionResult) → IsQuiet k (check_result o r result)
  unfolding check_result
  check_result-IsQuiet none result = search quiet
  check_result-IsQuiet (some i) result = search quiet

  pub record_result-IsQuiet :
      (s : Syscall) (trace : String) (result : ToolExecutionResult)
      → IsQuiet k (record_result o s trace result)
  unfolding record_result
  record_result-IsQuiet s trace result =
      search (quiet, check_result-IsQuiet, set_executed-IsQuiet) depth 12

  pub record_failure-IsQuiet :
      (s : Syscall) (operation trace : String) → IsQuiet k (record_failure o s operation trace)
  unfolding record_failure
  record_failure-IsQuiet s operation trace =
      search (quiet, set_failed-IsQuiet, set_operation-IsQuiet) depth 12

  complete_operation-IsQuiet :
      (operation trace : String) → IsQuiet k (complete_operation o operation trace)
  unfolding complete_operation
  complete_operation-IsQuiet operation trace = search (quiet, set_operation-IsQuiet) depth 12

  pub finish_operation-IsQuiet :
      (operation trace : String) → IsQuiet k (finish_operation o operation trace)
  unfolding finish_operation
  finish_operation-IsQuiet operation trace = search (quiet, complete_operation-IsQuiet) depth 12
