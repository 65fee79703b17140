-- ===== src/Runner/Handlers.antt =====
-- `execute_permitted_syscalls`, `recover_pending_operation_executions` and `decide_approval` of
-- routes.rs, and `cancel_operation` as the runner meets it.
use Prim.Native.String.{◌++◌ as str_append}
use aadesh.Common.{ℕ, String, Option, none, some, List, [], ◌∷◌, ℤ, pos, length, if◌then◌else◌}
use aadesh.Chrono.{Plus}
use aadesh.Unicode.{Unicode}
use aadesh.Outcome.{Outcome, ok, err, panic}
use aadesh.Calls.{Call, ◌>>=◌, ◌>>◌, give}
use aadesh.Store.{ApprovalDecisionResponse, OperationResponse}
use aadesh.Leases.{try_acquire_operation_lease, release_operation_lease}
use aadesh.Approvals.Consume.{ApprovalConsumeInput, consume_approval_atomic}
use aadesh.Operations.States.{cancel_operation}
use aadesh.Operations.Syscalls.{
  RecoverableOperationExecution, list_recoverable_operation_executions,
}
use aadesh.Runner.World.{World, Outside, on_db, reads_db, on_leases, now_of, new_uuid}
use aadesh.Runner.Execute.{execute_permitted_syscalls_under_lease}

abbrev pub execution_lease_ms : ℤ
execution_lease_ms = pos 30000

-- `unwrap_or_default`
abbrev pub epoch_of : Option ℕ → ℤ
epoch_of none = pos 0
epoch_of (some n) = pos n

-- The lease is released however the execution came out, unless it aborted; the error of the
-- execution goes before the error of the release.
abbrev released : Outcome (Unit {0}) × World → Call World (Unit {0}) → Outcome (Unit {0}) × World
released (ok x, w) release = release w
released (err e, w) release = (err e, (release w).1)
released (panic, w) release = (panic, w)

unfoldable pub then_release : Call World (Unit {0}) → Call World (Unit {0}) → Call World (Unit {0})
then_release m release w = released (m w) release

module _ (u : Unicode) (plus : Plus) (o : Outside) where
  unfoldable pub execute_permitted_syscalls :
      String → String → String → List String → Call World (Unit {0})
  execute_permitted_syscalls request operation audit_trace calls = do
    let runner = str_append "executor:" request
    now ← now_of o
    lease ←
        on_leases
          (λ known. try_acquire_operation_lease plus known now operation runner execution_lease_ms)
    if lease.acquired
        then then_release (execute_permitted_syscalls_under_lease o operation audit_trace calls) (
            on_leases
              (λ known. release_operation_lease operation runner (epoch_of lease.lease_epoch)))
        else give tt

  unfoldable pub recover_each : List RecoverableOperationExecution → Call World (Unit {0})
  recover_each [] = give tt
  recover_each (item ∷ items) = do
    execute_permitted_syscalls (str_append "recovery:" item.operation_id) item.operation_id
        item.audit_trace_id item.syscall_ids
    recover_each items

  unfoldable pub recover_pending_operation_executions : Call World ℕ
  recover_pending_operation_executions = do
    recoverable ← reads_db (λ db. ok (list_recoverable_operation_executions db))
    recover_each recoverable
    give (length recoverable)

  -- The decision is committed before its system calls are executed.
  unfoldable pub decide_approval : ApprovalConsumeInput → Call World ApprovalDecisionResponse
  decide_approval input = do
    request ← new_uuid o
    now ← now_of o
    syscall ← new_uuid o
    transition ← new_uuid o
    event ← new_uuid o
    response ← on_db (
        consume_approval_atomic u now
          (record {
            syscall_id = str_append "syscall:" syscall;
            transition_id = str_append "transition:" transition;
            event_ref = str_append "event:approval:" event;
          })
          input)
    execute_permitted_syscalls request response.operation_id response.audit_trace_id
        response.syscall_ids
    give response

  unfoldable pub cancel_operation_handler : String → Option String → Call World OperationResponse
  cancel_operation_handler operation key = do
    now ← now_of o
    transition ← new_uuid o
    on_db (
        cancel_operation u now (str_append "transition:" transition) operation
          (some "cancelled_by_root_owner") key)
