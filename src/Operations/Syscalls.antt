-- ===== src/Operations/Syscalls.antt =====
-- `list_syscalls_by_operation`, `get_syscall`, `update_syscall_status` and
-- `list_recoverable_operation_executions`.
use aadesh.Common.{
  String, Bool, ◌||◌, ◌&&◌, Option, List, [], ◌∷◌, ◌++◌, ◌==◌, find, map, select, sort_by,
  update_where, holds_text, if◌then◌else◌,
}
use mathlib.Core.List.{flat_map}
use aadesh.Chrono.{Time}
use aadesh.Outcome.{Outcome, ok, conflict, not_found, ◌>>=◌, ◌>>◌, ensure, required, transact}
use aadesh.Store.{Operation, AuditTrace, Syscall, Db, is_syscall, is_trace_of}

unfoldable pub list_syscalls_by_operation : String → Db → List Syscall
list_syscalls_by_operation k db =
    sort_by (λ s. s.created_at) (select (λ s. s.operation_id == k) db.syscalls)

unfoldable pub get_syscall : String → Db → Outcome Syscall
get_syscall k db = required (find (is_syscall k) db.syscalls) not_found

pub record SyscallStatusUpdateInput : Type 0 where
  pub syscall_id : String
  pub new_status : String
  pub result_ref : Option String

abbrev pub is_executable : String → Bool
is_executable s = (s == "permitted") || (s == "executing")

abbrev pub with_status : Time → SyscallStatusUpdateInput → Syscall → Syscall
with_status now input s = record s {
  status = input.new_status;
  result_ref = input.result_ref;
  updated_at = now;
}

unfoldable pub update_syscall_status : Time → SyscallStatusUpdateInput → Db → Outcome Syscall × Db
update_syscall_status now input = transact λ db. do
  s ← required (find (is_syscall input.syscall_id) db.syscalls) not_found
  ensure (is_executable s.status) conflict
  let rows = update_where (is_syscall input.syscall_id) (with_status now input) db.syscalls
  row ← required (find (is_syscall input.syscall_id) rows) not_found
  ok (row, record db { syscalls = rows })

pub record RecoverableOperationExecution : Type 0 where
  pub operation_id : String
  pub audit_trace_id : String
  pub syscall_ids : List String

-- The rows of the join, an operation with a trace and a permitted call.
pub record Recoverable : Type 0 where
  pub operation_id : String
  pub audit_trace_id : String
  pub syscall_id : String
  pub updated_at : Time
  pub created_at : Time

abbrev pub is_resumable : Operation → Bool
is_resumable o =
    (o.state == "running") && holds_text o.state_reason "approved_send_pending_execution"

abbrev pub permitted_calls : Operation → Db → List Syscall
permitted_calls o db =
    select (λ s. (s.operation_id == o.operation_id) && (s.status == "permitted")) db.syscalls

abbrev pub joined : Db → Operation → List Recoverable
joined db o =
    flat_map
      (λ (s : Syscall).
        map
          (λ (t : AuditTrace). record {
            operation_id = o.operation_id;
            audit_trace_id = t.audit_trace_id;
            syscall_id = s.syscall_id;
            updated_at = o.updated_at;
            created_at = s.created_at;
          })
          (select (is_trace_of o.operation_id) db.audit_traces))
      (permitted_calls o db)

-- `ORDER BY o.updated_at ASC, s.created_at ASC`
abbrev pub recoverable_rows : Db → List Recoverable
recoverable_rows db =
    sort_by (λ r. r.updated_at)
      (sort_by (λ r. r.created_at) (flat_map (joined db) (select is_resumable db.operations)))

abbrev pub is_group : String → RecoverableOperationExecution → Bool
is_group k g = g.operation_id == k

abbrev pub with_call : String → RecoverableOperationExecution → RecoverableOperationExecution
with_call s g = record g { syscall_ids = g.syscall_ids ++ s ∷ [] }

-- The first group of the operation gets the call.
unfoldable pub extend_first :
    Recoverable → List RecoverableOperationExecution → List RecoverableOperationExecution
extend_first row [] =
    record {
      operation_id = row.operation_id;
      audit_trace_id = row.audit_trace_id;
      syscall_ids = row.syscall_id ∷ [];
    }
    ∷ []
extend_first row (g ∷ gs) =
    let rest = g ∷ extend_first row gs in
    if is_group row.operation_id g then with_call row.syscall_id g ∷ gs else rest

-- The loop over the rows.
unfoldable pub group_calls :
    List RecoverableOperationExecution → List Recoverable → List RecoverableOperationExecution
group_calls groups [] = groups
group_calls groups (row ∷ rows) = group_calls (extend_first row groups) rows

unfoldable pub list_recoverable_operation_executions : Db → List RecoverableOperationExecution
unfolding group_calls extend_first
list_recoverable_operation_executions db = group_calls [] (recoverable_rows db)
