-- ===== src/Runner/World.antt =====
-- What the handlers of crates/adesh-daemon/src/http/routes.rs work on: the database, the leases, the
-- tools, and the clock.
use aadesh.Common.{ℕ, ◌+◌, String, Bool, true, false, Option, List, [], ◌∷◌, ◌++◌, any}
use aadesh.Chrono.{Time}
use aadesh.Json.{Value}
use aadesh.Outcome.{Outcome, ok, err, panic}
use aadesh.Calls.{Call}
use aadesh.Store.{ToolExecutionResult, Db, is_operation}
use aadesh.Leases.{Leases}

-- The arguments of `execute_syscall` (crates/adesh-core/src/ports/tool.rs).
pub record ToolRequest : Type 0 where
  pub syscall_id : String
  pub tool_name : String
  pub action_name : String
  pub args_schema_ref : String
  pub result_schema_ref : Option String
  pub args : Value

-- A call of a tool that was made, and whether the tool returned a result.
pub record ToolCall : Type 0 where
  pub syscall_id : String
  pub returned : Bool

-- `ticks` counts the instants and the identifiers that were asked for.
pub record World : Type 0 where
  pub db : Db
  pub leases : Leases
  pub tool_calls : List ToolCall
  pub ticks : ℕ

-- The tools, which may answer by all that was asked of them before; the clock and `Uuid::new_v4`; and
-- the number of attempts of the configuration.
pub record Outside : Type 0 where
  pub tools : List ToolCall → ToolRequest → Outcome ToolExecutionResult
  pub clock : ℕ → Time
  pub uuid : ℕ → String
  pub syscall_retry_attempts : ℕ

abbrev put_db : {A : Type 0} → World → Outcome A × Db → Outcome A × World
put_db w (r, db) = (r, record w { db = db })

abbrev put_leases : {A : Type 0} → World → Outcome A × Leases → Outcome A × World
put_leases w (r, ls) = (r, record w { leases = ls })

-- A call of the storage.
unfoldable pub on_db : {A : Type 0} → (Db → Outcome A × Db) → Call World A
on_db m w = put_db w (m w.db)

unfoldable pub reads_db : {A : Type 0} → (Db → Outcome A) → Call World A
reads_db m w = (m w.db, w)

-- `known` is the foreign key of a lease.
unfoldable pub on_leases :
    {A : Type 0} → ((String → Bool) → Leases → Outcome A × Leases) → Call World A
on_leases m w = put_leases w (m (λ k. any (is_operation k) w.db.operations) w.leases)

abbrev pub ticked : World → World
ticked w = record w { ticks = w.ticks + 1 }

unfoldable pub now_of : Outside → Call World Time
now_of o w = (ok (o.clock w.ticks), ticked w)

unfoldable pub new_uuid : Outside → Call World String
new_uuid o w = (ok (o.uuid w.ticks), ticked w)

abbrev pub is_ok : {A : Type 0} → Outcome A → Bool
is_ok (ok a) = true
is_ok (err e) = false
is_ok panic = false

-- `execute_syscall`: what the tool answers is a value of the loop around it.
unfoldable pub call_tool : Outside → ToolRequest → Call World (Outcome ToolExecutionResult)
call_tool o request w =
    let answer = o.tools w.tool_calls request in
    (
      ok answer,
      record w {
        tool_calls =
            w.tool_calls
            ++ record { syscall_id = request.syscall_id; returned = is_ok answer } ∷ [];
      },
    )
