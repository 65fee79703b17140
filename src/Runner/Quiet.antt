-- ===== src/Runner/Quiet.antt =====
-- Calls of routes.rs and storage.rs after which a system call is no nearer to its execution.
use aadesh.Common.{
  String, ◌≡◌, refl, ◌∙◌, Bool, true, false, not, Option, none, some, List, ◌==◌, find, select,
}
use aadesh.Outcome.{Outcome}
use aadesh.Calls.{Call}
use aadesh.Calls.Moves.{Order, Moves}
use aadesh.Store.{Syscall, Db, is_syscall}
use aadesh.Leases.{Leases}
use aadesh.Runner.World.{World, Outside, ToolCall, on_db, reads_db, on_leases, now_of, new_uuid}

module _ (k : String) where
  -- The calls of a tool for the system call.
  abbrev pub calls_of : List ToolCall → List ToolCall
  calls_of calls = select (λ c. c.syscall_id == k) calls

  abbrev pub is_past : Option Syscall → Bool
  is_past none = false
  is_past (some s) = not (s.status == "permitted")

  -- The system call is stored and no longer permitted.
  abbrev pub is_spent : Db → Bool
  is_spent db = is_past (find (is_syscall k) db.syscalls)

  -- No tool is called for the system call, and it is not permitted again.
  abbrev pub Follows : World → World → Type 0
  Follows w w' =
      (calls_of w'.tool_calls ≡ calls_of w.tool_calls)
      × (is_spent w.db ≡ true → is_spent w'.db ≡ true)

  abbrev pub following : Order World
  following = record {
    below = Follows;
    below_refl = λ w. (refl, λ h. h);
    below_trans = λ u v w a b. (b.0 ∙ a.0, λ h. b.1 (a.1 h));
  }

  abbrev pub IsQuiet : {A : Type 0} → Call World A → Type 0
  IsQuiet m = Moves following m

  pub IsQuiet-reads_db : {A : Type 0} (m : Db → Outcome A) → IsQuiet (reads_db m)
  unfolding reads_db
  IsQuiet-reads_db m = record { moves = λ w. (refl, λ h. h) }

  pub IsQuiet-on_db :
      {A : Type 0} (m : Db → Outcome A × Db)
      → ((db : Db) → is_spent db ≡ true → is_spent (m db).1 ≡ true)
      → IsQuiet (on_db m)
  unfolding on_db
  IsQuiet-on_db m h = record { moves = λ w. (refl, h w.db) }

  pub IsQuiet-on_leases :
      {A : Type 0} (m : (String → Bool) → Leases → Outcome A × Leases) → IsQuiet (on_leases m)
  unfolding on_leases
  IsQuiet-on_leases m = record { moves = λ w. (refl, λ h. h) }

  pub IsQuiet-now_of : (o : Outside) → IsQuiet (now_of o)
  unfolding now_of
  IsQuiet-now_of o = record { moves = λ w. (refl, λ h. h) }

  pub IsQuiet-new_uuid : (o : Outside) → IsQuiet (new_uuid o)
  unfolding new_uuid
  IsQuiet-new_uuid o = record { moves = λ w. (refl, λ h. h) }
