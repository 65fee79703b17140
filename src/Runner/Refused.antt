-- ===== src/Runner/Refused.antt =====
-- The executor of routes.rs where it is refused the lease, and where its tool fails.
use Prim.Native.String.{◌++◌ as str_append}
use mathlib.Core.List.{append_assoc, append-nil}
use aadesh.Common.{
  ℕ, zero, suc, ◌<◌, String, ◌≡◌, ◌≢◌, refl, sym, ap, ◌∙◌, false, some, List, [], ◌∷◌, ◌++◌, any,
  find,
}
use aadesh.Chrono.{Time, Plus}
use aadesh.Unicode.{Unicode}
use aadesh.Outcome.{ok, err, StorageError}
use aadesh.Calls.{◌>>=◌, give}
use aadesh.Store.{Syscall, is_operation}
use aadesh.Leases.{is_for}
use aadesh.Leases.Exclusion.{acquire_refused}
use aadesh.Runner.World.{World, Outside, ToolCall, now_of, on_leases, ticked, call_tool}
use aadesh.Runner.Execute.{tool_request, attempt}
use aadesh.Runner.Handlers.{execution_lease_ms, execute_permitted_syscalls}

-- While another runner's lease of the operation runs, the executor changes nothing and calls no
-- tool, whatever calls it is given, and reports no error.
pub execution_excluded :
    (u : Unicode) (plus : Plus) (o : Outside) (request operation trace : String)
    (calls : List String) (w : World) (until : Time)
    → plus (o.clock w.ticks) execution_lease_ms ≡ some until
    → (l : _) → find (is_for operation) w.leases ≡ some l
    → l.lease_owner ≢ str_append "executor:" request
    → o.clock w.ticks < l.leased_until
    → execute_permitted_syscalls u plus o request operation trace calls w ≡ (ok tt, ticked w)
unfolding execute_permitted_syscalls ◌>>=◌ now_of on_leases give
execution_excluded u plus o request operation trace calls w until date l found other running =
    rw
      (acquire_refused plus (λ k. any (is_operation k) w.db.operations) (o.clock w.ticks) until
        operation (str_append "executor:" request) execution_lease_ms w.leases date found other
        running)
      refl

abbrev pub failed_calls : ℕ → String → List ToolCall
failed_calls zero k = []
failed_calls (suc n) k = record { syscall_id = k; returned = false } ∷ failed_calls n k

-- Where the tool answers each call by an error, of whatever class, all the attempts that are left are
-- made, and none of them counts as executed.
pub attempts_exhausted :
    (o : Outside) (s : Syscall) (trace : String)
    → ((calls : List ToolCall) → (e : StorageError) × (o.tools calls (tool_request s) ≡ err e))
    → (n : ℕ) (w : World)
    → attempt o n s trace w
      ≡ (ok false, record w { tool_calls = w.tool_calls ++ failed_calls n s.syscall_id })
unfolding attempt call_tool ◌>>=◌ give
attempts_exhausted o s trace fails zero w =
    ap (λ cs. (ok false, record w { tool_calls = cs })) (sym (append-nil w.tool_calls))
attempts_exhausted o s trace fails (suc n) w =
    let (e, failed) = fails w.tool_calls in
    let call : ToolCall = record { syscall_id = s.syscall_id; returned = false } in
    let later =
      attempts_exhausted o s trace fails n (record w { tool_calls = w.tool_calls ++ call ∷ [] }) in
    rw failed (
      later
      ∙ ap (λ cs. (ok false, record w { tool_calls = cs }))
          (append_assoc w.tool_calls (call ∷ []) (failed_calls n s.syscall_id)))
