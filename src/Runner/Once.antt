-- ===== src/Runner/Once.antt =====
-- The attempts of the executor of routes.rs, for one system call.
use aadesh.Common.{
  ℕ, zero, suc, ◌≤◌, String, ◌≡◌, refl, sym, ap, ◌∙◌, true, false, List, [], ◌∷◌, ◌++◌, arith, ◌==◌,
  length,
}
use mathlib.Core.List.{append-nil, append_assoc}
use aadesh.Outcome.{Outcome, ok, err, panic}
use aadesh.Calls.{◌>>=◌, give, result_of}
use aadesh.Store.{ToolExecutionResult, Syscall}
use aadesh.Calls.Moves.{Moves-bind, Moves-then, Moves-give, Moves-result_of}
use aadesh.Runner.World.{World, Outside, ToolCall, ToolRequest, call_tool, is_ok}
use aadesh.Runner.Execute.{tool_request, after_answer, attempt}
use aadesh.Runner.Quiet.{calls_of, is_spent, IsQuiet}
use aadesh.Runner.Attempts.{record_result-IsQuiet}
use aadesh.Runner.Taken.{results_of, calls_of-append, Adds}

module _ (k : String) (o : Outside) where
  -- A tool that is called for another system call.
  call_tool-IsQuiet : (r : ToolRequest) → (r.syscall_id == k) ≡ false → IsQuiet k (call_tool o r)
  unfolding call_tool
  call_tool-IsQuiet r n = record {
    moves = λ w.
        (calls_of-append k w.tool_calls _ ∙ rw n (append-nil (calls_of k w.tool_calls)), λ h. h);
  }

  pub attempt-IsQuiet :
      (n : ℕ) (s : Syscall) (trace : String)
      → (s.syscall_id == k) ≡ false
      → IsQuiet k (attempt o n s trace)
  unfolding attempt
  attempt-IsQuiet zero s trace other = Moves-give _ false
  attempt-IsQuiet (suc n) s trace other =
      Moves-bind _ (call_tool-IsQuiet (tool_request s) other)
        (after (attempt-IsQuiet n s trace other))
    where
      after :
          IsQuiet k (attempt o n s trace)
          → (a : Outcome ToolExecutionResult)
          → IsQuiet k (after_answer o s trace (attempt o n s trace) a)
      after again (ok result) =
          Moves-then _ (record_result-IsQuiet k o s trace result) (Moves-give _ true)
      after again (err e) = again
      after again panic = Moves-result_of _ panic

  -- At most `n` calls are added, of which one may have returned a result.
  abbrev pub Grows : ℕ → World → World → Type 0
  Grows n w w' =
      (is_spent k w.db ≡ true → is_spent k w'.db ≡ true)
      × (new : List ToolCall) × (length new ≤ n)
      × (results_of new ≤ 1)
      × Adds k new w w'

  called : Syscall → Outcome ToolExecutionResult → ToolCall
  called s a = record { syscall_id = s.syscall_id; returned = is_ok a }

  pub attempt-Grows :
      (n : ℕ) (s : Syscall) (trace : String)
      → (s.syscall_id == k) ≡ true
      → (w : World) → Grows n w (attempt o n s trace w).1
  unfolding attempt call_tool ◌>>=◌ give result_of called
  attempt-Grows zero s trace own w =
      (λ h. h, [], omega arith, omega arith, sym (append-nil (calls_of k w.tool_calls)))
  attempt-Grows (suc n) s trace own w =
      after (o.tools w.tool_calls (tool_request s)) (attempt-Grows n s trace own)
    where
      called_world : Outcome ToolExecutionResult → World
      called_world a = record w { tool_calls = w.tool_calls ++ called s a ∷ [] }

      one :
          (a : Outcome ToolExecutionResult)
          → calls_of k (called_world a).tool_calls ≡ calls_of k w.tool_calls ++ called s a ∷ []
      one a = calls_of-append k w.tool_calls (called s a ∷ []) ∙ rw own refl

      after :
          (a : Outcome ToolExecutionResult)
          → ((v : World) → Grows n v (attempt o n s trace v).1)
          → Grows (suc n) w (after_answer o s trace (attempt o n s trace) a (called_world a)).1
      after (ok result) again =
          let quiet = Moves-then _ (record_result-IsQuiet k o s trace result) (Moves-give _ true) in
          let f = quiet.moves (called_world (ok result)) in
          (f.1, called s (ok result) ∷ [], omega arith, omega arith, f.0 ∙ one (ok result))
      after (err e) again =
          let (spent, new, l, r, adds) = again (called_world (err e)) in
          (
            spent,
            called s (err e) ∷ new,
            omega arith,
            r,
            adds
                ∙ ap (λ cs. cs ++ new) (one (err e))
                ∙ append_assoc (calls_of k w.tool_calls) (called s (err e) ∷ []) new,
          )
      after panic again = (λ h. h, called s panic ∷ [], omega arith, omega arith, one panic)
