-- ===== src/Runner/Handled.antt =====
-- The handlers of routes.rs that run system calls, one after the other.
use mathlib.Core.List.{append-nil}
use aadesh.Common.{
  sym, ◌≤◌, String, ◌≡◌, refl, ◌∙◌, inl, inr, true, Option, List, [], ◌∷◌, ◌++◌, arith, length,
}
use aadesh.Chrono.{Plus}
use aadesh.Unicode.{Unicode}
use aadesh.Outcome.{Outcome, ok, err, panic}
use aadesh.Calls.{Call}
use aadesh.Approvals.Consume.{ApprovalConsumeInput}
use aadesh.Operations.Syscalls.{RecoverableOperationExecution}
use aadesh.Calls.Moves.{Moves-bind, Moves-then, Moves-give, Moves-if}
use aadesh.Runner.World.{World, ToolCall, Outside}
use aadesh.Runner.Execute.{at_least_one}
use aadesh.Runner.Handlers.{
  then_release, execute_permitted_syscalls, recover_each, recover_pending_operation_executions,
  decide_approval, cancel_operation_handler,
}
use aadesh.Runner.Quiet.{is_spent, calls_of}
use aadesh.Runner.Spent.{consume_approval_atomic-Spent, cancel_operation-Spent}
use aadesh.Runner.Attempts.{quiet}
use aadesh.Runner.Taken.{results_of, Progress, Progress-trans, Progresses, Progresses-IsQuiet}
use aadesh.Runner.Sequence.{limit, under_lease-Progresses}

-- A request that a handler answers.
pub data HandlerCall : Type 0 where
  decide_item : ApprovalConsumeInput → HandlerCall
  recover : HandlerCall
  cancel : String → Option String → HandlerCall

module _ (u : Unicode) (plus : Plus) (o : Outside) where
  abbrev pub handle : HandlerCall → World → World
  handle (decide_item input) w = (decide_approval u plus o input w).1
  handle recover w = (recover_pending_operation_executions u plus o w).1
  handle (cancel operation key) w = (cancel_operation_handler u plus o operation key w).1

  unfoldable pub handle_all : List HandlerCall → World → World
  handle_all [] w = w
  handle_all (c ∷ cs) w = handle_all cs (handle c w)

  module _ (k : String) where
    then_release-Progresses :
        (m release : Call World (Unit {0}))
        → Progresses k (limit k o) m
        → Progresses k (limit k o) release
        → Progresses k (limit k o) (then_release m release)
    unfolding then_release
    then_release-Progresses m release h g = record { moves = λ w. go w (m w) (h.moves w) }
      where
        go :
            (w : World) (r : Outcome (Unit {0}) × World)
            → Progress k (limit k o) w r.1
            → Progress k (limit k o) w (then_release (λ _. r) release w).1
        go w (ok x, w') p = Progress-trans k (limit k o) w w' (release w').1 p (g.moves w')
        go w (err e, w') p = Progress-trans k (limit k o) w w' (release w').1 p (g.moves w')
        go w (panic, w') p = p

    execute_permitted_syscalls-Progresses :
        (request operation trace : String) (calls : List String)
        → Progresses k
            (limit k o)
            (execute_permitted_syscalls u plus o request operation trace calls)
    unfolding execute_permitted_syscalls
    execute_permitted_syscalls-Progresses request operation trace calls =
        search
          (
            Moves-bind, then_release-Progresses, under_lease-Progresses, Moves-if,
            Progresses-IsQuiet, quiet,
          )
          depth 12

    recover_each-Progresses :
        (items : List RecoverableOperationExecution)
        → Progresses k (limit k o) (recover_each u plus o items)
    unfolding recover_each
    recover_each-Progresses [] = Progresses-IsQuiet k _ (Moves-give _ tt)
    recover_each-Progresses (item ∷ items) =
        Moves-then _ (execute_permitted_syscalls-Progresses _ _ _ _) (recover_each-Progresses items)

    recover-Progresses : Progresses k (limit k o) (recover_pending_operation_executions u plus o)
    unfolding recover_pending_operation_executions
    recover-Progresses =
        search (Moves-bind, Moves-then, recover_each-Progresses, Progresses-IsQuiet, quiet) depth 12

    decide_approval-Progresses :
        (input : ApprovalConsumeInput) → Progresses k (limit k o) (decide_approval u plus o input)
    unfolding decide_approval
    decide_approval-Progresses input =
        search
          (
            Moves-bind, Moves-then, execute_permitted_syscalls-Progresses, Progresses-IsQuiet,
            quiet, consume_approval_atomic-Spent,
          )
          depth 16

    cancel-Progresses :
        (operation : String) (key : Option String)
        → Progresses k (limit k o) (cancel_operation_handler u plus o operation key)
    unfolding cancel_operation_handler
    cancel-Progresses operation key =
        search (Progresses-IsQuiet, quiet, cancel_operation-Spent) depth 12

    handle-Progress : (c : HandlerCall) (w : World) → Progress k (limit k o) w (handle c w)
    handle-Progress (decide_item input) w = (decide_approval-Progresses input).moves w
    handle-Progress recover w = recover-Progresses.moves w
    handle-Progress (cancel operation key) w = (cancel-Progresses operation key).moves w

    handle_all-Progress :
        (cs : List HandlerCall) (w : World) → Progress k (limit k o) w (handle_all cs w)
    unfolding handle_all
    handle_all-Progress [] w = inl (refl, λ h. h)
    handle_all-Progress (c ∷ cs) w =
        Progress-trans k (limit k o) w (handle c w) (handle_all cs (handle c w))
          (handle-Progress c w) (handle_all-Progress cs (handle c w))

    -- Any sequence of decisions, recoveries and cancellations, each made after the last is over, adds
    -- at most as many calls of a tool for one system call as the configuration allows attempts (one,
    -- where it allows none), and at most one of them returns a result.
    pub handle_all_once :
        (cs : List HandlerCall) (w : World)
        → (new : List ToolCall) × (calls_of k (handle_all cs w).tool_calls
            ≡ calls_of k w.tool_calls ++ new)
          × (length new ≤ at_least_one o.syscall_retry_attempts)
          × (results_of new ≤ 1)
    handle_all_once cs w = elim (handle_all-Progress cs w) [
      | inl (same, keeps) ↦
          ([], same ∙ sym (append-nil (calls_of k w.tool_calls)), omega arith, omega arith)
      | inr (fresh, spent, new, l, r, adds) ↦ (new, adds, l, r)
    ]

    -- A system call that is stored and not permitted (it is executing, executed or failed, say) is
    -- never permitted again by any sequence of decisions, recoveries and cancellations, each made
    -- after the last is over, and no tool is called for it.
    pub handle_all_spent :
        (cs : List HandlerCall) (w : World)
        → is_spent k w.db ≡ true
        → (calls_of k (handle_all cs w).tool_calls ≡ calls_of k w.tool_calls)
          × (is_spent k (handle_all cs w).db ≡ true)
    handle_all_spent cs w h = elim (handle_all-Progress cs w) [
      | inl (same, keeps) ↦ (same, keeps h)
      | inr (fresh, spent, new, l, r, adds) ↦ absurd (cc)
    ]
