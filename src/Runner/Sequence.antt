-- ===== src/Runner/Sequence.antt =====
-- The executor of routes.rs over a list of system calls.
use aadesh.Common.{
  ℕ, String, ◌≡◌, refl, sym, ap, ◌∙◌, inl, inr, Bool, true, false, Option, some, List, [], ◌∷◌,
  ◌++◌, ◌==◌, eq_of_text, find, find_holds, if◌then◌else◌, Bool-cases, Option-cases,
}
use aadesh.Outcome.{Outcome, ok, err, panic}
use aadesh.Calls.{follow, ◌>>=◌, give}
use aadesh.Store.{Syscall, is_syscall}
use aadesh.Operations.Syscalls.{get_syscall}
use aadesh.Calls.Moves.{Moves-then, Moves-give}
use aadesh.Runner.World.{World, Outside, on_db, reads_db, now_of}
use aadesh.Runner.Execute.{
  set_syscall, attempt, record_failure, execute_syscall, execute_one, execute_each, at_least_one,
  execute_permitted_syscalls_under_lease,
}
use aadesh.Runner.Quiet.{following, is_past, is_spent, Follows, IsQuiet}
use aadesh.Runner.Spent.{update_syscall_status-spends}
use aadesh.Runner.Attempts.{
  quiet, set_executing-IsQuiet, record_failure-IsQuiet, finish_operation-IsQuiet,
}
use aadesh.Runner.Once.{attempt-IsQuiet, attempt-Grows, Grows}
use aadesh.Runner.Taken.{Taken, Progress, Progresses, Progresses-IsQuiet}

module _ (k : String) (o : Outside) where
  -- The attempts that the configuration allows.
  abbrev pub limit : ℕ
  limit = at_least_one o.syscall_retry_attempts

  execute_syscall-IsQuiet :
      (s : Syscall) (operation trace : String)
      → (s.syscall_id == k) ≡ false
      → IsQuiet k (execute_syscall o s operation trace)
  unfolding execute_syscall
  execute_syscall-IsQuiet s operation trace other =
      search (quiet, set_executing-IsQuiet, record_failure-IsQuiet, attempt-IsQuiet) depth 12

  set_executing_spends :
      (i : String) (result_ref : Option String) (w : World)
      → i ≡ k
      → (row : Syscall) → (set_syscall o i "executing" result_ref w).0 ≡ ok row
      → is_spent k (set_syscall o i "executing" result_ref w).1.db ≡ true
  unfolding set_syscall ◌>>=◌ now_of on_db
  set_executing_spends i result_ref w own row e =
      update_syscall_status-spends k _
        (record { syscall_id = i; new_status = "executing"; result_ref = result_ref }) w.db refl own
        e

  execute_own :
      (s : Syscall) (operation trace : String) (w : World)
      → (s.syscall_id == k) ≡ true
      → is_spent k w.db ≡ false
      → Progress k limit w (execute_syscall o s operation trace w).1
  unfolding execute_syscall ◌>>=◌ give
  execute_own s operation trace w own fresh =
      start (set_syscall o s.syscall_id "executing" s.result_ref w)
        ((set_executing-IsQuiet k o s.syscall_id s.result_ref).moves w)
        (set_executing_spends s.syscall_id s.result_ref w (eq_of_text s.syscall_id k own))
    where
      taken :
          (v w' : World)
          → is_spent k v.db ≡ true
          → Follows k w v
          → Grows k o limit v w'
          → Taken k limit w w'
      taken v w' spent f (keeps, new, l, r, adds) =
          (fresh, keeps spent, new, l, r, adds ∙ ap (λ cs. cs ++ new) f.0)

      end :
          (v : World)
          → (r : Outcome Bool × World) → Taken k limit w r.1
          → Taken k limit w
              (follow r λ b. if b then give tt else record_failure o s operation trace).1
      end v (ok true, w') t = t
      end v (ok false, w') (p, q, new, l, r, e) =
          let f = (record_failure-IsQuiet k o s operation trace).moves w' in
          (p, f.1 q, new, l, r, f.0 ∙ e)
      end v (err e, w') t = t
      end v (panic, w') t = t

      start :
          (r : Outcome Syscall × World)
          → Follows k w r.1
          → ((row : Syscall) → r.0 ≡ ok row → is_spent k r.1.db ≡ true)
          → Progress k limit w
              (follow r λ executing v'.
                follow
                  (attempt o limit s trace v')
                  λ b. if b then give tt else record_failure o s operation trace).1
      start (ok row, v) f spends = inr (
          end v (attempt o limit s trace v) (
            taken v (attempt o limit s trace v).1 (spends row refl) f
              (attempt-Grows k o limit s trace own v)))
      start (err e, v) f spends = inl f
      start (panic, v) f spends = inl f

  pub execute_one-Progresses :
      (operation trace j : String) → Progresses k limit (execute_one o operation trace j)
  unfolding execute_one ◌>>=◌ reads_db get_syscall
  execute_one-Progresses operation trace j = record { moves = go }
    where
      ran :
          (s : Syscall) (w : World)
          → find (is_syscall j) w.db.syscalls ≡ some s
          → (b : Bool) → (s.status == "permitted") ≡ b
          → Progress k limit w ((if b then execute_syscall o s operation trace else give tt) w).1
      ran s w found false e = inl ((Moves-give (following k) tt).moves w)
      ran s w found true e = elim (Bool-cases (s.syscall_id == k)) [
        | inl own ↦ execute_own s operation trace w own (
            let same = eq_of_text s.syscall_id k own in
            let here = eq_of_text s.syscall_id j (find_holds (is_syscall j) w.db.syscalls found) in
            ap (λ i. is_past k (find (is_syscall i) w.db.syscalls)) (sym same ∙ here)
            ∙ rw found (rw e refl))
        | inr other ↦ inl ((execute_syscall-IsQuiet s operation trace other).moves w)
      ]

      go : (w : World) → Progress k limit w (execute_one o operation trace j w).1
      go w = elim (Option-cases (find (is_syscall j) w.db.syscalls)) [
        | inl none_found ↦ rw none_found (inl (refl, λ h. h))
        | inr (s, found) ↦ rw found (ran s w found (s.status == "permitted") refl)
      ]

  pub execute_each-Progresses :
      (operation trace : String) (calls : List String)
      → Progresses k limit (execute_each o operation trace calls)
  unfolding execute_each
  execute_each-Progresses operation trace [] = Progresses-IsQuiet k limit (Moves-give _ tt)
  execute_each-Progresses operation trace (j ∷ js) =
      Moves-then _ (execute_one-Progresses operation trace j)
        (execute_each-Progresses operation trace js)

  pub under_lease-Progresses :
      (operation trace : String) (calls : List String)
      → Progresses k limit (execute_permitted_syscalls_under_lease o operation trace calls)
  unfolding execute_permitted_syscalls_under_lease
  under_lease-Progresses operation trace calls =
      Moves-then _ (execute_each-Progresses operation trace calls)
        (Progresses-IsQuiet k limit (finish_operation-IsQuiet k o operation trace))
