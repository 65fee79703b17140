-- ===== src/Runner/Taken.antt =====
-- What the executor of routes.rs does with one system call, from one state to a later one.
use aadesh.Common.{
  ℕ, ◌≤◌, String, ◌≡◌, refl, ap, ◌∙◌, ◌⊎◌, inl, inr, true, false, List, [], ◌∷◌, ◌++◌, ◌==◌, length,
  select, Bool-cases,
}
use aadesh.Calls.{Call}
use aadesh.Calls.Moves.{Order, Moves}
use aadesh.Runner.World.{World, ToolCall}
use aadesh.Runner.Quiet.{calls_of, is_spent, Follows, following, IsQuiet}

-- The calls that returned a result.
abbrev pub results_of : List ToolCall → ℕ
results_of calls = length (select (λ c. c.returned) calls)

pub calls_of-append :
    (k : String) (xs ys : List ToolCall) → calls_of k (xs ++ ys) ≡ calls_of k xs ++ calls_of k ys
calls_of-append k [] ys = refl
calls_of-append k (x ∷ xs) ys = elim (Bool-cases (x.syscall_id == k)) [
  | inl t ↦ rw (t, calls_of-append k xs ys) refl
  | inr f ↦ rw (f, calls_of-append k xs ys) refl
]

-- The calls of `w'` for the system call are those of `w` and then `new`.
abbrev pub Adds : String → List ToolCall → World → World → Type 0
Adds k new w w' = calls_of k w'.tool_calls ≡ calls_of k w.tool_calls ++ new

module _ (k : String) (limit : ℕ) where
  -- The system call was taken up and is spent now: its tool was called within the limit, and not
  -- again once it had returned a result.
  abbrev pub Taken : World → World → Type 0
  Taken w w' =
      (is_spent k w.db ≡ false)
      × (is_spent k w'.db ≡ true)
      × (new : List ToolCall) × (length new ≤ limit)
      × (results_of new ≤ 1)
      × Adds k new w w'

  abbrev pub Progress : World → World → Type 0
  Progress w w' = Follows k w w' ⊎ Taken w w'

  pub Progress-trans : (u v w : World) → Progress u v → Progress v w → Progress u w
  Progress-trans u v w (inl a) (inl b) = inl ((following k).below_trans u v w a b)
  Progress-trans u v w (inl a) (inr (p, q, new, l, r, e)) =
      inr (before, q, new, l, r, e ∙ ap (λ cs. cs ++ new) a.0)
    where
      before : is_spent k u.db ≡ false
      before = elim (Bool-cases (is_spent k u.db)) [
        | inl t ↦ let again = a.1 t in absurd (cc)
        | inr f ↦ f
      ]
  Progress-trans u v w (inr (p, q, new, l, r, e)) (inl b) = inr (p, b.1 q, new, l, r, b.0 ∙ e)
  Progress-trans u v w (inr (p, q, new, l, r, e)) (inr (p', q', new', l', r', e')) = absurd (cc)

  abbrev pub progressing : Order World
  progressing = record {
    below = Progress;
    below_refl = λ w. inl (refl, λ h. h);
    below_trans = Progress-trans;
  }

  abbrev pub Progresses : {A : Type 0} → Call World A → Type 0
  Progresses m = Moves progressing m

  pub Progresses-IsQuiet : {A : Type 0} {m : Call World A} → IsQuiet k m → Progresses m
  Progresses-IsQuiet h = record { moves = λ w. inl (h.moves w) }
