-- ===== src/Calls/Moves.antt =====
-- Calls and an order on the states: that what a call does only moves the state upwards, by its parts.
use aadesh.Common.{Bool, true, false, ◌≡◌, refl, if◌then◌else◌}
use aadesh.Outcome.{Outcome, ok, err, panic}
use aadesh.Calls.Monad.{Call, follow, ◌>>=◌, ◌>>◌, give, result_of}

pub record Order (S : Type 0) : Type 1 where
  pub below : S → S → Type 0
  pub below_refl : (s : S) → below s s
  pub below_trans : (r s t : S) → below r s → below s t → below r t

module _ {S : Type 0} (o : Order S) where
  pub record Moves {A : Type 0} (m : Call S A) : Type 0 where
    pub moves : (s : S) → o.below s (m s).1

  pub Moves-bind :
      {A B : Type 0} {m : Call S A} {f : A → Call S B}
      → Moves m
      → ((a : A) → Moves (f a))
      → Moves (m >>= f)
  unfolding ◌>>=◌
  Moves-bind {A} {B} {m} {f} h g = record { moves = λ s. go s (m s) (h.moves s) }
    where
      go : (s : S) (r : Outcome A × S) → o.below s r.1 → o.below s (follow {B = B} r f).1
      go s (ok a, t) p = o.below_trans s t (f a t).1 p ((g a).moves t)
      go s (err e, t) p = p
      go s (panic, t) p = p

  pub Moves-then :
      {B : Type 0} {m : Call S (Unit {0})} {n : Call S B} → Moves m → Moves n → Moves (m >> n)
  unfolding ◌>>◌ ◌>>=◌
  Moves-then {B} {m} {n} h g = record { moves = λ s. (Moves-bind {f = λ _. n} h λ _. g).moves s }

  pub Moves-give : {A : Type 0} (a : A) → Moves (give a)
  unfolding give
  Moves-give a = record { moves = λ s. o.below_refl s }

  pub Moves-result_of : {A : Type 0} (r : Outcome A) → Moves (result_of r)
  unfolding result_of
  Moves-result_of r = record { moves = λ s. o.below_refl s }

  -- The branch that the test excludes need not move upwards.
  pub Moves-if :
      {A : Type 0} (b : Bool) {m n : Call S A}
      → (b ≡ true → Moves m)
      → (b ≡ false → Moves n)
      → Moves (if b then m else n)
  Moves-if true h g = h refl
  Moves-if false h g = g refl
