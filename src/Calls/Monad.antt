-- ===== src/Calls/Monad.antt =====
-- The monad of calls that keep the state at an error.
use aadesh.Outcome.{Outcome, ok, err, panic}

abbrev pub Call : Type 0 → Type 0 → Type 0
Call S A = S → Outcome A × S

abbrev pub follow : {S A B : Type 0} → Outcome A × S → (A → Call S B) → Outcome B × S
follow (ok a, s) f = f a s
follow (err e, s) f = (err e, s)
follow (panic, s) f = (panic, s)

infixl 5 ◌>>=◌ ◌>>◌
unfoldable pub ◌>>=◌ : {S A B : Type 0} → Call S A → (A → Call S B) → Call S B
◌>>=◌ m f s = follow (m s) f

unfoldable pub ◌>>◌ : {S B : Type 0} → Call S (Unit {0}) → Call S B → Call S B
◌>>◌ m k s = follow (m s) (λ _. k)

unfoldable pub give : {S A : Type 0} → A → Call S A
give a s = (ok a, s)

-- A result that is at hand already.
unfoldable pub result_of : {S A : Type 0} → Outcome A → Call S A
result_of r s = (r, s)
