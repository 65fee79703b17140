-- ===== src/Calls/Steps.antt =====
-- A call that is made first, and what follows it.
use aadesh.Common.{◌≡◌, ap}
use aadesh.Outcome.{ok, err, StorageError}
use aadesh.Calls.Monad.{Call, follow, ◌>>=◌, ◌>>◌}

module _ {S A B : Type 0} where
  pub >>=-ok :
      (m : Call S A) (f : A → Call S B) {s t : S} {a : A} → m s ≡ (ok a, t) → (m >>= f) s ≡ f a t
  unfolding ◌>>=◌
  >>=-ok m f e = ap (λ r. follow r f) e

pub >>-err :
    {S B : Type 0} (m : Call S (Unit {0})) (n : Call S B) {s t : S} {e : StorageError}
    → m s ≡ (err e, t)
    → (m >> n) s ≡ (err e, t)
unfolding ◌>>◌
>>-err {S} {B} m n h = ap (λ r. follow {B = B} r (λ _. n)) h
