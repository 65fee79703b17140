-- ===== src/Outcome.antt =====
-- crates/adesh-core/src/error.rs, and what a call of the storage layer can come to.
-- The message of an error, a text for readers, is left out.
use aadesh.Common.{◌≡◌, refl, ap, Bool, true, false, Option, none, some, arith}

pub data StorageError : Type 0 where
  unavailable unsupported invalid_input not_found conflict corruption : StorageError

-- `panic` is an abort of the call: an arithmetic overflow, or a date out of chrono's range.
pub data Outcome {ℓ} (A : Type ℓ) : Type ℓ where
  ok : A → Outcome A
  err : StorageError → Outcome A
  panic : Outcome A

infixl 5 ◌>>=◌ ◌>>◌
abbrev pub ◌>>=◌ {ℓ κ} : {A : Type ℓ} {B : Type κ} → Outcome A → (A → Outcome B) → Outcome B
panic >>= f = panic
err e >>= f = err e
ok a >>= f = f a

abbrev pub ◌>>◌ {ℓ} : {B : Type ℓ} → Outcome (Unit {0}) → Outcome B → Outcome B
m >> k = m >>= λ _. k

-- `return Err(…)` unless the test holds
abbrev pub ensure : Bool → StorageError → Outcome (Unit {0})
ensure true e = ok tt
ensure false e = err e

-- `ok_or_else(…)?`
abbrev pub required {ℓ} : {A : Type ℓ} → Option A → StorageError → Outcome A
required none e = err e
required (some a) e = ok a

-- A call that aborts by a panic where a value is missing.
abbrev pub or_panic {ℓ} : {A : Type ℓ} → Option A → Outcome A
or_panic none = panic
or_panic (some a) = ok a

-- A transaction: its writes are kept by `commit`, and rolled back where the body returns early.
abbrev pub settle {ℓ} : {S A : Type ℓ} → S → Outcome (A × S) → Outcome A × S
settle s (ok (a, s')) = (ok a, s')
settle s (err e) = (err e, s)
settle s panic = (panic, s)

abbrev pub transact {ℓ} : {S A : Type ℓ} → (S → Outcome (A × S)) → S → Outcome A × S
transact body s = settle s (body s)

-- What a transaction leaves behind satisfies `P`, if the state before it does and each way through
-- the rest of its body leads to such a state.
pub settle_bind {ℓ κ} :
    {S A B : Type ℓ} (P : S → Type κ) (s : S) (m : Outcome B) (f : B → Outcome (A × S))
    → P s
    → ((b : B) → m ≡ ok b → P (settle s (f b)).1)
    → P (settle s (m >>= f)).1
settle_bind P s (ok b) f h k = k b refl
settle_bind P s (err e) f h k = h
settle_bind P s panic f h k = h

pub ensure_holds : (b : Bool) (e : StorageError) {u : Unit {0}} → ensure b e ≡ ok u → b ≡ true
ensure_holds true e h = refl
ensure_holds false e h = ground arith

pub required-some {ℓ} :
    {A : Type ℓ} (o : Option A) (e : StorageError) {a : A} → required o e ≡ ok a → o ≡ some a
required-some none e h = absurd (cc)
required-some (some b) e h = cc

-- A step that came to a value did so by its parts.
module _ {ℓ κ} {A : Type ℓ} {B : Type κ} where
  pub >>=-eq-ok :
      (call : Outcome A) (next : A → Outcome B) {result : B}
      → (call >>= next) ≡ ok result
      → (first : A) × (call ≡ ok first) × (next first ≡ ok result)
  >>=-eq-ok panic next reached = absurd (cc)
  >>=-eq-ok (err failure) next reached = absurd (cc)
  >>=-eq-ok (ok first) next reached = (first, refl, reached)

pub settle_ok {ℓ} :
    {S A : Type ℓ} (s : S) (r : Outcome (A × S)) {a : A} {t : S}
    → settle s r ≡ (ok a, t)
    → r ≡ ok (a, t)
settle_ok s (ok (b, u)) h = ground arith
settle_ok s (err e) h = absurd (ground arith)
settle_ok s panic h = absurd (ground arith)

value_or {ℓ} : {A : Type ℓ} → Outcome A → A → A
value_or (ok a) b = a
value_or (err e) b = b
value_or panic b = b

pub ok_injective {ℓ} : {A : Type ℓ} {x y : A} → ok x ≡ ok y → x ≡ y
unfolding value_or
ok_injective {x = x} h = ap (λ r. value_or r x) h
