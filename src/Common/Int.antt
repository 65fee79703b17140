-- ===== src/Common/Int.antt =====
-- The signed 64-bit values that callers pass in.
use Prim.Native.Nat.{ℕ}
use mathlib.Core.Bool.{Bool, true, false}
use aadesh.Common.Tests.{leb, nat_eq}

-- `negsuc n` is -(n + 1).
pub data ℤ : Type 0 where
  pos : ℕ → ℤ
  negsuc : ℕ → ℤ

-- `n >= z` for a counter `n` that is never negative
abbrev pub reaches : ℕ → ℤ → Bool
reaches n (pos m) = leb m n
reaches n (negsuc m) = true

-- `n == z`
abbrev pub equals : ℕ → ℤ → Bool
equals n (pos m) = nat_eq n m
equals n (negsuc m) = false
