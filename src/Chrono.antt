-- ===== src/Chrono.antt =====
-- Instants. `Time` counts the nanoseconds since the earliest instant that chrono represents, so that
-- the order of instants is that of the numbers. The columns hold instants as RFC 3339 texts; writing
-- and reading them back is chrono's, and the model keeps the instants.
use aadesh.Common.{ℕ, ◌≤◌, ◌≡◌, Bool, true, Option, none, some, leb, ℤ, pos}

abbrev pub Time : Type 0
Time = ℕ

-- `now + Duration::milliseconds(ms)`: none where chrono aborts because the duration or the sum is
-- out of its range.
abbrev pub Plus : Type 0
Plus = Time → ℤ → Option Time

-- Documented of chrono: a duration that is not negative leads to no earlier instant, and a longer
-- one to no earlier instant than a shorter one.
pub record IsMonotone (plus : Plus) : Type 0 where
  pub grows : (t u : Time) (d : ℕ) → plus t (pos d) ≡ some u → t ≤ u
  pub longer :
      (t u v : Time) (d e : ℕ) → d ≤ e → plus t (pos d) ≡ some u → plus t (pos e) ≡ some v → u ≤ v

-- `run_after IS NULL OR run_after <= now`
abbrev pub is_due : Option Time → Time → Bool
is_due none now = true
is_due (some t) now = leb t now
