-- ===== src/Jobs/Updates.antt =====
-- The statements `UPDATE jobs` and `INSERT INTO jobs` of job_queue.rs on well-formed tables.
use mathlib.Core.Path.{subst}
use aadesh.Common.{
  String, ◌≡◌, refl, sym, ap, ◌∙◌, inl, inr, Bool, true, false, ◌||◌, some, [], ◌∷◌, ◌++◌, arith,
  ◌==◌, eq_iff, eq_of_text, any, find, All, All-append, update_where, if◌then◌else◌, Bool-cases,
}
use aadesh.Jobs.Table.{Job, Jobs, has_id}
use aadesh.Jobs.Row.{
  IsRow, UniqueIds, IsTable, Evolves, Evolves-refl, AllEvolve, AllEvolve-refl, AllEvolve-trans,
  AllEvolve-append,
}

-- A table after a call is well formed, and its rows come from those before.
pub record Keeps (before after : Jobs) : Type 0 where
  pub is_table : IsTable after
  pub evolves : AllEvolve before after

any-has_id_eq :
    (k l : String) (js : Jobs) → k ≡ l → any (has_id k) js ≡ false → any (has_id l) js ≡ false
any-has_id_eq k l js e h = subst (λ x. any (has_id x) js ≡ false) e h

-- One step from `x` to `f x`, as a row.
abbrev pub RowStep : Job → Job → Type 0
RowStep x y = (IsRow x → IsRow y) × Evolves x y

module _ (p : Job → Bool) (f : Job → Job) where
  abbrev stepped : Job → Job
  stepped x = if p x then f x else x

  -- The write is a step of the rows that it is made on.
  abbrev pub StepsOn : Job → Type 0
  StepsOn x = p x ≡ true → RowStep x (f x)

  stepped-RowStep : (x : Job) → StepsOn x → RowStep x (stepped x)
  stepped-RowStep x step = elim (Bool-cases (p x)) [
    | inl e ↦ rw e (step e)
    | inr e ↦ rw e (λ h. h, Evolves-refl x)
  ]

  any-update :
      (k : String) (js : Jobs)
      → All StepsOn js
      → any (has_id k) (update_where p f js) ≡ any (has_id k) js
  any-update k [] s = refl
  any-update k (x ∷ js) s =
      let same = (stepped-RowStep x s.0).1.same_id in
      rw (any-update k js s.1) (ap (λ i. (i == k) || any (has_id k) js) same)

  update-UniqueIds : (js : Jobs) → All StepsOn js → UniqueIds js → UniqueIds (update_where p f js)
  update-UniqueIds [] s h = tt
  update-UniqueIds (x ∷ js) s h = (
    any-has_id_eq x.job_id (stepped x).job_id (update_where p f js)
        (sym (stepped-RowStep x s.0).1.same_id) (any-update x.job_id js s.1 ∙ h.0),
    update-UniqueIds js s.1 h.1,
  )

  update-rows : (js : Jobs) → All StepsOn js → All IsRow js → All IsRow (update_where p f js)
  update-rows [] s h = tt
  update-rows (x ∷ js) s h = ((stepped-RowStep x s.0).0 h.0, update-rows js s.1 h.1)

  update-AllEvolve : (js : Jobs) → All StepsOn js → AllEvolve js (update_where p f js)
  update-AllEvolve [] s = tt
  update-AllEvolve (x ∷ js) s = ((stepped-RowStep x s.0).1, update-AllEvolve js s.1)

  pub update-Keeps : (js : Jobs) → All StepsOn js → IsTable js → Keeps js (update_where p f js)
  update-Keeps js s h = record {
    is_table = record { rows = update-rows js s h.rows; unique = update-UniqueIds js s h.unique };
    evolves = update-AllEvolve js s;
  }

  pub StepsOn-All : ((x : Job) → StepsOn x) → (js : Jobs) → All StepsOn js
  StepsOn-All s [] = tt
  StepsOn-All s (x ∷ js) = (s x, StepsOn-All s js)

-- No row with an identifier that the table does not have.
StepsOn-absent :
    (k : String) (f : Job → Job) (js : Jobs)
    → any (has_id k) js ≡ false
    → All (StepsOn (has_id k) f) js
StepsOn-absent k f [] h = tt
StepsOn-absent k f (x ∷ js) h = (λ e. absurd (ground arith), StepsOn-absent k f js (ground arith))

-- Under the primary key the row that was read is the only one that the update writes.
pub StepsOn-found :
    (k : String) (f : Job → Job) (c : Job) (js : Jobs)
    → UniqueIds js
    → find (has_id k) js ≡ some c
    → RowStep c (f c)
    → All (StepsOn (has_id k) f) js
StepsOn-found k f c [] u e s = tt
StepsOn-found k f c (x ∷ js) u e s = elim (Bool-cases (x.job_id == k)) [
  | inl here ↦ (
    λ _. subst (λ y. RowStep y (f y)) (same here) s,
    StepsOn-absent k f js (any-has_id_eq x.job_id k js (eq_of_text x.job_id k here) u.0),
  )
  | inr later ↦ (λ here. absurd (ground arith), StepsOn-found k f c js u.1 (ground arith) s)
]
  where
    same : (x.job_id == k) ≡ true → c ≡ x
    same here = ground arith

-- Appending a row under a free identifier.
UniqueIds-append :
    (js : Jobs) (job : Job)
    → UniqueIds js
    → any (has_id job.job_id) js ≡ false
    → UniqueIds (js ++ job ∷ [])
UniqueIds-append [] job u free = (refl, tt)
UniqueIds-append (x ∷ js) job u free =
    (fresh js u.0 (ground arith), UniqueIds-append js job u.1 (ground arith))
  where
    fresh :
        (ys : Jobs)
        → any (has_id x.job_id) ys ≡ false
        → (x.job_id == job.job_id) ≡ false
        → any (has_id x.job_id) (ys ++ job ∷ []) ≡ false
    fresh [] e n = ground (arith, eq_iff x.job_id job.job_id, eq_iff job.job_id x.job_id)
    fresh (y ∷ ys) e n = ground (arith, fresh ys)

pub append-Keeps :
    (js : Jobs) (job : Job)
    → IsTable js
    → IsRow job
    → any (has_id job.job_id) js ≡ false
    → Keeps js (js ++ job ∷ [])
append-Keeps js job h row free = record {
  is_table = record {
    rows = All-append IsRow js (job ∷ []) h.rows (row, tt);
    unique = UniqueIds-append js job h.unique free;
  };
  evolves = AllEvolve-append js (job ∷ []);
}

pub Keeps-refl : (js : Jobs) → IsTable js → Keeps js js
Keeps-refl js h = record { is_table = h; evolves = AllEvolve-refl js }

pub Keeps-trans : (js ks ls : Jobs) → Keeps js ks → Keeps ks ls → Keeps js ls
Keeps-trans js ks ls a b = record {
  is_table = b.is_table;
  evolves = AllEvolve-trans js ks ls a.evolves b.evolves;
}
