-- ===== src/Jobs/Served.antt =====
-- `lease_jobs` (job_queue.rs): the jobs that it hands out are those that its query selects.
use aadesh.Common.{
  ℕ, zero, suc, String, ◌≡◌, refl, sym, ap, ◌∙◌, inl, inr, Bool, true, false, ◌||◌, Option, none,
  some, List, [], ◌∷◌, arith, ◌==◌, eq_of_text, eq_refl, ℤ, leb, any, find_holds, All, All-weaken,
  map, take, select, sort_by, insert_by, count_where, nat_eq, Bool-cases,
}
use aadesh.Chrono.{Time, Plus}
use aadesh.Outcome.{ok}
use aadesh.Jobs.Table.{Job, Jobs, has_id}
use aadesh.Jobs.Row.{UniqueIds}
use aadesh.Jobs.Lease.{is_leasable, can_take, take_job, lease_each, lease_jobs}
use aadesh.Jobs.Granted.{taken_found}

abbrev by_creation : Job → ℕ
by_creation j = j.created_at

module _ {A : Type 0} (p : A → Bool) where
  any-insert_by :
      (key : A → ℕ) (a : A) (xs : List A) → any p (insert_by key a xs) ≡ (p a || any p xs)
  any-insert_by key a [] = refl
  any-insert_by key a (x ∷ xs) = ground (arith, any-insert_by key a xs)

  any-sort_by : (key : A → ℕ) (xs : List A) → any p (sort_by key xs) ≡ any p xs
  any-sort_by key [] = refl
  any-sort_by key (x ∷ xs) =
      any-insert_by key x (sort_by key xs) ∙ ap (λ b. p x || b) (any-sort_by key xs)

  any-select : (q : A → Bool) (xs : List A) → any p xs ≡ false → any p (select q xs) ≡ false
  any-select q [] h = refl
  any-select q (x ∷ xs) h = ground (arith, any-select q xs)

  any-take : (n : ℕ) (xs : List A) → any p xs ≡ false → any p (take n xs) ≡ false
  any-take zero xs h = refl
  any-take (suc n) [] h = refl
  any-take (suc n) (x ∷ xs) h = ground (arith, any-take n xs)

module _ {A : Type 0} (P : A → Type 0) where
  All-insert_by : (key : A → ℕ) (a : A) (xs : List A) → P a → All P xs → All P (insert_by key a xs)
  All-insert_by key a [] h k = (h, tt)
  All-insert_by key a (x ∷ xs) h k = elim (Bool-cases (leb (key a) (key x))) [
    | inl le ↦ rw le (h, k)
    | inr gt ↦ rw gt (k.0, All-insert_by key a xs h k.1)
  ]

  All-sort_by : (key : A → ℕ) (xs : List A) → All P xs → All P (sort_by key xs)
  All-sort_by key [] h = tt
  All-sort_by key (x ∷ xs) h = All-insert_by key x (sort_by key xs) h.0 (All-sort_by key xs h.1)

  All-take : (n : ℕ) (xs : List A) → All P xs → All P (take n xs)
  All-take zero xs h = tt
  All-take (suc n) [] h = tt
  All-take (suc n) (x ∷ xs) h = (h.0, All-take n xs h.1)

other_text : (s t : String) → (s == t) ≡ false → (t == s) ≡ false
other_text s t h = elim (Bool-cases (t == s)) [
  | inl e ↦ absurd (clash (sym (eq_of_text t s e)))
  | inr n ↦ n
]
  where
    clash : s ≡ t → ⊥
    clash e = let same = ap (λ x. s == x) e ∙ h in let own = eq_refl s in absurd (cc)

UniqueIds-insert_by :
    (a : Job) (js : Jobs)
    → any (has_id a.job_id) js ≡ false
    → UniqueIds js
    → UniqueIds (insert_by by_creation a js)
UniqueIds-insert_by a [] h u = (refl, tt)
UniqueIds-insert_by a (x ∷ js) h u = elim (Bool-cases (leb (by_creation a) (by_creation x))) [
  | inl le ↦ rw le (h, u)
  | inr gt ↦
      let fresh = other_text x.job_id a.job_id (ground arith) in
      rw gt (
        any-insert_by (has_id x.job_id) by_creation a js ∙ ground (arith, fresh, u.0),
        UniqueIds-insert_by a js (ground arith) u.1,
      )
]

UniqueIds-sort_by : (js : Jobs) → UniqueIds js → UniqueIds (sort_by by_creation js)
UniqueIds-sort_by [] u = tt
UniqueIds-sort_by (x ∷ js) u =
    UniqueIds-insert_by x (sort_by by_creation js)
      (any-sort_by (has_id x.job_id) by_creation js ∙ u.0) (UniqueIds-sort_by js u.1)

UniqueIds-select : (q : Job → Bool) (js : Jobs) → UniqueIds js → UniqueIds (select q js)
UniqueIds-select q [] u = tt
UniqueIds-select q (x ∷ js) u = elim (Bool-cases (q x)) [
  | inl t ↦ rw t (any-select (has_id x.job_id) q js u.0, UniqueIds-select q js u.1)
  | inr f ↦ rw f (UniqueIds-select q js u.1)
]

UniqueIds-take : (n : ℕ) (js : Jobs) → UniqueIds js → UniqueIds (take n js)
UniqueIds-take zero js u = tt
UniqueIds-take (suc n) [] u = tt
UniqueIds-take (suc n) (x ∷ js) u = (any-take (has_id x.job_id) n js u.0, UniqueIds-take n js u.1)

-- A due job is pending, with or without a filter.
leasable-pending :
    (now : Time) (filter : Option String) (j : Job)
    → is_leasable now filter j ≡ true
    → can_take j.job_id j ≡ true
leasable-pending now none j h = rw (eq_refl j.job_id) (ground arith)
leasable-pending now (some t) j h = rw (eq_refl j.job_id) (ground arith)

-- The row is there to be taken.
abbrev Waits : Jobs → Job → Type 0
Waits js x = any (can_take x.job_id) js ≡ true

select-Waits :
    (now : Time) (filter : Option String) (js : Jobs)
    → All (Waits js) (select (is_leasable now filter) js)
select-Waits now filter [] = tt
select-Waits now filter (x ∷ js) =
    let later =
      All-weaken {P = Waits js} {Q = Waits (x ∷ js)} (select (is_leasable now filter) js)
        (λ y h. ground arith) (select-Waits now filter js) in
    elim (Bool-cases (is_leasable now filter x)) [
      | inl t ↦
          rw t (ap (λ b. b || any (can_take x.job_id) js) (leasable-pending now filter x t), later)
      | inr f ↦ rw f later
    ]

take_others :
    (now until : Time) (worker i k : String) (js : Jobs)
    → (i == k) ≡ false
    → any (can_take k) js ≡ true
    → any (can_take k) (take_job now until worker i js) ≡ true
take_others now until worker i k [] n h = h
take_others now until worker i k (x ∷ js) n h = elim (Bool-cases (can_take i x)) [
  | inl t ↦
      let own = eq_of_text x.job_id i (ground arith) in
      let other : has_id k x ≡ false = ap (λ s. s == k) own ∙ n in
      rw t (ground (arith, other, take_others now until worker i k js n))
  | inr f ↦ rw f (ground (arith, take_others now until worker i k js n))
]

still_waiting :
    (now until : Time) (worker : String) (x : Job) (xs js : Jobs)
    → any (has_id x.job_id) xs ≡ false
    → All (Waits js) xs
    → All (Waits (take_job now until worker x.job_id js)) xs
still_waiting now until worker x [] js n h = tt
still_waiting now until worker x (y ∷ ys) js n h = (
  take_others now until worker x.job_id y.job_id js (other_text y.job_id x.job_id (ground arith))
      h.0,
  still_waiting now until worker x ys js (ground arith) h.1,
)

counted : (p : Job → Bool) (js : Jobs) → any p js ≡ true → nat_eq (count_where p js) 0 ≡ false
counted p [] h = absurd (cc)
counted p (x ∷ js) h = elim (Bool-cases (p x)) [
  | inl t ↦ rw t (ground arith)
  | inr f ↦ rw f (counted p js (rw f at h))
]

abbrev ids : Jobs → List String
ids js = map (λ (j : Job). j.job_id) js

lease_each-ids :
    (now until : Time) (worker : String) (xs js : Jobs)
    → UniqueIds xs
    → All (Waits js) xs
    → (granted : List Job) × (table : Jobs) × (lease_each now until worker (ids xs) js
        ≡ ok (granted, table))
      × (ids granted ≡ ids xs)
unfolding lease_jobs
lease_each-ids now until worker [] js u w = ([], js, refl, refl)
lease_each-ids now until worker (x ∷ xs) js u w =
    let js' = take_job now until worker x.job_id js in
    let written = counted (can_take x.job_id) js w.0 in
    let (job, found) = taken_found now until worker x.job_id js written in
    let own = eq_of_text job.job_id x.job_id (find_holds (has_id x.job_id) js' found) in
    let (granted, table, r, same) =
      lease_each-ids now until worker xs js' u.1 (still_waiting now until worker x xs js u.0 w.1) in
    (
      job ∷ granted,
      table,
      rw written (rw (found, r)),
      ap (λ k. k ∷ ids granted) own ∙ ap (λ ks. x.job_id ∷ ks) same,
    )

-- From a table with unique identifiers, and where the end of the lease is a date, `lease_jobs`
-- leases the first `limit` of the pending jobs that are due and pass the filter, in the order of
-- their creation: none of them is passed over, and there are no others.
pub lease_jobs-leasable_ids :
    (plus : Plus) (now until : Time) (worker : String) (limit : ℕ) (duration : ℤ)
    (filter : Option String) (js : Jobs)
    → UniqueIds js
    → plus now duration ≡ some until
    → (granted : List Job) × (table : Jobs) × (lease_jobs plus now worker limit duration filter js
        ≡ (ok granted, table))
      × (map (λ (j : Job). j.job_id) granted
          ≡ map
              (λ (j : Job). j.job_id)
              (take limit
                (sort_by (λ (j : Job). j.created_at) (select (is_leasable now filter) js))))
unfolding lease_jobs
lease_jobs-leasable_ids plus now until worker limit duration filter js u e =
    let due = select (is_leasable now filter) js in
    let chosen = take limit (sort_by by_creation due) in
    let (granted, table, r, same) =
      lease_each-ids now until worker chosen js
        (UniqueIds-take limit _ (UniqueIds-sort_by due (UniqueIds-select _ js u)))
        (All-take (Waits js) limit _
          (All-sort_by (Waits js) by_creation due (select-Waits now filter js))) in
    (granted, table, rw e (rw r refl), same)
