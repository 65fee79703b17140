-- ===== src/Jobs/Granted.antt =====
-- `lease_jobs` (job_queue.rs): the jobs that it hands out, and the rows around them.
use aadesh.Common.{
  ℕ, zero, suc, ◌≤◌, String, ◌≡◌, refl, ap, inl, inr, false, Option, some, List, [], ◌∷◌, arith,
  ◌==◌, eq_of_text, ℤ, length, take, map, sort_by, select, find, find_holds, All, any, count_where,
  nat_eq, if◌then◌else◌, Bool-cases,
}
use aadesh.Chrono.{Time, Plus}
use aadesh.Outcome.{ok}
use aadesh.Jobs.Table.{Job, Jobs, leased, is_pending, has_id}
use aadesh.Jobs.Row.{UniqueIds, IsTable}
use aadesh.Jobs.Steps.{take-Keeps}
use aadesh.Jobs.Lease.{can_take, taken, take_job, lease_each, lease_jobs, leasable_ids, is_leasable}

-- An update that asks for a pending row leaves any other row alone.
take_keeps :
    (now until : Time) (worker i k : String) (js : Jobs) {j : Job}
    → find (has_id k) js ≡ some j
    → is_pending j.status ≡ false
    → find (has_id k) (take_job now until worker i js) ≡ some j
take_keeps now until worker i k [] e h = e
take_keeps now until worker i k (x ∷ js) {j} e h =
    ground (arith, take_keeps now until worker i k js {j = j})

take_none : (i : String) (js : Jobs) → any (has_id i) js ≡ false → count_where (can_take i) js ≡ 0
take_none i [] h = refl
take_none i (x ∷ js) h = ground (arith, take_none i js)

-- A job in the hands of `worker` until `until`, as the table has it.
pub record IsGranted (worker : String) (until : Time) (table : Jobs) (job : Job) : Type 0 where
  pub is_leased : job.status ≡ leased
  pub is_owner : job.lease_owner ≡ some worker
  pub is_until : job.leased_until ≡ some until
  pub is_stored : find (has_id job.job_id) table ≡ some job

take_taken :
    (now until : Time) (worker i : String) (js : Jobs) {job : Job}
    → UniqueIds js
    → nat_eq (count_where (can_take i) js) 0 ≡ false
    → find (has_id i) (take_job now until worker i js) ≡ some job
    → (job.status ≡ leased) × (job.lease_owner ≡ some worker) × (job.leased_until ≡ some until)
take_taken now until worker i [] u c e = absurd (ground arith)
take_taken now until worker i (x ∷ js) {job} u c e = elim (Bool-cases (x.job_id == i)) [
  | inl here ↦
      let same : x.job_id ≡ i = eq_of_text x.job_id i here in
      let others = take_none x.job_id js u.0 in ground (arith, same, others)
  | inr later ↦
      let ih = take_taken now until worker i js {job = job} u.1 (ground arith) (ground arith) in ih
]

pub taken_found :
    (now until : Time) (worker i : String) (js : Jobs)
    → nat_eq (count_where (can_take i) js) 0 ≡ false
    → (job : Job) × (find (has_id i) (take_job now until worker i js) ≡ some job)
taken_found now until worker i [] c = absurd (ground arith)
taken_found now until worker i (x ∷ js) c = elim (Bool-cases (x.job_id == i)) [
  | inl here ↦ (if can_take i x then taken now until worker x else x, ground arith)
  | inr later ↦
      let ih = taken_found now until worker i js (ground arith) in (ih.0, ground (arith, ih.1))
]

-- The loop over `ks` from `before` comes to an end with `granted` and the table `table`.
pub record Grants (worker : String) (until : Time) (limit : ℕ) (before : Jobs) (granted : List Job)
    (table : Jobs) : Type 0 where
  pub all_granted : All (IsGranted worker until table) granted
  pub within_limit : length granted ≤ limit
  pub rest_kept :
      (k : String) (j : Job)
      → find (has_id k) before ≡ some j
      → is_pending j.status ≡ false
      → find (has_id k) table ≡ some j

pub lease_each-Grants :
    (now until : Time) (worker : String) (ks : List String) (js : Jobs)
    → IsTable js
    → (granted : List Job) × (table : Jobs) × (lease_each now until worker ks js
        ≡ ok (granted, table))
      × Grants worker until (length ks) js granted table
unfolding lease_jobs
lease_each-Grants now until worker [] js h = (
  [],
  js,
  refl,
  record { all_granted = tt; within_limit = omega arith; rest_kept = λ k j e _. e },
)
lease_each-Grants now until worker (i ∷ ks) js h =
    let js' = take_job now until worker i js in
    let ih =
      lease_each-Grants now until worker ks js' (take-Keeps now until worker i js h).is_table in
    let keep =
      λ (k : String) (j : Job) (e : find (has_id k) js ≡ some j) (n : is_pending j.status ≡ false).
        ih.3.rest_kept k j (take_keeps now until worker i k js e n) n in
    elim (Bool-cases (nat_eq (count_where (can_take i) js) 0)) [
      | inl passed ↦ (
        ih.0,
        ih.1,
        rw passed ih.2,
        record {
          all_granted = ih.3.all_granted;
          within_limit = omega (arith, ih.3.within_limit);
          rest_kept = keep;
        },
      )
      | inr written ↦
          let (job, found) = taken_found now until worker i js written in
          let (a, b, c) = take_taken now until worker i js h.unique written found in
          let own = eq_of_text job.job_id i (find_holds (has_id i) js' found) in
          let granted : IsGranted worker until ih.1 job = record {
            is_leased = a;
            is_owner = b;
            is_until = c;
            is_stored = rw own (ih.3.rest_kept i job found (ground (arith, a)));
          } in
          (
            job ∷ ih.0,
            ih.1,
            rw written (rw (found, ih.2)),
            record {
              all_granted = (granted, ih.3.all_granted);
              within_limit = omega (arith, ih.3.within_limit);
              rest_kept = keep;
            },
          )
    ]

length-take {ℓ} : {A : Type ℓ} (n : ℕ) (xs : List A) → length (take n xs) ≤ n
length-take zero xs = omega arith
length-take (suc n) [] = omega arith
length-take (suc n) (x ∷ xs) = omega (arith, length-take n xs)

length-map {ℓ κ} :
    {A : Type ℓ} {B : Type κ} (f : A → B) (xs : List A) → length (map f xs) ≡ length xs
length-map f [] = refl
length-map f (x ∷ xs) = ap suc (length-map f xs)

-- From a well-formed table, and where the end of the lease is a date, `lease_jobs` succeeds. It
-- returns at most `limit` jobs. Each is stored in the table as leased by the worker until that date.
-- A job that was not pending before, be its lease over or not, is the same as before.
pub lease_jobs-Grants :
    (plus : Plus) (now until : Time) (worker : String) (limit : ℕ) (duration : ℤ)
    (filter : Option String) (js : Jobs)
    → IsTable js
    → plus now duration ≡ some until
    → (granted : List Job) × (table : Jobs) × (lease_jobs plus now worker limit duration filter js
        ≡ (ok granted, table))
      × Grants worker until limit js granted table
unfolding lease_jobs
lease_jobs-Grants plus now until worker limit duration filter js h e =
    let chosen =
      take limit (sort_by (λ (j : Job). j.created_at) (select (is_leasable now filter) js)) in
    let ks = leasable_ids now filter limit js in
    let (granted, table, r, g) = lease_each-Grants now until worker ks js h in
    (
      granted,
      table,
      rw e (rw r),
      record {
        all_granted = g.all_granted;
        within_limit = omega (
          arith,
          g.within_limit,
          length-map (λ (j : Job). j.job_id) chosen,
          length-take limit
              (sort_by (λ (j : Job). j.created_at) (select (is_leasable now filter) js)),
        );
        rest_kept = g.rest_kept;
      },
    )
