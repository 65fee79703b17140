-- ===== src/Jobs/Row.antt =====
-- Well-formed rows of the table `jobs` (job_queue.rs), and how a row may change between two calls.
use mathlib.Core.Path.{subst}
use aadesh.Common.{
  ◌≤◌, ◌<◌, String, ◌≡◌, refl, ap, ◌∙◌, ◌⊎◌, inl, inr, true, false, not, some, [], ◌∷◌, ◌++◌, arith,
  ◌==◌, is_some, reaches, any, find, All, Bool-cases,
}
use aadesh.Jobs.Table.{Job, Jobs, leased, is_leased, is_active, has_id}

-- A lease has its owner and its end, no other row has them; a row is dated as completed exactly when
-- it is final; a retry is left to a job that failed before; each failure had a lease of its own.
pub record IsRow (j : Job) : Type 0 where
  pub owned : is_some j.lease_owner ≡ is_leased j.status
  pub timed : is_some j.leased_until ≡ is_leased j.status
  pub dated : is_some j.completed_at ≡ not (is_active j.status)
  pub retried :
      is_active j.status ≡ true
      → (j.attempt_count ≡ 0) ⊎ (reaches j.attempt_count j.max_attempts ≡ false)
  pub spent : j.attempt_count ≤ j.lease_epoch
  pub unspent : j.status ≡ leased → j.attempt_count < j.lease_epoch

-- Identifiers are the primary key.
abbrev pub UniqueIds : Jobs → Type 0
UniqueIds [] = Unit
UniqueIds (j ∷ js) = (any (has_id j.job_id) js ≡ false) × UniqueIds js

pub record IsTable (jobs : Jobs) : Type 0 where
  pub rows : All IsRow jobs
  pub unique : UniqueIds jobs

-- A row `j` and what became of it, `k`.
pub record Evolves (j k : Job) : Type 0 where
  pub same_id : k.job_id ≡ j.job_id
  pub same_type : k.job_type ≡ j.job_type
  pub same_key : k.dedupe_key ≡ j.dedupe_key
  pub same_limit : k.max_attempts ≡ j.max_attempts
  pub epoch_grows : j.lease_epoch ≤ k.lease_epoch
  pub attempts_grow : j.attempt_count ≤ k.attempt_count
  pub lease_kept :
      k.lease_epoch ≡ j.lease_epoch
      → k.status ≡ leased
      → (j.status ≡ leased) × (k.lease_owner ≡ j.lease_owner)
  pub final : is_active j.status ≡ false → k ≡ j

pub Evolves-refl : (j : Job) → Evolves j j
Evolves-refl j = record {
  same_id = refl;
  same_type = refl;
  same_key = refl;
  same_limit = refl;
  epoch_grows = omega arith;
  attempts_grow = omega arith;
  lease_kept = λ e h. (h, refl);
  final = λ h. refl;
}

module _ {j k l : Job} (a : Evolves j k) (b : Evolves k l) where
  Evolves-trans_kept :
      l.lease_epoch ≡ j.lease_epoch
      → l.status ≡ leased
      → (j.status ≡ leased) × (l.lease_owner ≡ j.lease_owner)
  Evolves-trans_kept e h =
      let second = b.lease_kept (omega (arith, a.epoch_grows, b.epoch_grows)) h in
      let first = a.lease_kept (omega (arith, a.epoch_grows, b.epoch_grows)) second.0 in
      (first.0, second.1 ∙ first.1)

  Evolves-trans_final : is_active j.status ≡ false → l ≡ j
  Evolves-trans_final h =
      let e = a.final h in b.final (ap (λ (x : Job). is_active x.status) e ∙ h) ∙ e

  pub Evolves-trans : Evolves j l
  Evolves-trans = record {
    same_id = b.same_id ∙ a.same_id;
    same_type = b.same_type ∙ a.same_type;
    same_key = b.same_key ∙ a.same_key;
    same_limit = b.same_limit ∙ a.same_limit;
    epoch_grows = omega (arith, a.epoch_grows, b.epoch_grows);
    attempts_grow = omega (arith, a.attempts_grow, b.attempts_grow);
    lease_kept = Evolves-trans_kept;
    final = Evolves-trans_final;
  }

-- Rows are never deleted or reordered; later rows are new.
abbrev pub AllEvolve : Jobs → Jobs → Type 0
AllEvolve [] ks = Unit
AllEvolve (j ∷ js) [] = ⊥
AllEvolve (j ∷ js) (k ∷ ks) = Evolves j k × AllEvolve js ks

pub AllEvolve-refl : (js : Jobs) → AllEvolve js js
AllEvolve-refl [] = tt
AllEvolve-refl (j ∷ js) = (Evolves-refl j, AllEvolve-refl js)

pub AllEvolve-trans : (js ks ls : Jobs) → AllEvolve js ks → AllEvolve ks ls → AllEvolve js ls
AllEvolve-trans [] ks ls a b = tt
AllEvolve-trans (j ∷ js) [] ls a b = absurd a
AllEvolve-trans (j ∷ js) (k ∷ ks) [] a b = absurd b
AllEvolve-trans (j ∷ js) (k ∷ ks) (l ∷ ls) a b =
    (Evolves-trans a.0 b.0, AllEvolve-trans js ks ls a.1 b.1)

pub AllEvolve-append : (js ks : Jobs) → AllEvolve js (js ++ ks)
AllEvolve-append [] ks = tt
AllEvolve-append (j ∷ js) ks = (Evolves-refl j, AllEvolve-append js ks)

-- A row that is found has an image, found by the same identifier.
pub AllEvolve-find :
    (k : String) (js ks : Jobs) {j : Job}
    → AllEvolve js ks
    → find (has_id k) js ≡ some j
    → (j' : Job) × (find (has_id k) ks ≡ some j') × Evolves j j'
AllEvolve-find k [] ks h e = absurd (cc)
AllEvolve-find k (i ∷ js) [] h e = absurd h
AllEvolve-find k (i ∷ js) (i' ∷ ks) {j} h e = elim (Bool-cases (i.job_id == k)) [
  | inl found ↦ (i', ground (arith, h.0.same_id), here (ground arith))
  | inr other ↦
      let later = AllEvolve-find k js ks {j = j} h.1 (ground arith) in
      (later.0, ground (arith, h.0.same_id, later.1), later.2)
]
  where
    here : i ≡ j → Evolves j i'
    here p = subst (λ x. Evolves x i') p h.0
