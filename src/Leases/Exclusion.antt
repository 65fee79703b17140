-- ===== src/Leases/Exclusion.antt =====
-- Two runners on one operation: the calls on `operation_leases` (storage.rs).
use aadesh.Common.{
  ◌⊎◌, ◌<◌, String, ◌≡◌, ◌≢◌, refl, inl, inr, Bool, true, false, ◌&&◌, some, [], ◌∷◌, arith, ◌==◌,
  eq_iff, eq_of_text, ℤ, equals, any, find, count_where, nat_eq, Bool-cases,
}
use aadesh.Chrono.{Time, Plus}
use aadesh.Outcome.{Outcome, ok, err, panic}
use aadesh.Leases.{
  Lease, Leases, refused, is_for, is_held, try_acquire_operation_lease, accepts,
  renew_operation_lease, release_operation_lease,
}

-- The operation is the primary key.
abbrev pub OnePerOperation : Leases → Type 0
OnePerOperation [] = Unit
OnePerOperation (l ∷ ls) = (any (is_for l.operation_id) ls ≡ false) × OnePerOperation ls

-- While another runner's lease runs, an attempt to acquire the operation until a date is refused
-- and changes nothing.
pub acquire_refused :
    (plus : Plus) (known : String → Bool) (now until : Time) (op runner : String) (duration : ℤ)
    (ls : Leases) {l : Lease}
    → plus now duration ≡ some until
    → find (is_for op) ls ≡ some l
    → l.lease_owner ≢ runner
    → now < l.leased_until
    → try_acquire_operation_lease plus known now op runner duration ls ≡ (ok refused, ls)
unfolding try_acquire_operation_lease
acquire_refused plus known now until op runner duration ls {l} e found other running =
    let held : is_held runner now l ≡ true = ground (arith, eq_iff l.lease_owner runner) in
    rw e (rw found (rw held))

pub accepts_none :
    (op runner : String) (epoch : ℤ) (ls : Leases)
    → any (is_for op) ls ≡ false
    → count_where (accepts op runner epoch) ls ≡ 0
accepts_none op runner epoch [] h = refl
accepts_none op runner epoch (x ∷ ls) h = ground (arith, accepts_none op runner epoch ls)

-- A row that accepts a token is the row that is found.
accepts_found :
    (op runner : String) (epoch : ℤ) (ls : Leases)
    → OnePerOperation ls
    → nat_eq (count_where (accepts op runner epoch) ls) 0 ≡ false
    → (l : Lease) × (find (is_for op) ls ≡ some l)
      × (l.lease_owner ≡ runner)
      × (equals l.lease_epoch epoch ≡ true)
accepts_found op runner epoch [] u h = absurd (ground arith)
accepts_found op runner epoch (x ∷ ls) u h = elim (Bool-cases (x.operation_id == op)) [
  | inl here ↦
      let same : x.operation_id ≡ op = eq_of_text x.operation_id op here in
      let others = accepts_none x.operation_id runner epoch ls u.0 in
      let both : ((x.lease_owner == runner) && equals x.lease_epoch epoch) ≡ true =
        ground (arith, others, same) in
      (x, rw here, eq_of_text x.lease_owner runner (ground arith), ground arith)
  | inr later ↦
      let ih = accepts_found op runner epoch ls u.1 (ground arith) in
      (ih.0, rw later ih.1, ih.2, ih.3)
]

abbrev pub Succeeds {ℓ} : {A : Type ℓ} → Outcome A → Type 0
Succeeds (ok a) = Unit
Succeeds (err e) = ⊥
Succeeds panic = ⊥

-- The token that a renewal or a release has to name.
abbrev pub IsToken : String → String → ℤ → Leases → Type 0
IsToken op runner epoch ls =
    (l : Lease) × (find (is_for op) ls ≡ some l)
    × (l.lease_owner ≡ runner)
    × (equals l.lease_epoch epoch ≡ true)

renew-IsToken :
    (plus : Plus) (now : Time) (op runner : String) (epoch duration : ℤ) (ls : Leases)
    → OnePerOperation ls
    → Succeeds (renew_operation_lease plus now op runner epoch duration ls).0
    → IsToken op runner epoch ls
unfolding renew_operation_lease
renew-IsToken plus now op runner epoch duration ls u h =
    accepts_found op runner epoch ls u (ground arith)

release-IsToken :
    (op runner : String) (epoch : ℤ) (ls : Leases)
    → OnePerOperation ls
    → Succeeds (release_operation_lease op runner epoch ls).0
    → IsToken op runner epoch ls
unfolding release_operation_lease
release-IsToken op runner epoch ls u h = accepts_found op runner epoch ls u (ground arith)

same_runner :
    (op runner other : String) (e e' : ℤ) (ls : Leases)
    → IsToken op runner e ls
    → IsToken op other e' ls
    → runner ≡ other
same_runner op runner other e e' ls (l, f, o, _) (l', f', o', _) =
    let same : l ≡ l' = ground arith in cc

-- In a table with one lease for each operation, at most one runner can act on an operation: if a
-- renewal by one runner or a release by it succeeds, no renewal and no release by another does.
pub one_holder :
    (plus : Plus) (now : Time) (op runner other : String) (e e' d d' : ℤ) (ls : Leases)
    → OnePerOperation ls
    → runner ≢ other
    → Succeeds (renew_operation_lease plus now op runner e d ls).0
      ⊎ Succeeds (release_operation_lease op runner e ls).0
    → ¬ Succeeds (renew_operation_lease plus now op other e' d' ls).0
      × ¬ Succeeds (release_operation_lease op other e' ls).0
one_holder plus now op runner other e e' d d' ls u differ h = (
  λ r. differ (
      same_runner op runner other e e' ls (token h) (renew-IsToken plus now op other e' d' ls u r)),
  λ r. differ (same_runner op runner other e e' ls (token h) (release-IsToken op other e' ls u r)),
)
  where
    token :
        Succeeds (renew_operation_lease plus now op runner e d ls).0
          ⊎ Succeeds (release_operation_lease op runner e ls).0
        → IsToken op runner e ls
    token (inl r) = renew-IsToken plus now op runner e d ls u r
    token (inr r) = release-IsToken op runner e ls u r
