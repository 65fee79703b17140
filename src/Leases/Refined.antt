-- ===== src/Leases/Refined.antt =====
-- The calls on `operation_leases` (storage.rs) and the locks that they stand for.
use aadesh.Common.{
  String, ◌≡◌, refl, ap, ◌∙◌, inl, inr, Bool, true, false, none, some, List, [], ◌∷◌, ◌++◌, arith,
  ◌==◌, ◌&&◌, equals, eq_iff, eq_of_text, ℤ, any, find, find_holds, find-append_some, delete_where,
  if◌then◌else◌, Bool-cases, Option-cases,
}
use mathlib.Core.Path.{fun_ext}
use aadesh.Chrono.{Time, Plus}
use aadesh.Leases.{
  Lease, Leases, is_for, is_held, next_epoch, taken_over, try_acquire_operation_lease, accepts,
  renewed, renew_operation_lease, release_operation_lease, first_lease,
}
use aadesh.Leases.Exclusion.{OnePerOperation}
use aadesh.Leases.Epochs.{Call, acquire, renew, release, after, after-OnePerOperation}
use aadesh.Leases.Locks.{
  Locks, set, holds, lock_of, view, lock_after, find_undeleted, accepts-holds, accepts_other,
  view-update,
}

-- Calls one after the other, on the table and on the locks.
unfoldable pub after_all : Plus → (String → Bool) → List Call → Leases → Leases
after_all plus known [] ls = ls
after_all plus known (c ∷ cs) ls = after_all plus known cs (after plus known c ls)

unfoldable pub locks_after : Plus → (String → Bool) → List Call → Locks → Locks
locks_after plus known [] locks = locks
locks_after plus known (c ∷ cs) locks = locks_after plus known cs (lock_after plus known c locks)

gone :
    (op : String) (p : Lease → Bool) (ls : Leases)
    → any (is_for op) ls ≡ false
    → find (is_for op) (delete_where p ls) ≡ none
gone op p [] h = refl
gone op p (x ∷ ls) h = ground (arith, gone op p ls)

freed :
    (op runner : String) (epoch : ℤ) (ls : Leases)
    → OnePerOperation ls
    → holds runner epoch (view ls op) ≡ true
    → find (is_for op) (delete_where (accepts op runner epoch) ls) ≡ none
freed op runner epoch [] u h = refl
freed op runner epoch (x ∷ ls) u h = elim (Bool-cases (x.operation_id == op)) [
  | inl here ↦
      let same : x.operation_id ≡ op = eq_of_text x.operation_id op here in
      let rest = gone x.operation_id (accepts op runner epoch) ls u.0 in ground (arith, rest, same)
  | inr away ↦ ground (arith, freed op runner epoch ls u.1)
]

view-release :
    (op runner : String) (epoch : ℤ) (ls : Leases) (k : String)
    → OnePerOperation ls
    → holds runner epoch (view ls op) ≡ true
    → view (delete_where (accepts op runner epoch) ls) k ≡ set op none (view ls) k
view-release op runner epoch ls k u h = at (k == op) refl
  where
    at :
        (b : Bool)
        → (k == op) ≡ b
        → view (delete_where (accepts op runner epoch) ls) k ≡ (if b then none else view ls k)
    at true here =
        ap (λ i. view (delete_where (accepts op runner epoch) ls) i) (eq_of_text k op here)
        ∙ ap lock_of (freed op runner epoch ls u h)
    at false away = ap lock_of (
        find_undeleted k (accepts op runner epoch) ls
          λ x own. accepts_other k op runner epoch x away own)

find-append_none :
    (k : String) (ls : Leases) (l : Lease)
    → find (is_for k) ls ≡ none
    → find (is_for k) (ls ++ l ∷ []) ≡ (if is_for k l then some l else none)
find-append_none k [] l h = refl
find-append_none k (x ∷ ls) l h = ground (arith, find-append_none k ls l)

view-first :
    (op runner : String) (now until : Time) (ls : Leases) (k : String)
    → find (is_for op) ls ≡ none
    → view (ls ++ first_lease op runner now until ∷ []) k
      ≡ set op (lock_of (some (first_lease op runner now until))) (view ls) k
view-first op runner now until ls k absent = elim (Option-cases (find (is_for k) ls)) [
  | inl missing ↦ rw (find-append_none k ls (first_lease op runner now until) missing) (
      rw missing (elim (Bool-cases (k == op)) [
        | inl here ↦ rw here (rw (mirrored k op true here) refl)
        | inr away ↦ rw away (rw (mirrored k op false away) refl)
      ]))
  | inr (x, found) ↦
      rw (find-append_some (is_for k) ls (first_lease op runner now until ∷ []) found) (
        rw found (elim (Bool-cases (k == op)) [
          | inl here ↦ absurd (clash x found (eq_of_text k op here))
          | inr away ↦ rw away refl
        ]))
]
  where
    mirrored : (s t : String) (b : Bool) → (s == t) ≡ b → (t == s) ≡ b
    mirrored s t true e = ground (arith, eq_iff s t, eq_iff t s)
    mirrored s t false e = ground (arith, eq_iff s t, eq_iff t s)

    clash : (x : Lease) → find (is_for k) ls ≡ some x → k ≡ op → ⊥
    clash x found same = let there = ap (λ i. find (is_for i) ls) same ∙ absent in absurd (cc)

view-acquire :
    (plus : Plus) (known : String → Bool) (now : Time) (op runner : String) (d : ℤ) (ls : Leases)
    (k : String)
    → view (try_acquire_operation_lease plus known now op runner d ls).1 k
      ≡ lock_after plus known (acquire now op runner d) (view ls) k
unfolding try_acquire_operation_lease lock_after
view-acquire plus known now op runner d ls k = elim (Option-cases (plus now d)) [
  | inl e ↦ rw e refl
  | inr (until, e) ↦ elim (Option-cases (find (is_for op) ls)) [
    | inl absent ↦ elim (Bool-cases (known op)) [
      | inl exists ↦ rw e (rw absent (rw exists (view-first op runner now until ls k absent)))
      | inr missing ↦ rw e (rw absent (rw missing refl))
    ]
    | inr (l, found) ↦ elim (Bool-cases (is_held runner now l)) [
      | inl held ↦ rw e (rw found (rw held refl))
      | inr free ↦ rw e (
          rw found (
            rw free (
              view-update k op (is_for op) (taken_over runner now until (next_epoch runner l)) ls
                (λ x n. n) (λ x. refl) found (find_holds (is_for op) ls found))))
    ]
  ]
]

view-renew :
    (plus : Plus) (known : String → Bool) (now : Time) (op runner : String) (epoch d : ℤ)
    (ls : Leases) (k : String)
    → OnePerOperation ls
    → view (renew_operation_lease plus now op runner epoch d ls).1 k
      ≡ lock_after plus known (renew now op runner epoch d) (view ls) k
unfolding renew_operation_lease lock_after
view-renew plus known now op runner epoch d ls k u = elim (Option-cases (plus now d)) [
  | inl e ↦ rw e refl
  | inr (until, e) ↦ elim (Option-cases (find (is_for op) ls)) [
    | inl absent ↦ rw e (rw (accepts-holds op runner epoch ls u) (rw absent refl))
    | inr (l, found) ↦ elim (Bool-cases ((l.lease_owner == runner) && equals l.lease_epoch epoch)) [
      | inl held ↦ rw e (
          rw (accepts-holds op runner epoch ls u) (
            rw found (
              rw held (
                view-update k op (accepts op runner epoch) (renewed now until) ls (λ x n. rw n refl)
                  (λ x. refl) found (rw (find_holds (is_for op) ls found) held)))))
      | inr other ↦ rw e (rw (accepts-holds op runner epoch ls u) (rw found (rw other refl)))
    ]
  ]
]

view-after_release :
    (plus : Plus) (known : String → Bool) (op runner : String) (epoch : ℤ) (ls : Leases)
    (k : String)
    → OnePerOperation ls
    → view (release_operation_lease op runner epoch ls).1 k
      ≡ lock_after plus known (release op runner epoch) (view ls) k
unfolding release_operation_lease lock_after
view-after_release plus known op runner epoch ls k u =
    elim (Bool-cases (holds runner epoch (view ls op))) [
      | inl held ↦
          rw (accepts-holds op runner epoch ls u)
            (rw held (view-release op runner epoch ls k u held))
      | inr other ↦ rw (accepts-holds op runner epoch ls u) (rw other refl)
    ]

-- The table of leases, of which no two rows are of one operation, does what a lock for each operation
-- does: after any sequence of calls, the owners, dates and epochs that it shows are those of the
-- locks after the same calls. A lock is taken if no other runner's is running, prolonged and freed by
-- its owner and epoch only, and a call on one operation leaves the others' locks alone.
pub view-after_all :
    (plus : Plus) (known : String → Bool) (calls : List Call) (ls : Leases)
    → OnePerOperation ls
    → view (after_all plus known calls ls) ≡ locks_after plus known calls (view ls)
unfolding after_all locks_after after
view-after_all plus known [] ls u = refl
view-after_all plus known (c ∷ cs) ls u =
    view-after_all plus known cs (after plus known c ls) (after-OnePerOperation plus known c ls u)
    ∙ ap (locks_after plus known cs) (one c)
  where
    one : (c : Call) → view (after plus known c ls) ≡ lock_after plus known c (view ls)
    one (acquire now op runner d) = fun_ext (view-acquire plus known now op runner d ls)
    one (renew now op runner epoch d) =
        fun_ext λ k. view-renew plus known now op runner epoch d ls k u
    one (release op runner epoch) =
        fun_ext λ k. view-after_release plus known op runner epoch ls k u
