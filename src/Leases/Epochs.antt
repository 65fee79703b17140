-- ===== src/Leases/Epochs.antt =====
-- The rows of `operation_leases` (storage.rs) over the calls of runners, and their epochs.
use aadesh.Common.{
  String, ◌≡◌, refl, inl, inr, Bool, true, false, none, some, [], ◌∷◌, ◌++◌, arith, ◌==◌, eq_iff,
  eq_of_text, ℤ, any, find, count_where, update_where, delete_where, nat_eq, Bool-cases,
  Option-cases,
}
use aadesh.Chrono.{Time, Plus}
use aadesh.Outcome.{ok}
use aadesh.Leases.{
  Lease, Leases, granted, is_for, is_held, next_epoch, taken_over, try_acquire_operation_lease,
  accepts, renewed, renew_operation_lease, release_operation_lease, first_lease,
}
use aadesh.Leases.Exclusion.{OnePerOperation, Succeeds}

any-update :
    (op : String) (p : Lease → Bool) (f : Lease → Lease) (ls : Leases)
    → ((x : Lease) → (f x).operation_id ≡ x.operation_id)
    → any (is_for op) (update_where p f ls) ≡ any (is_for op) ls
any-update op p f [] same = refl
any-update op p f (x ∷ ls) same = ground (arith, same x, any-update op p f ls same)

update-OnePerOperation :
    (p : Lease → Bool) (f : Lease → Lease) (ls : Leases)
    → ((x : Lease) → (f x).operation_id ≡ x.operation_id)
    → OnePerOperation ls
    → OnePerOperation (update_where p f ls)
update-OnePerOperation p f [] same u = tt
update-OnePerOperation p f (x ∷ ls) same u = (
  ground (arith, same x, any-update x.operation_id p f ls same, u.0),
  update-OnePerOperation p f ls same u.1,
)

any-delete :
    (op : String) (p : Lease → Bool) (ls : Leases)
    → any (is_for op) ls ≡ false
    → any (is_for op) (delete_where p ls) ≡ false
any-delete op p [] h = refl
any-delete op p (x ∷ ls) h = ground (arith, any-delete op p ls)

delete-OnePerOperation :
    (p : Lease → Bool) (ls : Leases) → OnePerOperation ls → OnePerOperation (delete_where p ls)
delete-OnePerOperation p [] u = tt
delete-OnePerOperation p (x ∷ ls) u = elim (Bool-cases (p x)) [
  | inl gone ↦ rw gone (delete-OnePerOperation p ls u.1)
  | inr stays ↦ rw stays (any-delete x.operation_id p ls u.0, delete-OnePerOperation p ls u.1)
]

any-append :
    (op : String) (ls : Leases) (l : Lease)
    → any (is_for op) ls ≡ false
    → is_for op l ≡ false
    → any (is_for op) (ls ++ l ∷ []) ≡ false
any-append op [] l h n = rw n
any-append op (x ∷ ls) l h n = ground (arith, any-append op ls l)

append-OnePerOperation :
    (ls : Leases) (l : Lease)
    → OnePerOperation ls
    → find (is_for l.operation_id) ls ≡ none
    → OnePerOperation (ls ++ l ∷ [])
append-OnePerOperation [] l u h = (refl, tt)
append-OnePerOperation (x ∷ ls) l u h = (
  any-append x.operation_id ls l u.0
      (ground (arith, eq_iff x.operation_id l.operation_id, eq_iff l.operation_id x.operation_id)),
  append-OnePerOperation ls l u.1 (ground arith),
)

-- A runner's call on the table, at an instant.
pub data Call : Type 0 where
  acquire : Time → String → String → ℤ → Call
  renew : Time → String → String → ℤ → ℤ → Call
  release : String → String → ℤ → Call

unfoldable pub after : Plus → (String → Bool) → Call → Leases → Leases
after plus known (acquire now op runner d) ls =
    (try_acquire_operation_lease plus known now op runner d ls).1
after plus known (renew now op runner e d) ls = (renew_operation_lease plus now op runner e d ls).1
after plus known (release op runner e) ls = (release_operation_lease op runner e ls).1

acquire-OnePerOperation :
    (plus : Plus) (known : String → Bool) (now : Time) (op runner : String) (d : ℤ) (ls : Leases)
    → OnePerOperation ls
    → OnePerOperation (try_acquire_operation_lease plus known now op runner d ls).1
unfolding try_acquire_operation_lease
acquire-OnePerOperation plus known now op runner d ls u = elim (Option-cases (plus now d)) [
  | inl e ↦ rw e u
  | inr (until, e) ↦ elim (Option-cases (find (is_for op) ls)) [
    | inl absent ↦ elim (Bool-cases (known op)) [
      | inl k ↦
          rw e (
            rw absent (rw k (append-OnePerOperation ls (first_lease op runner now until) u absent)))
      | inr k ↦ rw e (rw absent (rw k u))
    ]
    | inr (l, found) ↦ elim (Bool-cases (is_held runner now l)) [
      | inl held ↦ rw e (rw found (rw held u))
      | inr free ↦ rw e (
          rw found (
            rw free (
              update-OnePerOperation (is_for op) (taken_over runner now until (next_epoch runner l))
                ls (λ x. refl) u)))
    ]
  ]
]

renew-OnePerOperation :
    (plus : Plus) (now : Time) (op runner : String) (epoch d : ℤ) (ls : Leases)
    → OnePerOperation ls
    → OnePerOperation (renew_operation_lease plus now op runner epoch d ls).1
unfolding renew_operation_lease
renew-OnePerOperation plus now op runner epoch d ls u = elim (Option-cases (plus now d)) [
  | inl e ↦ rw e u
  | inr (until, e) ↦ elim (Bool-cases (nat_eq (count_where (accepts op runner epoch) ls) 0)) [
    | inl c ↦ rw e (rw c u)
    | inr c ↦ rw e (
        rw c
          (update-OnePerOperation (accepts op runner epoch) (renewed now until) ls (λ x. refl) u))
  ]
]

release-OnePerOperation :
    (op runner : String) (epoch : ℤ) (ls : Leases)
    → OnePerOperation ls
    → OnePerOperation (release_operation_lease op runner epoch ls).1
unfolding release_operation_lease
release-OnePerOperation op runner epoch ls u =
    elim (Bool-cases (nat_eq (count_where (accepts op runner epoch) ls) 0)) [
      | inl c ↦ rw c u
      | inr c ↦ rw c (delete-OnePerOperation (accepts op runner epoch) ls u)
    ]

-- Every call on the table of leases, whatever it returns, keeps one row for each operation.
pub after-OnePerOperation :
    (plus : Plus) (known : String → Bool) (c : Call) (ls : Leases)
    → OnePerOperation ls
    → OnePerOperation (after plus known c ls)
unfolding after
after-OnePerOperation plus known (acquire now op runner d) ls u =
    acquire-OnePerOperation plus known now op runner d ls u
after-OnePerOperation plus known (renew now op runner e d) ls u =
    renew-OnePerOperation plus now op runner e d ls u
after-OnePerOperation plus known (release op runner e) ls u =
    release-OnePerOperation op runner e ls u

find_absent :
    (op : String) (p : Lease → Bool) (ls : Leases)
    → any (is_for op) ls ≡ false
    → find (is_for op) (delete_where p ls) ≡ none
find_absent op p [] h = refl
find_absent op p (x ∷ ls) h = ground (arith, find_absent op p ls)

accepts_none :
    (op runner : String) (epoch : ℤ) (ls : Leases)
    → any (is_for op) ls ≡ false
    → count_where (accepts op runner epoch) ls ≡ 0
accepts_none op runner epoch [] h = refl
accepts_none op runner epoch (x ∷ ls) h = ground (arith, accepts_none op runner epoch ls)

find_deleted :
    (op runner : String) (epoch : ℤ) (ls : Leases)
    → OnePerOperation ls
    → nat_eq (count_where (accepts op runner epoch) ls) 0 ≡ false
    → find (is_for op) (delete_where (accepts op runner epoch) ls) ≡ none
find_deleted op runner epoch [] u h = refl
find_deleted op runner epoch (x ∷ ls) u h = elim (Bool-cases (x.operation_id == op)) [
  | inl here ↦
      let same : x.operation_id ≡ op = eq_of_text x.operation_id op here in
      let others = accepts_none x.operation_id runner epoch ls u.0 in
      let rest = find_absent x.operation_id (accepts op runner epoch) ls u.0 in
      ground (arith, same, others, rest)
  | inr later ↦ ground (arith, find_deleted op runner epoch ls u.1)
]

-- A release forgets the epoch: in a table with one lease for each operation, after a release that
-- succeeds, the next attempt to acquire the operation (which exists) until a date, by whatever
-- runner and at whatever time, is granted with epoch 1.
pub release_resets_epoch :
    (plus : Plus) (known : String → Bool) (now until : Time) (op runner other : String)
    (epoch d : ℤ) (ls : Leases)
    → OnePerOperation ls
    → Succeeds (release_operation_lease op runner epoch ls).0
    → plus now d ≡ some until
    → known op ≡ true
    → (try_acquire_operation_lease plus known now op other d
        (release_operation_lease op runner epoch ls).1).0
      ≡ ok (granted 1)
unfolding release_operation_lease try_acquire_operation_lease
release_resets_epoch plus known now until op runner other epoch d ls u h e k =
    let written : nat_eq (count_where (accepts op runner epoch) ls) 0 ≡ false = ground arith in
    let gone = find_deleted op runner epoch ls u written in rw written (rw e (rw gone (rw k)))
