-- ===== src/Leases/Locks.antt =====
-- The table `operation_leases` (storage.rs) as a lock for each operation: which runner has it, until
-- when, and under which epoch. The order of the rows and their heartbeats are forgotten.
use aadesh.Common.{
  ℕ, ◌+◌, String, ◌≡◌, refl, ap, ◌∙◌, inl, inr, Bool, true, false, not, ◌&&◌, Option, none, some,
  [], ◌∷◌, arith, ◌==◌, eq_iff, eq_of_text, ℤ, equals, find, find_holds, count_where, update_where,
  delete_where, ltb, nat_eq, if◌then◌else◌, Bool-cases,
}
use aadesh.Chrono.{Time, Plus}
use aadesh.Leases.{Lease, Leases, is_for, accepts}
use aadesh.Leases.Exclusion.{OnePerOperation, accepts_none}
use aadesh.Leases.Epochs.{Call, acquire, renew, release}

pub record Lock : Type 0 where
  pub owner : String
  pub until : Time
  pub epoch : ℕ

abbrev pub Locks : Type 0
Locks = String → Option Lock

abbrev pub set : String → Option Lock → Locks → Locks
set op x locks k = if k == op then x else locks k

-- Whether another runner's lock is running.
abbrev pub is_busy : String → Time → Option Lock → Bool
is_busy runner now none = false
is_busy runner now (some l) = not (l.owner == runner) && ltb now l.until

-- A runner that takes its own lock again keeps the epoch.
abbrev pub epoch_for : String → Option Lock → ℕ
epoch_for runner none = 1
epoch_for runner (some l) = if l.owner == runner then l.epoch else l.epoch + 1

abbrev pub holds : String → ℤ → Option Lock → Bool
holds runner epoch none = false
holds runner epoch (some l) = (l.owner == runner) && equals l.epoch epoch

-- An operation without a lock has to exist.
abbrev pub can_lock : Bool → String → Time → Option Lock → Bool
can_lock exists runner now none = exists
can_lock exists runner now (some l) = not (is_busy runner now (some l))

abbrev pub take_lock : Bool → Time → String → String → Option Time → Locks → Locks
take_lock exists now op runner none locks = locks
take_lock exists now op runner (some until) locks =
    if can_lock exists runner now (locks op)
    then set op
        (some (record { owner = runner; until = until; epoch = epoch_for runner (locks op) })) locks
    else locks

abbrev pub prolonged : Time → Option Lock → Option Lock
prolonged until none = none
prolonged until (some l) = some (record l { until = until })

abbrev pub prolong : String → String → ℤ → Option Time → Locks → Locks
prolong op runner epoch none locks = locks
prolong op runner epoch (some until) locks =
    if holds runner epoch (locks op) then set op (prolonged until (locks op)) locks else locks

-- What a call does to the locks.
unfoldable pub lock_after : Plus → (String → Bool) → Call → Locks → Locks
lock_after plus known (acquire now op runner d) locks =
    take_lock (known op) now op runner (plus now d) locks
lock_after plus known (renew now op runner epoch d) locks =
    prolong op runner epoch (plus now d) locks
lock_after plus known (release op runner epoch) locks =
    if holds runner epoch (locks op) then set op none locks else locks

abbrev pub lock_of : Option Lease → Option Lock
lock_of none = none
lock_of (some l) =
    some (record { owner = l.lease_owner; until = l.leased_until; epoch = l.lease_epoch })

abbrev pub view : Leases → Locks
view ls k = lock_of (find (is_for k) ls)

-- The row that is found after an update.
abbrev written : (Lease → Bool) → (Lease → Lease) → Option Lease → Option Lease
written p f none = none
written p f (some l) = some (if p l then f l else l)

find-written :
    (k : String) (p : Lease → Bool) (f : Lease → Lease) (ls : Leases)
    → ((x : Lease) → is_for k (f x) ≡ is_for k x)
    → find (is_for k) (update_where p f ls) ≡ written p f (find (is_for k) ls)
find-written k p f [] same = refl
find-written k p f (x ∷ ls) same = elim (Bool-cases (is_for k x)) [
  | inl here ↦ elim (Bool-cases (p x)) [
    | inl t ↦ ground (arith, same x)
    | inr n ↦ ground (arith, same x)
  ]
  | inr away ↦ elim (Bool-cases (p x)) [
    | inl t ↦ ground (arith, same x, find-written k p f ls same)
    | inr n ↦ ground (arith, same x, find-written k p f ls same)
  ]
]

-- A lookup that no deleted row answers.
pub find_undeleted :
    (k : String) (p : Lease → Bool) (ls : Leases)
    → ((x : Lease) → is_for k x ≡ true → p x ≡ false)
    → find (is_for k) (delete_where p ls) ≡ find (is_for k) ls
find_undeleted k p [] spared = refl
find_undeleted k p (x ∷ ls) spared = ground (arith, spared x, find_undeleted k p ls spared)

-- The row that accepts a token is the one that is found.
pub accepts-holds :
    (op runner : String) (epoch : ℤ) (ls : Leases)
    → OnePerOperation ls
    → nat_eq (count_where (accepts op runner epoch) ls) 0 ≡ not (holds runner epoch (view ls op))
accepts-holds op runner epoch [] u = refl
accepts-holds op runner epoch (x ∷ ls) u = elim (Bool-cases (x.operation_id == op)) [
  | inl here ↦
      let same : x.operation_id ≡ op = eq_of_text x.operation_id op here in
      let others = accepts_none x.operation_id runner epoch ls u.0 in ground (arith, others, same)
  | inr away ↦ ground (arith, accepts-holds op runner epoch ls u.1)
]

-- A token of one operation accepts no row of another.
pub accepts_other :
    (k op runner : String) (epoch : ℤ) (x : Lease)
    → (k == op) ≡ false
    → is_for k x ≡ true
    → accepts op runner epoch x ≡ false
accepts_other k op runner epoch x away own =
    ground (arith, eq_iff k op, eq_iff x.operation_id k, eq_iff x.operation_id op)

-- An update of the row of one operation, by a token or whatever the token, is seen at it only.
pub view-update :
    (k op : String) (p : Lease → Bool) (f : Lease → Lease) (ls : Leases) {l : Lease}
    → ((x : Lease) → is_for op x ≡ false → p x ≡ false)
    → ((x : Lease) → (f x).operation_id ≡ x.operation_id)
    → find (is_for op) ls ≡ some l
    → p l ≡ true
    → view (update_where p f ls) k ≡ set op (lock_of (some (f l))) (view ls) k
view-update k op p f ls {l} own same found accepted =
    ap lock_of (find-written k p f ls λ x. ap (λ i. i == k) (same x)) ∙ at (k == op) refl
  where
    apart : (x : Lease) → (k == op) ≡ false → is_for k x ≡ true → is_for op x ≡ false
    apart x away here =
        ground (arith, eq_iff k op, eq_iff x.operation_id k, eq_iff x.operation_id op)

    elsewhere :
        (o : Option Lease)
        → find (is_for k) ls ≡ o
        → (k == op) ≡ false
        → lock_of (written p f o) ≡ lock_of o
    elsewhere none e away = refl
    elsewhere (some x) e away = rw (own x (apart x away (find_holds (is_for k) ls e))) refl

    at :
        (b : Bool)
        → (k == op) ≡ b
        → lock_of (written p f (find (is_for k) ls))
          ≡ (if b then lock_of (some (f l)) else view ls k)
    at true here =
        let there = ap (λ i. find (is_for i) ls) (eq_of_text k op here) ∙ found in
        rw there (rw accepted refl)
    at false away = elsewhere (find (is_for k) ls) refl away
