-- ===== src/Leases.antt =====
-- The operation leases of crates/adesh-storage-sqlite/src/storage.rs, under which runners
-- execute operations: `try_acquire_operation_lease`, `renew_operation_lease` and
-- `release_operation_lease` over the table `operation_leases`.
pub mod Exclusion
pub mod Epochs
pub mod Locks
pub mod Refined
mod Examples
use aadesh.Common.{
  ℕ, ◌+◌, String, Bool, true, false, Option, none, some, List, [], ◌∷◌, ◌++◌, ◌==◌, ◌&&◌, not, ℤ,
  equals, find, update_where, delete_where, count_where, ltb, nat_eq, if◌then◌else◌,
}
use aadesh.Chrono.{Time, Plus}
use aadesh.Outcome.{Outcome, ok, err, conflict, unavailable, ◌>>=◌, or_panic, transact}

-- A row of `operation_leases`.
pub record Lease : Type 0 where
  pub operation_id : String
  pub lease_owner : String
  pub leased_until : Time
  pub lease_epoch : ℕ
  pub last_heartbeat_at : Option Time
  pub updated_at : Time

abbrev pub Leases : Type 0
Leases = List Lease

pub record LeaseAcquisition : Type 0 where
  pub acquired : Bool
  pub lease_epoch : Option ℕ

abbrev pub refused : LeaseAcquisition
refused = record { acquired = false; lease_epoch = none }

abbrev pub granted : ℕ → LeaseAcquisition
granted epoch = record { acquired = true; lease_epoch = some epoch }

abbrev pub is_for : String → Lease → Bool
is_for op l = l.operation_id == op

-- `current_owner != runner_id && current_until > now`
abbrev pub is_held : String → Time → Lease → Bool
is_held runner now l = not (l.lease_owner == runner) && ltb now l.leased_until

abbrev pub next_epoch : String → Lease → ℕ
next_epoch runner l = if l.lease_owner == runner then l.lease_epoch else l.lease_epoch + 1

abbrev pub taken_over : String → Time → Time → ℕ → Lease → Lease
taken_over runner now until epoch l = record l {
  lease_owner = runner;
  leased_until = until;
  lease_epoch = epoch;
  last_heartbeat_at = some now;
  updated_at = now;
}

abbrev pub first_lease : String → String → Time → Time → Lease
first_lease op runner now until = record {
  operation_id = op;
  lease_owner = runner;
  leased_until = until;
  lease_epoch = 1;
  last_heartbeat_at = some now;
  updated_at = now;
}

-- `known` tells whether `operations` has a row for the foreign key; an insert without one fails.
acquire_row :
    (String → Bool)
    → String
    → String
    → Time
    → Time
    → Leases
    → Option Lease
    → Outcome (LeaseAcquisition × Leases)
acquire_row known op runner now until ls (some l) =
    if is_held runner now l
    then ok (refused, ls)
    else ok (
      granted (next_epoch runner l),
      update_where (is_for op) (taken_over runner now until (next_epoch runner l)) ls,
    )
acquire_row known op runner now until ls none =
    if known op then ok (granted 1, ls ++ first_lease op runner now until ∷ []) else err unavailable

unfoldable pub try_acquire_operation_lease :
    Plus → (String → Bool) → Time → String → String → ℤ → Leases → Outcome LeaseAcquisition × Leases
unfolding acquire_row
try_acquire_operation_lease plus known now op runner duration = transact λ ls. do
  until ← or_panic (plus now duration)
  acquire_row known op runner now until ls (find (is_for op) ls)

-- The token of the caller, a runner and an epoch, is that of the row.
abbrev pub accepts : String → String → ℤ → Lease → Bool
accepts op runner epoch l = is_for op l && ((l.lease_owner == runner) && equals l.lease_epoch epoch)

abbrev pub renewed : Time → Time → Lease → Lease
renewed now until l = record l {
  leased_until = until;
  last_heartbeat_at = some now;
  updated_at = now;
}

-- What `renew_operation_lease` returns is put together from its arguments.
pub record OperationLease : Type 0 where
  pub operation_id : String
  pub lease_owner : String
  pub leased_until : Time
  pub lease_epoch : ℤ
  pub last_heartbeat_at : Option Time
  pub updated_at : Time

renew_rows : Time → Time → String → String → ℤ → Leases → Outcome (OperationLease × Leases)
renew_rows now until op runner epoch ls =
    if nat_eq (count_where (accepts op runner epoch) ls) 0
    then err conflict
    else ok (
      record {
        operation_id = op;
        lease_owner = runner;
        leased_until = until;
        lease_epoch = epoch;
        last_heartbeat_at = some now;
        updated_at = now;
      },
      update_where (accepts op runner epoch) (renewed now until) ls,
    )

-- One statement: where it updates no row the table is as it was.
unfoldable pub renew_operation_lease :
    Plus → Time → String → String → ℤ → ℤ → Leases → Outcome OperationLease × Leases
unfolding renew_rows
renew_operation_lease plus now op runner epoch duration =
    transact λ ls. do until ← or_panic (plus now duration); renew_rows now until op runner epoch ls

unfoldable pub release_operation_lease : String → String → ℤ → Leases → Outcome (Unit {0}) × Leases
release_operation_lease op runner epoch ls =
    if nat_eq (count_where (accepts op runner epoch) ls) 0
    then (err conflict, ls)
    else (ok tt, delete_where (accepts op runner epoch) ls)
