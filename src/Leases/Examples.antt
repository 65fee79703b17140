-- ===== src/Leases/Examples.antt =====
-- Two runners and one operation.
use aadesh.Common.{
  ◌+◌, ◌*◌, String, ◌≡◌, ◌≢◌, refl, inl, Bool, List, take, none, some, [], ◌∷◌, arith, ◌==◌, eq_iff,
  pos, negsuc,
}
use aadesh.Chrono.{Plus}
use aadesh.Outcome.{ok}
use aadesh.Leases.{
  Lease, Leases, granted, try_acquire_operation_lease, renew_operation_lease,
  release_operation_lease,
}
use aadesh.Leases.Exclusion.{OnePerOperation, Succeeds, one_holder}
use aadesh.Leases.Epochs.{Call, acquire, renew, release, release_resets_epoch}
use aadesh.Leases.Locks.{view, lock_after}
use aadesh.Leases.Refined.{after_all, locks_after, view-after_all}

abbrev plus : Plus
plus t (pos n) = some (t + n * 1000000)
plus t (negsuc n) = none

abbrev known : String → Bool
known op = op == "op:1"

abbrev row : Lease
row = record {
  operation_id = "op:1";
  lease_owner = "a";
  leased_until = 100;
  lease_epoch = 7;
  last_heartbeat_at = some 40;
  updated_at = 40;
}

abbrev table : Leases
table = row ∷ []

table-OnePerOperation : OnePerOperation table
table-OnePerOperation = (refl, tt)

a-is_not-b : ◌≢◌ {A = String} "a" "b"
a-is_not-b e = ground (arith, eq_iff "a" "b")

renew_works : Succeeds (renew_operation_lease plus 50 "op:1" "a" (pos 7) (pos 1) table).0
unfolding renew_operation_lease
renew_works = tt

one_holder_example :
    ¬ Succeeds (renew_operation_lease plus 50 "op:1" "b" (pos 7) (pos 1) table).0
    × ¬ Succeeds (release_operation_lease "op:1" "b" (pos 7) table).0
one_holder_example =
    one_holder plus 50 "op:1" "a" "b" (pos 7) (pos 7) (pos 1) (pos 1) table table-OnePerOperation
      a-is_not-b (inl renew_works)

-- The other runner waits for the end of the lease, prolongs it and frees it.
abbrev calls : List Call
calls =
    acquire 60 "op:1" "b" (pos 1)
    ∷ acquire 150 "op:1" "b" (pos 1)
    ∷ renew 160 "op:1" "b" (pos 8) (pos 2)
    ∷ release "op:1" "b" (pos 8)
    ∷ []

view-after_all_example :
    view (after_all plus known calls table) ≡ locks_after plus known calls (view table)
view-after_all_example = view-after_all plus known calls table table-OnePerOperation

-- The lock before it is freed.
prolonged_lock :
    locks_after plus known (take 3 calls) (view table) "op:1"
    ≡ some (record { owner = "b"; until = 2000160; epoch = 8 })
unfolding locks_after lock_after
prolonged_lock = refl

release_works : Succeeds (release_operation_lease "op:1" "a" (pos 7) table).0
unfolding release_operation_lease
release_works = tt

release_resets_epoch_example :
    (try_acquire_operation_lease plus known 60 "op:1" "b"
      (pos 1)
      (release_operation_lease "op:1" "a" (pos 7) table).1).0
    ≡ ok (granted 1)
release_resets_epoch_example =
    release_resets_epoch plus known 60 1000060 "op:1" "a" "b" (pos 7) (pos 1) table
      table-OnePerOperation release_works refl refl
