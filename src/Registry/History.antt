-- ===== src/Registry/History.antt =====
-- Any sequence of the calls of storage.rs on the registry and its reviews.
use aadesh.Common.{List, [], ◌∷◌}
use aadesh.Chrono.{Time}
use aadesh.Store.{Db}
use aadesh.Registry.Canonical.{Encoding}
use aadesh.Registry.Entries.{SchemaRegisterInput, register_schema_entry}
use aadesh.Registry.Snapshots.{CapabilitySnapshotMintInput, mint_capability_snapshot}
use aadesh.Registry.Reviews.{
  CapabilityActivationReviewInput, ReviewDecisionInput, FreshReview,
  create_capability_activation_review_item, decide_review_item,
}
use aadesh.Registry.Governed.{IsGoverned, register-IsGoverned, mint-IsGoverned, propose-IsGoverned}
use aadesh.Registry.Decided.{decide-IsGoverned}

-- A call with the instant at which it reads the clock, and the identifiers that it makes.
pub data GovernanceCall : Type 0 where
  register_schema : Time → SchemaRegisterInput → GovernanceCall
  mint_snapshot : Time → CapabilitySnapshotMintInput → GovernanceCall
  propose_activation : Time → FreshReview → CapabilityActivationReviewInput → GovernanceCall
  decide_review : Time → FreshReview → ReviewDecisionInput → GovernanceCall

-- The tables after a call, whatever the call returns.
unfoldable pub govern : Encoding → GovernanceCall → Db → Db
govern c (register_schema now input) db = (register_schema_entry c now input db).1
govern c (mint_snapshot now input) db = (mint_capability_snapshot c now input db).1
govern c (propose_activation now fresh input) db =
    (create_capability_activation_review_item now fresh input db).1
govern c (decide_review now fresh input) db = (decide_review_item now fresh input db).1

unfoldable pub govern_all : Encoding → List GovernanceCall → Db → Db
unfolding govern
govern_all c [] db = db
govern_all c (x ∷ xs) db = govern_all c xs (govern c x db)

govern-IsGoverned :
    (c : Encoding) (x : GovernanceCall) (db : Db) → IsGoverned db → IsGoverned (govern c x db)
unfolding govern
govern-IsGoverned c (register_schema now input) db g = register-IsGoverned c now input db g
govern-IsGoverned c (mint_snapshot now input) db g = mint-IsGoverned c now input db g
govern-IsGoverned c (propose_activation now fresh input) db g =
    propose-IsGoverned now fresh input db g
govern-IsGoverned c (decide_review now fresh input) db g = decide-IsGoverned now fresh input db g

-- Take tables in which the current capability snapshot is stored and every stored snapshot lists
-- capabilities, each with its actions, of which each names a registered schema of its arguments and,
-- if it names a schema of its results, a registered one. Any calls that register schemas, mint snapshots, propose activations and
-- decide reviews, in any order, failing or not, lead to tables of which the same holds.
pub govern_all-IsGoverned :
    (c : Encoding) (calls : List GovernanceCall) (db : Db)
    → IsGoverned db
    → IsGoverned (govern_all c calls db)
unfolding govern_all
govern_all-IsGoverned c [] db g = g
govern_all-IsGoverned c (x ∷ xs) db g =
    govern_all-IsGoverned c xs (govern c x db) (govern-IsGoverned c x db g)
