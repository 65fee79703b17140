-- ===== src/Registry/Snapshots.antt =====
-- `mint_capability_snapshot`, `get_capability_snapshot` and `resolve_action_descriptor` of storage.rs.
use Prim.Native.String.{◌++◌ as str_append}
use aadesh.Common.{String, Bool, Option, none, some, List, [], ◌∷◌, ◌++◌, any, find, if◌then◌else◌}
use aadesh.Chrono.{Time}
use aadesh.Json.{Value, Items, nil, cons, get, as_str, as_array}
use aadesh.Outcome.{Outcome, ok, invalid_input, not_found, ◌>>=◌, ◌>>◌, ensure, required, transact}
use aadesh.Schemas.Descriptor.{ActionDescriptor, and_then, resolve_action_descriptor_from_snapshot}
use aadesh.Store.{
  Snapshot, SchemaEntry, Db, CapabilitySnapshotMintResponse, minted, is_snapshot, is_schema,
}
use aadesh.Store.Idempotency.{stored_response, store_response, replay_or, as_minted}
use aadesh.Registry.Canonical.{Encoding, content_hash}

pub record CapabilitySnapshotMintInput : Type 0 where
  pub base_version : Option String
  pub snapshot_payload : Value
  pub idempotency_key : Option String

abbrev pub is_known : List SchemaEntry → String → Bool
is_known schemas k = any (is_schema k) schemas

-- The schema of the results may be missing.
abbrev pub check_result_ref : List SchemaEntry → Option String → Outcome (Unit {0})
check_result_ref schemas none = ok tt
check_result_ref schemas (some k) = ensure (is_known schemas k) invalid_input

unfoldable pub check_action : List SchemaEntry → Value → Outcome (Unit {0})
check_action schemas action = do
  args_schema_ref ← required (and_then (get "args_schema_ref" action) as_str) invalid_input
  ensure (is_known schemas args_schema_ref) invalid_input
  check_result_ref schemas (and_then (get "result_schema_ref" action) as_str)

-- The two loops.
unfoldable pub check_actions : List SchemaEntry → Items → Outcome (Unit {0})
check_actions schemas nil = ok tt
check_actions schemas (cons action rest) =
    let later = check_actions schemas rest in check_action schemas action >> later

unfoldable pub check_capabilities : List SchemaEntry → Items → Outcome (Unit {0})
check_capabilities schemas nil = ok tt
check_capabilities schemas (cons capability rest) =
    let later = check_capabilities schemas rest in
    do
      actions ← required (and_then (get "actions" capability) as_array) invalid_input
      check_actions schemas actions
      later

abbrev pub snapshot_version_of : Encoding → Value → String
snapshot_version_of c v = str_append "cap:sha256:" (content_hash c v)

abbrev pub new_snapshot : Encoding → Time → CapabilitySnapshotMintInput → Snapshot
new_snapshot c now input = record {
  capability_snapshot_version = snapshot_version_of c input.snapshot_payload;
  created_at = now;
  parent_version = input.base_version;
  content_hash = content_hash c input.snapshot_payload;
  payload = input.snapshot_payload;
}

-- `INSERT OR IGNORE` on the primary key
abbrev pub insert_snapshot_or_ignore : Snapshot → Db → Db
insert_snapshot_or_ignore s db =
    if any (is_snapshot s.capability_snapshot_version) db.snapshots
    then db
    else record db { snapshots = db.snapshots ++ s ∷ [] }

unfoldable pub mint_work :
    Encoding
    → Time
    → CapabilitySnapshotMintInput
    → Db
    → Outcome (CapabilitySnapshotMintResponse × Db)
unfolding check_capabilities store_response
mint_work c now input db = do
  capabilities ←
      required (and_then (get "capabilities" input.snapshot_payload) as_array) invalid_input
  check_capabilities db.schemas capabilities
  let s = new_snapshot c now input
  let response : CapabilitySnapshotMintResponse = record {
    capability_snapshot_version = s.capability_snapshot_version;
    created_at = now;
  }
  db' ←
      store_response "/v1/capabilities/snapshots" input.idempotency_key
        s.capability_snapshot_version (minted response) now (insert_snapshot_or_ignore s db)
  ok (response, db')

unfoldable pub mint_capability_snapshot :
    Encoding → Time → CapabilitySnapshotMintInput → Db → Outcome CapabilitySnapshotMintResponse × Db
unfolding mint_work stored_response
mint_capability_snapshot c now input = transact λ db.
    replay_or as_minted db (stored_response "/v1/capabilities/snapshots" input.idempotency_key db)
      (mint_work c now input db)

unfoldable pub get_capability_snapshot : String → Db → Outcome Snapshot
get_capability_snapshot k db = required (find (is_snapshot k) db.snapshots) not_found

unfoldable pub resolve_action_descriptor : String → String → String → Db → Outcome ActionDescriptor
unfolding get_capability_snapshot
resolve_action_descriptor k tool action db = do
  snapshot ← get_capability_snapshot k db
  resolve_action_descriptor_from_snapshot snapshot.payload tool action
