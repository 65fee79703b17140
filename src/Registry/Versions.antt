-- ===== src/Registry/Versions.antt =====
-- `load_current_versions` and `get_current_versions` of storage.rs.
use aadesh.Common.{String, Option, none, some, List, [], ◌∷◌, update_where, if◌then◌else◌}
use aadesh.Chrono.{Time}
use aadesh.Outcome.{Outcome, ok, corruption, ◌>>=◌, required}
use aadesh.Store.{Version, Db, is_version}

-- The loop over the rows, for one kind: the last row counts.
abbrev pub last_version : String → List Version → Option String → Option String
last_version kind [] found = found
last_version kind (v ∷ vs) found =
    last_version kind vs (if is_version kind v then some v.version_id else found)

pub record CurrentVersions : Type 0 where
  pub active_state_version : String
  pub audience_graph_version : String
  pub capability_snapshot_version : String

-- Both methods have this loop and fail where a kind is missing.
unfoldable pub load_current_versions : Db → Outcome CurrentVersions
load_current_versions db = do
  active ← required (last_version "active_state" db.versions none) corruption
  audience ← required (last_version "audience_graph" db.versions none) corruption
  capability ← required (last_version "capability_snapshot" db.versions none) corruption
  ok (record {
    active_state_version = active;
    audience_graph_version = audience;
    capability_snapshot_version = capability;
  })

unfoldable pub get_current_versions : Db → Outcome CurrentVersions
unfolding load_current_versions
get_current_versions db = load_current_versions db

abbrev pub with_version : Time → String → Version → Version
with_version now id v = record v { version_id = id; updated_at = now }

-- `UPDATE current_versions SET version_id = ?2 … WHERE version_kind = ?1`
abbrev pub set_capability_version : Time → String → List Version → List Version
set_capability_version now id =
    update_where (is_version "capability_snapshot") (with_version now id)
