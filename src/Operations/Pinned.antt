-- ===== src/Operations/Pinned.antt =====
-- `create_operation_bundle` (storage.rs), taken apart, and the versions that it pins.
use aadesh.Common.{not-true, String, ◌≡◌, ap, ◌∙◌, Bool, false, not, Option, none, some, any}
use aadesh.Chrono.{Time}
use aadesh.Unicode.{Unicode}
use aadesh.Outcome.{
  ok, unavailable, corruption, ensure, required, >>=-eq-ok, ensure_holds, required-some,
  ok_injective,
}
use aadesh.Store.{Db, RequestAcceptedResponse, is_event}
use aadesh.Store.Stored.{with_keys, finishes}
use aadesh.Registry.Versions.{CurrentVersions, last_version, load_current_versions}
use aadesh.Kernel.{RequestEnvelope}
use aadesh.Operations.Create.{
  FreshBundle, request_event_ref, bundle_rows, bundle_response, create_work,
}

-- A creation that is worked through and succeeds, taken apart.
pub record Creates (u : Unicode) (now : Time) (fresh : FreshBundle) (request : RequestEnvelope)
    (db : Db) (r : RequestAcceptedResponse) (final : Db) : Type 0 where
  pub current : CurrentVersions
  pub pinned : load_current_versions db ≡ ok current
  pub is_new : any (is_event (request_event_ref request)) db.events ≡ false
  pub responds : r ≡ bundle_response fresh request
  pub records :
      final ≡ with_keys final.idempotency_keys (bundle_rows u now fresh request current db)

pub create_work-Creates :
    (u : Unicode) (fault : Bool) (now : Time) (fresh : FreshBundle) (request : RequestEnvelope)
    (key : Option String) (db : Db) {r : RequestAcceptedResponse} {final : Db}
    → create_work u fault now fresh request key db ≡ ok (r, final)
    → Creates u now fresh request db r final
unfolding create_work
create_work-Creates u fault now fresh request key db {r} {final} h =
    let (current, e1, h1) = >>=-eq-ok (load_current_versions db) _ h in
    let (_, e2, h2) =
      >>=-eq-ok (ensure (not (any (is_event (request_event_ref request)) db.events)) unavailable) _
        h1 in
    let (_, e3, h3) = >>=-eq-ok (ensure (not fault) unavailable) _ h2 in
    let kept = finishes _ _ _ _ _ (bundle_rows u now fresh request current db) h3 in
    record {
      current = current;
      pinned = e1;
      is_new = not-true _ (ensure_holds _ _ e2);
      responds = kept.0;
      records = kept.1;
    }

-- The versions that are loaded are the current ones.
pub versions-eq :
    (db : Db) {current : CurrentVersions}
    → load_current_versions db ≡ ok current
    → (last_version "active_state" db.versions none ≡ some current.active_state_version)
      × (last_version "audience_graph" db.versions none ≡ some current.audience_graph_version)
      × (last_version "capability_snapshot" db.versions none
          ≡ some current.capability_snapshot_version)
unfolding load_current_versions
versions-eq db {current} h =
    let (active, e1, h1) =
      >>=-eq-ok (required (last_version "active_state" db.versions none) corruption) _ h in
    let (audience, e2, h2) =
      >>=-eq-ok (required (last_version "audience_graph" db.versions none) corruption) _ h1 in
    let (capability, e3, h3) =
      >>=-eq-ok (required (last_version "capability_snapshot" db.versions none) corruption) _ h2 in
    let same = ok_injective h3 in
    (
      required-some _ _ e1 ∙ ap (λ (c : CurrentVersions). some c.active_state_version) same,
      required-some _ _ e2 ∙ ap (λ (c : CurrentVersions). some c.audience_graph_version) same,
      required-some _ _ e3 ∙ ap (λ (c : CurrentVersions). some c.capability_snapshot_version) same,
    )
