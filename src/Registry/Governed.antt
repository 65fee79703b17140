-- ===== src/Registry/Governed.antt =====
-- The tables of the registry, well formed, over any sequence of the calls of storage.rs on them.
use mathlib.Core.Path.{subst}
use aadesh.Common.{
  any-append, String, ◌≡◌, refl, sym, inl, inr, true, not, Option, none, some, List, [], ◌∷◌, ◌==◌,
  any, find, All, All-append, update_where, Bool-cases,
}
use aadesh.Chrono.{Time}
use aadesh.Json.{get, as_array}
use aadesh.Outcome.{
  Outcome, ok, err, conflict, invalid_input, not_found, ensure, required, >>=-eq-ok, required-some,
  ok_injective,
}
use aadesh.Schemas.Descriptor.{and_then}
use aadesh.Store.{
  IdempotencyKey, Version, Snapshot, SchemaEntry, Review, Db, CapabilitySnapshotMintResponse,
  ReviewItemDetail, is_version, is_snapshot, is_review,
}
use aadesh.Store.Idempotency.{stored_response, as_registered, as_minted, as_review_item}
use aadesh.Store.Stored.{with_keys, finishes, settle_replay}
use aadesh.Registry.Canonical.{Encoding}
use aadesh.Registry.Versions.{last_version, load_current_versions, with_version}
use aadesh.Registry.Entries.{
  SchemaRegisterInput, new_entry, same_schema, insert_entry_or_ignore, register_work,
  register_schema_entry,
}
use aadesh.Registry.Snapshots.{
  CapabilitySnapshotMintInput, check_capabilities, new_snapshot, insert_snapshot_or_ignore,
  mint_work, mint_capability_snapshot,
}
use aadesh.Registry.Reviews.{
  CapabilityActivationReviewInput, FreshReview, new_review, insert_review, with_review_event,
  propose_work, create_capability_activation_review_item,
}
use aadesh.Registry.Supported.{
  AllItems, IsUsable, IsSupported, some-Present, check_capabilities-IsUsable, IsSupported-append,
}

-- The current capability snapshot is stored, and the stored snapshots are supported by the schemas.
pub record IsGoverned (db : Db) : Type 0 where
  pub current : String
  pub is_current : last_version "capability_snapshot" db.versions none ≡ some current
  pub is_stored : any (is_snapshot current) db.snapshots ≡ true
  pub supported : All (λ (s : Snapshot). IsSupported db.schemas s.payload) db.snapshots

-- After the update, the kind has the version, if it has a row at all.
pub last-set :
    (kind : String) (now : Time) (id : String) (vs : List Version) (found : Option String)
    {k : String}
    → last_version kind vs none ≡ some k
    → last_version kind (update_where (is_version kind) (with_version now id) vs) found ≡ some id
last-set kind now id [] found h = absurd (cc)
last-set kind now id (v ∷ vs) found {k} h = elim (Bool-cases (is_version kind v)) [
  | inl here ↦ rw here (rw here (again vs))
  | inr other ↦ rw other (rw other (last-set kind now id vs found {k = k} (rw other at h)))
]
  where
    again :
        (ws : List Version)
        → last_version kind (update_where (is_version kind) (with_version now id) ws) (some id)
          ≡ some id
    again [] = refl
    again (w ∷ ws) = elim (Bool-cases (is_version kind w)) [
      | inl here ↦ rw here (rw here (again ws))
      | inr other ↦ rw other (rw other (again ws))
    ]

-- It does not look at the stored responses.
pub after_keys :
    {keys : List IdempotencyKey} {db final : Db}
    → IsGoverned db
    → final ≡ with_keys keys db
    → IsGoverned final
after_keys g same = subst IsGoverned (sym same) (record {
  current = g.current;
  is_current = g.is_current;
  is_stored = g.is_stored;
  supported = g.supported;
})

inserted-entry :
    (e : SchemaEntry) (db : Db) → IsGoverned db → IsGoverned (insert_entry_or_ignore e db)
inserted-entry e db g = elim (Bool-cases (any (same_schema e) db.schemas)) [
  | inl old ↦ rw old g
  | inr new ↦ rw new (record {
    current = g.current;
    is_current = g.is_current;
    is_stored = g.is_stored;
    supported = IsSupported-append db.schemas e db.snapshots g.supported;
  })
]

register_work-IsGoverned :
    (c : Encoding) (now : Time) (input : SchemaRegisterInput) (db : Db)
    → IsGoverned db
    → (r : SchemaEntry) (final : Db) → register_work c now input db ≡ ok (r, final)
    → IsGoverned final
unfolding register_work
register_work-IsGoverned c now input db g r final h =
    let kept = finishes _ _ _ _ _ (insert_entry_or_ignore (new_entry c now input) db) h in
    after_keys (inserted-entry (new_entry c now input) db g) kept.1

pub register-IsGoverned :
    (c : Encoding) (now : Time) (input : SchemaRegisterInput) (db : Db)
    → IsGoverned db
    → IsGoverned (register_schema_entry c now input db).1
unfolding register_schema_entry
register-IsGoverned c now input db g =
    settle_replay IsGoverned as_registered db
      (stored_response "/v1/schema-registry/register" input.idempotency_key db)
      (register_work c now input db) g (register_work-IsGoverned c now input db g)

inserted-snapshot :
    (s : Snapshot) (db : Db)
    → IsSupported db.schemas s.payload
    → IsGoverned db
    → IsGoverned (insert_snapshot_or_ignore s db)
inserted-snapshot s db p g =
    elim (Bool-cases (any (is_snapshot s.capability_snapshot_version) db.snapshots)) [
      | inl old ↦ rw old g
      | inr new ↦ rw new (record {
        current = g.current;
        is_current = g.is_current;
        is_stored = any-append (is_snapshot g.current) db.snapshots (s ∷ []) g.is_stored;
        supported =
            All-append (λ (x : Snapshot). IsSupported db.schemas x.payload) db.snapshots (s ∷ [])
              g.supported (p, tt);
      })
    ]

mint_work-IsGoverned :
    (c : Encoding) (now : Time) (input : CapabilitySnapshotMintInput) (db : Db)
    → IsGoverned db
    → (r : CapabilitySnapshotMintResponse) (final : Db) → mint_work c now input db ≡ ok (r, final)
    → IsGoverned final
unfolding mint_work
mint_work-IsGoverned c now input db g r final h =
    let (caps, e1, h1) =
      >>=-eq-ok
        (required (and_then (get "capabilities" input.snapshot_payload) as_array) invalid_input) _
        h in
    let (_, e2, h2) = >>=-eq-ok (check_capabilities db.schemas caps) _ h1 in
    let s = new_snapshot c now input in
    let kept = finishes _ _ _ _ _ (insert_snapshot_or_ignore s db) h2 in
    let usable = check_capabilities-IsUsable db.schemas caps e2 in
    let supported = some-Present (AllItems (IsUsable db.schemas)) _ (required-some _ _ e1) usable in
    after_keys (inserted-snapshot s db supported g) kept.1

pub mint-IsGoverned :
    (c : Encoding) (now : Time) (input : CapabilitySnapshotMintInput) (db : Db)
    → IsGoverned db
    → IsGoverned (mint_capability_snapshot c now input db).1
unfolding mint_capability_snapshot
mint-IsGoverned c now input db g =
    settle_replay IsGoverned as_minted db
      (stored_response "/v1/capabilities/snapshots" input.idempotency_key db)
      (mint_work c now input db) g (mint_work-IsGoverned c now input db g)

announced :
    (now : Time) (event_ref : String) (r : Review) (d : Db)
    → IsGoverned d
    → IsGoverned (with_review_event now event_ref r d)
announced now event_ref r d g = record {
  current = g.current;
  is_current = g.is_current;
  is_stored = g.is_stored;
  supported = g.supported;
}

proposed :
    (r : Review) (db : Db) {d : Db} → insert_review r db ≡ ok d → IsGoverned db → IsGoverned d
proposed r db {d} e g = elim (Bool-cases (any (is_review r.item_id) db.reviews)) [
  | inl old ↦ absurd (refuse (rw old at e))
  | inr new ↦ subst IsGoverned (ok_injective (rw new at e)) (record {
    current = g.current;
    is_current = g.is_current;
    is_stored = g.is_stored;
    supported = g.supported;
  })
]
  where
    refuse : ◌≡◌ {A = Outcome Db} (err conflict) (ok d) → ⊥
    refuse x = cc

propose_work-IsGoverned :
    (now : Time) (fresh : FreshReview) (input : CapabilityActivationReviewInput) (db : Db)
    → IsGoverned db
    → (r : ReviewItemDetail) (final : Db) → propose_work now fresh input db ≡ ok (r, final)
    → IsGoverned final
unfolding propose_work
propose_work-IsGoverned now fresh input db g r final h =
    let (s, e1, h1) =
      >>=-eq-ok
        (required (find (is_snapshot input.capability_snapshot_version) db.snapshots) not_found) _
        h in
    let (current, e2, h2) = >>=-eq-ok (load_current_versions db) _ h1 in
    let (_, e3, h3) =
      >>=-eq-ok
        (ensure (not (s.capability_snapshot_version == current.capability_snapshot_version))
          conflict)
        _ h2 in
    let r =
      new_review now fresh.item_id current.capability_snapshot_version
        input.capability_snapshot_version in
    let (db1, e4, h4) = >>=-eq-ok (insert_review r db) _ h3 in
    let kept = finishes _ _ _ _ _ (with_review_event now fresh.event_ref r db1) h4 in
    after_keys (announced now fresh.event_ref r db1 (proposed r db e4 g)) kept.1

pub propose-IsGoverned :
    (now : Time) (fresh : FreshReview) (input : CapabilityActivationReviewInput) (db : Db)
    → IsGoverned db
    → IsGoverned (create_capability_activation_review_item now fresh input db).1
unfolding create_capability_activation_review_item
propose-IsGoverned now fresh input db g =
    settle_replay IsGoverned as_review_item db
      (stored_response "/v1/capabilities/current/activate" input.idempotency_key db)
      (propose_work now fresh input db) g (propose_work-IsGoverned now fresh input db g)
