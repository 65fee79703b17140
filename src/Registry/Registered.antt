-- ===== src/Registry/Registered.antt =====
-- `register_schema_entry` (storage.rs) under a name and version that another schema has.
use aadesh.Common.{String, ◌≡◌, refl, true, false, none, List, [], ◌∷◌, arith, any, find}
use aadesh.Chrono.{Time}
use aadesh.Outcome.{ok, err, not_found}
use aadesh.Store.{SchemaEntry, Db, is_schema}
use aadesh.Store.Idempotency.{stored_response, store_response}
use aadesh.Registry.Canonical.{Encoding}
use aadesh.Registry.Entries.{
  SchemaRegisterInput, schema_ref_of, new_entry, entry_response, same_schema,
  insert_entry_or_ignore, register_schema_entry, register_work, get_schema_entry,
}

find_missing :
    (k : String) (es : List SchemaEntry)
    → any (is_schema k) es ≡ false
    → find (is_schema k) es ≡ none
find_missing k [] h = refl
find_missing k (x ∷ es) h = ground (arith, find_missing k es)

module _ (c : Encoding) (now : Time) (input : SchemaRegisterInput) (db : Db) where
  abbrev entry : SchemaEntry
  entry = new_entry c now input

  abbrev response : SchemaEntry
  response = entry_response c now input

  register_effect :
      input.idempotency_key ≡ none
      → register_schema_entry c now input db ≡ (ok response, insert_entry_or_ignore entry db)
  unfolding register_schema_entry register_work stored_response store_response
  register_effect no_key = rw no_key

  -- Where another schema has the name and version, and the reference is not registered, registering
  -- a schema without an idempotency key succeeds as well, but stores nothing: the reference that is
  -- returned is not found.
  pub register_unstored :
      input.idempotency_key ≡ none
      → any (same_schema (new_entry c now input)) db.schemas ≡ true
      → any (is_schema (schema_ref_of c input.schema_payload)) db.schemas ≡ false
      → (e : SchemaEntry) × (register_schema_entry c now input db ≡ (ok e, db))
        × (get_schema_entry e.schema_ref db ≡ err not_found)
  unfolding get_schema_entry
  register_unstored no_key taken absent = (
    response,
    rw (register_effect no_key) (rw taken),
    rw (find_missing response.schema_ref db.schemas absent),
  )
