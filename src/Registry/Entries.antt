-- ===== src/Registry/Entries.antt =====
-- `register_schema_entry` and `get_schema_entry` of storage.rs.
use Prim.Native.String.{◌++◌ as str_append}
use aadesh.Common.{String, Bool, Option, [], ◌∷◌, ◌++◌, ◌==◌, ◌&&◌, ◌||◌, any, find, if◌then◌else◌}
use aadesh.Chrono.{Time}
use aadesh.Json.{Value}
use aadesh.Outcome.{Outcome, ok, not_found, ◌>>=◌, required, transact}
use aadesh.Store.{SchemaEntry, Db, registered, is_schema}
use aadesh.Store.Idempotency.{stored_response, store_response, replay_or, as_registered}
use aadesh.Registry.Canonical.{Encoding, content_hash}

pub record SchemaRegisterInput : Type 0 where
  pub schema_kind : String
  pub name : String
  pub semver : String
  pub schema_payload : Value
  pub idempotency_key : Option String

abbrev pub schema_ref_of : Encoding → Value → String
schema_ref_of c v = str_append "schema:sha256:" (content_hash c v)

-- The row that is inserted.
abbrev pub new_entry : Encoding → Time → SchemaRegisterInput → SchemaEntry
new_entry c now input = record {
  schema_ref = schema_ref_of c input.schema_payload;
  schema_kind = input.schema_kind;
  name = input.name;
  semver = input.semver;
  content_hash = content_hash c input.schema_payload;
  created_at = now;
  status = "active";
  compatibility = "exact";
  payload = input.schema_payload;
}

-- The response, with the payload as it came.
abbrev pub entry_response : Encoding → Time → SchemaRegisterInput → SchemaEntry
entry_response c now input = record {
  schema_ref = schema_ref_of c input.schema_payload;
  schema_kind = input.schema_kind;
  name = input.name;
  semver = input.semver;
  content_hash = content_hash c input.schema_payload;
  created_at = now;
  status = "active";
  compatibility = "exact";
  payload = input.schema_payload;
}

-- The primary key, and the unique index on `(name, semver)`.
abbrev pub same_schema : SchemaEntry → SchemaEntry → Bool
same_schema new old =
    (old.schema_ref == new.schema_ref) || ((old.name == new.name) && (old.semver == new.semver))

-- `INSERT OR IGNORE`
abbrev pub insert_entry_or_ignore : SchemaEntry → Db → Db
insert_entry_or_ignore e db =
    if any (same_schema e) db.schemas then db else record db { schemas = db.schemas ++ e ∷ [] }

unfoldable pub register_work :
    Encoding → Time → SchemaRegisterInput → Db → Outcome (SchemaEntry × Db)
unfolding store_response
register_work c now input db = do
  let response = entry_response c now input
  db' ←
      store_response "/v1/schema-registry/register" input.idempotency_key response.schema_ref
        (registered response) now (insert_entry_or_ignore (new_entry c now input) db)
  ok (response, db')

unfoldable pub register_schema_entry :
    Encoding → Time → SchemaRegisterInput → Db → Outcome SchemaEntry × Db
unfolding register_work stored_response
register_schema_entry c now input = transact λ db.
    replay_or as_registered db
      (stored_response "/v1/schema-registry/register" input.idempotency_key db)
      (register_work c now input db)

unfoldable pub get_schema_entry : String → Db → Outcome SchemaEntry
get_schema_entry k db = required (find (is_schema k) db.schemas) not_found
