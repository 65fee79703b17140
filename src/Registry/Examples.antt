-- ===== src/Registry/Examples.antt =====
-- Two snapshots, of which the first is current, and a review that would make the second current.
use aadesh.Common.{String, ◌≡◌, refl, ◌⊎◌, true, false, none, some, List, [], ◌∷◌, any, find}
use aadesh.Json.{Value, string, cons, null, array, object, nil, end, insert_field, get, as_str}
use aadesh.Outcome.{ok, err, conflict, not_found}
use aadesh.Schemas.Descriptor.{and_then}
use aadesh.Store.{
  Snapshot, SchemaEntry, Review, Db, ReviewDecisionResponse, empty, is_snapshot, is_review,
}
use aadesh.Registry.Canonical.{Encoding, canonical_json_string}
use aadesh.Store.Idempotency.{stored_response}
use aadesh.Registry.Versions.{last_version}
use aadesh.Registry.Entries.{SchemaRegisterInput, register_schema_entry, get_schema_entry}
use aadesh.Registry.Reviews.{
  ReviewDecisionInput, FreshReview, activation_proposal, edited_or, resolved, record_review,
  review_response, apply_version, apply_decision, review_work, decide_review_item,
}
use aadesh.Registry.Governed.{IsGoverned}
use aadesh.Registry.History.{
  GovernanceCall, register_schema, mint_snapshot, propose_activation, decide_review, govern_all,
  govern_all-IsGoverned,
}
use aadesh.Registry.Registered.{register_unstored}
use aadesh.Registry.Reviewed.{review_applies, reviewed_once}

abbrev plain : Encoding
plain = record { string_text = λ s. s; number_text = λ n. "0"; sha256_hex = λ s. s }

-- One capability with one action, which names the schemas of its arguments and of its results.
abbrev one_tool : String → String → Value
one_tool args result = object (
    insert_field "capabilities"
      (array (
        cons
          (object (
            insert_field "actions"
              (array (
                cons
                  (object (
                    insert_field "args_schema_ref" (string args)
                      (insert_field "result_schema_ref" (string result) end)))
                  nil))
              end))
          nil))
      end)

abbrev schema : String → String → SchemaEntry
schema kind k = record {
  schema_ref = k;
  schema_kind = kind;
  name = k;
  semver = "1.0.0";
  content_hash = k;
  created_at = 1;
  status = "active";
  compatibility = "exact";
  payload = null;
}

abbrev snapshot : String → Snapshot
snapshot k = record {
  capability_snapshot_version = k;
  created_at = 1;
  parent_version = none;
  content_hash = k;
  payload = one_tool "schema:mail" "schema:receipt";
}

abbrev pending : Review
pending = record {
  item_id = "review:1";
  created_at = 2;
  updated_at = 2;
  status = "pending";
  source = "owner_action";
  target_domain = "capability_registry";
  risk_r_estimate = 2;
  sensitivity_s_estimate = 0;
  requires_oob = false;
  proposal = activation_proposal "cap:2";
  evidence = null;
  impact = null;
  base_version = some "cap:0";
  resolved_version = none;
}

abbrev start : Db
start = record empty {
  schemas = schema "args" "schema:mail" ∷ schema "result" "schema:receipt" ∷ [];
  snapshots = snapshot "cap:1" ∷ snapshot "cap:2" ∷ [];
  versions =
      record { version_kind = "capability_snapshot"; version_id = "cap:1"; updated_at = 1 } ∷ [];
  reviews = pending ∷ [];
}

abbrev fresh : FreshReview
fresh = record { item_id = "review:2"; decision_id = "decision:1"; event_ref = "event:1" }

abbrev approve : ReviewDecisionInput
approve = record {
  item_id = "review:1";
  decision = "approve";
  edited_payload = none;
  idempotency_key = none;
}

abbrev after : Db
after = record_review 5 fresh approve pending (some "cap:2") (record start {
  versions =
      record { version_kind = "capability_snapshot"; version_id = "cap:2"; updated_at = 5 } ∷ [];
})

abbrev answer : ReviewDecisionResponse
answer = review_response approve (some "cap:2")

reviews_start :
    review_work 5 fresh approve start ≡ ok (review_response approve (some "cap:2"), after)
unfolding review_work apply_decision apply_version
reviews_start = refl

review_applies_example :
    (row : Review) × (find (is_review "review:1") start.reviews ≡ some row)
    × (row.status ≡ "pending")
    × (find (is_review "review:1") after.reviews ≡ some (resolved 5 answer.applied_version row))
    × (((approve.decision ≡ "reject")
          × (after.versions ≡ start.versions)
          × (answer.applied_version ≡ none))
        ⊎ ((k : String) × (and_then
                (get "capability_snapshot_version" (edited_or none row.proposal))
                as_str
              ≡ some k)
            × (any (is_snapshot k) start.snapshots ≡ true)
            × (last_version "capability_snapshot" after.versions none ≡ some k)
            × (answer.applied_version ≡ some k)))
review_applies_example = review_applies 5 fresh approve start reviews_start refl

reviewed_once_example : decide_review_item 6 fresh approve after ≡ (err conflict, after)
unfolding stored_response
reviewed_once_example = reviewed_once 5 fresh approve start reviews_start 6 fresh approve refl refl

abbrev note : SchemaRegisterInput
note = record {
  schema_kind = "args";
  name = "note";
  semver = "1.0.0";
  schema_payload = null;
  idempotency_key = none;
}

-- The name and version are occupied by another schema.
abbrev occupied : Db
occupied = record start {
  schemas =
      record {
        schema_ref = "schema:sha256:true";
        schema_kind = "args";
        name = "note";
        semver = "1.0.0";
        content_hash = "true";
        created_at = 1;
        status = "active";
        compatibility = "exact";
        payload = null;
      }
      ∷ [];
}

register_unstored_example :
    (e : SchemaEntry) × (register_schema_entry plain 5 note occupied ≡ (ok e, occupied))
    × (get_schema_entry e.schema_ref occupied ≡ err not_found)
unfolding canonical_json_string
register_unstored_example = register_unstored plain 5 note occupied refl refl refl

start-IsGoverned : IsGoverned start
start-IsGoverned = record {
  current = "cap:1";
  is_current = refl;
  is_stored = refl;
  supported = ((((refl, refl), tt), tt), ((((refl, refl), tt), tt), tt));
}

abbrev calls : List GovernanceCall
calls =
    register_schema 3 note
    ∷ mint_snapshot 4 (record {
      base_version = some "cap:1";
      snapshot_payload = one_tool "schema:mail" "schema:mail";
      idempotency_key = none;
    })
    ∷ mint_snapshot 4 (record {
      base_version = some "cap:1";
      snapshot_payload = one_tool "schema:mail" "schema:missing";
      idempotency_key = none;
    })
    ∷ propose_activation 5 fresh
        (record { capability_snapshot_version = "cap:2"; idempotency_key = none })
    ∷ decide_review 6 fresh approve
    ∷ []

govern_all-IsGoverned_example : IsGoverned (govern_all plain calls start)
govern_all-IsGoverned_example = govern_all-IsGoverned plain calls start start-IsGoverned
