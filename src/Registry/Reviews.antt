-- ===== src/Registry/Reviews.antt =====
-- `create_capability_activation_review_item`, `list_review_items`, `get_review_item` and
-- `decide_review_item` of storage.rs.
use Prim.Native.String.{◌++◌ as str_append}
use aadesh.Common.{
  ℕ, String, Bool, false, not, Option, none, some, List, [], ◌∷◌, ◌++◌, ◌==◌, ◌||◌, any, find, map,
  sort_by, update_where, if◌then◌else◌,
}
use aadesh.Chrono.{Time}
use aadesh.Json.{Value, object, string, end, insert_field, get, as_str}
use aadesh.Outcome.{
  Outcome, ok, err, invalid_input, conflict, not_found, unsupported, ◌>>=◌, ◌>>◌, ensure, required,
  transact,
}
use aadesh.Schemas.Descriptor.{and_then}
use aadesh.Store.{
  Review, ReviewItemDetail, ReviewDecisionResponse, Db, review_item, reviewed, review_item_created,
  review_decided, is_review, is_snapshot,
}
use aadesh.Store.Idempotency.{
  stored_response, store_response, replay_or, as_review_item, as_reviewed,
}
use aadesh.Registry.Versions.{load_current_versions, set_capability_version}

pub record CapabilityActivationReviewInput : Type 0 where
  pub capability_snapshot_version : String
  pub idempotency_key : Option String

pub record ReviewDecisionInput : Type 0 where
  pub item_id : String
  pub decision : String
  pub edited_payload : Option Value
  pub idempotency_key : Option String

-- The identifiers from `Uuid::new_v4`.
pub record FreshReview : Type 0 where
  pub item_id : String
  pub decision_id : String
  pub event_ref : String

abbrev pub activation_proposal : String → Value
activation_proposal next = object (
    insert_field "change_type" (string "activate_capability_snapshot")
      (insert_field "capability_snapshot_version" (string next) end))

abbrev pub activation_evidence : String → String → Value
activation_evidence current next = object (
    insert_field "current_capability_snapshot_version" (string current)
      (insert_field "candidate_capability_snapshot_version" (string next) end))

abbrev pub activation_impact : String → String → Value
activation_impact current next = object (
    insert_field "target_version_kind" (string "capability_snapshot") (
      insert_field "base_version" (string current) (insert_field "next_version" (string next) end)))

abbrev pub new_review : Time → String → String → String → Review
new_review now fresh current next = record {
  item_id = fresh;
  created_at = now;
  updated_at = now;
  status = "pending";
  source = "owner_action";
  target_domain = "capability_registry";
  risk_r_estimate = 2;
  sensitivity_s_estimate = 0;
  requires_oob = false;
  proposal = activation_proposal next;
  evidence = activation_evidence current next;
  impact = activation_impact current next;
  base_version = some current;
  resolved_version = none;
}

-- `parse_review_item_detail`
abbrev pub review_detail : Review → ReviewItemDetail
review_detail r = record {
  item_id = r.item_id;
  status = r.status;
  source = r.source;
  target_domain = r.target_domain;
  risk_r_estimate = r.risk_r_estimate;
  sensitivity_s_estimate = r.sensitivity_s_estimate;
  requires_oob = r.requires_oob;
  created_at = r.created_at;
  proposal = r.proposal;
  evidence = r.evidence;
  impact = r.impact;
  base_version = r.base_version;
}

-- The primary key refuses an identifier that is taken.
abbrev pub insert_review : Review → Db → Outcome Db
insert_review r db =
    if any (is_review r.item_id) db.reviews
    then err conflict
    else ok (record db { reviews = db.reviews ++ r ∷ [] })

abbrev pub with_review_event : Time → String → Review → Db → Db
with_review_event now event_ref r db = record db {
  events =
      db.events
      ++ record {
        event_ref = event_ref;
        created_at = now;
        body = review_item_created r.item_id r.proposal;
      }
        ∷ [];
}

unfoldable pub propose_work :
    Time → FreshReview → CapabilityActivationReviewInput → Db → Outcome (ReviewItemDetail × Db)
unfolding load_current_versions store_response
propose_work now fresh input db = do
  candidate ← required (find (is_snapshot input.capability_snapshot_version) db.snapshots) not_found
  current ← load_current_versions db
  ensure (not (candidate.capability_snapshot_version == current.capability_snapshot_version))
      conflict
  let r =
      new_review now fresh.item_id current.capability_snapshot_version
        input.capability_snapshot_version
  db' ← insert_review r db
  final ←
      store_response "/v1/capabilities/current/activate" input.idempotency_key r.item_id
        (review_item (review_detail r)) now (with_review_event now fresh.event_ref r db')
  ok (review_detail r, final)

unfoldable pub create_capability_activation_review_item :
    Time → FreshReview → CapabilityActivationReviewInput → Db → Outcome ReviewItemDetail × Db
unfolding propose_work stored_response
create_capability_activation_review_item now fresh input = transact λ db.
    replay_or as_review_item db
      (stored_response "/v1/capabilities/current/activate" input.idempotency_key db)
      (propose_work now fresh input db)

pub record ReviewItemSummary : Type 0 where
  pub item_id : String
  pub status : String
  pub source : String
  pub target_domain : String
  pub risk_r_estimate : ℕ
  pub sensitivity_s_estimate : ℕ
  pub requires_oob : Bool
  pub created_at : Time

-- `parse_review_item_summary`
abbrev pub review_summary : Review → ReviewItemSummary
review_summary r = record {
  item_id = r.item_id;
  status = r.status;
  source = r.source;
  target_domain = r.target_domain;
  risk_r_estimate = r.risk_r_estimate;
  sensitivity_s_estimate = r.sensitivity_s_estimate;
  requires_oob = r.requires_oob;
  created_at = r.created_at;
}

unfoldable pub list_review_items : Db → List ReviewItemSummary
list_review_items db = map review_summary (sort_by (λ r. r.created_at) db.reviews)

unfoldable pub get_review_item : String → Db → Outcome ReviewItemDetail
get_review_item k db = do
  r ← required (find (is_review k) db.reviews) not_found
  ok (review_detail r)

abbrev pub review_scope : String → String
review_scope k = str_append "/v1/review-queue/" (str_append k "/decide")

abbrev pub edited_or : Option Value → Value → Value
edited_or none proposal = proposal
edited_or (some edited) proposal = edited

-- What a decision that is no rejection applies: the snapshot that the payload names becomes current.
unfoldable pub apply_version : Time → Value → Db → Outcome (String × Db)
apply_version now chosen db = do
  k ← required (and_then (get "capability_snapshot_version" chosen) as_str) invalid_input
  ensure (any (is_snapshot k) db.snapshots) invalid_input
  ok (k, record db { versions = set_capability_version now k db.versions })

unfoldable pub apply_decision :
    Time → ReviewDecisionInput → Review → Db → Outcome (Option String × Db)
unfolding apply_version
apply_decision now input r db =
    if input.decision == "reject"
    then ok (none, db)
    else (apply_version now (edited_or input.edited_payload r.proposal) db >>= λ p.
        ok (some p.0, p.1))

abbrev pub resolved : Time → Option String → Review → Review
resolved now applied r = record r {
  status = "resolved";
  updated_at = now;
  resolved_version = applied;
}

abbrev pub record_review :
    Time → FreshReview → ReviewDecisionInput → Review → Option String → Db → Db
record_review now fresh input r applied db = record db {
  reviews = update_where (is_review input.item_id) (resolved now applied) db.reviews;
  review_decisions =
      db.review_decisions
      ++ record {
        decision_id = fresh.decision_id;
        item_id = input.item_id;
        created_at = now;
        decision = input.decision;
        edited_payload = input.edited_payload;
        applied_version = applied;
      }
        ∷ [];
  events =
      db.events
      ++ record {
        event_ref = fresh.event_ref;
        created_at = now;
        body = review_decided input.item_id input.decision r.base_version applied;
      }
        ∷ [];
}

abbrev pub is_review_decision : String → Bool
is_review_decision d = (d == "approve") || ((d == "reject") || (d == "edit"))

abbrev pub review_response : ReviewDecisionInput → Option String → ReviewDecisionResponse
review_response input applied = record {
  item_id = input.item_id;
  status = "resolved";
  decision = input.decision;
  applied_version = applied;
}

unfoldable pub review_work :
    Time → FreshReview → ReviewDecisionInput → Db → Outcome (ReviewDecisionResponse × Db)
unfolding apply_decision store_response
review_work now fresh input db = do
  r ← required (find (is_review input.item_id) db.reviews) not_found
  ensure (r.status == "pending") conflict
  ensure (r.target_domain == "capability_registry") unsupported
  ensure (is_review_decision input.decision) invalid_input
  applied ← apply_decision now input r db
  let response = review_response input applied.0
  final ←
      store_response (review_scope input.item_id) input.idempotency_key input.item_id
        (reviewed response) now (record_review now fresh input r applied.0 applied.1)
  ok (response, final)

unfoldable pub decide_review_item :
    Time → FreshReview → ReviewDecisionInput → Db → Outcome ReviewDecisionResponse × Db
unfolding review_work stored_response
decide_review_item now fresh input = transact λ db.
    replay_or as_reviewed db (stored_response (review_scope input.item_id) input.idempotency_key db)
      (review_work now fresh input db)
