-- ===== src/Approvals/Examples.antt =====
-- One approval of an email by an out-of-band challenge, its repetition, and the verification of the
-- challenge before it.
use aadesh.Common.{◌≡◌, refl, true, false, none, some, [], ◌∷◌}
use aadesh.Json.{Value, null, bool, string, array, object, nil, cons, end, field}
use aadesh.Outcome.{ok, err, conflict}
use aadesh.Unicode.{Unicode}
use aadesh.Schemas.Descriptor.{resolve_action_descriptor_from_snapshot}
use aadesh.Schemas.Normalize.{normalize_args_for_action}
use aadesh.Schemas.Validate.{validate_type, validate_instance_against_schema, depth}
use aadesh.Store.{Operation, Approval, Challenge, Db, empty, ApprovalDecisionResponse}
use aadesh.Store.Idempotency.{stored_response, store_response}
use aadesh.Approvals.Consume.{
  ApprovalConsumeInput, Fresh, consume_work, consume_approval_atomic, pass_oob, decide, permit,
  permitted_action, insert_syscall, record_decision,
}
use aadesh.Approvals.Oob.{
  OobVerifyInput, verified_response, marked_verified, verify_pending, verify_work,
}
use aadesh.Approvals.Verified.{IsVerified, verify-IsVerified}
use aadesh.Approvals.Single.{decided_once}
use aadesh.Approvals.Challenged.{ChallengeSpent, challenge_spent}
use aadesh.Approvals.Permitted.{PermitsOne, permits_one}
use aadesh.Approvals.Replay.{decision_replayed}

abbrev plain : Unicode
plain = record { trim = λ s. s; to_lowercase = λ s. s; contains = λ s t. false }

abbrev recipients_schema : Value
recipients_schema = object (
    field "items" (object (field "type" (string "string") end)) (field "type" (string "array") end))

abbrev email_schema : Value
email_schema = object (
    field "additionalProperties" (bool false) (
      field "properties"
        (object (
          field "bcc" recipients_schema (
            field "body" (object (field "type" (string "string") end)) (
              field "cc" recipients_schema (
                field "subject" (object (field "type" (string "string") end))
                  (field "to" recipients_schema end))))))
        (field "required"
          (array (
            cons (string "to") (
              cons (string "cc")
                (cons (string "bcc") (cons (string "subject") (cons (string "body") nil))))))
          (field "type" (string "object") end))))

abbrev snapshot : Value
snapshot = object (
    field "capabilities"
      (array (
        cons
          (object (
            field "actions"
              (array (
                cons
                  (object (
                    field "action_name" (string "send") (
                      field "args_schema_ref" (string "schema:email") (
                        field "default_approval_mode" (string "diff") (
                          field "diff_kind" (string "email_send_payload") (
                            field "diff_supported" (bool true) (
                              field "editable_payload_schema" email_schema
                                (field "execution_class" (string "external_api") end))))))))
                  nil))
              (field "tool_name" (string "email") end)))
          nil))
      end)

abbrev payload : Value
payload = object (
    field "bcc" (array nil) (
      field "body" (string "see you at noon") (
        field "cc" (array nil) (
          field "subject" (string "lunch")
            (field "to" (array (cons (string "user@example.com") nil)) end)))))

abbrev waiting : Operation
waiting = record {
  operation_id = "op:1";
  parent_request_id = "req:1";
  isolation_id = "iso:1";
  state = "awaiting_approval";
  state_reason = some "approval_required";
  requesting_audience_id = "root_owner";
  pinned_active_state_version = "state:1";
  pinned_capability_snapshot_version = "cap:1";
  pinned_audience_graph_version = "graph:1";
  budgets = null;
  operation_goal = null;
  created_at = 1;
  updated_at = 1;
}

abbrev item : Approval
item = record {
  approval_id = "approval:1";
  operation_id = "op:1";
  created_at = 2;
  updated_at = 2;
  status = "pending";
  approval_mode = "oob_required";
  proposal_bundle = payload;
  diff_payload = object (
      field "action" (string "send")
        (field "args_schema_ref" (string "schema:email") (field "tool_id" (string "email") end)));
  prompt = "Review";
  expires_at = none;
  audit_trace_id = "audit:1";
}

abbrev challenge : Challenge
challenge = record {
  challenge_id = "challenge:1";
  approval_id = "approval:1";
  created_at = 3;
  expires_at = 100;
  status = "verified";
  verified_at = some 4;
  consumed_at = none;
  response = none;
}

abbrev start : Db
start = record empty {
  operations = waiting ∷ [];
  audit_traces = record { audit_trace_id = "audit:1"; operation_id = "op:1"; timeline = [] } ∷ [];
  approvals = item ∷ [];
  challenges = challenge ∷ [];
  snapshots =
      record {
        capability_snapshot_version = "cap:1";
        created_at = 0;
        parent_version = none;
        content_hash = "h1";
        payload = snapshot;
      }
      ∷ [];
  schemas =
      record {
        schema_ref = "schema:email";
        schema_kind = "args";
        name = "email";
        semver = "0.1";
        content_hash = "h2";
        created_at = 0;
        status = "active";
        compatibility = "exact";
        payload = email_schema;
      }
      ∷ [];
}

abbrev approve : ApprovalConsumeInput
approve = record {
  approval_id = "approval:1";
  decision = "approve";
  modified_payload = none;
  oob_challenge_id = some "challenge:1";
  idempotency_key = some "key:1";
}

abbrev deny : ApprovalConsumeInput
deny = record approve { decision = "deny"; oob_challenge_id = none; idempotency_key = some "key:2" }

abbrev fresh : Fresh
fresh = record { syscall_id = "syscall:1"; transition_id = "transition:1"; event_ref = "event:1" }

abbrev granted : ApprovalDecisionResponse
granted = record {
  approval_id = "approval:1";
  operation_id = "op:1";
  decision = "approve";
  status = "consumed";
  operation_state = "running";
  syscall_ids = "syscall:1" ∷ [];
  audit_trace_id = "audit:1";
}

abbrev refused : ApprovalDecisionResponse
refused = record granted {
  decision = "deny";
  status = "denied";
  operation_state = "blocked";
  syscall_ids = [];
}

abbrev after : Db
after = (consume_approval_atomic plain 10 fresh approve start).1

approve_runs : consume_approval_atomic plain 10 fresh approve start ≡ (ok granted, after)
unfolding consume_approval_atomic consume_work stored_response store_response pass_oob decide permit
    permitted_action insert_syscall record_decision resolve_action_descriptor_from_snapshot
    normalize_args_for_action validate_instance_against_schema validate_type depth
approve_runs = refl

approve_works : consume_work plain 10 fresh approve start ≡ ok (granted, after)
unfolding consume_approval_atomic consume_work stored_response store_response pass_oob decide permit
    permitted_action insert_syscall record_decision resolve_action_descriptor_from_snapshot
    normalize_args_for_action validate_instance_against_schema validate_type depth
approve_works = refl

abbrev after_denial : Db
after_denial = (consume_approval_atomic plain 10 fresh deny start).1

deny_works : consume_work plain 10 fresh deny start ≡ ok (refused, after_denial)
unfolding consume_approval_atomic consume_work stored_response store_response pass_oob decide
    record_decision
deny_works = refl

new_key : stored_response "/v1/approvals/approval:1" (some "key:1") start ≡ none
unfolding stored_response
new_key = refl

other_key : stored_response "/v1/approvals/approval:1" (some "key:2") after ≡ none
unfolding consume_approval_atomic consume_work stored_response store_response pass_oob decide permit
    permitted_action insert_syscall record_decision resolve_action_descriptor_from_snapshot
    normalize_args_for_action validate_instance_against_schema validate_type depth
other_key = refl

decided_once_example : consume_approval_atomic plain 11 fresh deny after ≡ (err conflict, after)
decided_once_example =
    decided_once plain 10 fresh approve start {r = granted} 11 fresh deny new_key approve_runs refl
      other_key

challenge_spent_example : ChallengeSpent 10 approve start after
challenge_spent_example =
    challenge_spent plain 10 fresh approve start {r = granted} {a = item} refl refl refl
      approve_works

permits_one_example : PermitsOne plain 10 fresh approve item start after granted
permits_one_example = permits_one plain 10 fresh approve start refl approve_works refl

decision_replayed_example :
    consume_approval_atomic plain 50 fresh (record deny { idempotency_key = some "key:1" }) after
    ≡ (ok granted, after)
decision_replayed_example =
    decision_replayed plain 10 50 fresh fresh approve
      (record deny { idempotency_key = some "key:1" }) "key:1" start refl refl refl approve_runs

abbrev asked : Challenge
asked = record challenge { status = "pending"; verified_at = none }

abbrev answer : OobVerifyInput
answer = record {
  approval_id = "approval:1";
  challenge_id = "challenge:1";
  response_payload = string "yes";
  idempotency_key = none;
}

abbrev asked_db : Db
asked_db = record start { challenges = asked ∷ [] }

abbrev answered_db : Db
answered_db = record start { challenges = marked_verified 20 (string "yes") asked ∷ [] }

verify_works : verify_work 20 answer asked_db ≡ ok (verified_response answer, answered_db)
unfolding verify_work verify_pending store_response
verify_works = refl

verify-IsVerified_example : IsVerified 20 answer asked_db answered_db
verify-IsVerified_example =
    verify-IsVerified 20 answer asked_db {r = verified_response answer} {final = answered_db}
      verify_works
