-- ===== src/Kernel.antt =====
-- crates/adesh-daemon/src/kernel.rs: the gate before an operation. It reads the request's text and
-- attachments, and lets the operation complete as a draft, asks for an approval, or blocks it.
pub mod Gate
mod Examples
use Prim.Native.Nat.{max}
use aadesh.Common.{
  ℕ, String, Bool, true, false, not, ◌||◌, ◌&&◌, Option, none, some, List, [], ◌∷◌, ◌==◌, any,
  is_some, leb, length, nat_eq, if◌then◌else◌,
}
use aadesh.Json.{
  Value, Items, Fields, null, bool, number, string, array, object, pos_int, nil, cons, end,
  insert_field,
}
use aadesh.Unicode.{Unicode}
use aadesh.Schemas.Descriptor.{
  ActionDescriptor, default_email_send_payload, approval_diff_payload_for_action,
}
use aadesh.Schemas.Normalize.{strings}
use aadesh.Store.{Pins, GateDecisionInput, CompiledSliceInput}
use aadesh.Approvals.Items.{ApprovalItemInput}

-- `AttachmentRef`
pub record Attachment : Type 0 where
  pub ref_id : String
  pub ref_type : String
  pub sensitivity_hint : Option ℕ

pub record IntentAnchor : Type 0 where
  pub goal : Option String
  pub forbidden_outcomes : List String

-- The fields of `RequestEnvelope` that the kernel and the storage read; the budgets as their JSON.
pub record RequestEnvelope : Type 0 where
  pub request_id : String
  pub requesting_audience_id : String
  pub kind : String
  pub content : String
  pub attachments : List Attachment
  pub intent_anchor : Option IntentAnchor
  pub budgets : Value

pub record ApprovalPlan : Type 0 where
  pub prompt : String
  pub proposal_bundle : Value
  pub diff_payload : Value

pub data KernelOutcome : Type 0 where
  completed_draft : KernelOutcome
  awaiting_approval : ApprovalPlan → KernelOutcome
  blocked : String → KernelOutcome

-- `filter_map(sensitivity_hint).max().unwrap_or(0)`
abbrev pub attachment_sensitivity : List Attachment → ℕ
attachment_sensitivity [] = 0
attachment_sensitivity (a ∷ as_) = max (hinted a.sensitivity_hint) (attachment_sensitivity as_)
  where
    hinted : Option ℕ → ℕ
    hinted none = 0
    hinted (some n) = n

abbrev pub high_stakes_keywords : List String
high_stakes_keywords =
    "legal" ∷ "contract" ∷ "compliance" ∷ "security incident" ∷ "breach" ∷ "medical" ∷ "financial"
    ∷ "invoice" ∷ "payment" ∷ "tax" ∷ []

-- The predicates of a gate decision.
pub record Predicates : Type 0 where
  pub requested_send : Bool
  pub send_capability_available : Bool
  pub send_diff_supported : Bool
  pub unknown_audience : Bool
  pub taint_launder : Bool
  pub high_stakes_requested : Bool
  pub high_stakes_without_evidence : Bool

abbrev pub supports_diff : Option ActionDescriptor → Bool
supports_diff none = false
supports_diff (some d) = d.diff_supported

abbrev pub no_attachment : List Attachment → Bool
no_attachment [] = true
no_attachment (a ∷ as_) = false

unfoldable pub predicates : Unicode → RequestEnvelope → Option ActionDescriptor → Predicates
predicates u request descriptor =
    let text = u.to_lowercase request.content in
    let has = λ (s : String). u.contains text s in
    let high_stakes = has "[[high_stakes]]" || any has high_stakes_keywords in
    let evidence = not (no_attachment request.attachments) || has "[[evidence_attached]]" in
    record {
      requested_send = has "send";
      send_capability_available = is_some descriptor;
      send_diff_supported = supports_diff descriptor;
      unknown_audience = has "[[unknown_audience]]";
      taint_launder =
          has "[[taint_launder]]"
          || (leb 3 (attachment_sensitivity request.attachments) && has "public");
      high_stakes_requested = high_stakes;
      high_stakes_without_evidence = high_stakes && not evidence;
    }

abbrev pub approval_plan : Unicode → RequestEnvelope → ActionDescriptor → ApprovalPlan
approval_plan u request d =
    let proposal = default_email_send_payload u request.content in
    record {
      prompt = "Review and approve the email send payload.";
      proposal_bundle = proposal;
      diff_payload = approval_diff_payload_for_action d proposal;
    }

-- `expect(…)` on the descriptor: it is there where the branch is reached.
abbrev pub plan_or_blocked : Unicode → RequestEnvelope → Option ActionDescriptor → KernelOutcome
plan_or_blocked u request none = blocked "send_capability_unavailable"
plan_or_blocked u request (some d) = awaiting_approval (approval_plan u request d)

unfoldable pub outcome : Unicode → RequestEnvelope → Option ActionDescriptor → KernelOutcome
unfolding predicates
outcome u request descriptor =
    let p = predicates u request descriptor in
    if p.taint_launder
    then blocked "taint_laundering_denied"
    else if p.requested_send && not p.send_capability_available
    then blocked "send_capability_unavailable"
    else if p.requested_send && not p.send_diff_supported
    then blocked "diff_unavailable_for_send"
    else if p.high_stakes_without_evidence
    then blocked "high_stakes_evidence_required"
    else if p.unknown_audience
    then blocked "audience_scope_denied"
    else if p.requested_send
    then plan_or_blocked u request descriptor
    else completed_draft

abbrev pub encode_predicates : Predicates → Value
encode_predicates p = object (
    insert_field "requested_send" (bool p.requested_send) (
      insert_field "send_capability_available" (bool p.send_capability_available) (
        insert_field "send_diff_supported" (bool p.send_diff_supported) (
          insert_field "unknown_audience" (bool p.unknown_audience) (
            insert_field "taint_launder" (bool p.taint_launder) (
              insert_field "high_stakes_requested" (bool p.high_stakes_requested) (
                insert_field "high_stakes_without_evidence" (bool p.high_stakes_without_evidence)
                  end)))))))

unfoldable pub gate_decision :
    Unicode → RequestEnvelope → Pins → Option ActionDescriptor → GateDecisionInput
unfolding predicates
gate_decision u request pins descriptor =
    let p = predicates u request descriptor in
    let risk : ℕ = if p.requested_send then 3 else 1 in
    let sensitivity = attachment_sensitivity request.attachments in
    record {
      pins = pins;
      risk_r = risk;
      sensitivity_s = sensitivity;
      max_gate = max risk sensitivity;
      approval_mode = if p.requested_send then "diff" else "none";
      requesting_audience_id = request.requesting_audience_id;
      scopes_allowed = array (strings ("root_owner" ∷ []));
      scopes_denied =
          if p.unknown_audience then array (strings ("external_unknown" ∷ [])) else array nil;
      sensitivity_ceiling_s = if p.requested_send then 1 else 4;
      predicates = encode_predicates p;
      constraints = object (
          insert_field "wedge" (string "email_draft_and_send")
            (insert_field "manual_artifacts_only" (bool true) end));
    }

abbrev pub goal_of : RequestEnvelope → Option IntentAnchor → String
goal_of request none = request.content
goal_of request (some a) = or_content a.goal
  where
    or_content : Option String → String
    or_content none = request.content
    or_content (some g) = g

abbrev pub forbidden_of : Option IntentAnchor → List String
forbidden_of none = []
forbidden_of (some a) = a.forbidden_outcomes

abbrev pub hint_value : Option ℕ → Value
hint_value none = null
hint_value (some n) = number (pos_int n)

-- The JSON object that serde derives for an attachment.
abbrev pub encode_attachment : Attachment → Value
encode_attachment a = object (
    insert_field "ref_id" (string a.ref_id) (
      insert_field "ref_type" (string a.ref_type)
        (insert_field "sensitivity_hint" (hint_value a.sensitivity_hint) end)))

abbrev pub encoded : List Attachment → Items
encoded [] = nil
encoded (a ∷ as_) = cons (encode_attachment a) (encoded as_)

unfoldable pub compiled_slice :
    Unicode → RequestEnvelope → Pins → Option ActionDescriptor → CompiledSliceInput
unfolding gate_decision
compiled_slice u request pins descriptor =
    let gate = gate_decision u request pins descriptor in
    record {
      pins = pins;
      risk_r = gate.risk_r;
      sensitivity_s = gate.sensitivity_s;
      max_gate = gate.max_gate;
      approval_mode = gate.approval_mode;
      operation_max_taint_s = gate.sensitivity_s;
      did_omit = false;
      omissions = array nil;
      provenance_summary = object (
          insert_field "request_id" (string request.request_id)
            (insert_field "attachment_count" (number (pos_int (length request.attachments))) end));
      intent_anchor = object (
          insert_field "goal" (string (goal_of request request.intent_anchor)) (
            insert_field "forbidden_outcomes" (array (strings (forbidden_of request.intent_anchor)))
              end));
      blocks = object (
          insert_field "policy"
            (array (
              strings (
                "syscalls only" ∷ "persist before emit" ∷ "email send requires diff approval"
                ∷ [])))
            (insert_field "operation_context"
              (array (
                cons
                  (object (
                    insert_field "kind" (string request.kind)
                      (insert_field "content" (string request.content) end)))
                  nil))
              (insert_field "evidence" (array (encoded request.attachments)) end)));
    }

pub record KernelArtifacts : Type 0 where
  pub gate_decision : GateDecisionInput
  pub compiled_slice : CompiledSliceInput
  pub outcome : KernelOutcome

unfoldable pub compile_and_verify_stub :
    Unicode → RequestEnvelope → Pins → Option ActionDescriptor → KernelArtifacts
unfolding outcome gate_decision compiled_slice
compile_and_verify_stub u request pins descriptor = record {
  gate_decision = gate_decision u request pins descriptor;
  compiled_slice = compiled_slice u request pins descriptor;
  outcome = outcome u request descriptor;
}

unfoldable pub should_allow_retry_for_same_deny : ℕ → Bool
should_allow_retry_for_same_deny n = nat_eq n 0

unfoldable pub approval_item_input : String → String → ApprovalPlan → ApprovalItemInput
approval_item_input operation_id audit_trace_id plan = record {
  operation_id = operation_id;
  approval_mode = "diff";
  prompt = plan.prompt;
  proposal_bundle = plan.proposal_bundle;
  diff_payload = plan.diff_payload;
  expires_at = none;
  audit_trace_id = audit_trace_id;
}
