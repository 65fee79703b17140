-- ===== src/Kernel/Examples.antt =====
-- A request that asks_send for an email to be sent.
use aadesh.Common.{◌≡◌, ◌↔◌, refl, true, ◌==◌, none, some, []}
use aadesh.Json.{null}
use aadesh.Unicode.{Unicode}
use aadesh.Schemas.Descriptor.{ActionDescriptor}
use aadesh.Store.{Pins}
use aadesh.Kernel.{
  RequestEnvelope, awaiting_approval, ApprovalPlan, predicates, compile_and_verify_stub,
}
use aadesh.Kernel.Gate.{IsSendable, awaits_iff}

-- The text contains the word `send` and nothing else that the gate looks for.
abbrev plain : Unicode
plain = record { trim = λ s. s; to_lowercase = λ s. s; contains = λ s t. t == "send" }

abbrev request : RequestEnvelope
request = record {
  request_id = "req:1";
  requesting_audience_id = "root_owner";
  kind = "email";
  content = "send the minutes";
  attachments = [];
  intent_anchor = none;
  budgets = null;
}

abbrev pins : Pins
pins = record {
  operation_id = "op:1";
  isolation_id = "iso:1";
  audit_trace_id = "audit:1";
  active_state_version = "state:1";
  capability_snapshot_version = "cap:1";
  audience_graph_version = "graph:1";
}

abbrev send : ActionDescriptor
send = record {
  tool_name = "email";
  action_name = "send";
  args_schema_ref = "schema:email";
  result_schema_ref = none;
  diff_supported = true;
  execution_class = "external_api";
  default_approval_mode = "diff";
  diff_kind = "email_send_payload";
  editable_payload_schema = null;
}

asks_send : (predicates plain request (some send)).requested_send ≡ true
unfolding predicates
asks_send = refl

awaits_iff_example :
    ((plan : ApprovalPlan) × ((compile_and_verify_stub plain request pins (some send)).outcome
        ≡ awaiting_approval plan))
    ↔ ((d : ActionDescriptor) × (some send ≡ some d)
        × (d.diff_supported ≡ true)
        × IsSendable plain request)
awaits_iff_example = awaits_iff plain request pins (some send)
