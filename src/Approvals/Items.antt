-- ===== src/Approvals/Items.antt =====
-- `create_approval_item`, `get_approval_item` and `list_pending_approvals` of storage.rs.
use aadesh.Common.{
  String, Option, List, [], ◌∷◌, ◌++◌, ◌==◌, any, find, map, select, sort_by, if◌then◌else◌,
}
use aadesh.Chrono.{Time}
use aadesh.Json.{Value}
use aadesh.Outcome.{Outcome, ok, err, conflict, not_found, required}
use aadesh.Store.{Approval, Db, is_approval, is_operation}

pub record ApprovalItemInput : Type 0 where
  pub operation_id : String
  pub approval_mode : String
  pub prompt : String
  pub proposal_bundle : Value
  pub diff_payload : Value
  pub expires_at : Option Time
  pub audit_trace_id : String

pub record ApprovalItemSummary : Type 0 where
  pub approval_id : String
  pub operation_id : String
  pub approval_mode : String
  pub prompt : String
  pub diff : Value
  pub expires_at : Option Time
  pub audit_trace_id : String

abbrev pub new_approval : Time → String → ApprovalItemInput → Approval
new_approval now fresh input = record {
  approval_id = fresh;
  operation_id = input.operation_id;
  created_at = now;
  updated_at = now;
  status = "pending";
  approval_mode = input.approval_mode;
  proposal_bundle = input.proposal_bundle;
  diff_payload = input.diff_payload;
  prompt = input.prompt;
  expires_at = input.expires_at;
  audit_trace_id = input.audit_trace_id;
}

abbrev pub summary : Approval → ApprovalItemSummary
summary a = record {
  approval_id = a.approval_id;
  operation_id = a.operation_id;
  approval_mode = a.approval_mode;
  prompt = a.prompt;
  diff = a.diff_payload;
  expires_at = a.expires_at;
  audit_trace_id = a.audit_trace_id;
}

-- One insert: the primary key and the foreign key on the operation make it a conflict.
unfoldable pub create_approval_item :
    Time → String → ApprovalItemInput → Db → Outcome ApprovalItemSummary × Db
create_approval_item now fresh input db =
    if any (is_approval fresh) db.approvals
    then (err conflict, db)
    else if any (is_operation input.operation_id) db.operations
    then (
      ok (summary (new_approval now fresh input)),
      record db { approvals = db.approvals ++ new_approval now fresh input ∷ [] },
    )
    else (err conflict, db)

unfoldable pub get_approval_item : String → Db → Outcome Approval
get_approval_item k db = required (find (is_approval k) db.approvals) not_found

unfoldable pub list_pending_approvals : Db → List ApprovalItemSummary
list_pending_approvals db =
    map summary (sort_by (λ a. a.created_at) (select (λ a. a.status == "pending") db.approvals))
