-- ===== src/Store/Idempotency.antt =====
-- The table `idempotency_keys`, as every mutation of storage.rs reads it first and writes it last.
use aadesh.Common.{
  String, Bool, Option, none, some, [], ◌∷◌, ◌++◌, ◌==◌, ◌&&◌, any, find, if◌then◌else◌,
}
use aadesh.Chrono.{Time}
use aadesh.Outcome.{Outcome, ok, err, conflict, corruption, ◌>>=◌}
use aadesh.Store.Responses.{
  OperationResponse, ApprovalDecisionResponse, OobStartResponse, OobVerifyResponse, StoredResponse,
  operation, decision, oob_start, oob_verify, accepted, minted, registered, review_item, reviewed,
  RequestAcceptedResponse, CapabilitySnapshotMintResponse, ReviewItemDetail, ReviewDecisionResponse,
  WorkflowInstanceResponse, ManualArtifactResponse, artifact, workflow_spec, workflow_instance,
}
use aadesh.Store.Rows.{SchemaEntry}
use aadesh.Store.WorkflowRows.{WorkflowSpec}
use aadesh.Store.Tables.{IdempotencyKey, Db}

-- Reading a stored response back as one of the type that is asked for.
abbrev pub as_operation : StoredResponse → Outcome OperationResponse
as_operation (operation r) = ok r
as_operation _ = err corruption

abbrev pub as_decision : StoredResponse → Outcome ApprovalDecisionResponse
as_decision (decision r) = ok r
as_decision _ = err corruption

abbrev pub as_oob_start : StoredResponse → Outcome OobStartResponse
as_oob_start (oob_start r) = ok r
as_oob_start _ = err corruption

abbrev pub as_oob_verify : StoredResponse → Outcome OobVerifyResponse
as_oob_verify (oob_verify r) = ok r
as_oob_verify _ = err corruption

abbrev pub as_accepted : StoredResponse → Outcome RequestAcceptedResponse
as_accepted (accepted r) = ok r
as_accepted _ = err corruption

abbrev pub as_minted : StoredResponse → Outcome CapabilitySnapshotMintResponse
as_minted (minted r) = ok r
as_minted _ = err corruption

abbrev pub as_registered : StoredResponse → Outcome SchemaEntry
as_registered (registered r) = ok r
as_registered _ = err corruption

abbrev pub as_review_item : StoredResponse → Outcome ReviewItemDetail
as_review_item (review_item r) = ok r
as_review_item _ = err corruption

abbrev pub as_reviewed : StoredResponse → Outcome ReviewDecisionResponse
as_reviewed (reviewed r) = ok r
as_reviewed _ = err corruption

abbrev pub as_workflow_spec : StoredResponse → Outcome WorkflowSpec
as_workflow_spec (workflow_spec r) = ok r
as_workflow_spec _ = err corruption

abbrev pub as_workflow_instance : StoredResponse → Outcome WorkflowInstanceResponse
as_workflow_instance (workflow_instance r) = ok r
as_workflow_instance _ = err corruption

abbrev pub as_artifact : StoredResponse → Outcome ManualArtifactResponse
as_artifact (artifact r) = ok r
as_artifact _ = err corruption

abbrev pub is_key : String → String → IdempotencyKey → Bool
is_key scope key row = (row.endpoint_scope == scope) && (row.idempotency_key == key)

-- The response that was stored for the caller's key, if it gives one.
unfoldable pub stored_response : String → Option String → Db → Option IdempotencyKey
stored_response scope none db = none
stored_response scope (some key) db = find (is_key scope key) db.idempotency_keys

-- The part of a mutation behind the first test: the stored response, or the work.
abbrev pub replay_or {ℓ} :
    {A : Type ℓ}
    → (StoredResponse → Outcome A)
    → Db
    → Option IdempotencyKey
    → Outcome (A × Db)
    → Outcome (A × Db)
replay_or read db none work = work
replay_or read db (some row) work = do r ← read row.response; ok (r, db)

-- `INSERT INTO idempotency_keys` if the caller gives a key: a taken key is a conflict.
unfoldable pub store_response :
    String → Option String → String → StoredResponse → Time → Db → Outcome Db
store_response scope none request_id response now db = ok db
store_response scope (some key) request_id response now db =
    if any (is_key scope key) db.idempotency_keys
    then err conflict
    else ok (record db {
      idempotency_keys =
          db.idempotency_keys
          ++ record {
            endpoint_scope = scope;
            idempotency_key = key;
            request_id = request_id;
            response = response;
            created_at = now;
          }
            ∷ [];
    })
