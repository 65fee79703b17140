-- ===== src/Store/KernelRows.antt =====
-- The rows that the submission of a request reads and writes: crates/adesh-core/src/ports/storage.rs,
-- and the tables `gate_decisions`, `compiled_slices` and `manual_artifacts`.
use aadesh.Common.{ℕ, String, Bool, Option}
use aadesh.Chrono.{Time}
use aadesh.Json.{Value}

-- The versions and identifiers that the caller pins.
pub record Pins : Type 0 where
  pub operation_id : String
  pub isolation_id : String
  pub audit_trace_id : String
  pub active_state_version : String
  pub capability_snapshot_version : String
  pub audience_graph_version : String

pub record GateDecisionInput : Type 0 where
  pub pins : Pins
  pub risk_r : ℕ
  pub sensitivity_s : ℕ
  pub max_gate : ℕ
  pub approval_mode : String
  pub requesting_audience_id : String
  pub scopes_allowed : Value
  pub scopes_denied : Value
  pub sensitivity_ceiling_s : ℕ
  pub predicates : Value
  pub constraints : Value

pub record CompiledSliceInput : Type 0 where
  pub pins : Pins
  pub risk_r : ℕ
  pub sensitivity_s : ℕ
  pub max_gate : ℕ
  pub approval_mode : String
  pub operation_max_taint_s : ℕ
  pub did_omit : Bool
  pub omissions : Value
  pub provenance_summary : Value
  pub intent_anchor : Value
  pub blocks : Value

pub record ReasoningOutputInput : Type 0 where
  pub operation_id : String
  pub isolation_id : String
  pub audit_trace_id : String
  pub model_id : String
  pub provider_trace_id : Option String
  pub reasoning_output : Value

-- `gate_decisions`; the response has the same fields
pub record GateDecision : Type 0 where
  pub gate_decision_id : String
  pub evaluated_at : Time
  pub input : GateDecisionInput

-- `compiled_slices`; the response has the same fields
pub record CompiledSlice : Type 0 where
  pub compiled_slice_id : String
  pub compiled_at : Time
  pub input : CompiledSliceInput

-- `manual_artifacts`
pub record ManualArtifact : Type 0 where
  pub artifact_id : String
  pub created_at : Time
  pub filename : String
  pub media_type : String
  pub content_base64 : String
  pub text_preview : Option String
  pub byte_size : ℕ
  pub sensitivity_hint : Option ℕ
