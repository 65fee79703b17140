-- ===== src/Requests/Records.antt =====
-- `put_gate_decision`, `get_gate_decision`, `put_compiled_slice`, `get_compiled_slice`,
-- `put_reasoning_output` and `get_reasoning_output` of storage.rs.
use aadesh.Common.{
  String, Bool, false, Option, none, some, [], ◌∷◌, ◌++◌, ◌==◌, ◌||◌, any, find, sort_by_desc,
  if◌then◌else◌,
}
use aadesh.Chrono.{Time}
use aadesh.Json.{Value}
use aadesh.Outcome.{Outcome, ok, err, conflict, not_found, required}
use aadesh.Store.{
  GateDecisionInput, GateDecision, CompiledSliceInput, CompiledSlice, ReasoningOutputInput, Event,
  EventBody, request_received, approval_decided, syscall_result, reasoning_output,
  review_item_created, review_decided, Db, is_event,
}

abbrev pub is_gate_of : String → GateDecision → Bool
is_gate_of operation g = g.input.pins.operation_id == operation

abbrev pub is_slice_of : String → CompiledSlice → Bool
is_slice_of operation c = c.input.pins.operation_id == operation

-- The primary key, and the operation's column is unique.
abbrev pub gate_taken : String → GateDecisionInput → Db → Bool
gate_taken fresh input db =
    any (λ g. g.gate_decision_id == fresh) db.gate_decisions
    || any (is_gate_of input.pins.operation_id) db.gate_decisions

unfoldable pub put_gate_decision :
    Time → String → GateDecisionInput → Db → Outcome GateDecision × Db
put_gate_decision now fresh input db =
    let row : GateDecision = record {
      gate_decision_id = fresh;
      evaluated_at = now;
      input = input;
    } in
    if gate_taken fresh input db
    then (err conflict, db)
    else (ok row, record db { gate_decisions = db.gate_decisions ++ row ∷ [] })

unfoldable pub get_gate_decision : String → Db → Outcome GateDecision
get_gate_decision operation db = required (find (is_gate_of operation) db.gate_decisions) not_found

abbrev pub slice_taken : String → CompiledSliceInput → Db → Bool
slice_taken fresh input db =
    any (λ c. c.compiled_slice_id == fresh) db.compiled_slices
    || any (is_slice_of input.pins.operation_id) db.compiled_slices

unfoldable pub put_compiled_slice :
    Time → String → CompiledSliceInput → Db → Outcome CompiledSlice × Db
put_compiled_slice now fresh input db =
    let row : CompiledSlice = record {
      compiled_slice_id = fresh;
      compiled_at = now;
      input = input;
    } in
    if slice_taken fresh input db
    then (err conflict, db)
    else (ok row, record db { compiled_slices = db.compiled_slices ++ row ∷ [] })

unfoldable pub get_compiled_slice : String → Db → Outcome CompiledSlice
get_compiled_slice operation db =
    required (find (is_slice_of operation) db.compiled_slices) not_found

pub record ReasoningOutputResponse : Type 0 where
  pub event_ref : String
  pub operation_id : String
  pub model_id : String
  pub provider_trace_id : Option String
  pub reasoning_output : Value

abbrev pub reasoning_response : String → ReasoningOutputInput → ReasoningOutputResponse
reasoning_response event_ref input = record {
  event_ref = event_ref;
  operation_id = input.operation_id;
  model_id = input.model_id;
  provider_trace_id = input.provider_trace_id;
  reasoning_output = input.reasoning_output;
}

unfoldable pub put_reasoning_output :
    Time → String → ReasoningOutputInput → Db → Outcome ReasoningOutputResponse × Db
put_reasoning_output now fresh input db =
    if any (is_event fresh) db.events then (err conflict, db) else (
      ok (reasoning_response fresh input),
      record db {
        events =
            db.events
            ++ record { event_ref = fresh; created_at = now; body = reasoning_output input } ∷ [];
      },
    )

-- `kind = 'reasoning_output'`, and the operation of the payload
abbrev pub reasoning_of : String → EventBody → Bool
reasoning_of operation (reasoning_output input) = input.operation_id == operation
reasoning_of operation (request_received r) = false
reasoning_of operation (approval_decided a d s cs) = false
reasoning_of operation (syscall_result s t a r) = false
reasoning_of operation (review_item_created i p) = false
reasoning_of operation (review_decided i d p v) = false

abbrev pub read_reasoning : Option Event → Outcome ReasoningOutputResponse
read_reasoning none = err not_found
read_reasoning (some e) = read e.body
  where
    read : EventBody → Outcome ReasoningOutputResponse
    read (reasoning_output input) = ok (reasoning_response e.event_ref input)
    read (request_received r) = err not_found
    read (approval_decided a d s cs) = err not_found
    read (syscall_result s t a r) = err not_found
    read (review_item_created i p) = err not_found
    read (review_decided i d p v) = err not_found

-- The latest one of the operation.
unfoldable pub get_reasoning_output : String → Db → Outcome ReasoningOutputResponse
get_reasoning_output operation db =
    read_reasoning
      (find (λ e. reasoning_of operation e.body) (sort_by_desc (λ e. e.created_at) db.events))
