-- ===== src/Requests/Kept.antt =====
-- What the submission of a request stores can be read back: `put_gate_decision`, `put_compiled_slice`
-- and `create_manual_artifact` of storage.rs.
use Prim.Native.String.{◌++◌ as str_append}
use aadesh.Common.{
  ℕ, String, ◌≡◌, ◌⊎◌, refl, sym, ap, ◌∙◌, inl, inr, Bool, true, false, not, not-true, ◌||◌, none,
  Option-cases, some, [], ◌∷◌, ◌++◌, ◌==◌, any, any-append_last, find-append_last, eq_refl, ltb,
  List, ◌^◌, Bool-cases,
}
use aadesh.Chrono.{Time}
use aadesh.Outcome.{
  Outcome, ok, err, conflict, invalid_input, >>=-eq-ok, ok_injective, required, required-some,
  ensure, ensure_holds,
}
use aadesh.Store.{
  GateDecisionInput, GateDecision, ManualArtifact, ManualArtifactResponse, IdempotencyKey, Db,
  is_manual_artifact,
}
use aadesh.Store.Stored.{finishes, with_keys}
use aadesh.Requests.Records.{is_gate_of, gate_taken, put_gate_decision, get_gate_decision}
use aadesh.Operations.Create.{take_chars}
use aadesh.Requests.Artifacts.{
  Decode, Decoded, ManualArtifactCreateInput, new_artifact, preview, create_artifact_work,
  context_of, get_manual_artifact_context,
}

not_either : (a b : Bool) → (a || b) ≡ false → b ≡ false
not_either true b h = absurd (cc)
not_either false b h = h

abbrev gate_row : Time → String → GateDecisionInput → GateDecision
gate_row now fresh input = record { gate_decision_id = fresh; evaluated_at = now; input = input }

with_gate : GateDecision → Db → Db
with_gate g db = record db { gate_decisions = db.gate_decisions ++ g ∷ [] }

put_gate_decision-eq :
    (now : Time) (fresh : String) (input : GateDecisionInput) (db : Db) {g : GateDecision}
    → (put_gate_decision now fresh input db).0 ≡ ok g
    → (gate_taken fresh input db ≡ false)
      × (g ≡ gate_row now fresh input)
      × ((put_gate_decision now fresh input db).1 ≡ with_gate (gate_row now fresh input) db)
unfolding put_gate_decision with_gate
put_gate_decision-eq now fresh input db {g} h = elim (Bool-cases (gate_taken fresh input db)) [
  | inl t ↦ absurd (refuse (rw t at h))
  | inr f ↦ (f, sym (ok_injective (rw f at h)), rw f refl)
]
  where
    refuse : ◌≡◌ {A = Outcome GateDecision} (err conflict) (ok g) → ⊥
    refuse e = cc

gate_read :
    (k : String) (g : GateDecision) (db : Db)
    → any (is_gate_of k) db.gate_decisions ≡ false
    → is_gate_of k g ≡ true
    → get_gate_decision k (with_gate g db) ≡ ok g
unfolding get_gate_decision with_gate
gate_read k g db free own = rw (find-append_last (is_gate_of k) db.gate_decisions g free own) refl

gate_refused :
    (now : Time) (fresh : String) (input : GateDecisionInput) (g : GateDecision) (db : Db)
    → is_gate_of input.pins.operation_id g ≡ true
    → (put_gate_decision now fresh input (with_gate g db)).0 ≡ err conflict
unfolding put_gate_decision with_gate
gate_refused now fresh input g db own =
    elim (Bool-cases
      (any (λ (x : GateDecision). x.gate_decision_id == fresh) (db.gate_decisions ++ g ∷ []))) [
        | inl t ↦ rw t refl
        | inr f ↦
            rw f (
              rw (any-append_last (is_gate_of input.pins.operation_id) db.gate_decisions g own)
                refl)
      ]

-- A gate decision that is stored is the one that its operation has from then on, with all that the
-- kernel put into it; a second one for the operation is refused.
pub get_gate_decision-put_gate_decision :
    (now : Time) (fresh : String) (input : GateDecisionInput) (db : Db) (later : Time)
    (again : String) (other : GateDecisionInput) {g : GateDecision}
    → (put_gate_decision now fresh input db).0 ≡ ok g
    → other.pins.operation_id ≡ input.pins.operation_id
    → (g.input ≡ input)
      × (get_gate_decision input.pins.operation_id (put_gate_decision now fresh input db).1 ≡ ok g)
      × ((put_gate_decision later again other (put_gate_decision now fresh input db).1).0
          ≡ err conflict)
get_gate_decision-put_gate_decision now fresh input db later again other {g} h same =
    let (free, is_row, after) = put_gate_decision-eq now fresh input db h in
    let row = gate_row now fresh input in
    (
      ap (λ (x : GateDecision). x.input) is_row,
      ap (get_gate_decision input.pins.operation_id) after
          ∙ gate_read input.pins.operation_id row db (not_either _ _ free)
              (eq_refl input.pins.operation_id)
          ∙ ap ok (sym is_row),
      ap (λ d. (put_gate_decision later again other d).0) after
          ∙ gate_refused later again other row db
              (ap (λ k. is_gate_of k row) same ∙ eq_refl input.pins.operation_id),
    )

context_read :
    (k : String) (max_chars : ℕ) (row : ManualArtifact) (db : Db) (keys : List IdempotencyKey)
    → any (is_manual_artifact k) db.manual_artifacts ≡ false
    → is_manual_artifact k row ≡ true
    → get_manual_artifact_context k max_chars
        (with_keys keys (record db { manual_artifacts = db.manual_artifacts ++ row ∷ [] }))
      ≡ ok (context_of max_chars row row.text_preview)
unfolding get_manual_artifact_context
context_read k max_chars row db keys free own =
    rw (find-append_last (is_manual_artifact k) db.manual_artifacts row free own) refl

-- An upload that is worked through and succeeds was decoded, and its answer has the number of
-- decoded bytes and the name and type of the upload. Where the bytes are no text, the reference of
-- the answer leads to no context. Where they are a text, it leads to a context that names the file
-- and its type and ends with the text, of which the first 4096 characters are kept and of these the
-- first `max_chars` given.
pub get_manual_artifact_context-create_artifact_work :
    (decode : Decode) (now : Time) (fresh : String) (input : ManualArtifactCreateInput)
    (max_chars : ℕ) (db : Db) {r : ManualArtifactResponse} {final : Db}
    → create_artifact_work decode now fresh input db ≡ ok (r, final)
    → (decoded : Decoded) × (decode input.content_base64 ≡ some decoded)
      × (r.byte_size ≡ decoded.byte_count)
      × (r.filename ≡ input.filename)
      × (r.media_type ≡ input.media_type)
      × (((decoded.text ≡ none) × (get_manual_artifact_context r.ref_id max_chars final ≡ ok none))
          ⊎ ((text : String) × (decoded.text ≡ some text)
              × (get_manual_artifact_context r.ref_id max_chars final
                  ≡ ok (
                      some (
                        str_append "file=" (
                          str_append input.filename (
                            str_append " media_type=" (
                              str_append input.media_type (
                                str_append "\n"
                                  (take_chars max_chars (take_chars 4096 text)))))))))))
unfolding create_artifact_work
get_manual_artifact_context-create_artifact_work decode now fresh input max_chars db {r} {final} h =
    let (decoded, e1, h1) = >>=-eq-ok (required (decode input.content_base64) invalid_input) _ h in
    let (_, e2, h2) = >>=-eq-ok (ensure (ltb decoded.byte_count (2 ^ 63)) invalid_input) _ h1 in
    let (_, e3, h3) =
      >>=-eq-ok (ensure (not (any (is_manual_artifact fresh) db.manual_artifacts)) conflict) _ h2 in
    let row = new_artifact now fresh input decoded in
    let kept =
      finishes _ _ _ _ _ (record db { manual_artifacts = db.manual_artifacts ++ row ∷ [] }) h3 in
    let read =
      ap (λ (x : ManualArtifactResponse). get_manual_artifact_context x.ref_id max_chars final)
        kept.0
      ∙ ap (get_manual_artifact_context fresh max_chars) kept.1
      ∙ context_read fresh max_chars row db _ (not-true _ (ensure_holds _ _ e3)) (eq_refl fresh) in
    (
      decoded,
      required-some (decode input.content_base64) invalid_input e1,
      ap (λ (x : ManualArtifactResponse). x.byte_size) kept.0,
      ap (λ (x : ManualArtifactResponse). x.filename) kept.0,
      ap (λ (x : ManualArtifactResponse). x.media_type) kept.0,
      elim (Option-cases decoded.text) [
        | inl nothing ↦
            inl (nothing, read ∙ ap (λ t. ok (context_of max_chars row (preview t))) nothing)
        | inr (text, is_text) ↦
            inr (text, is_text, read ∙ ap (λ t. ok (context_of max_chars row (preview t))) is_text)
      ],
    )
