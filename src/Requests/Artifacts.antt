-- ===== src/Requests/Artifacts.antt =====
-- `create_manual_artifact` and `get_manual_artifact_context` of storage.rs.
use Prim.Native.String.{◌++◌ as str_append}
use aadesh.Common.{ℕ, ◌^◌, String, not, Option, none, some, [], ◌∷◌, ◌++◌, any, find, ltb}
use aadesh.Chrono.{Time}
use aadesh.Outcome.{Outcome, ok, conflict, invalid_input, ◌>>=◌, ◌>>◌, ensure, required, transact}
use aadesh.Store.{ManualArtifact, ManualArtifactResponse, artifact, Db, is_manual_artifact}
use aadesh.Store.Idempotency.{stored_response, store_response, replay_or, as_artifact}
use aadesh.Operations.Create.{take_chars}

-- What a base64 text decodes to: the number of its bytes, and their text if they are UTF-8.
pub record Decoded : Type 0 where
  pub byte_count : ℕ
  pub text : Option String

-- `BASE64_STANDARD.decode` and `String::from_utf8`
abbrev pub Decode : Type 0
Decode = String → Option Decoded

pub record ManualArtifactCreateInput : Type 0 where
  pub filename : String
  pub media_type : String
  pub content_base64 : String
  pub sensitivity_hint : Option ℕ
  pub idempotency_key : Option String

abbrev pub preview : Option String → Option String
preview none = none
preview (some s) = some (take_chars 4096 s)

abbrev pub new_artifact : Time → String → ManualArtifactCreateInput → Decoded → ManualArtifact
new_artifact now fresh input decoded = record {
  artifact_id = fresh;
  created_at = now;
  filename = input.filename;
  media_type = input.media_type;
  content_base64 = input.content_base64;
  text_preview = preview decoded.text;
  byte_size = decoded.byte_count;
  sensitivity_hint = input.sensitivity_hint;
}

abbrev pub artifact_response : ManualArtifact → ManualArtifactResponse
artifact_response a = record {
  artifact_id = a.artifact_id;
  ref_id = a.artifact_id;
  ref_type = "manual_artifact";
  filename = a.filename;
  media_type = a.media_type;
  byte_size = a.byte_size;
  sensitivity_hint = a.sensitivity_hint;
  created_at = a.created_at;
}

unfoldable pub create_artifact_work :
    Decode → Time → String → ManualArtifactCreateInput → Db → Outcome (ManualArtifactResponse × Db)
create_artifact_work decode now fresh input db = do
  decoded ← required (decode input.content_base64) invalid_input
  ensure (ltb decoded.byte_count (2 ^ 63)) invalid_input
  ensure (not (any (is_manual_artifact fresh) db.manual_artifacts)) conflict
  let row = new_artifact now fresh input decoded
  let stored = record db { manual_artifacts = db.manual_artifacts ++ row ∷ [] }
  let response = artifact_response row
  final ←
      store_response "/v1/artifacts/manual" input.idempotency_key fresh (artifact response) now
        stored
  ok (response, final)

unfoldable pub create_manual_artifact :
    Decode → Time → String → ManualArtifactCreateInput → Db → Outcome ManualArtifactResponse × Db
create_manual_artifact decode now fresh input = transact λ db.
    replay_or as_artifact db (stored_response "/v1/artifacts/manual" input.idempotency_key db)
      (create_artifact_work decode now fresh input db)

abbrev pub context_of : ℕ → ManualArtifact → Option String → Option String
context_of max_chars a none = none
context_of max_chars a (some text) = some (
    str_append "file=" (
      str_append a.filename (
        str_append " media_type="
          (str_append a.media_type (str_append "\n" (take_chars max_chars text))))))

abbrev pub found_context : ℕ → Option ManualArtifact → Option String
found_context max_chars none = none
found_context max_chars (some a) = context_of max_chars a a.text_preview

unfoldable pub get_manual_artifact_context : String → ℕ → Db → Outcome (Option String)
get_manual_artifact_context k max_chars db =
    ok (found_context max_chars (find (is_manual_artifact k) db.manual_artifacts))
