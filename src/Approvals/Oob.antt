-- ===== src/Approvals/Oob.antt =====
-- `start_oob_challenge` and `verify_oob_challenge` of storage.rs.
use Prim.Native.String.{◌++◌ as str_append}
use aadesh.Common.{
  String, not, ◌||◌, Option, none, some, [], ◌∷◌, ◌++◌, ◌==◌, ltb, any, find, update_where,
  if◌then◌else◌, ℤ, pos,
}
use aadesh.Chrono.{Time, Plus}
use aadesh.Json.{Value}
use aadesh.Outcome.{
  Outcome, ok, err, conflict, not_found, invalid_input, ◌>>=◌, ◌>>◌, ensure, required, or_panic,
  transact,
}
use aadesh.Store.{
  Challenge, Db, OobStartResponse, OobVerifyResponse, oob_start, oob_verify, is_approval,
  is_challenge,
}
use aadesh.Store.Idempotency.{
  stored_response, store_response, replay_or, as_oob_start, as_oob_verify,
}

pub record OobStartInput : Type 0 where
  pub approval_id : String
  pub idempotency_key : Option String

pub record OobVerifyInput : Type 0 where
  pub approval_id : String
  pub challenge_id : String
  pub response_payload : Value
  pub idempotency_key : Option String

abbrev pub oob_scope : String → String → String
oob_scope approval step =
    str_append "/v1/approvals/" (str_append approval (str_append "/oob/" step))

-- Five minutes, in milliseconds.
abbrev pub challenge_life : ℤ
challenge_life = pos 300000

abbrev pub new_challenge : Time → Time → String → String → Challenge
new_challenge now until fresh approval = record {
  challenge_id = fresh;
  approval_id = approval;
  created_at = now;
  expires_at = until;
  status = "pending";
  verified_at = none;
  consumed_at = none;
  response = none;
}

-- `INSERT INTO oob_challenges`; the approval is there, since it was read.
pub insert_challenge : Challenge → Db → Outcome Db
insert_challenge c db =
    if any (is_challenge c.challenge_id) db.challenges
    then err conflict
    else ok (record db { challenges = db.challenges ++ c ∷ [] })

start_work : Plus → Time → String → OobStartInput → Db → Outcome (OobStartResponse × Db)
unfolding insert_challenge store_response
start_work plus now fresh input db = do
  approval ← required (find (is_approval input.approval_id) db.approvals) not_found
  ensure (approval.status == "pending") conflict
  ensure (approval.approval_mode == "oob_required") invalid_input
  until ← or_panic (plus now challenge_life)
  db' ← insert_challenge (new_challenge now until fresh input.approval_id) db
  let response : OobStartResponse = record {
    approval_id = input.approval_id;
    challenge_id = fresh;
    expires_at = until;
  }
  db'' ←
      store_response (oob_scope input.approval_id "start") input.idempotency_key fresh
        (oob_start response) now db'
  ok (response, db'')

unfoldable pub start_oob_challenge :
    Plus → Time → String → OobStartInput → Db → Outcome OobStartResponse × Db
unfolding start_work stored_response
start_oob_challenge plus now fresh input = transact λ db.
    replay_or as_oob_start db
      (stored_response (oob_scope input.approval_id "start") input.idempotency_key db)
      (start_work plus now fresh input db)

abbrev pub verified_response : OobVerifyInput → OobVerifyResponse
verified_response input = record {
  approval_id = input.approval_id;
  challenge_id = input.challenge_id;
  status = "verified";
}

abbrev pub marked_verified : Time → Value → Challenge → Challenge
marked_verified now payload c = record c {
  status = "verified";
  verified_at = some now;
  response = some payload;
}

-- A pending challenge that has not expired becomes verified.
unfoldable pub verify_pending :
    Time → OobVerifyInput → Challenge → Db → Outcome (OobVerifyResponse × Db)
unfolding store_response
verify_pending now input challenge db = do
  ensure (challenge.status == "pending") conflict
  ensure (not (ltb challenge.expires_at now)) conflict
  let db' = record db {
    challenges =
        update_where (is_challenge input.challenge_id) (marked_verified now input.response_payload)
          db.challenges;
  }
  db'' ←
      store_response (oob_scope input.approval_id "verify") input.idempotency_key input.challenge_id
        (oob_verify (verified_response input)) now db'
  ok (verified_response input, db'')

unfoldable pub verify_work : Time → OobVerifyInput → Db → Outcome (OobVerifyResponse × Db)
unfolding verify_pending
verify_work now input db = do
  challenge ← required (find (is_challenge input.challenge_id) db.challenges) not_found
  ensure (challenge.approval_id == input.approval_id) conflict
  if (challenge.status == "verified") || (challenge.status == "consumed")
      then ok (verified_response input, db)
      else verify_pending now input challenge db

unfoldable pub verify_oob_challenge : Time → OobVerifyInput → Db → Outcome OobVerifyResponse × Db
unfolding verify_work stored_response
verify_oob_challenge now input = transact λ db.
    replay_or as_oob_verify db
      (stored_response (oob_scope input.approval_id "verify") input.idempotency_key db)
      (verify_work now input db)
