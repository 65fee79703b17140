-- ===== src/Store/Stored.antt =====
-- What the first and the last step of a mutation, over `idempotency_keys`, leave alone.
use aadesh.Common.{
  String, ◌≡◌, refl, sym, ap, ◌∙◌, inl, inr, Option, none, some, List, any, Bool-cases,
}
use aadesh.Chrono.{Time}
use aadesh.Outcome.{Outcome, ok, err, panic, conflict, ◌>>=◌, settle, >>=-eq-ok, ok_injective}
use aadesh.Store.Responses.{StoredResponse}
use aadesh.Store.Tables.{IdempotencyKey, Db}
use aadesh.Store.Idempotency.{is_key, store_response, replay_or}

abbrev pub with_keys : List IdempotencyKey → Db → Db
with_keys keys db = record db { idempotency_keys = keys }

-- Keeping a response touches no other table.
pub store_response-keys :
    (scope : String) (key : Option String) (request : String) (r : StoredResponse) (now : Time)
    (db : Db) {db' : Db}
    → store_response scope key request r now db ≡ ok db'
    → db' ≡ with_keys db'.idempotency_keys db
unfolding store_response
store_response-keys scope none request r now db {db'} h =
    let same = ok_injective h in sym same ∙ ap (λ (d : Db). with_keys d.idempotency_keys db) same
store_response-keys scope (some key) request r now db {db'} h =
    elim (Bool-cases (any (is_key scope key) db.idempotency_keys)) [
      | inl t ↦ absurd (refuse (rw t at h))
      | inr t ↦
          let same = ok_injective (rw t at h) in
          sym same ∙ ap (λ (d : Db). with_keys d.idempotency_keys db) same
    ]
  where
    refuse : ◌≡◌ {A = Outcome Db} (err conflict) (ok db') → ⊥
    refuse e = cc

-- The end of a mutation: the response is kept, and returned with the tables.
pub finishes :
    {A : Type 0} (scope : String) (key : Option String) (request : String) (x : StoredResponse)
    (now : Time) (db : Db) {answer r : A} {final : Db}
    → ◌>>=◌ {B = A × Db} (store_response scope key request x now db) (λ d. ok (answer, d))
      ≡ ok (r, final)
    → (r ≡ answer) × (final ≡ with_keys final.idempotency_keys db)
finishes {A = A} scope key request x now db h =
    let (d, e, h1) = >>=-eq-ok (store_response scope key request x now db) _ h in
    let same = ok_injective (sym h1) in
    let kept = store_response-keys scope key request x now db e in
    let there = ap (λ (p : A × Db). p.1) same in
    (
      ap (λ (p : A × Db). p.0) same,
      there ∙ kept ∙ ap (λ (y : Db). with_keys y.idempotency_keys db) (sym there),
    )

-- A property of the tables holds after a call, if it holds before it and after the work, where the
-- work succeeds.
pub settle_replay {κ} :
    {A : Type 0} (P : Db → Type κ) (read : StoredResponse → Outcome A) (db : Db)
    (o : Option IdempotencyKey) (work : Outcome (A × Db))
    → P db
    → ((r : A) (final : Db) → work ≡ ok (r, final) → P final)
    → P (settle db (replay_or read db o work)).1
settle_replay P read db none (ok (r, final)) h k = k r final refl
settle_replay P read db none (err e) h k = h
settle_replay P read db none panic h k = h
settle_replay {A = A} P read db (some row) work h k = here (read row.response)
  where
    here : (m : Outcome A) → P (settle db (m >>= λ r. ok (r, db))).1
    here (ok r) = h
    here (err e) = h
    here panic = h
