-- ===== src/Approvals/Frames.antt =====
-- Which tables each step of `consume_approval_atomic` (storage.rs) writes, and which it leaves alone.
use aadesh.Common.{
  not-true, String, ◌≡◌, ◌⊎◌, refl, sym, ap, ◌∙◌, inl, inr, true, false, not, ◌&&◌, Option, none,
  some, [], ◌∷◌, ◌++◌, arith, ◌==◌, find, any, update_where, ltb, is_some, Bool-cases,
}
use aadesh.Chrono.{Time}
use aadesh.Unicode.{Unicode}
use aadesh.Outcome.{
  Outcome, ok, err, panic, conflict, not_found, corruption, invalid_input, ensure, required,
  >>=-eq-ok, ensure_holds, required-some,
}
use aadesh.Store.{
  Operation, Approval, Challenge, Syscall, StoredResponse, Db, is_approval, is_challenge,
  is_operation, is_trace,
}
use aadesh.Store.Idempotency.{store_response, is_key}
use aadesh.Approvals.Consume.{
  ApprovalConsumeInput, Fresh, Effect, approves, pass_oob, consume_challenge, can_consume,
  marked_consumed, decide, permit, permitted_action, PermittedAction, permitted_syscall, clashes,
  insert_syscall, approved, denied, record_decision, decided_approval, moved_operation,
}

or_db : Outcome Db → Db → Db
or_db (ok d) e = d
or_db (err x) e = e
or_db panic e = e

-- A field of the state that a step came to.
ok_field {ℓ} : {A : Type ℓ} {x y : Db} (f : Db → A) → ◌≡◌ {A = Outcome Db} (ok x) (ok y) → f y ≡ f x
unfolding or_db
ok_field {x = x} f h = sym (ap (λ r. f (or_db r x)) h)

-- Everything that a later step reads, but the challenges and the system calls.
pub record Same (db db' : Db) : Type 0 where
  pub approvals : db'.approvals ≡ db.approvals
  pub operations : db'.operations ≡ db.operations
  pub audit_traces : db'.audit_traces ≡ db.audit_traces
  pub idempotency_keys : db'.idempotency_keys ≡ db.idempotency_keys
  pub snapshots : db'.snapshots ≡ db.snapshots
  pub schemas : db'.schemas ≡ db.schemas

pub consume_challenge-eq :
    (now : Time) (approval k : String) (db : Db) {checked : Db}
    → consume_challenge now approval k db ≡ ok checked
    → (c : Challenge) × (find (is_challenge k) db.challenges ≡ some c)
      × ((c.approval_id == approval) ≡ true)
      × ((c.status == "verified") ≡ true)
      × (is_some c.consumed_at ≡ false)
      × (ltb c.expires_at now ≡ false)
      × (checked ≡ record db {
        challenges = update_where (can_consume k) (marked_consumed now) db.challenges;
      })
unfolding consume_challenge
consume_challenge-eq now approval k db {checked} h =
    let (c, e, h1) = >>=-eq-ok (required (find (is_challenge k) db.challenges) not_found) _ h in
    let (_, e1, h2) = >>=-eq-ok (ensure (c.approval_id == approval) conflict) _ h1 in
    let (_, e2, h3) = >>=-eq-ok (ensure (c.status == "verified") conflict) _ h2 in
    let (_, e3, h4) = >>=-eq-ok (ensure (not (is_some c.consumed_at)) conflict) _ h3 in
    let (_, e4, h5) = >>=-eq-ok (ensure (not (ltb c.expires_at now)) conflict) _ h4 in
    (
      c,
      required-some _ _ e,
      ensure_holds _ _ e1,
      ensure_holds _ _ e2,
      not-true _ (ensure_holds _ _ e3),
      not-true _ (ensure_holds _ _ e4),
      ok_eq h5,
    )
  where
    ok_eq : {x y : Db} → ok x ≡ ok y → y ≡ x
    ok_eq e = cc

-- A decision passes the test for challenges in two ways.
pub pass_oob-cases :
    (now : Time) (input : ApprovalConsumeInput) (a : Approval) (db : Db) {checked : Db}
    → pass_oob now input a db ≡ ok checked
    → ((((a.approval_mode == "oob_required") && approves input) ≡ false) × (checked ≡ db))
      ⊎ ((k : String) × (input.oob_challenge_id ≡ some k)
          × (consume_challenge now input.approval_id k db ≡ ok checked))
unfolding pass_oob
pass_oob-cases now input a db {checked} h =
    elim (Bool-cases (is_some input.oob_challenge_id && not (a.approval_mode == "oob_required"))) [
      | inl t ↦ absurd (refuse (rw t at h))
      | inr t ↦ elim (Bool-cases ((a.approval_mode == "oob_required") && approves input)) [
        | inl t' ↦
            let (k, e, h') =
              >>=-eq-ok (required input.oob_challenge_id invalid_input) _ (rw t' at (rw t at h)) in
            inr (k, required-some _ _ e, h')
        | inr t' ↦ inl (t', same (rw t' at (rw t at h)))
      ]
    ]
  where
    refuse : ◌≡◌ {A = Outcome Db} (err invalid_input) (ok checked) → ⊥
    refuse e = cc

    same : ◌≡◌ {A = Outcome Db} (ok db) (ok checked) → checked ≡ db
    same e = cc

Same-refl : (db : Db) → Same db db
Same-refl db = record {
  approvals = refl;
  operations = refl;
  audit_traces = refl;
  idempotency_keys = refl;
  snapshots = refl;
  schemas = refl;
}

pub pass_oob-Same :
    (now : Time) (input : ApprovalConsumeInput) (a : Approval) (db : Db) {checked : Db}
    → pass_oob now input a db ≡ ok checked
    → Same db checked × (checked.syscalls ≡ db.syscalls)
pass_oob-Same now input a db {checked} h = elim (pass_oob-cases now input a db h) [
  | inl (_, e) ↦ rw e (Same-refl db, refl)
  | inr (k, _, e) ↦
      let all = consume_challenge-eq now input.approval_id k db e in
      rw all.6 (
        record {
          approvals = refl;
          operations = refl;
          audit_traces = refl;
          idempotency_keys = refl;
          snapshots = refl;
          schemas = refl;
        },
        refl,
      )
]

insert_syscall-eq :
    (k : String) (s : Syscall) (db : Db) {x : Db}
    → insert_syscall k s db ≡ ok x
    → x ≡ record db { syscalls = db.syscalls ++ s ∷ [] }
unfolding insert_syscall
insert_syscall-eq k s db {x} h = elim (Bool-cases (any (clashes k s) db.syscalls)) [
  | inl t ↦ absurd (refuse (rw t at h))
  | inr t ↦ same (rw t at h)
]
  where
    refuse : ◌≡◌ {A = Outcome Db} (err conflict) (ok x) → ⊥
    refuse e = cc

    same :
        ◌≡◌ {A = Outcome Db} (ok (record db { syscalls = db.syscalls ++ s ∷ [] })) (ok x)
        → x ≡ record db { syscalls = db.syscalls ++ s ∷ [] }
    same e = cc

ok_pair :
    {e e' : Effect} {d d' : Db}
    → ◌≡◌ {A = Outcome (Effect × Db)} (ok (e, d)) (ok (e', d'))
    → (e' ≡ e) × (d' ≡ d)
ok_pair h = (ground arith, ground arith)

-- A decision inserts the system call of the permitted action, or nothing.
pub decide-cases :
    (u : Unicode) (now : Time) (fresh : Fresh) (input : ApprovalConsumeInput) (a : Approval)
    (o : Operation) (db : Db) {e : Effect} {db' : Db}
    → decide u now fresh input a o db ≡ ok (e, db')
    → ((approves input ≡ false) × (e ≡ denied) × (db' ≡ db))
      ⊎ ((approves input ≡ true)
          × (e ≡ approved fresh.syscall_id)
          × ((p : PermittedAction) × (permitted_action u input a o db ≡ ok p)
              × (db' ≡ record db {
                syscalls = db.syscalls ++ permitted_syscall now fresh.syscall_id a p ∷ [];
              })))
unfolding decide permit insert_syscall
decide-cases u now fresh input a o db {e} {db'} h = elim (Bool-cases (approves input)) [
  | inl t ↦
      let (p, ep, h1) = >>=-eq-ok (permitted_action u input a o db) _ (rw t at h) in
      let s = permitted_syscall now fresh.syscall_id a p in
      let (x, ex, h2) = >>=-eq-ok (insert_syscall a.approval_id s db) _ h1 in
      let parts = ok_pair h2 in
      inr (t, parts.0, (p, ep, parts.1 ∙ insert_syscall-eq a.approval_id s db ex))
  | inr t ↦ let parts = ok_pair (rw t at h) in inl (t, parts.0, parts.1)
]

pub decide-Same :
    (u : Unicode) (now : Time) (fresh : Fresh) (input : ApprovalConsumeInput) (a : Approval)
    (o : Operation) (db : Db) {e : Effect} {db' : Db}
    → decide u now fresh input a o db ≡ ok (e, db')
    → Same db db' × (db'.challenges ≡ db.challenges)
decide-Same u now fresh input a o db {e} {db'} h = elim (decide-cases u now fresh input a o db h) [
  | inl (_, _, same) ↦ rw same (Same-refl db, refl)
  | inr (_, _, (_, _, grown)) ↦ rw grown (
    record {
      approvals = refl;
      operations = refl;
      audit_traces = refl;
      idempotency_keys = refl;
      snapshots = refl;
      schemas = refl;
    },
    refl,
  )
]

-- What the records of a decision change, and what not.
pub record Recorded (now : Time) (input : ApprovalConsumeInput) (a : Approval) (e : Effect)
    (db db' : Db) : Type 0 where
  pub approvals :
      db'.approvals
      ≡ update_where (is_approval input.approval_id) (decided_approval now e) db.approvals
  pub operations :
      db'.operations
      ≡ update_where (is_operation a.operation_id) (moved_operation now e) db.operations
  pub idempotency_keys : db'.idempotency_keys ≡ db.idempotency_keys
  pub syscalls : db'.syscalls ≡ db.syscalls
  pub challenges : db'.challenges ≡ db.challenges

pub record_decision-Recorded :
    (now : Time) (fresh : Fresh) (input : ApprovalConsumeInput) (a : Approval) (e : Effect)
    (db : Db) {db' : Db}
    → record_decision now fresh input a e db ≡ ok db'
    → Recorded now input a e db db'
unfolding record_decision
record_decision-Recorded now fresh input a e db {db'} h =
    let (trace, _, h1) =
      >>=-eq-ok (required (find (is_trace a.audit_trace_id) db.audit_traces) corruption) _ h in
    record {
      approvals = ok_field (λ d. d.approvals) h1;
      operations = ok_field (λ d. d.operations) h1;
      idempotency_keys = ok_field (λ d. d.idempotency_keys) h1;
      syscalls = ok_field (λ d. d.syscalls) h1;
      challenges = ok_field (λ d. d.challenges) h1;
    }

-- Storing the response appends to the keys alone.
pub store_response-eq :
    (scope : String) (key : Option String) (request : String) (r : StoredResponse) (now : Time)
    (db : Db) {db' : Db}
    → store_response scope key request r now db ≡ ok db'
    → (db'.approvals ≡ db.approvals)
      × (db'.operations ≡ db.operations)
      × (db'.syscalls ≡ db.syscalls)
      × (db'.challenges ≡ db.challenges)
unfolding store_response
store_response-eq scope none request r now db {db'} h = (
  ok_field (λ d. d.approvals) h,
  ok_field (λ d. d.operations) h,
  ok_field (λ d. d.syscalls) h,
  ok_field (λ d. d.challenges) h,
)
store_response-eq scope (some key) request r now db {db'} h =
    elim (Bool-cases (any (is_key scope key) db.idempotency_keys)) [
      | inl t ↦ absurd (refuse (rw t at h))
      | inr t ↦
          let h1 = rw t at h in
          (
            ok_field (λ d. d.approvals) h1,
            ok_field (λ d. d.operations) h1,
            ok_field (λ d. d.syscalls) h1,
            ok_field (λ d. d.challenges) h1,
          )
    ]
  where
    refuse : ◌≡◌ {A = Outcome Db} (err conflict) (ok db') → ⊥
    refuse e = cc
