-- ===== src/Schemas/Idempotence.antt =====
-- Normal forms of `normalize_email_send_payload` (action_schemas.rs), normalized once more.
use aadesh.Common.{
  String, ◌≡◌, sym, ap, ◌∙◌, inl, inr, true, false, not, Option, none, some, List, [], ◌∷◌, ◌++◌,
  arith, ◌==◌, any, if◌then◌else◌, Bool-cases, Option-cases,
}
use mathlib.Core.List.{append-nil, append_assoc}
use aadesh.Json.{
  Value, Items, Fields, null, bool, number, string, array, object, nil, cons, get_field, as_object,
  as_array,
}
use aadesh.Outcome.{
  Outcome, ok, err, invalid_input, ensure, required, >>=-eq-ok, ensure_holds, required-some,
  ok_injective,
}
use aadesh.Unicode.{Unicode, IsUnicode}
use aadesh.Schemas.Descriptor.{and_then}
use aadesh.Schemas.Normalize.{
  strings, non_empty, recipient, recipients, normalize_recipients, trimmed, normalize_text, is_nil,
  email_payload, normalize_email_send_payload,
}

module _ (u : Unicode) (laws : IsUnicode u) where
  -- A recipient as the loop keeps it.
  abbrev IsNormal : String → Type 0
  IsNormal s = recipient u (string s) ≡ some s

  non_empty-some :
      (x : String) {s : String} → non_empty (some x) ≡ some s → (x ≡ s) × ((s == "") ≡ false)
  non_empty-some x {s} h = elim (Bool-cases (x == "")) [
    | inl e ↦ absurd (ground arith)
    | inr e ↦ let same : x ≡ s = ground arith in (same, rw same at e)
  ]

  recipient-IsNormal : (v : Value) {s : String} → recipient u v ≡ some s → IsNormal s
  recipient-IsNormal (string x) {s} h =
      let (same, full) = non_empty-some (u.to_lowercase (u.trim x)) h in
      let fixed : u.to_lowercase (u.trim s) ≡ s =
        ap (λ t. u.to_lowercase (u.trim t)) (sym same)
        ∙ ap u.to_lowercase (laws.trim_lower x)
        ∙ laws.lower_lower (u.trim x)
        ∙ same in
      rw fixed (rw full)
  recipient-IsNormal (array xs) h = absurd (cc)
  recipient-IsNormal (object fs) h = absurd (cc)
  recipient-IsNormal (bool b) h = absurd (cc)
  recipient-IsNormal (number n) h = absurd (cc)
  recipient-IsNormal null h = absurd (cc)

  -- `new` are normal, and none of them occurs in `seen` or before itself.
  abbrev IsFresh : List String → List String → Type 0
  IsFresh seen [] = Unit
  IsFresh seen (s ∷ ss) =
      IsNormal s × (any (λ t. t == s) seen ≡ false) × IsFresh (seen ++ s ∷ []) ss

  abbrev extended : List String → String → List String
  extended seen r = if any (λ s. s == r) seen then seen else seen ++ r ∷ []

  recipients_step :
      (seen : List String) (v : Value) (rest : Items) (r : String)
      → recipient u v ≡ some r
      → recipients u seen (cons v rest) ≡ recipients u (extended seen r) rest
  unfolding recipients
  recipients_step seen v rest r h = rw (h, recipients)

  recipients_stop :
      (seen : List String) (v : Value) (rest : Items)
      → recipient u v ≡ none
      → recipients u seen (cons v rest) ≡ err invalid_input
  unfolding recipients
  recipients_stop seen v rest h = rw (h, recipients)

  recipients-fixed :
      (seen new : List String)
      → IsFresh seen new
      → recipients u seen (strings new) ≡ ok (seen ++ new)
  unfolding recipients
  recipients-fixed seen [] f = ap ok (sym (append-nil seen))
  recipients-fixed seen (s ∷ ss) f =
      let step = recipients_step seen (string s) (strings ss) s f.0 in
      let longer : extended seen s ≡ seen ++ s ∷ [] = rw f.1 in
      step
      ∙ ap (λ x. recipients u x (strings ss)) longer
      ∙ recipients-fixed (seen ++ s ∷ []) ss f.2
      ∙ ap ok (append_assoc seen (s ∷ []) ss)

  recipients-IsFresh :
      (seen : List String) (items : Items) {out : List String}
      → recipients u seen items ≡ ok out
      → (new : List String) × (out ≡ seen ++ new) × IsFresh seen new
  unfolding recipients
  recipients-IsFresh seen nil h = ([], sym (ok_injective h) ∙ sym (append-nil seen), tt)
  recipients-IsFresh seen (cons v rest) {out} h = elim (Option-cases (recipient u v)) [
    | inl e ↦ absurd (refuse (sym (recipients_stop seen v rest e) ∙ h))
    | inr (r, e) ↦
        let h' = sym (recipients_step seen v rest r e) ∙ h in
        elim (Bool-cases (any (λ s. s == r) seen)) [
          | inl old ↦ recipients-IsFresh seen rest {out = out} (rw old at h')
          | inr new ↦
              let (more, eq, fresh) =
                recipients-IsFresh (seen ++ r ∷ []) rest {out = out} (rw new at h') in
              (r ∷ more, eq ∙ append_assoc seen (r ∷ []) more, (recipient-IsNormal v e, new, fresh))
        ]
  ]
    where
      refuse : ◌≡◌ {A = Outcome (List String)} (err invalid_input) (ok out) → ⊥
      refuse e = cc

  -- A list of recipients that came out of the loop goes through it unchanged.
  recipients-recipients :
      (items : Items) {out : List String}
      → recipients u [] items ≡ ok out
      → recipients u [] (strings out) ≡ ok out
  recipients-recipients items {out} h =
      let (new, eq, fresh) = recipients-IsFresh [] items h in rw eq (recipients-fixed [] new fresh)

  normalize_recipients-out :
      (name : String) (fields : Fields) {out : List String}
      → normalize_recipients u name fields ≡ ok out
      → recipients u [] (strings out) ≡ ok out
  unfolding normalize_recipients
  normalize_recipients-out name fields {out} h =
      let (v, _, h1) = >>=-eq-ok (required (get_field name fields) invalid_input) _ h in
      let (items, _, h2) = >>=-eq-ok (required (as_array v) invalid_input) _ h1 in
      recipients-recipients items h2

  trimmed-fixed :
      (o : Option Value) {s : String}
      → and_then o (trimmed u) ≡ some s
      → trimmed u (string s) ≡ some s
  trimmed-fixed none h = absurd (cc)
  trimmed-fixed (some (string x)) {s} h =
      let (same, full) = non_empty-some (u.trim x) h in
      let fixed : u.trim s ≡ s = ap u.trim (sym same) ∙ laws.trim_trim x ∙ same in
      rw fixed (rw full)
  trimmed-fixed (some (array xs)) h = absurd (cc)
  trimmed-fixed (some (object fs)) h = absurd (cc)
  trimmed-fixed (some (bool b)) h = absurd (cc)
  trimmed-fixed (some (number n)) h = absurd (cc)
  trimmed-fixed (some null) h = absurd (cc)

  normalize_text-out :
      (name : String) (fields : Fields) {s : String}
      → normalize_text u name fields ≡ ok s
      → trimmed u (string s) ≡ some s
  unfolding normalize_text
  normalize_text-out name fields h = trimmed-fixed (get_field name fields) (required-some _ _ h)

  again :
      (to cc_ bcc : List String) (subject body : String) (q : Value)
      → email_payload u to cc_ bcc subject body ≡ q
      → recipients u [] (strings to) ≡ ok to
      → not (is_nil u to) ≡ true
      → recipients u [] (strings cc_) ≡ ok cc_
      → recipients u [] (strings bcc) ≡ ok bcc
      → trimmed u (string subject) ≡ some subject
      → trimmed u (string body) ≡ some body
      → normalize_email_send_payload u q ≡ ok q
  unfolding normalize_email_send_payload normalize_recipients normalize_text
  again to cc_ bcc subject body q e a b c d f g = rw (← e) (rw a (rw b (rw c (rw d (rw f (rw g))))))

  -- Take functions `trim` and `to_lowercase` with the documented laws. If a payload of `email.send`
  -- has the normal form `q`, then `q` has the normal form `q`.
  pub normalize-normalize :
      (payload q : Value)
      → normalize_email_send_payload u payload ≡ ok q
      → normalize_email_send_payload u q ≡ ok q
  unfolding normalize_email_send_payload
  normalize-normalize payload q h =
      let (f, _, h1) = >>=-eq-ok (required (as_object payload) invalid_input) _ h in
      let (to, e2, h2) = >>=-eq-ok (normalize_recipients u "to" f) _ h1 in
      let (_, e3, h3) = >>=-eq-ok (ensure (not (is_nil u to)) invalid_input) _ h2 in
      let (cc_, e4, h4) = >>=-eq-ok (normalize_recipients u "cc" f) _ h3 in
      let (bcc, e5, h5) = >>=-eq-ok (normalize_recipients u "bcc" f) _ h4 in
      let (subject, e6, h6) = >>=-eq-ok (normalize_text u "subject" f) _ h5 in
      let (body, e7, h7) = >>=-eq-ok (normalize_text u "body" f) _ h6 in
      again to cc_ bcc subject body q (ok_injective h7) (normalize_recipients-out "to" f e2)
        (ensure_holds _ _ e3) (normalize_recipients-out "cc" f e4)
        (normalize_recipients-out "bcc" f e5) (normalize_text-out "subject" f e6)
        (normalize_text-out "body" f e7)
