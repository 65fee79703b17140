-- ===== src/Kernel/Gate.antt =====
-- The outcomes of `compile_and_verify_stub` (kernel.rs), and the gate decision with them.
use aadesh.Common.{
  ℕ, String, ◌≡◌, ◌≢◌, ◌≤◌, ◌<◌, ◌↔◌, ◌⊎◌, inl, inr, refl, Bool, true, false, not, ◌||◌, ◌&&◌, List,
  [], ◌∷◌, Option, none, some, arith, any, All, Option-cases, leb,
}
use aadesh.Unicode.{Unicode}
use aadesh.Schemas.Descriptor.{ActionDescriptor}
use aadesh.Store.{Pins}
use aadesh.Kernel.{
  Attachment, attachment_sensitivity, no_attachment, high_stakes_keywords, RequestEnvelope,
  completed_draft, awaiting_approval, ApprovalPlan, Predicates, predicates, approval_plan, outcome,
  gate_decision, compile_and_verify_stub,
}

-- The attachment carries no hint of its sensitivity, or one of at most 2.
abbrev pub IsMild : Option ℕ → Type 0
IsMild none = Unit
IsMild (some n) = n ≤ 2

-- None of the words stands in the text.
abbrev pub IsFree : Unicode → String → List String → Type 0
IsFree u text = All (λ w. u.contains text w ≡ false)

module _ (u : Unicode) (text : String) where
  any-IsFree : (ws : List String) → any (u.contains text) ws ≡ false → IsFree u text ws
  any-IsFree [] h = tt
  any-IsFree (w ∷ ws) h = (ground arith, any-IsFree ws (ground arith))

  IsFree-any : (ws : List String) → IsFree u text ws → any (u.contains text) ws ≡ false
  IsFree-any [] h = refl
  IsFree-any (w ∷ ws) (e, h) = rw e (IsFree-any ws h)

attachment_sensitivity-IsMild :
    (as_ : List Attachment)
    → attachment_sensitivity as_ < 3
    → All (λ (a : Attachment). IsMild a.sensitivity_hint) as_
attachment_sensitivity-IsMild [] h = tt
attachment_sensitivity-IsMild (a ∷ as_) h = elim (Option-cases a.sensitivity_hint) [
  | inl none_given ↦ (rw none_given tt, attachment_sensitivity-IsMild as_ (ground arith))
  | inr (n, given) ↦ (rw given (ground arith), attachment_sensitivity-IsMild as_ (ground arith))
]

IsMild-attachment_sensitivity :
    (as_ : List Attachment)
    → All (λ (a : Attachment). IsMild a.sensitivity_hint) as_
    → attachment_sensitivity as_ < 3
IsMild-attachment_sensitivity [] h = omega arith
IsMild-attachment_sensitivity (a ∷ as_) (m, h) = elim (Option-cases a.sensitivity_hint) [
  | inl none_given ↦ rw none_given (omega (arith, IsMild-attachment_sensitivity as_ h))
  | inr (n, given) ↦
      let low : n ≤ 2 = rw given at m in
      rw given (omega (arith, IsMild-attachment_sensitivity as_ h))
]

-- What a request must be like for the gate to ask for the owner's approval of a send.
pub record IsSendable (u : Unicode) (request : RequestEnvelope) : Type 0 where
  pub send : u.contains (u.to_lowercase request.content) "send" ≡ true
  pub no_launder : IsFree u (u.to_lowercase request.content) ("[[taint_launder]]" ∷ [])
  pub no_leak :
      IsFree u (u.to_lowercase request.content) ("public" ∷ [])
      ⊎ All (λ (a : Attachment). IsMild a.sensitivity_hint) request.attachments
  pub grounded :
      IsFree u (u.to_lowercase request.content) (
        "[[high_stakes]]" ∷ "legal" ∷ "contract" ∷ "compliance" ∷ "security incident" ∷ "breach"
        ∷ "medical" ∷ "financial" ∷ "invoice" ∷ "payment" ∷ "tax" ∷ [])
      ⊎ (request.attachments ≢ [])
      ⊎ (u.contains (u.to_lowercase request.content) "[[evidence_attached]]" ≡ true)
  pub known : IsFree u (u.to_lowercase request.content) ("[[unknown_audience]]" ∷ [])

-- The predicates of the gate with which it asks for an approval.
record Passes (p : Predicates) : Type 0 where
  send : p.requested_send ≡ true
  no_launder : p.taint_launder ≡ false
  grounded : p.high_stakes_without_evidence ≡ false
  known : p.unknown_audience ≡ false

or-false : (a b : Bool) → (a || b) ≡ false → (a ≡ false) × (b ≡ false)
or-false a b h = (ground arith, ground arith)

and-false : (a b : Bool) → (a && b) ≡ false → (a ≡ false) ⊎ (b ≡ false)
and-false true b h = inr h
and-false false b h = inl refl

below_three : (n : ℕ) → leb 3 n ≡ false → n < 3
below_three n h = ground arith

evidence-cases : (a b : Bool) → not (not a || b) ≡ false → (a ≡ false) ⊎ (b ≡ true)
evidence-cases true b h = inr (ground arith)
evidence-cases false b h = inl refl

not_attached : (as_ : List Attachment) → as_ ≢ [] → no_attachment as_ ≡ false
not_attached [] h = absurd (h refl)
not_attached (a ∷ as_) h = refl

attached : (as_ : List Attachment) → no_attachment as_ ≡ false → as_ ≢ []
attached [] h e = absurd (cc)
attached (a ∷ as_) h e = absurd (cc)

module _ (u : Unicode) (request : RequestEnvelope) (descriptor : Option ActionDescriptor) where
  abbrev text : String
  text = u.to_lowercase request.content

  Passes-IsSendable : Passes (predicates u request descriptor) → IsSendable u request
  unfolding predicates
  Passes-IsSendable p = record {
    send = p.send;
    no_launder = ((or-false _ _ p.no_launder).0, tt);
    no_leak = elim (and-false _ _ (or-false _ _ p.no_launder).1) [
      | inl low ↦ inr (attachment_sensitivity-IsMild request.attachments (below_three _ low))
      | inr private ↦ inl (private, tt)
    ];
    grounded = elim (and-false _ _ p.grounded) [
      | inl calm ↦
          let (marked, worded) = or-false _ _ calm in
          inl (marked, any-IsFree u text high_stakes_keywords worded)
      | inr evidence ↦ inr (elim (evidence-cases _ _ evidence) [
        | inl some_attached ↦ inl (attached request.attachments some_attached)
        | inr shown ↦ inr shown
      ])
    ];
    known = (p.known, tt);
  }

  IsSendable-Passes : IsSendable u request → Passes (predicates u request descriptor)
  unfolding predicates
  IsSendable-Passes s = record {
    send = s.send;
    no_launder = elim s.no_leak [
      | inl private ↦ rw s.no_launder.0 (rw private.0 (ground arith))
      | inr mild ↦
          let low = IsMild-attachment_sensitivity request.attachments mild in
          rw s.no_launder.0 (ground arith)
    ];
    grounded = elim s.grounded [
      | inl calm ↦ rw calm.0 (rw (IsFree-any u text high_stakes_keywords calm.1) refl)
      | inr (inl some_attached) ↦ rw (not_attached request.attachments some_attached) (ground arith)
      | inr (inr shown) ↦ rw shown (ground arith)
    ];
    known = s.known.0;
  }

module _ (u : Unicode) (request : RequestEnvelope) (pins : Pins)
    (descriptor : Option ActionDescriptor) where
  -- The gate asks for an approval exactly if the descriptor of the send is there and supports a diff
  -- and, in the lower-case text of the request, `send` stands; `[[taint_launder]]` and
  -- `[[unknown_audience]]` do not; `public` does not, or no attachment has a hint of sensitivity of 3
  -- or more; and `[[high_stakes]]` and the ten words of high stakes do not, or there is an attachment,
  -- or `[[evidence_attached]]` stands in it.
  pub awaits_iff :
      ((plan : ApprovalPlan) × ((compile_and_verify_stub u request pins descriptor).outcome
          ≡ awaiting_approval plan))
      ↔ ((d : ActionDescriptor) × (descriptor ≡ some d)
          × (d.diff_supported ≡ true)
          × IsSendable u request)
  unfolding compile_and_verify_stub
  awaits_iff = (forth descriptor, back descriptor)
    where
      forth :
          (o : Option ActionDescriptor)
          → ((plan : ApprovalPlan) × (outcome u request o ≡ awaiting_approval plan))
          → (d : ActionDescriptor) × (o ≡ some d) × (d.diff_supported ≡ true) × IsSendable u request
      forth none (plan, e) = absurd (ground arith)
      forth (some d) (plan, e) =
          (d, refl, ground arith, Passes-IsSendable u request (some d) (ground arith))

      back :
          (o : Option ActionDescriptor)
          → (d : ActionDescriptor) × (o ≡ some d) × (d.diff_supported ≡ true) × IsSendable u request
          → (plan : ApprovalPlan) × (outcome u request o ≡ awaiting_approval plan)
      back o (d, e, s, i) = (
        approval_plan u request d,
        (let p : Passes (predicates u request o) = IsSendable-Passes u request o i in ground arith),
      )

  -- A request that asks for a send is never completed as a draft: it is blocked or it awaits the
  -- owner's approval of the diff. Its gate is at risk 3 at least, and its ceiling of sensitivity is 1.
  pub send_needs_approval :
      (predicates u request descriptor).requested_send ≡ true
      → ((compile_and_verify_stub u request pins descriptor).outcome ≢ completed_draft)
        × ((gate_decision u request pins descriptor).approval_mode ≡ "diff")
        × (3 ≤ (gate_decision u request pins descriptor).max_gate)
        × ((gate_decision u request pins descriptor).sensitivity_ceiling_s ≡ 1)
  unfolding compile_and_verify_stub
  send_needs_approval h = (not_draft descriptor h, rw h, rw h (omega arith), rw h)
    where
      not_draft :
          (o : Option ActionDescriptor)
          → (predicates u request o).requested_send ≡ true
          → outcome u request o ≢ completed_draft
      not_draft none e q = ground arith
      not_draft (some d) e q = ground arith
