-- ===== src/Memory/Selected.antt =====
-- `select_ranked_claims` and `fill_with_candidate_claims` (cognition.rs): what they choose.
use mathlib.Core.Path.{subst}
use mathlib.Core.List.{Sublistᴰ, Memᴰ}
use aadesh.Common.{
  ℕ, ◌≤◌, ◌<◌, String, ◌≡◌, refl, sym, ◌⊎◌, inl, inr, Bool, true, false, ◌||◌, List, [], ◌∷◌, ◌++◌,
  arith, leb, any, any-append, All, All-append, map, length, Bool-cases,
}
use aadesh.Memory.Texts.{Lowercase}
use aadesh.Memory.Claims.{
  MemoryClaimRecord, RankedClaim, claims_redundant, statement_suppressed, claim_is_suppressed,
  pick_claims, select_ranked_claims, fill_with_candidate_claims,
}
use aadesh.Memory.Greedy.{IsGreedy, append_nil, none_of, grows, keeps, stays_within, leaves_none}

module _ (lower : Lowercase) where
  -- No claim is redundant with an earlier one.
  abbrev pub IsIndependent : List MemoryClaimRecord → Type 0
  IsIndependent [] = Unit
  IsIndependent (x ∷ xs) = All (λ y. claims_redundant lower x y ≡ false) xs × IsIndependent xs

  module _ (suppressed : List String) where
    -- No claim is redundant with an earlier one, or overlaps or contradicts a suppressed statement.
    abbrev pub IsAdmissible : List MemoryClaimRecord → Type 0
    IsAdmissible xs =
        IsIndependent xs × All (λ c. statement_suppressed lower suppressed c ≡ false) xs

    abbrev skips : List MemoryClaimRecord → MemoryClaimRecord → Bool
    skips selected c = claim_is_suppressed lower selected c suppressed

    IsIndependent-snoc :
        (xs : List MemoryClaimRecord) (c : MemoryClaimRecord)
        → IsIndependent xs
        → any (λ x. claims_redundant lower x c) xs ≡ false
        → IsIndependent (xs ++ c ∷ [])
    IsIndependent-snoc [] c i h = (tt, tt)
    IsIndependent-snoc (x ∷ xs) c i h =
        let parts = split h in
        (All-append _ xs (c ∷ []) i.0 (parts.0, tt), IsIndependent-snoc xs c i.1 parts.1)
      where
        split : {a b : Bool} → (a || b) ≡ false → (a ≡ false) × (b ≡ false)
        split {a} {b} e = ground arith

    not_skipped :
        (xs : List MemoryClaimRecord) (c : MemoryClaimRecord)
        → skips xs c ≡ false
        → (statement_suppressed lower suppressed c ≡ false)
          × (any (λ x. claims_redundant lower x c) xs ≡ false)
    unfolding claim_is_suppressed
    not_skipped xs c h = ground arith

    IsAdmissible-snoc :
        (xs : List MemoryClaimRecord) (c : MemoryClaimRecord)
        → IsAdmissible xs
        → skips xs c ≡ false
        → IsAdmissible (xs ++ c ∷ [])
    IsAdmissible-snoc xs c a h =
        let (s, r) = not_skipped xs c h in
        (IsIndependent-snoc xs c a.0 r, All-append _ xs (c ∷ []) a.1 (s, tt))

    skips-append :
        (xs more : List MemoryClaimRecord) (c : MemoryClaimRecord)
        → skips xs c ≡ true
        → skips (xs ++ more) c ≡ true
    unfolding claim_is_suppressed
    skips-append xs more c h = elim (Bool-cases (statement_suppressed lower suppressed c)) [
      | inl s ↦ rw s refl
      | inr s ↦ rw s (any-append (λ x. claims_redundant lower x c) xs more (rw s at h))
    ]

    pick-IsGreedy :
        (max_items : ℕ) (selected : List MemoryClaimRecord) (ranked : List RankedClaim)
        → IsGreedy skips max_items selected
            (map (λ r. r.claim) ranked)
            (pick_claims lower max_items suppressed selected ranked)
    pick-IsGreedy max_items selected [] = refl
    pick-IsGreedy max_items selected (r ∷ ranked) = elim (Bool-cases (skips selected r.claim)) [
      | inl s ↦ inl (s, rw (s, pick_claims) (pick-IsGreedy max_items selected ranked))
      | inr s ↦ elim (Bool-cases (leb max_items (length (selected ++ r.claim ∷ [])))) [
        | inl f ↦ inr (s, inl (reached f, rw (s, pick_claims) (rw f refl)))
        | inr f ↦ inr (
          s,
          inr (
            room f,
            rw (s, pick_claims) (rw f (pick-IsGreedy max_items (selected ++ r.claim ∷ []) ranked)),
          ),
        )
      ]
    ]
      where
        reached : {a b : ℕ} → leb a b ≡ true → a ≤ b
        reached {a} {b} e = ground arith

        room : {a b : ℕ} → leb a b ≡ false → b < a
        room {a} {b} e = ground arith

    module _ (max_items : ℕ) (some_room : 1 ≤ max_items) (ranked : List RankedClaim) where
      abbrev claims_of : List RankedClaim → List MemoryClaimRecord
      claims_of = map (λ r. r.claim)

      full_or_room :
          (out : List MemoryClaimRecord) → (max_items ≤ length out) ⊎ (length out < max_items)
      full_or_room out = elim (Bool-cases (leb max_items (length out))) [
        | inl f ↦ inl (ground arith)
        | inr f ↦ inr (ground arith)
      ]

      -- Where at least one claim may be chosen, the choice among ranked claims is bounded, keeps
      -- their order, and has no claim that is redundant with an earlier one or suppressed by a
      -- statement. It is full, or every ranked claim is in it or suppressed.
      pub select_ranked_claims-IsAdmissible :
          (length (select_ranked_claims lower ranked max_items suppressed) ≤ max_items)
          × Sublistᴰ
              (select_ranked_claims lower ranked max_items suppressed)
              (map (λ r. r.claim) ranked)
          × IsAdmissible (select_ranked_claims lower ranked max_items suppressed)
          × ((max_items ≤ length (select_ranked_claims lower ranked max_items suppressed))
              ⊎ All
                  (λ c.
                    Memᴰ c (select_ranked_claims lower ranked max_items suppressed)
                    ⊎ (claim_is_suppressed lower
                          (select_ranked_claims lower ranked max_items suppressed)
                          c
                          suppressed
                        ≡ true))
                  (map (λ r. r.claim) ranked))
      unfolding select_ranked_claims
      select_ranked_claims-IsAdmissible =
          let out = pick_claims lower max_items suppressed [] ranked in
          let g = pick-IsGreedy max_items [] ranked in
          let (more, e, sub) = grows skips max_items [] (claims_of ranked) out g in
          (
            stays_within skips max_items [] (claims_of ranked) out g some_room,
            subst (λ xs. Sublistᴰ xs (claims_of ranked)) (sym e) sub,
            keeps skips max_items IsAdmissible IsAdmissible-snoc [] (claims_of ranked) out g
                (tt, tt),
            elim (full_or_room out) [
              | inl f ↦ inl f
              | inr f ↦ inr (leaves_none skips max_items skips-append [] (claims_of ranked) out g f)
            ],
          )

      -- Where at least one claim may be chosen, filling a choice among accepted claims with
      -- candidates keeps the choice at the front and adds candidates in their order, within the
      -- bound, with no claim that is redundant with an earlier one or suppressed by a statement. The
      -- result is full, or every candidate is in it or suppressed.
      pub fill_with_candidate_claims-select_ranked_claims :
          (candidates : List RankedClaim)
          → (out : List MemoryClaimRecord) × (more : List MemoryClaimRecord)
            × (fill_with_candidate_claims lower
                  (select_ranked_claims lower ranked max_items suppressed)
                  candidates
                  max_items
                  suppressed
                ≡ out)
            × (out ≡ select_ranked_claims lower ranked max_items suppressed ++ more)
            × Sublistᴰ more (map (λ r. r.claim) candidates)
            × (length out ≤ max_items)
            × IsAdmissible out
            × ((max_items ≤ length out)
                ⊎ All
                    (λ c. Memᴰ c out ⊎ (claim_is_suppressed lower out c suppressed ≡ true))
                    (map (λ r. r.claim) candidates))
      unfolding fill_with_candidate_claims
      fill_with_candidate_claims-select_ranked_claims candidates =
          let chosen = select_ranked_claims lower ranked max_items suppressed in
          let (bound, _, admissible, _) = select_ranked_claims-IsAdmissible in
          elim (Bool-cases (leb max_items (length chosen))) [
            | inl f ↦ (
              chosen,
              [],
              rw (f, fill_with_candidate_claims) refl,
              sym (append_nil chosen),
              none_of (claims_of candidates),
              bound,
              admissible,
              inl (ground arith),
            )
            | inr f ↦
                let out = pick_claims lower max_items suppressed chosen candidates in
                let g = pick-IsGreedy max_items chosen candidates in
                let (more, e, sub) = grows skips max_items chosen (claims_of candidates) out g in
                (
                  out,
                  more,
                  rw (f, fill_with_candidate_claims) refl,
                  e,
                  sub,
                  stays_within skips max_items chosen (claims_of candidates) out g (ground arith),
                  keeps skips max_items IsAdmissible IsAdmissible-snoc chosen (claims_of candidates)
                      out g admissible,
                  elim (full_or_room out) [
                    | inl h ↦ inl h
                    | inr h ↦ inr (
                        leaves_none skips max_items skips-append chosen (claims_of candidates) out g
                          h)
                  ],
                )
          ]
