-- ===== src/Memory/Greedy.antt =====
-- A loop that adds to a list what its test does not skip, until the list is full: what the
-- selections of cognition.rs have in common.
use mathlib.Core.Path.{subst}
use mathlib.Core.List.{Sublistᴰ, Memᴰ}
use mathlib.Core.List.Memᴰ
use aadesh.Common.{
  ℕ, suc, ◌≤◌, ◌<◌, ◌≡◌, refl, sym, ap, ◌∙◌, ◌⊎◌, inl, inr, Bool, true, false, List, [], ◌∷◌, ◌++◌,
  arith, length, All,
}

pub append_nil {ℓ} : {A : Type ℓ} (xs : List A) → xs ++ [] ≡ xs
append_nil [] = refl
append_nil (x ∷ xs) = ap (λ ys. x ∷ ys) (append_nil xs)

append_snoc {ℓ} :
    {A : Type ℓ} (xs : List A) (y : A) (zs : List A) → (xs ++ y ∷ []) ++ zs ≡ xs ++ y ∷ zs
append_snoc [] y zs = refl
append_snoc (x ∷ xs) y zs = ap (λ ys. x ∷ ys) (append_snoc xs y zs)

pub none_of {ℓ} : {A : Type ℓ} (xs : List A) → Sublistᴰ [] xs
none_of [] = Sublistᴰ.slnil
none_of (x ∷ xs) = Sublistᴰ.cons (none_of xs)

module _ {A : Type 0} (skip : List A → A → Bool) (max_items : ℕ) where
  -- `out` is what the loop makes of `selected` on the candidates.
  abbrev pub IsGreedy : List A → List A → List A → Type 0
  IsGreedy selected [] out = out ≡ selected
  IsGreedy selected (c ∷ cs) out =
      ((skip selected c ≡ true) × IsGreedy selected cs out)
      ⊎ ((skip selected c ≡ false)
          × (((max_items ≤ length (selected ++ c ∷ [])) × (out ≡ selected ++ c ∷ []))
              ⊎ ((length (selected ++ c ∷ []) < max_items) × IsGreedy (selected ++ c ∷ []) cs out)))

  -- What is added are candidates, in their order.
  pub grows :
      (selected cs out : List A)
      → IsGreedy selected cs out
      → (more : List A) × (out ≡ selected ++ more) × Sublistᴰ more cs
  grows selected [] out e = ([], e ∙ sym (append_nil selected), Sublistᴰ.slnil)
  grows selected (c ∷ cs) out (inl (s, g)) =
      let (more, e, sub) = grows selected cs out g in (more, e, Sublistᴰ.cons sub)
  grows selected (c ∷ cs) out (inr (s, inl (f, e))) =
      (c ∷ [], e, Sublistᴰ.cons-cons refl (none_of cs))
  grows selected (c ∷ cs) out (inr (s, inr (f, g))) =
      let (more, e, sub) = grows (selected ++ c ∷ []) cs out g in
      (c ∷ more, e ∙ append_snoc selected c more, Sublistᴰ.cons-cons refl sub)

  pub keeps {κ} :
      (P : List A → Type κ)
      → ((xs : List A) (c : A) → P xs → skip xs c ≡ false → P (xs ++ c ∷ []))
      → (selected cs out : List A) → IsGreedy selected cs out
      → P selected
      → P out
  keeps P step selected [] out e p = subst P (sym e) p
  keeps P step selected (c ∷ cs) out (inl (s, g)) p = keeps P step selected cs out g p
  keeps P step selected (c ∷ cs) out (inr (s, inl (f, e))) p = subst P (sym e) (step selected c p s)
  keeps P step selected (c ∷ cs) out (inr (s, inr (f, g))) p =
      keeps P step (selected ++ c ∷ []) cs out g (step selected c p s)

  length-snoc : (xs : List A) (c : A) → length (xs ++ c ∷ []) ≡ suc (length xs)
  length-snoc [] c = refl
  length-snoc (x ∷ xs) c = ap suc (length-snoc xs c)

  pub stays_within :
      (selected cs out : List A)
      → IsGreedy selected cs out
      → length selected < max_items
      → length out ≤ max_items
  stays_within selected [] out e h = rw e (omega arith)
  stays_within selected (c ∷ cs) out (inl (s, g)) h = stays_within selected cs out g h
  stays_within selected (c ∷ cs) out (inr (s, inl (f, e))) h =
      rw e (rw (length-snoc selected c) (omega arith))
  stays_within selected (c ∷ cs) out (inr (s, inr (f, g))) h =
      stays_within (selected ++ c ∷ []) cs out g f

  -- Where there is room left in the end, every candidate is there or is skipped.
  pub leaves_none :
      ((xs more : List A) (c : A) → skip xs c ≡ true → skip (xs ++ more) c ≡ true)
      → (selected cs out : List A) → IsGreedy selected cs out
      → length out < max_items
      → All (λ c. Memᴰ c out ⊎ (skip out c ≡ true)) cs
  leaves_none mono selected [] out e h = tt
  leaves_none mono selected (c ∷ cs) out (inl (s, g)) h =
      let (more, e, sub) = grows selected cs out g in
      (inr (ap (λ xs. skip xs c) e ∙ mono selected more c s), leaves_none mono selected cs out g h)
  leaves_none mono selected (c ∷ cs) out (inr (s, inl (f, e))) h = absurd (full (ap length e))
    where
      full : length out ≡ length (selected ++ c ∷ []) → ⊥
      full same = omega arith
  leaves_none mono selected (c ∷ cs) out (inr (s, inr (f, g))) h =
      let (more, e, sub) = grows (selected ++ c ∷ []) cs out g in
      (
        inl (
            subst (λ xs. Memᴰ c xs) (sym (e ∙ append_snoc selected c more))
              (Memᴰ.append_right selected (Memᴰ.head refl))),
        leaves_none mono (selected ++ c ∷ []) cs out g h,
      )
