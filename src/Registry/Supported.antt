-- ===== src/Registry/Supported.antt =====
-- `mint_capability_snapshot` (storage.rs): snapshots whose schemas are registered.
use aadesh.Common.{
  any-append, String, ◌≡◌, true, Option, none, some, List, [], ◌∷◌, ◌++◌, any, All, sym,
}
use mathlib.Core.Path.{subst}
use aadesh.Json.{Value, Items, nil, cons, get, as_str, as_array}
use aadesh.Outcome.{ok, invalid_input, ensure, required, >>=-eq-ok, required-some, ensure_holds}
use aadesh.Schemas.Descriptor.{and_then}
use aadesh.Store.{Snapshot, SchemaEntry, is_schema}
use aadesh.Registry.Snapshots.{check_result_ref, check_action, check_actions, check_capabilities}

-- The value is there, and has the property.
abbrev pub Present {ℓ} : {A : Type ℓ} → (A → Type 0) → Option A → Type 0
Present P none = ⊥
Present P (some a) = P a

-- If the value is there, it has the property.
abbrev pub Optional {ℓ} : {A : Type ℓ} → (A → Type 0) → Option A → Type 0
Optional P none = Unit
Optional P (some a) = P a

-- Each value of a JSON array has the property.
abbrev pub AllItems : (Value → Type 0) → Items → Type 0
AllItems P nil = Unit
AllItems P (cons v rest) = P v × AllItems P rest

-- A schema is stored under the reference.
abbrev pub IsRegistered : List SchemaEntry → String → Type 0
IsRegistered schemas k = any (is_schema k) schemas ≡ true

-- The action names a registered schema of its arguments, and if it names one of its results, that is
-- registered as well.
abbrev pub IsTyped : List SchemaEntry → Value → Type 0
IsTyped schemas action =
    Present (IsRegistered schemas) (and_then (get "args_schema_ref" action) as_str)
    × Optional (IsRegistered schemas) (and_then (get "result_schema_ref" action) as_str)

-- The capability lists actions, and each is typed.
abbrev pub IsUsable : List SchemaEntry → Value → Type 0
IsUsable schemas capability =
    Present (AllItems (IsTyped schemas)) (and_then (get "actions" capability) as_array)

-- The snapshot lists capabilities, and each is usable.
abbrev pub IsSupported : List SchemaEntry → Value → Type 0
IsSupported schemas v =
    Present (AllItems (IsUsable schemas)) (and_then (get "capabilities" v) as_array)

module _ {ℓ} {A : Type ℓ} (P Q : A → Type 0) (f : (a : A) → P a → Q a) where
  Present-weaken : (o : Option A) → Present P o → Present Q o
  Present-weaken none h = h
  Present-weaken (some a) h = f a h

  Optional-weaken : (o : Option A) → Optional P o → Optional Q o
  Optional-weaken none h = h
  Optional-weaken (some a) h = f a h

AllItems-weaken :
    (P Q : Value → Type 0)
    → ((v : Value) → P v → Q v)
    → (xs : Items) → AllItems P xs
    → AllItems Q xs
AllItems-weaken P Q f nil h = tt
AllItems-weaken P Q f (cons v rest) (p, h) = (f v p, AllItems-weaken P Q f rest h)

pub some-Present {ℓ} :
    {A : Type ℓ} (P : A → Type 0) (o : Option A) {a : A} → o ≡ some a → P a → Present P o
some-Present P o e p = subst (Present P) (sym e) p

module _ (schemas : List SchemaEntry) where
  result-Optional :
      (o : Option String) → check_result_ref schemas o ≡ ok tt → Optional (IsRegistered schemas) o
  result-Optional none h = tt
  result-Optional (some k) h = ensure_holds _ _ h

  action-IsTyped : (a : Value) → check_action schemas a ≡ ok tt → IsTyped schemas a
  unfolding check_action
  action-IsTyped a h =
      let (k, e1, h1) =
        >>=-eq-ok (required (and_then (get "args_schema_ref" a) as_str) invalid_input) _ h in
      let (_, e2, h2) = >>=-eq-ok (ensure (any (is_schema k) schemas) invalid_input) _ h1 in
      (
        some-Present (IsRegistered schemas) _ (required-some _ _ e1) (ensure_holds _ _ e2),
        result-Optional _ h2,
      )

  actions-IsTyped : (xs : Items) → check_actions schemas xs ≡ ok tt → AllItems (IsTyped schemas) xs
  unfolding check_actions
  actions-IsTyped nil h = tt
  actions-IsTyped (cons a rest) h =
      let (_, e1, h1) = >>=-eq-ok (check_action schemas a) _ h in
      (action-IsTyped a e1, actions-IsTyped rest h1)

  -- What the two loops accept is usable.
  pub check_capabilities-IsUsable :
      (xs : Items) → check_capabilities schemas xs ≡ ok tt → AllItems (IsUsable schemas) xs
  unfolding check_capabilities
  check_capabilities-IsUsable nil h = tt
  check_capabilities-IsUsable (cons c rest) h =
      let (actions, e1, h1) =
        >>=-eq-ok (required (and_then (get "actions" c) as_array) invalid_input) _ h in
      let (_, e2, h2) = >>=-eq-ok (check_actions schemas actions) _ h1 in
      (
        some-Present (AllItems (IsTyped schemas)) _ (required-some _ _ e1)
            (actions-IsTyped actions e2),
        check_capabilities-IsUsable rest h2,
      )

module _ (schemas : List SchemaEntry) (e : SchemaEntry) where
  abbrev more : List SchemaEntry
  more = schemas ++ e ∷ []

  IsTyped-append : (a : Value) → IsTyped schemas a → IsTyped more a
  IsTyped-append a (args, result) =
      let f =
        λ (k : String) (h : IsRegistered schemas k). any-append (is_schema k) schemas (e ∷ []) h in
      (
        Present-weaken (IsRegistered schemas) (IsRegistered more) f _ args,
        Optional-weaken (IsRegistered schemas) (IsRegistered more) f _ result,
      )

  IsUsable-append : (c : Value) → IsUsable schemas c → IsUsable more c
  IsUsable-append c =
      Present-weaken (AllItems (IsTyped schemas)) (AllItems (IsTyped more))
        (AllItems-weaken (IsTyped schemas) (IsTyped more) IsTyped-append) _

  -- An entry more in the registry leaves snapshots supported.
  pub IsSupported-append :
      (ss : List Snapshot)
      → All (λ (s : Snapshot). IsSupported schemas s.payload) ss
      → All (λ (s : Snapshot). IsSupported more s.payload) ss
  IsSupported-append [] h = tt
  IsSupported-append (s ∷ ss) (p, h) = (
    Present-weaken (AllItems (IsUsable schemas)) (AllItems (IsUsable more))
        (AllItems-weaken (IsUsable schemas) (IsUsable more) IsUsable-append) _ p,
    IsSupported-append ss h,
  )
