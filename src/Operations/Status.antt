-- ===== src/Operations/Status.antt =====
-- `aggregate_request_status` (storage.rs): the status of a request from those of its operations.
use aadesh.Common.{
  String, ◌≡◌, refl, sym, ap, ◌∙◌, Bool, true, false, ◌||◌, ◌&&◌, List, [], ◌∷◌, arith, ◌==◌,
  eq_iff, any, all,
}
use aadesh.Operations.States.{aggregate_request_status}

-- An operation that may still move on.
abbrev pub is_live : String → Bool
is_live s = (s == "running") || ((s == "awaiting_approval") || (s == "created"))

abbrev pub is_completed : String → Bool
is_completed s = s == "completed"

any-is_live :
    (ss : List String)
    → any is_live ss ≡ (
        any (λ s. s == "running") ss
        || (any (λ s. s == "awaiting_approval") ss || any (λ s. s == "created") ss))
any-is_live [] = refl
any-is_live (s ∷ ss) = ground (arith, any-is_live ss)

completed_is_not-live : (s : String) → is_completed s ≡ true → is_live s ≡ false
completed_is_not-live s h = rw ((eq_iff s "completed").0 h) refl

completed_are_not-live : (ss : List String) → all is_completed ss ≡ true → any is_live ss ≡ false
completed_are_not-live [] h = refl
completed_are_not-live (s ∷ ss) h =
    ground (arith, completed_is_not-live s, completed_are_not-live ss)

-- The tests behind the first, as a function of their results.
abbrev ladder : Bool → Bool → Bool → Bool → Bool → Bool → String
ladder true r w n x b = "completed"
ladder false true w n x b = "running"
ladder false false true n x b = "running"
ladder false false false true x b = "running"
ladder false false false false true b = "cancelled"
ladder false false false false false true = "blocked"
ladder false false false false false false = "failed"

status-eq-ladder :
    (s : String) (ss : List String)
    → aggregate_request_status (s ∷ ss)
      ≡ ladder
          (all is_completed (s ∷ ss))
          (any (λ t. t == "running") (s ∷ ss))
          (any (λ t. t == "awaiting_approval") (s ∷ ss))
          (any (λ t. t == "created") (s ∷ ss))
          (any (λ t. t == "cancelled") (s ∷ ss))
          (any (λ t. t == "blocked") (s ∷ ss))
unfolding aggregate_request_status
status-eq-ladder s ss = ground arith

ladder_tests :
    (c r w n x b : Bool)
    → (c ≡ true → (r || (w || n)) ≡ false)
    → ((ladder c r w n x b == "running") ≡ (r || (w || n)))
      × ((ladder c r w n x b == "completed") ≡ c)
ladder_tests true r w n x b h = (sym (h refl), refl)
ladder_tests false true w n x b h = (refl, refl)
ladder_tests false false true n x b h = (refl, refl)
ladder_tests false false false true x b h = (refl, refl)
ladder_tests false false false false true b h = (refl, refl)
ladder_tests false false false false false true h = (refl, refl)
ladder_tests false false false false false false h = (refl, refl)

abbrev pub has_some : List String → Bool
has_some [] = false
has_some (s ∷ ss) = true

-- A request is running exactly if one of its operations runs, awaits an approval or was just created;
-- it is completed exactly if it has operations and each of them is completed.
pub status_tests :
    (ss : List String)
    → ((aggregate_request_status ss == "running") ≡ any is_live ss)
      × ((aggregate_request_status ss == "completed") ≡ (has_some ss && all is_completed ss))
unfolding aggregate_request_status
status_tests [] = (refl, refl)
status_tests (s ∷ ss) =
    let live = any-is_live (s ∷ ss) in
    let all_done = all is_completed (s ∷ ss) in
    let tests =
      ladder_tests all_done (any (λ t. t == "running") (s ∷ ss))
        (any (λ t. t == "awaiting_approval") (s ∷ ss)) (any (λ t. t == "created") (s ∷ ss))
        (any (λ t. t == "cancelled") (s ∷ ss)) (any (λ t. t == "blocked") (s ∷ ss))
        (λ h. sym live ∙ completed_are_not-live (s ∷ ss) h) in
    let same = status-eq-ladder s ss in
    (ap (λ t. t == "running") same ∙ tests.0 ∙ sym live, ap (λ t. t == "completed") same ∙ tests.1)
