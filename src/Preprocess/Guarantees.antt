-- ===== src/Preprocess/Guarantees.antt =====
-- What is certain of a prompt that skips the harness, and of an answer that must cite.

use clx_preprocessing.Prelude.{
  Bool, Bool-cases, List, String, [], ap, arith, false, inl, inr, ne_of_test, not, refl, sym, true,
  ◌==◌, ◌||◌, ◌∙◌, ◌∷◌, ◌≡◌, ◌≢◌, ◌⊎◌, comparable_texts, comparable_numbers,
}
use clx_preprocessing.Chars.{Text}
use clx_preprocessing.Types.{WorkItem}
use clx_preprocessing.Preprocess.Signals.{from_keys, when}
use clx_preprocessing.Preprocess.Policy.{is_empty}
use clx_preprocessing.Preprocess.Answer.{
  answer_policy_for, required_checks_for, uncertainty_level_for,
}

is_empty-from_keys : (l : List String) → is_empty (from_keys l) ≡ is_empty l
unfolding from_keys
is_empty-from_keys [] = refl
is_empty-from_keys (n ∷ l) = refl

-- One of two tests that holds leaves a name.
is_empty-when :
    (a b : Bool) (n m : String) (others : List String)
    → (b || a) ≡ true
    → is_empty (when a n (when b m others)) ≡ false
unfolding when
is_empty-when true b n m others h = refl
is_empty-when false true n m others h = refl
is_empty-when false false n m others h = cc

-- What must be cited is never of the lowest uncertainty.
cited_lem :
    (mode : String) (verified split_required : Bool)
    → (uncertainty_level_for mode verified true split_required ≡ "high")
      ⊎ (uncertainty_level_for mode verified true split_required ≡ "medium")
unfolding uncertainty_level_for
cited_lem mode verified split_required = elim (Bool-cases (split_required || mode == "queued")) [
  | inl h ↦ inl (rw (h) refl)
  | inr h ↦ inr (ground (arith, h))
]

module _ (lower : Text → Text) (item : WorkItem) where
  -- An answer that must cite its sources must also be verified first, and is never presented with
  -- the lowest uncertainty.
  pub citation_is_verified :
      (category mode : String) (split_required : Bool) (reason_codes signals : List String)
      → (answer_policy_for lower item category mode split_required reason_codes
          signals).citation_required
        ≡ true
      → ((answer_policy_for lower item category mode split_required reason_codes
            signals).verification_required
          ≡ true)
        × ((answer_policy_for lower item category mode split_required reason_codes
              signals).uncertainty_level
            ≢ "low")
  unfolding answer_policy_for required_checks_for
  citation_is_verified category mode split_required reason_codes signals h =
      let p = answer_policy_for lower item category mode split_required reason_codes signals in
      (
        ap not (is_empty-from_keys _ ∙ is_empty-when _ _ _ _ _ h),
        λ low_level. elim (cited_lem mode p.verification_required split_required) [
          | inl e ↦ ne_of_test "high" "low" refl (
              sym e
              ∙ ap (λ c. uncertainty_level_for mode p.verification_required c split_required)
                  (sym h)
              ∙ low_level)
          | inr e ↦ ne_of_test "medium" "low" refl (
              sym e
              ∙ ap (λ c. uncertainty_level_for mode p.verification_required c split_required)
                  (sym h)
              ∙ low_level)
        ],
      )
