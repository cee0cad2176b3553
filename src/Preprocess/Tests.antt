-- ===== src/Preprocess/Tests.antt =====
-- The segmentation of a small text.
use clx_preprocessing.Preprocess.Signals.{
  bounded_signal_text, code_points, equals, explicit_local_route, from_keys, has_any, is_in,
  is_member, lightweight_intent_category, verification_signals, when,
}
use clx_preprocessing.Preprocess.Policy.{
  by_prompt, can_use_verification_fast_path, category_or, is_clarification, needs_split,
  preprocess_policy, work_verdict,
}
use clx_preprocessing.Preprocess.{
  collect, cut, estimate_tokens, find_boundary, is_ascii, lstrip, rfind, rstrip, starts_with, strip,
}
use clx_preprocessing.Types.{WorkItem, api, normal, priority_int}
use clx_preprocessing.Prelude.{
  All, List, String, [], ap, arith, count, false, keep, none, pos, refl, some, true, ◌∷◌, ◌≡◌, ◌≢◌,
}
use clx_preprocessing.Chars.{Text, is_space}
use clx_preprocessing.Preprocess.Collect.{Shows, collect-Shows}
use clx_preprocessing.Preprocess.Places.{IsSlice, collect-IsSlice}
use clx_preprocessing.Preprocess.Answer.{answer_policy_for}
use clx_preprocessing.Preprocess.Guarantees.{citation_is_verified}
use clx_preprocessing.Preprocess.Skipped.{Skips, work_verdict_lem}

-- `ab  cd`
abbrev prompt : Text
prompt = 97 ∷ 98 ∷ 32 ∷ 32 ∷ 99 ∷ 100 ∷ []

two_segments : collect 40 4 100 0 prompt ≡ some ((97 ∷ 98 ∷ [], 0, 2) ∷ (99 ∷ 100 ∷ [], 4, 6) ∷ [])
unfolding collect find_boundary cut rfind starts_with strip lstrip rstrip is_space estimate_tokens
    is_ascii count
two_segments = refl

collect-Shows_example : Shows 4 100 prompt (collect 40 4 100 0 prompt)
collect-Shows_example = collect-Shows 100 6 40 4 0 prompt (omega arith) (omega arith) (omega arith)

abbrev question : WorkItem
question = record {
  work_id = "w";
  prompt = "current version?";
  surface = api;
  priority = normal;
  model_route = "host/default";
  expected_ram_mb = pos 0;
  context_tokens = pos 0;
  metadata = [];
}

abbrev keep_case : Text → Text
keep_case t = t

abbrev facts : List String
facts = "current_fact" ∷ []

finds_facts : verification_signals (code_points question.prompt) ≡ facts
unfolding verification_signals from_keys when has_any is_in code_points starts_with keep
finds_facts = refl

verdict_of_question :
    work_verdict keep_case question 72000 32000 none false none
    ≡ ("verification_answer", false, "verification_required" ∷ facts)
unfolding work_verdict lightweight_intent_category needs_split by_prompt is_clarification equals
    category_or bounded_signal_text when estimate_tokens starts_with is_member verification_signals
    can_use_verification_fast_path preprocess_policy has_any priority_int is_ascii is_in from_keys
    explicit_local_route code_points count keep
verdict_of_question = refl

work_verdict_lem_example :
    Skips keep_case question 72000 32000 false none
      (work_verdict keep_case question 72000 32000 none false none).0
work_verdict_lem_example =
    work_verdict_lem keep_case question 72000 32000 none false none
      (ap (λ v. v.1) verdict_of_question)

cites :
    (answer_policy_for keep_case question "general" "verification_answer" false
      ("verification_required" ∷ facts)
      facts).citation_required
    ≡ true
unfolding answer_policy_for is_member
cites = refl

citation_is_verified_example :
    ((answer_policy_for keep_case question "general" "verification_answer" false
        ("verification_required" ∷ facts)
        facts).verification_required
      ≡ true)
    × ((answer_policy_for keep_case question "general" "verification_answer" false
          ("verification_required" ∷ facts)
          facts).uncertainty_level
        ≢ "low")
citation_is_verified_example =
    citation_is_verified keep_case question "general" "verification_answer" false
      ("verification_required" ∷ facts) facts cites

collect-IsSlice_example : All (IsSlice 0 prompt) ((97 ∷ 98 ∷ [], 0, 2) ∷ (99 ∷ 100 ∷ [], 4, 6) ∷ [])
collect-IsSlice_example =
    collect-IsSlice 100 40 4 prompt ((97 ∷ 98 ∷ [], 0, 2) ∷ (99 ∷ 100 ∷ [], 4, 6) ∷ [])
      (omega arith) two_segments
