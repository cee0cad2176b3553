-- ===== src/Preprocess/Answer.antt =====
-- The answer policy of src/cluxion_runtime/core/preprocess.py.
use clx_preprocessing.Prelude.{
  Bool, List, String, [], if◌then◌else◌, leb, ltb, not, ℕ, ◌&&◌, ◌==◌, ◌||◌, ◌∷◌, comparable_texts,
  comparable_numbers,
}
use clx_preprocessing.Chars.{Text}
use clx_preprocessing.Types.{WorkItem, priority_int}
use clx_preprocessing.Preprocess.Signals.{
  code_points, explicit_local_route, from_keys, is_member, when,
}
use clx_preprocessing.Preprocess.Policy.{is_empty}

-- The fields of `AnswerPolicy` that `_answer_policy_for` sets.
pub record AnswerPolicy : Type 0 where
  pub response_contract : String
  pub verification_required : Bool
  pub citation_required : Bool
  pub uncertainty_level : String
  pub required_checks : List String
  pub rules : List String

unfoldable pub required_checks_for :
    (Text → Text) → WorkItem → String → String → Bool → List String → List String
required_checks_for lower item intent_category mode split_required signals = from_keys (
    when (is_member "current_fact" signals) "verify_current_or_recent_fact" (
      when (is_member "external_source" signals) "cite_external_source_or_document" (
        when (is_member "runtime_state" signals) "inspect_runtime_state_before_claiming" (
          when (is_member "explicit_check_request" signals) "run_requested_check_or_state_not_run" (
            when (intent_category == "engineering") "tie_claims_to_file_diff_or_command_output" (
              when (intent_category == "security") "tie_security_claims_to_evidence" (
                when (mode == "queued" || split_required) "preserve_segment_checksums_in_synthesis"
                  (when (explicit_local_route (lower (code_points item.model_route)))
                    "verify_local_model_endpoint_before_claiming_ready" []))))))))

unfoldable pub response_contract_for : String → Bool → Bool → String
response_contract_for mode verification_required citation_required =
    if mode == "queued"
    then "synthesize_from_segment_evidence"
    else if verification_required && citation_required
    then "verify_and_cite_before_answer"
    else if verification_required
    then "verify_before_answer"
    else if mode == "verification_answer"
    then "verify_before_answer"
    else "direct_answer_with_uncertainty_boundary"

unfoldable pub uncertainty_level_for : String → Bool → Bool → Bool → String
uncertainty_level_for mode verification_required citation_required split_required =
    if split_required || mode == "queued"
    then "high"
    else if verification_required || citation_required
    then "medium"
    else "low"

unfoldable pub rules_for : String → Bool → Bool → List String → List String
rules_for mode verification_required citation_required reason_codes = from_keys (
    "If the available context is insufficient, say that clearly before proceeding."
    ∷ "Do not fabricate file state, external facts, tool results, or model availability."
    ∷ "For current or environment-specific claims, verify through tools before presenting them as facts."
    ∷ "Separate verified facts from inferences and unknowns when accuracy matters."
    ∷ "If a check was not run, say it was not run; do not imply that it passed."
    ∷ when verification_required
        "Run the required checks before making the requested factual claim."
        (when citation_required
          "Attach source references for external or time-sensitive claims when the host surface supports it."
          (when (mode == "verification_answer")
            "Keep the answer short after verification; do not expand into unrelated planning."
            (when (is_member "verification_required" reason_codes)
              "Treat short verification prompts as fact-finding, not as ordinary simple chat."
              []))))

unfoldable pub answer_policy_for :
    (Text → Text) → WorkItem → String → String → Bool → List String → List String → AnswerPolicy
answer_policy_for lower item intent_category mode split_required reason_codes signals =
    let required_checks =
      required_checks_for lower item intent_category mode split_required signals in
    let verification_required = not (is_empty required_checks) in
    let citation_required =
      is_member "external_source" signals || is_member "current_fact" signals in
    record {
      response_contract = response_contract_for mode verification_required citation_required;
      verification_required = verification_required;
      citation_required = citation_required;
      uncertainty_level =
          uncertainty_level_for mode verification_required citation_required split_required;
      required_checks = required_checks;
      rules = rules_for mode verification_required citation_required reason_codes;
    }

unfoldable pub effort_for : WorkItem → ℕ → Bool → String → Bool → String
effort_for item token_estimate split_required mode preprocess_required =
    if not preprocess_required || mode == "simple_answer"
    then "simple"
    else if leb (priority_int item.priority) 1 || split_required || ltb 24000 token_estimate
    then "high"
    else if ltb 6000 token_estimate
    then "medium"
    else "low"
