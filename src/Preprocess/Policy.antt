-- ===== src/Preprocess/Policy.antt =====
-- Whether src/cluxion_runtime/core/preprocess.py sends a prompt through the harness.
use Prim.Native.String.{◌++◌ as text_append}
use clx_preprocessing.Prelude.{
  Bool, List, Option, String, [], false, if◌then◌else◌, leb, length, ltb, ltb_ℤ, none, pos, some,
  true, ℕ, ◌==◌, ◌||◌, ◌∷◌, comparable_texts, comparable_numbers,
}
use clx_preprocessing.Chars.{Text}
use clx_preprocessing.Types.{WorkItem, priority_int}
use clx_preprocessing.Preprocess.{estimate_tokens as estimate_tokens}
use clx_preprocessing.Preprocess.Signals.{
  bounded_signal_text, code_points, explicit_local_route, has_any, is_member,
  lightweight_intent_category, preprocess_keywords, verification_signals,
}

-- Mode, whether preprocessing is required, reason codes.
abbrev pub Verdict : Type 0
Verdict = String × Bool × List String

abbrev pub required : String → Verdict
required reason = ("standard", true, reason ∷ [])

abbrev pub is_empty : List String → Bool
is_empty [] = true
is_empty (_ ∷ _) = false

unfoldable pub can_use_verification_fast_path : WorkItem → ℕ → String → List String → Bool
can_use_verification_fast_path item token_estimate category signals =
    if is_empty signals
    then false
    else if is_member category ("engineering" ∷ "security" ∷ "local_model" ∷ [])
    then false
    else if ltb 240 token_estimate
    then false
    else leb (length (code_points item.prompt)) 1200

-- The tests after the fast path.
unfoldable pub by_prompt : (Text → Text) → WorkItem → ℕ → String → Verdict
by_prompt lower item token_estimate category =
    if is_member category ("engineering" ∷ "security" ∷ "documentation" ∷ "local_model" ∷ [])
    then required (text_append "intent_" category)
    else if ltb 160 token_estimate
    then required "prompt_token_threshold"
    else if ltb 800 (length (code_points item.prompt))
    then required "prompt_char_threshold"
    else if has_any (lower (code_points item.prompt)) preprocess_keywords
    then required "preprocess_keyword"
    else ("simple_answer", false, "short_prompt" ∷ "no_tool_or_local_signals" ∷ [])

-- `_preprocess_policy`; the category is never empty.
unfoldable pub preprocess_policy :
    (Text → Text) → WorkItem → ℕ → Bool → String → Bool → List String → Verdict
preprocess_policy lower item token_estimate split_required category local_model_requested signals =
    if split_required
    then ("queued", true, "split_required" ∷ [])
    else if local_model_requested || explicit_local_route (lower (code_points item.model_route))
    then required "local_model_route"
    else if leb (priority_int item.priority) 1
    then required "priority_requires_harness"
    else if ltb_ℤ (pos 0) item.expected_ram_mb
    then required "explicit_memory_budget"
    else if ltb_ℤ (pos 512) item.context_tokens
    then required "large_context"
    else if can_use_verification_fast_path item token_estimate category signals
    then ("verification_answer", false, "verification_required" ∷ signals)
    else by_prompt lower item token_estimate category

-- `intent_category or _lightweight_intent_category(signal_text)`
unfoldable pub category_or : Option String → Text → String
category_or none signal_text = lightweight_intent_category signal_text
category_or (some category) signal_text =
    if category == "" then lightweight_intent_category signal_text else category

-- What decides `split_required` in `preprocess_work`.
unfoldable pub needs_split : ℕ → ℕ → WorkItem → Bool
needs_split max_segment_chars max_segment_tokens item =
    ltb max_segment_chars (length (code_points item.prompt))
    || ltb max_segment_tokens (estimate_tokens (code_points item.prompt))

unfoldable pub is_clarification : Option String → Bool
is_clarification none = false
is_clarification (some mode) = mode == "needs_clarification"

-- The mode, `preprocess_required` and the reason codes of `preprocess_work`.
unfoldable pub work_verdict :
    (Text → Text)
    → WorkItem
    → (max_segment_chars max_segment_tokens : ℕ) → Option String
    → Bool
    → Option String
    → Verdict
unfolding category_or needs_split is_clarification
work_verdict lower item max_segment_chars max_segment_tokens intent_category local_model_requested
      force_mode =
    let signal_text = bounded_signal_text lower (code_points item.prompt) in
    if is_clarification force_mode
    then ("needs_clarification", false, "clarification_required" ∷ [])
    else preprocess_policy lower item (estimate_tokens (code_points item.prompt))
        (needs_split max_segment_chars max_segment_tokens item)
        (category_or intent_category signal_text) local_model_requested
        (verification_signals signal_text)
