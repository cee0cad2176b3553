-- ===== src/Preprocess/Skipped.antt =====
-- The prompts that skip the harness.
use clx_preprocessing.Prelude.{
  Bool, Bool-cases, List, Option, String, ap, arith, eq_iff, false, if◌then◌else◌, inl, inr, length,
  ltb_ℤ, none, pos, refl, some, subst, sym, true, ℕ, ◌∙◌, ◌∷◌, ◌≡◌, ◌≤◌,
}
use clx_preprocessing.Chars.{Text}
use clx_preprocessing.Types.{WorkItem, priority_int}
use clx_preprocessing.Preprocess.{estimate_tokens as estimate_tokens}
use clx_preprocessing.Preprocess.Signals.{
  bounded_signal_text, code_points, explicit_local_route, has_any, preprocess_keywords,
  verification_signals,
}
use clx_preprocessing.Preprocess.Policy.{
  Verdict, by_prompt, can_use_verification_fast_path, category_or, is_clarification, is_empty,
  needs_split, preprocess_policy, work_verdict,
}

-- A prompt of at most so many tokens and characters, which fits in one segment, with no local model,
-- a priority below high, no memory budget and a context of at most 512 tokens.
pub record IsSmall (lower : Text → Text) (item : WorkItem)
    (max_segment_chars max_segment_tokens : ℕ) (local_model_requested : Bool) (tokens chars : ℕ)
    : Type 0 where
  pub fits_chars : length (code_points item.prompt) ≤ max_segment_chars
  pub fits_tokens : estimate_tokens (code_points item.prompt) ≤ max_segment_tokens
  pub not_requested : local_model_requested ≡ false
  pub not_local : explicit_local_route (lower (code_points item.model_route)) ≡ false
  pub not_urgent : 2 ≤ priority_int item.priority
  pub no_budget : ltb_ℤ (pos 0) item.expected_ram_mb ≡ false
  pub small_context : ltb_ℤ (pos 512) item.context_tokens ≡ false
  pub few_tokens : estimate_tokens (code_points item.prompt) ≤ tokens
  pub few_chars : length (code_points item.prompt) ≤ chars

-- Why a prompt skips the harness, by the mode.
pub data Skips (lower : Text → Text) (item : WorkItem) (max_segment_chars max_segment_tokens : ℕ)
    (local_model_requested : Bool) (force_mode : Option String) : String → Type 0 where
  clarifies :
      force_mode ≡ some "needs_clarification"
      → Skips lower item max_segment_chars max_segment_tokens local_model_requested force_mode
          "needs_clarification"
  verifies :
      IsSmall lower item max_segment_chars max_segment_tokens local_model_requested 240 1200
      → is_empty (verification_signals (bounded_signal_text lower (code_points item.prompt)))
        ≡ false
      → Skips lower item max_segment_chars max_segment_tokens local_model_requested force_mode
          "verification_answer"
  answers :
      IsSmall lower item max_segment_chars max_segment_tokens local_model_requested 160 800
      → has_any (lower (code_points item.prompt)) preprocess_keywords ≡ false
      → Skips lower item max_segment_chars max_segment_tokens local_model_requested force_mode
          "simple_answer"

forced :
    (force_mode : Option String)
    → is_clarification force_mode ≡ true
    → force_mode ≡ some "needs_clarification"
unfolding is_clarification
forced none e = cc e
forced (some mode) e = ap some ((eq_iff mode "needs_clarification").0 e)

module _ (lower : Text → Text) (item : WorkItem) (tokens : ℕ) (split local_model_requested : Bool)
    (category : String) (signals : List String) where
  abbrev verdict : Verdict
  verdict = preprocess_policy lower item tokens split category local_model_requested signals

  -- The tests that a prompt which skips the harness has passed.
  record Passed : Type 0 where
    whole : split ≡ false
    not_requested : local_model_requested ≡ false
    not_local : explicit_local_route (lower (code_points item.model_route)) ≡ false
    not_urgent : 2 ≤ priority_int item.priority
    no_budget : ltb_ℤ (pos 0) item.expected_ram_mb ≡ false
    small_context : ltb_ℤ (pos 512) item.context_tokens ≡ false

  passed : verdict.1 ≡ false → Passed
  unfolding preprocess_policy
  passed h = record {
    whole = ground (arith, h);
    not_requested = ground (arith, h);
    not_local = ground (arith, h);
    not_urgent = ground (arith, h);
    no_budget = ground (arith, h);
    small_context = ground (arith, h);
  }

  abbrev fast : Bool
  fast = can_use_verification_fast_path item tokens category signals

  after_tests :
      Passed
      → verdict ≡ (
          if fast
          then ("verification_answer", false, "verification_required" ∷ signals)
          else by_prompt lower item tokens category)
  unfolding preprocess_policy
  after_tests p =
      ground
        (arith, p.whole, p.not_requested, p.not_local, p.not_urgent, p.no_budget, p.small_context)

  fast_lem :
      fast ≡ true
      → (is_empty signals ≡ false) × (tokens ≤ 240) × (length (code_points item.prompt) ≤ 1200)
  unfolding can_use_verification_fast_path
  fast_lem h = (ground (arith, h), ground (arith, h), ground (arith, h))

  by_prompt_lem :
      (by_prompt lower item tokens category).1 ≡ false
      → ((by_prompt lower item tokens category).0 ≡ "simple_answer")
        × (tokens ≤ 160)
        × (length (code_points item.prompt) ≤ 800)
        × (has_any (lower (code_points item.prompt)) preprocess_keywords ≡ false)
  unfolding by_prompt
  by_prompt_lem h = (ground (arith, h), ground (arith, h), ground (arith, h), ground (arith, h))

module _ (lower : Text → Text) (item : WorkItem) (max_segment_chars max_segment_tokens : ℕ)
    (intent_category : Option String) (local_model_requested : Bool)
    (force_mode : Option String) where
  abbrev signal_text : Text
  signal_text = bounded_signal_text lower (code_points item.prompt)

  abbrev chosen : Verdict
  chosen =
      preprocess_policy lower item (estimate_tokens (code_points item.prompt))
        (needs_split max_segment_chars max_segment_tokens item)
        (category_or intent_category signal_text) local_model_requested
        (verification_signals signal_text)

  abbrev quick : Bool
  quick =
      can_use_verification_fast_path item (estimate_tokens (code_points item.prompt))
        (category_or intent_category signal_text) (verification_signals signal_text)

  small :
      (tokens chars : ℕ)
      → Passed lower item
          (estimate_tokens (code_points item.prompt))
          (needs_split max_segment_chars max_segment_tokens item)
          local_model_requested
          (category_or intent_category signal_text)
          (verification_signals signal_text)
      → estimate_tokens (code_points item.prompt) ≤ tokens
      → length (code_points item.prompt) ≤ chars
      → IsSmall lower item max_segment_chars max_segment_tokens local_model_requested tokens chars
  unfolding needs_split
  small tokens chars p few short = record {
    fits_chars = ground (arith, p.whole);
    fits_tokens = ground (arith, p.whole);
    not_requested = p.not_requested;
    not_local = p.not_local;
    not_urgent = p.not_urgent;
    no_budget = p.no_budget;
    small_context = p.small_context;
    few_tokens = few;
    few_chars = short;
  }

  chosen_Skips :
      chosen.1 ≡ false
      → Skips lower item max_segment_chars max_segment_tokens local_model_requested force_mode
          chosen.0
  chosen_Skips h =
      let category = category_or intent_category signal_text in
      let signals = verification_signals signal_text in
      let tokens = estimate_tokens (code_points item.prompt) in
      let split = needs_split max_segment_chars max_segment_tokens item in
      let p = passed lower item tokens split local_model_requested category signals h in
      let is = after_tests lower item tokens split local_model_requested category signals p in
      elim (Bool-cases quick) [
        | inl taken ↦
            let (found, few, short) =
              fast_lem lower item tokens split local_model_requested category signals taken in
            let mode : chosen.0 ≡ "verification_answer" = (ap (λ v. v.0) is ∙ (rw (taken) refl)) in
            subst
              (Skips lower item max_segment_chars max_segment_tokens local_model_requested
                force_mode)
              (sym mode) (verifies (small 240 1200 p few short) found)
        | inr passed_by ↦
            let is' : chosen ≡ by_prompt lower item tokens category = is ∙ (rw (passed_by) refl) in
            let (mode, few, short, none_found) =
              by_prompt_lem lower item tokens split local_model_requested category signals
                (sym (ap (λ v. v.1) is') ∙ h) in
            subst
              (Skips lower item max_segment_chars max_segment_tokens local_model_requested
                force_mode)
              (sym (ap (λ v. v.0) is' ∙ mode)) (answers (small 160 800 p few short) none_found)
      ]

  -- A prompt that `preprocess_work` does not send through the harness is one for which a
  -- clarification was forced; or it fits in one segment, names no local model, has a priority below
  -- high, no memory budget and a context of at most 512 tokens, and either has signals to verify and
  -- at most 240 tokens and 1200 characters, or has at most 160 tokens and 800 characters and none of
  -- the keywords of preprocessing. The mode says which.
  pub work_verdict_lem :
      (work_verdict lower item max_segment_chars max_segment_tokens intent_category
          local_model_requested force_mode).1
        ≡ false
      → Skips lower item max_segment_chars max_segment_tokens local_model_requested force_mode
          (work_verdict lower item max_segment_chars max_segment_tokens intent_category
            local_model_requested force_mode).0
  unfolding work_verdict
  work_verdict_lem h = elim (Bool-cases (is_clarification force_mode)) [
    | inl taken ↦ rw (taken) (clarifies (forced force_mode taken))
    | inr passed_by ↦ rw (passed_by) (chosen_Skips (rw passed_by at h))
  ]
