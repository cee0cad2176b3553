-- ===== src/HybridForget/Tests.antt =====
-- A context of three messages; the first is pinned, and the second is dropped.
use clx_preprocessing.Preprocess.{estimate_tokens, is_ascii, lstrip, rstrip, starts_with, strip}
use clx_preprocessing.HybridForget.{
  any_left, apply_hybrid_forget, content_of, drop_one, drop_until, forgotten, importance_score,
  insert_scored, is_before, is_degenerate, is_nil, is_repeat, is_true_junk, kept_all, points,
  scored, sorted, without,
}
use clx_preprocessing.Chars.{Text, is_space}
use clx_preprocessing.ContextCompress.Pinned.{insert, sort}
use clx_preprocessing.Preprocess.Signals.{has_any, is_in}
use clx_preprocessing.Prelude.{
  All, Bool, List, String, [], count, false, refl, true, ℕ, ◌∷◌, ◌≡◌, ◌≤◌, ◌⊎◌,
}
use clx_preprocessing.Preprocess.Signals.{code_points as code_points}
use clx_preprocessing.ContextCompress.{Msg as Msg, contains as contains}
use clx_preprocessing.HybridForget.Spared.{forget_meets, forget_spares}

abbrev lower : Text → Text
lower text = text

abbrev no_file : Text → Bool
no_file _ = false

abbrev backed_up : ℕ → Text → Bool
backed_up n text = true

abbrev message : String → Msg
message content = record {
  role = code_points "user";
  content = code_points content;
  pinned = false;
}

abbrev context : List Msg
context =
    message "please decide what to do next"
    ∷ message "a long remark that leads nowhere at all"
    ∷ message "another remark, which stays"
    ∷ []

answered :
    (apply_hybrid_forget lower no_file backed_up context (0 ∷ []) 24 16).dropped_indices ≡ 1 ∷ []
unfolding apply_hybrid_forget rstrip is_nil drop_until is_space lstrip any_left is_true_junk strip
    forgotten insert starts_with is_degenerate is_ascii kept_all is_repeat content_of points scored
    drop_one estimate_tokens has_any is_in contains sort sorted insert_scored importance_score
    code_points is_before count
answered = refl

forget_spares_example :
    ((apply_hybrid_forget lower no_file backed_up context (0 ∷ []) 24 16).messages
      ≡ without
          (apply_hybrid_forget lower no_file backed_up context (0 ∷ []) 24 16).dropped_indices
          0
          context)
    × All
        (λ i. contains i (0 ∷ []) ≡ false)
        (apply_hybrid_forget lower no_file backed_up context (0 ∷ []) 24 16).dropped_indices
forget_spares_example = forget_spares lower no_file backed_up context (0 ∷ []) 24 16

forget_meets_example :
    ((apply_hybrid_forget lower no_file backed_up context (0 ∷ []) 24 16).tokens_after ≤ 16)
    ⊎ ((apply_hybrid_forget lower no_file backed_up context (0 ∷ []) 24 16).over_target_pinned_only
        ≡ true)
forget_meets_example = forget_meets lower no_file backed_up context (0 ∷ []) 24 16
