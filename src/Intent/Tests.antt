-- ===== src/Intent/Tests.antt =====
-- The two classifications at a text.

use clx_preprocessing.Prelude.{[], false, refl, true, ◌∷◌, ◌≡◌, ◌⊎◌}
use clx_preprocessing.Types.{api, codex}
use clx_preprocessing.Preprocess.Signals.{code_points, has_any, is_in, lightweight_intent_category}
use clx_preprocessing.Intent.{by_keywords, classify_text}
use clx_preprocessing.Preprocess.{starts_with}
use clx_preprocessing.Intent.Agreement.{categories_agree}

documents : classify_text false api (code_points "사용법") ≡ record {
  category = "documentation";
  operation = "write_or_update_docs";
  local_model_requested = false;
  direction = "host_managed";
  confidence = 78;
  signals = "documentation" ∷ [];
}
unfolding classify_text by_keywords has_any is_in starts_with code_points
documents = refl

categories_agree_example :
    ((classify_text false codex (code_points "fix the docs")).category
      ≡ lightweight_intent_category (code_points "fix the docs"))
    ⊎ ((lightweight_intent_category (code_points "fix the docs") ≡ "general")
        × (is_in (code_points "사용법") (code_points "fix the docs") ≡ true)
        × ((classify_text false codex (code_points "fix the docs")).category ≡ "documentation"))
categories_agree_example = categories_agree codex (code_points "fix the docs")
