-- ===== src/Intent.antt =====
-- src/cluxion_runtime/core/intent.py: the intent of a work item. `str.lower` is an argument, and the
-- confidence is a number of hundredths.
pub mod Agreement
mod Tests
use clx_preprocessing.Prelude.{
  Bool, List, String, [], false, if◌then◌else◌, true, ℕ, ◌++◌, ◌||◌, ◌∷◌,
}
use clx_preprocessing.Chars.{Text, newline}
use clx_preprocessing.Types.{AgentSurface, WorkItem, api, claude, codex, grok_build, hermes, local}
use clx_preprocessing.Preprocess.{starts_with}
use clx_preprocessing.Preprocess.Signals.{code_points, has_any, when}

pub record WorkIntent : Type 0 where
  pub category : String
  pub operation : String
  pub local_model_requested : Bool
  pub direction : String
  pub confidence : ℕ
  pub signals : List String

unfoldable pub direction_for_surface : AgentSurface → String
direction_for_surface hermes = "hermes_harness"
direction_for_surface codex = "codex_harness"
direction_for_surface claude = "claude_harness"
direction_for_surface grok_build = "grok_build_harness"
direction_for_surface local = "host_managed"
direction_for_surface api = "host_managed"

abbrev intent : String → String → Bool → String → ℕ → List String → WorkIntent
intent category operation local_model_requested direction confidence signals = record {
  category = category;
  operation = operation;
  local_model_requested = local_model_requested;
  direction = direction;
  confidence = confidence;
  signals = signals;
}

-- The tests on the text where no local model is asked for.
unfoldable pub by_keywords : AgentSurface → Text → WorkIntent
by_keywords surface text =
    if has_any text ("security" ∷ "audit" ∷ "vulnerability" ∷ "보안" ∷ "취약점" ∷ "시크릿" ∷ [])
    then intent "security" "review_risk" false "host_managed" 86 ("security" ∷ [])
    else if has_any text ("test" ∷ "pytest" ∷ "unit" ∷ "테스트" ∷ "검증" ∷ [])
    then intent "engineering" "verify_or_fix" false (direction_for_surface surface) 82 ("test" ∷ [])
    else if has_any text
        ("code" ∷ "implement" ∷ "fix" ∷ "refactor" ∷ "패치" ∷ "수정" ∷ "구현" ∷ "리팩터" ∷ [])
    then intent "engineering" "code_change" false (direction_for_surface surface) 80 ("coding" ∷ [])
    else if has_any text ("docs" ∷ "readme" ∷ "문서" ∷ "가이드" ∷ "사용법" ∷ [])
    then intent "documentation" "write_or_update_docs" false "host_managed" 78
        ("documentation" ∷ [])
    else intent "general" "plan_task" false (direction_for_surface surface) 55 []

-- `route` is true where the model route begins as a local one.
unfoldable pub classify_text : Bool → AgentSurface → Text → WorkIntent
classify_text route surface text =
    if route
      || has_any text ("vllm-mlx" ∷ "mlx" ∷ "local model" ∷ "로컬모델" ∷ "로컬 모델" ∷ "serve-local" ∷ [])
    then intent "local_model" "serve_endpoint" true "local_runtime" 92
        (when route "explicit_local_route" ("local_model" ∷ []))
    else by_keywords surface text

unfoldable pub is_local_route : Text → Bool
is_local_route route =
    starts_with (code_points "local/") route
    || starts_with (code_points "mlx/") route
    || starts_with (code_points "vllm-mlx/") route
    || starts_with (code_points "vllm_mlx/") route

unfoldable pub classify_intent : (Text → Text) → WorkItem → WorkIntent
classify_intent lower item =
    classify_text (is_local_route (lower (code_points item.model_route))) item.surface
      (lower (code_points item.prompt ++ newline ∷ code_points item.model_route))
