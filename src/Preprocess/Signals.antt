-- ===== src/Preprocess/Signals.antt =====
-- What src/cluxion_runtime/core/preprocess.py looks for in a prompt. `str.lower` is an argument.
use Prim.Native.Char.{code}
use clx_preprocessing.Prelude.{
  Bool, List, String, [], drop, false, if◌then◌else◌, keep, leb, length, max, not, take, ℕ, ◌&&◌,
  ◌++◌, ◌-◌, ◌/◌, ◌==◌, ◌||◌, ◌∷◌, comparable_texts, comparable_numbers,
}
use clx_preprocessing.Chars.{Text, newline}
use clx_preprocessing.Preprocess.{starts_with}

-- A text as its code points.
unfoldable pub code_points : String → Text
code_points String.[] = []
code_points (String.◌∷◌ c s) = code c ∷ code_points s

-- `needle in text`
unfoldable pub is_in : Text → Text → Bool
is_in needle [] = starts_with needle []
is_in needle (c ∷ s) = starts_with needle (c ∷ s) || is_in needle s

unfoldable pub has_any : Text → List String → Bool
has_any text [] = false
has_any text (needle ∷ needles) = is_in (code_points needle) text || has_any text needles

-- `name in names`
unfoldable pub is_member : String → List String → Bool
is_member name [] = false
is_member name (n ∷ names) = name == n || is_member name names

-- `tuple(dict.fromkeys(names))`: the first of equal names stays.
unfoldable pub from_keys : List String → List String
from_keys [] = []
from_keys (n ∷ names) = n ∷ keep (λ m. not (m == n)) (from_keys names)

abbrev pub signal_scan_char_limit : ℕ
signal_scan_char_limit = 4096

unfoldable pub bounded_signal_text : (Text → Text) → Text → Text
bounded_signal_text lower prompt =
    if leb (length prompt) signal_scan_char_limit
    then lower prompt
    else (let edge = max 1 (signal_scan_char_limit / 2) in
        lower (take edge prompt ++ newline ∷ drop (length prompt - edge) prompt))

-- `a == b`
unfoldable pub equals : Text → Text → Bool
equals a b = starts_with a b && starts_with b a

unfoldable pub explicit_local_route : Text → Bool
explicit_local_route route =
    (starts_with (code_points "local/") route
      || starts_with (code_points "mlx/") route
      || starts_with (code_points "vllm-mlx/") route
      || starts_with (code_points "vllm_mlx/") route)
    && not (equals (code_points "local/default") route)

abbrev pub preprocess_keywords : List String
preprocess_keywords =
    "audit" ∷ "benchmark" ∷ "build" ∷ "code" ∷ "debug" ∷ "deploy" ∷ "fix" ∷ "implement" ∷ "install"
    ∷ "patch" ∷ "pytest" ∷ "refactor" ∷ "security" ∷ "test" ∷ "vllm" ∷ "vllm-mlx" ∷ "구현" ∷ "긴"
    ∷ "디버그" ∷ "리팩터" ∷ "문서" ∷ "배포" ∷ "보안" ∷ "설치" ∷ "수정" ∷ "업그레이드" ∷ "전처리" ∷ "점검" ∷ "테스트" ∷ "패치" ∷ []

abbrev pub current_fact_keywords : List String
current_fact_keywords =
    "current" ∷ "latest" ∷ "recent" ∷ "release" ∷ "today" ∷ "version" ∷ "최신" ∷ "최근" ∷ "오늘" ∷ "현재"
    ∷ "릴리즈" ∷ "버전" ∷ []

abbrev pub external_source_keywords : List String
external_source_keywords =
    "docs" ∷ "github" ∷ "news" ∷ "paper" ∷ "pypi" ∷ "reference" ∷ "source" ∷ "url" ∷ "논문" ∷ "뉴스"
    ∷ "문서" ∷ "소스" ∷ "출처" ∷ "파이피" ∷ "깃허브" ∷ "링크" ∷ []

abbrev pub runtime_state_keywords : List String
runtime_state_keywords =
    "ci" ∷ "command" ∷ "env" ∷ "file" ∷ "installed" ∷ "log" ∷ "output" ∷ "path" ∷ "port" ∷ "process"
    ∷ "terminal" ∷ "venv" ∷ "경로" ∷ "로그" ∷ "명령" ∷ "설치" ∷ "실행" ∷ "출력" ∷ "파일" ∷ "포트" ∷ "프로세스" ∷ "환경"
    ∷ []

abbrev pub check_request_keywords : List String
check_request_keywords =
    "check" ∷ "confirm" ∷ "inspect" ∷ "look up" ∷ "search" ∷ "verify" ∷ "검사" ∷ "검색" ∷ "보기" ∷ "점검"
    ∷ "확인" ∷ []

unfoldable pub lightweight_intent_category : Text → String
lightweight_intent_category text =
    if has_any text ("vllm-mlx" ∷ "mlx" ∷ "local model" ∷ "로컬모델" ∷ "로컬 모델" ∷ "serve-local" ∷ [])
    then "local_model"
    else if has_any text ("security" ∷ "audit" ∷ "vulnerability" ∷ "보안" ∷ "취약점" ∷ "시크릿" ∷ [])
    then "security"
    else if has_any text ("test" ∷ "pytest" ∷ "unit" ∷ "테스트" ∷ "검증" ∷ [])
    then "engineering"
    else if has_any text
        ("code" ∷ "implement" ∷ "fix" ∷ "refactor" ∷ "패치" ∷ "수정" ∷ "구현" ∷ "리팩터" ∷ [])
    then "engineering"
    else if has_any text ("docs" ∷ "readme" ∷ "문서" ∷ "가이드" ∷ [])
    then "documentation"
    else "general"

-- `signals.append(name)` under `if`.
unfoldable pub when : Bool → String → List String → List String
when test name others = if test then name ∷ others else others

unfoldable pub verification_signals : Text → List String
verification_signals text = from_keys (
    when (has_any text current_fact_keywords) "current_fact" (
      when (has_any text external_source_keywords) "external_source" (
        when (has_any text runtime_state_keywords) "runtime_state"
          (when (has_any text check_request_keywords) "explicit_check_request" []))))
