-- ===== src/Intent/Agreement.antt =====
-- The two classifications of a text, for the intent and for the preprocessing.
use clx_preprocessing.Prelude.{
  Bool-cases, List, String, [], arith, false, inl, inr, refl, true, ◌||◌, ◌∷◌, ◌≡◌, ◌⊎◌,
}
use clx_preprocessing.Chars.{Text}
use clx_preprocessing.Types.{AgentSurface}
use clx_preprocessing.Preprocess.Signals.{code_points, has_any, is_in, lightweight_intent_category}
use clx_preprocessing.Intent.{by_keywords, classify_text}

has_any-more :
    (text : Text) (a b c d e : String)
    → has_any text (a ∷ b ∷ c ∷ d ∷ e ∷ [])
      ≡ (has_any text (a ∷ b ∷ c ∷ d ∷ []) || is_in (code_points e) text)
unfolding has_any
has_any-more text a b c d e = ground arith

-- On any text, and without a local route, the intent's category is the one that preprocessing finds
-- in the same text, but for a text that preprocessing takes for a general one and that holds `사용법`,
-- which the intent counts as documentation.
pub categories_agree :
    (surface : AgentSurface) (text : Text)
    → ((classify_text false surface text).category ≡ lightweight_intent_category text)
      ⊎ ((lightweight_intent_category text ≡ "general")
          × (is_in (code_points "사용법") text ≡ true)
          × ((classify_text false surface text).category ≡ "documentation"))
unfolding classify_text by_keywords lightweight_intent_category
categories_agree surface text =
    let local_words : List String =
      "vllm-mlx" ∷ "mlx" ∷ "local model" ∷ "로컬모델" ∷ "로컬 모델" ∷ "serve-local" ∷ [] in
    let risks : List String = "security" ∷ "audit" ∷ "vulnerability" ∷ "보안" ∷ "취약점" ∷ "시크릿" ∷ [] in
    let tests : List String = "test" ∷ "pytest" ∷ "unit" ∷ "테스트" ∷ "검증" ∷ [] in
    let coding : List String =
      "code" ∷ "implement" ∷ "fix" ∷ "refactor" ∷ "패치" ∷ "수정" ∷ "구현" ∷ "리팩터" ∷ [] in
    let docs : List String = "docs" ∷ "readme" ∷ "문서" ∷ "가이드" ∷ [] in
    let more = has_any-more text "docs" "readme" "문서" "가이드" "사용법" in
    elim (Bool-cases (has_any text local_words)) [
      | inl a ↦ inl (rw (a) refl)
      | inr a ↦ elim (Bool-cases (has_any text risks)) [
        | inl b ↦ inl (rw (a, b) refl)
        | inr b ↦ elim (Bool-cases (has_any text tests)) [
          | inl c ↦ inl (rw (a, b, c) refl)
          | inr c ↦ elim (Bool-cases (has_any text coding)) [
            | inl d ↦ inl (rw (a, b, c, d) refl)
            | inr d ↦ elim (Bool-cases (has_any text docs)) [
              | inl e ↦ inl (rw (a, b, c, d, more, e) refl)
              | inr e ↦ elim (Bool-cases (is_in (code_points "사용법") text)) [
                | inl f ↦ inr (rw (a, b, c, d, e) refl, f, rw (a, b, c, d, more, e, f) refl)
                | inr f ↦ inl (rw (a, b, c, d, more, e, f) refl)
              ]
            ]
          ]
        ]
      ]
    ]
