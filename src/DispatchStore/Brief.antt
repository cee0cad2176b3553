-- ===== src/DispatchStore/Brief.antt =====
-- `build_briefing_payload` of src/cluxion_runtime/core/dispatch_store.py.
use Prim.Native.String.{◌++◌ as text_append}
use clx_preprocessing.Prelude.{List, String, [], if◌then◌else◌, length, map, ℕ, ◌∷◌}
use clx_preprocessing.Json.{Fields, get_or, str_of}
use clx_preprocessing.Result.{Result, ok, ◌>>=◌}
use clx_preprocessing.Dispatch.{
  Leaf, Python, Store, is_succeeded, no_text, steps_of, validated_work_id,
}
use clx_preprocessing.Dispatch.Brief.{join_with as join_texts}
use clx_preprocessing.DispatchStore.{load_dispatch_bundle}

pub data Reply : Type 0 where
  not_ready : List String → Reply
  ready : String → ℕ → Reply

module _ (py : Python) where
  shown : String → Fields → String
  shown key step = str_of py.render (get_or key no_text step)

  -- `missing`
  unfoldable pub missing_ids : List Fields → List String
  unfolding shown
  missing_ids [] = []
  missing_ids (step ∷ steps) =
      let rest = missing_ids steps in
      if is_succeeded step then rest else shown "step_id" step ∷ rest

  -- `_briefing_step_block`
  unfoldable pub briefing_step_block : Fields → String
  unfolding shown
  briefing_step_block step = join_texts "\n" (text_append "step_id=" (shown "step_id" step)) (
      text_append "segment_id=" (shown "segment_id" step)
      ∷ text_append "checksum=" (shown "checksum" step)
      ∷ shown "result" step
      ∷ [])

  -- `_briefing_prompt`
  unfoldable pub briefing_prompt : Fields → List String → String
  unfolding shown
  briefing_prompt bundle blocks = join_texts "\n\n" "[cluxion_final_briefing]" (
      text_append "work_id=" (shown "work_id" bundle)
      ∷ "Synthesize the ordered segment results into a concise user-facing briefing."
      ∷ "Separate verified facts, tool results, inferences, missing checks, and remaining risks."
      ∷ "[segment_results]"
      ∷ blocks)

  unfoldable pub on_missing : Fields → List Fields → List String → Reply
  on_missing bundle steps [] =
      ready (briefing_prompt bundle (map briefing_step_block steps)) (length steps)
  on_missing bundle steps (m ∷ missing) = not_ready (m ∷ missing)

  unfoldable pub briefing_of : Leaf → Result Reply
  unfolding on_missing
  briefing_of leaf = do
    bundle ← load_dispatch_bundle leaf
    steps ← steps_of bundle
    ok (on_missing bundle steps (missing_ids steps))

  unfoldable pub build_briefing_payload : String → Store → Result Reply
  build_briefing_payload work_id store = do w ← validated_work_id py work_id; briefing_of (store w)
