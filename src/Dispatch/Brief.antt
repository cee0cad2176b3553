-- ===== src/Dispatch/Brief.antt =====
-- `_brief` of src/cluxion_runtime/resources/py_queue.py.
use Prim.Native.String.{◌++◌ as text_append}
use clx_preprocessing.Prelude.{List, Option, String, [], if◌then◌else◌, length, map, ℕ, ◌∷◌}
use clx_preprocessing.Json.{Fields, Json, get_or, str_of}
use clx_preprocessing.Result.{Result, ok, ◌>>=◌}
use clx_preprocessing.Dispatch.{
  Leaf, Python, Store, is_succeeded, no_text, read_bundle, require_str, steps_of, validated_work_id,
}

pub data Reply : Type 0 where
  not_ready : List Json → Reply
  ready : String → ℕ → Reply

-- `[s.get("step_id", "") for s in steps if s.get("status") != "succeeded"]`
unfoldable pub missing_steps : List Fields → List Json
missing_steps [] = []
missing_steps (s ∷ steps) =
    let rest = missing_steps steps in
    if is_succeeded s then rest else get_or "step_id" no_text s ∷ rest

abbrev pub join_with : String → String → List String → String
join_with sep first [] = first
join_with sep first (t ∷ rest) = text_append first (text_append sep (join_with sep t rest))

module _ (py : Python) where
  shown : String → Fields → String
  shown key s = str_of py.render (get_or key no_text s)

  unfoldable pub result_block : Fields → String
  unfolding shown
  result_block s = join_with "\n" (text_append "step_id=" (shown "step_id" s)) (
      text_append "segment_id=" (shown "segment_id" s)
      ∷ text_append "checksum=" (shown "checksum" s)
      ∷ shown "result" s
      ∷ [])

  unfoldable pub briefing_prompt : Fields → List Fields → String
  unfolding result_block
  briefing_prompt bundle steps = join_with "\n\n" "[cluxion_final_briefing]" (
      text_append "work_id=" (shown "work_id" bundle)
      ∷ "Synthesize the ordered segment results into a concise user-facing briefing."
      ∷ "Separate verified facts, tool results, inferences, missing checks, and remaining risks."
      ∷ "[segment_results]"
      ∷ map result_block steps)

  pub on_missing : Fields → List Fields → List Json → Reply
  on_missing bundle steps [] = ready (briefing_prompt bundle steps) (length steps)
  on_missing bundle steps (m ∷ missing) = not_ready (m ∷ missing)

  -- The answer about the bundle at a path.
  unfoldable pub brief_leaf : Leaf → Result Reply
  unfolding on_missing
  brief_leaf leaf = do
    bundle ← read_bundle leaf
    steps ← steps_of bundle
    ok (on_missing bundle steps (missing_steps steps))

  unfoldable pub brief : Option Json → Store → Result Reply
  brief work_id store = do
    id ← require_str "work_id" work_id
    w ← validated_work_id py id
    brief_leaf (store w)
