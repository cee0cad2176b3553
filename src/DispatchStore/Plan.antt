-- ===== src/DispatchStore/Plan.antt =====
-- How src/cluxion_runtime/core/dispatch_store.py makes a bundle of a plan and persists it in the
-- Python store. The branch that asks the Rust backend first is not modelled.
use Prim.Native.String.{◌++◌ as text_append}
use clx_preprocessing.Preprocess.Answer.{AnswerPolicy as AnswerPolicy}
use clx_preprocessing.Ledger.Codec.{surface_value as surface_value}
use clx_preprocessing.Ledger.Event.{meta as meta}
use clx_preprocessing.Prelude.{
  Bool, List, Option, String, [], false, if◌then◌else◌, map, none, pos, some, true, ℕ, ◌==◌, ◌||◌,
  ◌∷◌, comparable_texts, comparable_numbers,
}
use clx_preprocessing.Json.{Fields, Items, arr, cons, end, field, int, nil, obj, str}
use clx_preprocessing.Types.{QueueSegment, WorkItem}
use clx_preprocessing.Result.{
  Result, bundle_conflicting, err, ok, owner_conflicting, owner_invalid, ◌>>=◌,
}
use clx_preprocessing.Owner.{Owner}
use clx_preprocessing.Dispatch.{Python, Store, items_of, timestamp, validated_work_id, write_leaf}
use clx_preprocessing.DispatchStore.Persist.{
  Decision, conflict, idempotent, owner_conflict, persist_under_lock, written,
}

-- What of a `HarnessPlan` is read here.
pub record Plan : Type 0 where
  pub item : WorkItem
  pub normalized_prompt : String
  pub answer_policy : AnswerPolicy
  pub segments : List QueueSegment
  pub queue_required : Bool

-- The working directory, `str(Path(text).expanduser().resolve(strict=False))`, and whether a text
-- holds the character U+0000.
pub record Paths : Type 0 where
  pub cwd : String
  pub resolve : String → String
  pub holds_nul : String → Bool

-- `_validated_owner` on three values that may be missing.
unfoldable pub validated_owner : Option String → Option String → Option String → Result Owner
validated_owner (some cwd) (some session_id) (some scope) =
    if cwd == ""
    then err owner_invalid
    else if scope == ""
    then err owner_invalid
    else ok (record { cwd = cwd; session_id = session_id; scope = scope })
validated_owner _ _ _ = err owner_invalid

unfoldable pub is_some : Option String → Bool
is_some none = false
is_some (some _) = true

-- `metadata.get("cwd") or str(Path.cwd())`
raw_cwd : Paths → Option String → String
raw_cwd paths none = paths.cwd
raw_cwd paths (some cwd) = if cwd == "" then paths.cwd else cwd

unfoldable pub project_owner : Paths → String → Result Owner
project_owner paths raw =
    if paths.holds_nul raw
    then err owner_invalid
    else (let cwd = paths.resolve raw in
        ok (record { cwd = cwd; session_id = ""; scope = text_append "project:" cwd }))

-- `_owner_from_item`
unfoldable pub owner_from_item : Paths → List (String × String) → Result Owner
unfolding raw_cwd
owner_from_item paths metadata =
    let cwd = meta "owner_cwd" metadata in
    let session_id = meta "owner_session_id" metadata in
    let scope = meta "owner_scope" metadata in
    if is_some cwd || is_some session_id || is_some scope
    then validated_owner cwd session_id scope
    else project_owner paths (raw_cwd paths (meta "cwd" metadata))

-- `_step_from_segment`
unfoldable pub step_from_segment : ℕ → QueueSegment → Fields
step_from_segment now segment = field "step_id" (str (text_append "exec_" segment.segment_id)) (
    field "segment_id" (str segment.segment_id) (
      field "checksum" (str segment.checksum) (
        field "token_estimate" (int (pos segment.token_estimate)) (
          field "content" (str segment.content) (
            field "status" (str "queued") (
              field "result" (str "")
                (field "error" (str "") (field "updated_at" (timestamp now) end))))))))

unfoldable pub texts : List String → Items
texts [] = nil
texts (t ∷ l) = cons (str t) (texts l)

unfoldable pub owner_fields : Owner → Fields
owner_fields o =
    field "cwd" (str o.cwd)
      (field "session_id" (str o.session_id) (field "scope" (str o.scope) end))

unfoldable pub bundle_with_owner : ℕ → Plan → Owner → Fields
bundle_with_owner now plan owner = field "schema_version" (int (pos 2)) (
    field "created_at" (timestamp now) (
      field "work_id" (str plan.item.work_id) (
        field "owner" (obj (owner_fields owner)) (
          field "surface" (str (surface_value plan.item.surface)) (
            field "original_prompt_preview" (str plan.normalized_prompt) (
              field "answer_policy"
                (obj (
                  field "response_contract" (str plan.answer_policy.response_contract) (
                    field "required_checks" (arr (texts plan.answer_policy.required_checks))
                      (field "rules" (arr (texts plan.answer_policy.rules)) end))))
                (field "steps" (arr (items_of (map (step_from_segment now) plan.segments)))
                  end)))))))

-- `_bundle_from_plan`
unfoldable pub bundle_from_plan : Paths → ℕ → Plan → Result Fields
bundle_from_plan paths now plan = do
  owner ← owner_from_item paths plan.item.metadata
  ok (bundle_with_owner now plan owner)

-- What `persist_dispatch_bundle` makes of a decision.
unfoldable pub conclude : Decision → Result Bool
conclude written = ok true
conclude idempotent = ok true
conclude owner_conflict = err owner_conflicting
conclude conflict = err bundle_conflicting

module _ (py : Python) (paths : Paths) where
  pub persist_at : Result (String × Fields) → Store → Result Bool × Store
  persist_at (err e) store = (err e, store)
  persist_at (ok (w, bundle)) store =
      let (decision, leaf) = persist_under_lock py bundle (store w) in
      ((decision >>= conclude), write_leaf w leaf store)

  -- `persist_dispatch_bundle`: whether a path is returned.
  unfoldable pub persist_dispatch_bundle : ℕ → Plan → Store → Result Bool × Store
  unfolding persist_at
  persist_dispatch_bundle now plan store =
      if plan.queue_required
      then persist_at
          (do
            bundle ← bundle_from_plan paths now plan
            w ← validated_work_id py plan.item.work_id
            ok (w, bundle))
          store
      else (ok false, store)
