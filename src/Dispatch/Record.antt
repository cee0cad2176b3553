-- ===== src/Dispatch/Record.antt =====
-- `_record_step` of src/cluxion_runtime/resources/py_queue.py.
use clx_preprocessing.Prelude.{
  Bool, List, Option, String, [], false, if◌then◌else◌, none, some, true, ℕ, ◌&&◌, ◌==◌, ◌||◌, ◌∷◌,
  comparable_texts, comparable_numbers,
}
use clx_preprocessing.Json.{
  Fields, Json, arr, bool, field_is, get?, get_or, is_str, obj, put, str, str_of, truthy,
}
use clx_preprocessing.Result.{Result, err, ok, step_not_found, unhashable_status, ◌>>=◌}
use clx_preprocessing.Dispatch.{
  Leaf, Python, Store, document, no_text, read_bundle, remaining, require_str, steps_of,
  synthesis_ready, timestamp, validated_work_id, with_steps, write_leaf,
}

-- What a worker reports of a step.
pub record Report : Type 0 where
  pub step_id : String
  pub failed : Bool
  pub retryable : Bool
  pub result : Json
  pub error : Json

pub data Reply : Type 0 where
  recorded : String → ℕ → Bool → Reply
  idempotent : String → ℕ → Bool → Reply
  already_recorded : String → String → String → Reply

unfoldable pub status_of : Report → String
status_of r = if r.failed then (if r.retryable then "retry_wait" else "failed") else "succeeded"

-- `step.get("status") in {…}` raises `TypeError` where the status cannot be hashed.
unfoldable pub terminal_status : Option Json → Result Bool
terminal_status (some (arr _)) = err unhashable_status
terminal_status (some (obj _)) = err unhashable_status
terminal_status (some (str t)) = ok (t == "succeeded" || t == "failed")
terminal_status _ = ok false

unfoldable pub mark_recorded : ℕ → Report → Fields → Fields
mark_recorded stamp r s =
    put "updated_at" (timestamp stamp)
      (put "error" r.error (put "result" r.result (put "status" (str (status_of r)) s)))

unfoldable pub find_step : String → List Fields → Option Fields
find_step id [] = none
find_step id (s ∷ steps) = if field_is "step_id" id s then some s else find_step id steps

-- The steps after the first one with this id has been marked.
unfoldable pub mark_step : ℕ → Report → List Fields → List Fields
mark_step stamp r [] = []
mark_step stamp r (s ∷ steps) =
    if field_is "step_id" r.step_id s
    then mark_recorded stamp r s ∷ steps
    else s ∷ mark_step stamp r steps

module _ (py : Python) where
  -- `str(step.get(key, ""))`
  unfoldable pub stored : String → Fields → String
  stored key s = str_of py.render (get_or key no_text s)

  -- The stored outcome is the reported one.
  unfoldable pub same_outcome : Report → Fields → Bool
  same_outcome r s =
      stored "status" s == status_of r
      && is_str (stored "result" s) r.result
      && is_str (stored "error" s) r.error

  unfoldable pub settle : Report → Fields → List Fields → Reply
  settle r s steps =
      if same_outcome r s
      then idempotent (stored "status" s) (remaining steps) (synthesis_ready steps)
      else already_recorded (stored "status" s) (stored "result" s) (stored "error" s)

  unfoldable pub on_status :
      ℕ → Report → Fields → Fields → List Fields → Result Bool → Leaf → Result Reply × Leaf
  on_status stamp r bundle s steps (err e) leaf = (err e, leaf)
  on_status stamp r bundle s steps (ok true) leaf = (ok (settle r s steps), leaf)
  on_status stamp r bundle s steps (ok false) leaf =
      let marked = mark_step stamp r steps in
      (
        ok (recorded (status_of r) (remaining marked) (synthesis_ready marked)),
        document (obj (with_steps marked bundle)),
      )

  unfoldable pub on_found :
      ℕ → Report → Fields → Option Fields → List Fields → Leaf → Result Reply × Leaf
  on_found stamp r bundle none steps leaf = (err step_not_found, leaf)
  on_found stamp r bundle (some s) steps leaf =
      on_status stamp r bundle s steps (terminal_status (get? "status" s)) leaf

  on_steps : ℕ → Report → Fields → Result (List Fields) → Leaf → Result Reply × Leaf
  on_steps stamp r bundle (err e) leaf = (err e, leaf)
  on_steps stamp r bundle (ok steps) leaf =
      on_found stamp r bundle (find_step r.step_id steps) steps leaf

  on_bundle : ℕ → Report → Result Fields → Leaf → Result Reply × Leaf
  on_bundle stamp r (err e) leaf = (err e, leaf)
  on_bundle stamp r (ok bundle) leaf = on_steps stamp r bundle (steps_of bundle) leaf

  -- The critical section.
  unfoldable pub record_under_lock : ℕ → Report → Leaf → Result Reply × Leaf
  unfolding on_bundle on_steps on_found on_status settle
  record_under_lock stamp r leaf = on_bundle stamp r (read_bundle leaf) leaf

  -- The payload's `failed`, `retryable`, `result` and `error`, with their defaults.
  unfoldable pub report_of : String → Fields → Report
  report_of step_id payload = record {
    step_id = step_id;
    failed = truthy (get_or "failed" (bool false) payload);
    retryable = truthy (get_or "retryable" (bool false) payload);
    result = get_or "result" no_text payload;
    error = get_or "error" no_text payload;
  }

  pub record_at : Result (String × Report) → ℕ → Store → Result Reply × Store
  record_at (err e) stamp store = (err e, store)
  record_at (ok (w, r)) stamp store =
      let (reply, leaf) = record_under_lock stamp r (store w) in (reply, write_leaf w leaf store)

  unfoldable pub record_step : Fields → ℕ → Store → Result Reply × Store
  unfolding record_at
  record_step payload stamp store =
      record_at
        (do
          work_id ← require_str "work_id" (get? "work_id" payload)
          step_id ← require_str "step_id" (get? "step_id" payload)
          w ← validated_work_id py work_id
          ok (w, report_of step_id payload))
        stamp store
