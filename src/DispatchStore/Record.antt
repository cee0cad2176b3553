-- ===== src/DispatchStore/Record.antt =====
-- `record_dispatch_result` of src/cluxion_runtime/core/dispatch_store.py.
use clx_preprocessing.Prelude.{
  Bool, List, Option, String, false, if◌then◌else◌, none, not, some, true, ℕ, ◌&&◌, ◌==◌,
  comparable_texts, comparable_numbers,
}
use clx_preprocessing.Json.{Fields, get_or, is_str, obj, str, str_of}
use clx_preprocessing.Result.{Result, err, ok, step_not_found, ◌>>=◌}
use clx_preprocessing.Dispatch.{
  Leaf, Python, Store, document, is_terminal, no_text, steps_of, synthesis_ready, validated_work_id,
  with_steps, write_leaf,
}
use clx_preprocessing.Dispatch.Record.{
  Reply, Report, already_recorded, find_step, idempotent, mark_step, recorded, status_of,
}
use clx_preprocessing.DispatchStore.{load_dispatch_bundle, remaining_count, status_in}

-- The keyword arguments; `result` and `error` are texts here.
unfoldable pub report : String → (result error : String) → (succeeded retryable : Bool) → Report
report step_id result error succeeded retryable = record {
  step_id = step_id;
  failed = not succeeded;
  retryable = retryable;
  result = str result;
  error = str error;
}

module _ (py : Python) where
  -- `stored_status == status and stored_result == result and stored_error == error`
  unfoldable pub same_result : Report → Fields → Bool
  same_result r step =
      str_of py.render (get_or "status" no_text step) == status_of r
      && is_str (str_of py.render (get_or "result" no_text step)) r.result
      && is_str (str_of py.render (get_or "error" no_text step)) r.error

  -- The answer for a step that is final already.
  unfoldable pub settled : Report → Fields → List Fields → Result Reply
  settled r step steps =
      if same_result r step
      then (do
        left ← remaining_count steps
        ok (
            idempotent (str_of py.render (get_or "status" no_text step)) left
              (synthesis_ready steps)))
      else ok (
          already_recorded (str_of py.render (get_or "status" no_text step))
            (str_of py.render (get_or "result" no_text step))
            (str_of py.render (get_or "error" no_text step)))

  unfoldable pub on_terminal :
      ℕ → Report → Fields → Fields → List Fields → Result Bool → Leaf → Result Reply × Leaf
  on_terminal stamp r bundle step steps (err e) leaf = (err e, leaf)
  on_terminal stamp r bundle step steps (ok true) leaf = (settled r step steps, leaf)
  on_terminal stamp r bundle step steps (ok false) leaf =
      let marked = mark_step stamp r steps in
      (
        (do
          left ← remaining_count marked
          ok (recorded (status_of r) left (synthesis_ready marked))),
        document (obj (with_steps marked bundle)),
      )

  unfoldable pub on_found :
      ℕ → Report → Fields → Option Fields → List Fields → Leaf → Result Reply × Leaf
  on_found stamp r bundle none steps leaf = (err step_not_found, leaf)
  on_found stamp r bundle (some step) steps leaf =
      on_terminal stamp r bundle step steps (status_in is_terminal step) leaf

  on_steps : ℕ → Report → Fields → Result (List Fields) → Leaf → Result Reply × Leaf
  on_steps stamp r bundle (err e) leaf = (err e, leaf)
  on_steps stamp r bundle (ok steps) leaf =
      on_found stamp r bundle (find_step r.step_id steps) steps leaf

  on_bundle : ℕ → Report → Result Fields → Leaf → Result Reply × Leaf
  on_bundle stamp r (err e) leaf = (err e, leaf)
  on_bundle stamp r (ok bundle) leaf = on_steps stamp r bundle (steps_of bundle) leaf

  -- The block under the lock.
  unfoldable pub record_under_lock : ℕ → Report → Leaf → Result Reply × Leaf
  unfolding on_bundle on_steps on_found on_terminal settled
  record_under_lock stamp r leaf = on_bundle stamp r (load_dispatch_bundle leaf) leaf

  pub record_at : Result String → Report → ℕ → Store → Result Reply × Store
  record_at (err e) r stamp store = (err e, store)
  record_at (ok w) r stamp store =
      let (reply, leaf) = record_under_lock stamp r (store w) in (reply, write_leaf w leaf store)

  unfoldable pub record_dispatch_result : String → Report → ℕ → Store → Result Reply × Store
  unfolding record_at
  record_dispatch_result work_id r stamp store =
      record_at (validated_work_id py work_id) r stamp store
