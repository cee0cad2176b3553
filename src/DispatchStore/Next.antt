-- ===== src/DispatchStore/Next.antt =====
-- `next_dispatch_step` of src/cluxion_runtime/core/dispatch_store.py. The conversions by `str` and
-- `int` come after the file has been written.
use clx_preprocessing.Prelude.{Bool, List, Option, String, false, none, pos, some, ℕ, ℤ}
use clx_preprocessing.Json.{Fields, get_or, int, obj, str_of}
use clx_preprocessing.Result.{Result, err, ok, ◌>>=◌}
use clx_preprocessing.Ledger.{Python as Conversions, int_of}
use clx_preprocessing.Dispatch.{
  Leaf, Python, Store, document, no_text, steps_of, synthesis_ready, validated_work_id, with_steps,
  write_leaf,
}
use clx_preprocessing.DispatchStore.{claim_step, load_dispatch_bundle, remaining_count}

pub record PublicStep : Type 0 where
  pub step_id : String
  pub segment_id : String
  pub checksum : String
  pub token_estimate : ℤ
  pub content : String
  pub instruction : String

pub record Reply : Type 0 where
  pub step : Option PublicStep
  pub remaining : ℕ
  pub synthesis_ready : Bool

abbrev pub instruction_text : String
instruction_text =
    "Process this segment with the current Hermes model. Preserve the checksum, return only segment-grounded findings, and do not claim checks were run unless they were run."

-- `int` of a text is Python's own.
abbrev pub conversions : Python → (String → Option ℤ) → Conversions
conversions py int_of_text = record {
  render = py.render;
  int_of_text = int_of_text;
  float_of_text = λ _. none;
  dict_of_other = λ _. none;
}

module _ (py : Python) (int_of_text : String → Option ℤ) where
  -- `str(step.get(key, ""))`
  unfoldable pub text : String → Fields → String
  text key step = str_of py.render (get_or key no_text step)

  -- `_public_step`
  unfoldable pub public_step : Fields → Result PublicStep
  unfolding text
  public_step step = do
    token_estimate ←
        int_of (conversions py int_of_text) (get_or "token_estimate" (int (pos 0)) step)
    ok (record {
      step_id = text "step_id" step;
      segment_id = text "segment_id" step;
      checksum = text "checksum" step;
      token_estimate = token_estimate;
      content = text "content" step;
      instruction = instruction_text;
    })

  -- After the loop; a claim has been written before the answer is put together.
  unfoldable pub finish :
      Fields → List Fields → Result (Option (Fields × List Fields)) → Leaf → Result Reply × Leaf
  finish bundle steps (err e) leaf = (err e, leaf)
  finish bundle steps (ok none) leaf = (
    (do
      left ← remaining_count steps
      ok (record { step = none; remaining = left; synthesis_ready = synthesis_ready steps })),
    leaf,
  )
  finish bundle steps (ok (some (step, claimed))) leaf = (
    (do
      shown ← public_step step
      left ← remaining_count claimed
      ok (record { step = some shown; remaining = left; synthesis_ready = false })),
    document (obj (with_steps claimed bundle)),
  )

  on_steps : ℕ → ℕ → Fields → Result (List Fields) → Leaf → Result Reply × Leaf
  on_steps now stamp bundle (err e) leaf = (err e, leaf)
  on_steps now stamp bundle (ok steps) leaf = finish bundle steps (claim_step now stamp steps) leaf

  on_bundle : ℕ → ℕ → Result Fields → Leaf → Result Reply × Leaf
  on_bundle now stamp (err e) leaf = (err e, leaf)
  on_bundle now stamp (ok bundle) leaf = on_steps now stamp bundle (steps_of bundle) leaf

  -- The block under the lock: `now` is read before it is taken, `stamp` under it.
  unfoldable pub next_under_lock : ℕ → ℕ → Leaf → Result Reply × Leaf
  unfolding on_bundle on_steps finish
  next_under_lock now stamp leaf = on_bundle now stamp (load_dispatch_bundle leaf) leaf

  pub next_at : Result String → ℕ → ℕ → Store → Result Reply × Store
  next_at (err e) now stamp store = (err e, store)
  next_at (ok w) now stamp store =
      let (reply, leaf) = next_under_lock now stamp (store w) in (reply, write_leaf w leaf store)

  unfoldable pub next_dispatch_step : String → ℕ → ℕ → Store → Result Reply × Store
  unfolding next_at
  next_dispatch_step work_id now stamp store =
      next_at (validated_work_id py work_id) now stamp store
