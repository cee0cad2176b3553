-- ===== src/Dispatch/Next.antt =====
-- `_next_step` of src/cluxion_runtime/resources/py_queue.py.
use clx_preprocessing.Prelude.{Bool, List, Option, String, false, none, some, ℕ}
use clx_preprocessing.Json.{Fields, Json, obj}
use clx_preprocessing.Result.{Result, err, ok, ◌>>=◌}
use clx_preprocessing.Dispatch.{
  Leaf, PublicStep, Python, Store, claim, document, public_step, read_bundle, remaining,
  require_str, steps_of, synthesis_ready, validated_work_id, with_steps, write_leaf,
}

pub record Reply : Type 0 where
  pub step : Option PublicStep
  pub remaining : ℕ
  pub synthesis_ready : Bool

unfoldable pub reply_none : List Fields → Reply
reply_none steps = record {
  step = none;
  remaining = remaining steps;
  synthesis_ready = synthesis_ready steps;
}

unfoldable pub reply_claimed : Fields → List Fields → Reply
reply_claimed s steps = record {
  step = some (public_step s);
  remaining = remaining steps;
  synthesis_ready = false;
}

-- What is answered and written after the loop over `steps`.
unfoldable pub finish :
    Fields → List Fields → Option (Fields × List Fields) → Leaf → Result Reply × Leaf
unfolding reply_none reply_claimed
finish bundle steps none leaf = (ok (reply_none steps), leaf)
finish bundle steps (some (s, claimed)) leaf =
    (ok (reply_claimed s claimed), document (obj (with_steps claimed bundle)))

on_steps : ℕ → ℕ → Fields → Result (List Fields) → Leaf → Result Reply × Leaf
on_steps now stamp bundle (err e) leaf = (err e, leaf)
on_steps now stamp bundle (ok steps) leaf = finish bundle steps (claim now stamp steps) leaf

on_bundle : ℕ → ℕ → Result Fields → Leaf → Result Reply × Leaf
on_bundle now stamp (err e) leaf = (err e, leaf)
on_bundle now stamp (ok bundle) leaf = on_steps now stamp bundle (steps_of bundle) leaf

-- The critical section: `now` is read before the lock is taken, `stamp` under it.
unfoldable pub next_under_lock : ℕ → ℕ → Leaf → Result Reply × Leaf
unfolding on_bundle on_steps finish
next_under_lock now stamp leaf = on_bundle now stamp (read_bundle leaf) leaf

module _ (py : Python) where
  pub next_at : Result String → ℕ → ℕ → Store → Result Reply × Store
  next_at (err e) now stamp store = (err e, store)
  next_at (ok w) now stamp store =
      let (reply, leaf) = next_under_lock now stamp (store w) in (reply, write_leaf w leaf store)

  unfoldable pub next_step : Option Json → ℕ → ℕ → Store → Result Reply × Store
  unfolding next_at
  next_step work_id now stamp store =
      next_at (do w ← require_str "work_id" work_id; validated_work_id py w) now stamp store
