-- ===== src/DispatchStore.antt =====
-- The dispatch bundles as src/cluxion_runtime/core/dispatch_store.py reads and writes them, for the
-- loop that runs the segments in-process. The files are those of `Dispatch`, and so are the readers
-- that both sources have alike (`_steps`, `_validated_work_id`, the owner of a bundle). Here the
-- statuses are looked up in sets, which raises `TypeError` on a list or a dictionary.
pub mod Next
pub mod Record
pub mod Brief
pub mod Persist
pub mod Plan
pub mod Planned
mod Tests
pub mod Hashable
pub mod Twin
use clx_preprocessing.Prelude.{
  Bool, List, Option, [], false, if◌then◌else◌, none, some, suc, true, ℕ, ◌||◌, ◌∷◌,
}
use clx_preprocessing.Json.{Fields, Json, arr, get?, obj}
use clx_preprocessing.Result.{
  Result, bundle_not_found, err, expected_object, invalid_json, non_regular_file, ok, symlink_found,
  unhashable_status, ◌>>=◌,
}
use clx_preprocessing.Dispatch.{
  Leaf, absent, behind, document, garbage, is_open, mark_claimed, special, stale_running, status_is,
  symlink,
}

-- `_load_dispatch_bundle_from_path`
unfoldable pub load_dispatch_bundle : Leaf → Result Fields
load_dispatch_bundle symlink = err symlink_found
load_dispatch_bundle absent = err bundle_not_found
load_dispatch_bundle special = err non_regular_file
load_dispatch_bundle garbage = err invalid_json
load_dispatch_bundle (document (obj payload)) = ok payload
load_dispatch_bundle (document _) = err expected_object

unfoldable pub is_hashable : Option Json → Bool
is_hashable (some (arr _)) = false
is_hashable (some (obj _)) = false
is_hashable _ = true

-- `step.get("status") in {…}`, where `test` compares with each element.
unfoldable pub status_in : (Fields → Bool) → Fields → Result Bool
status_in test step =
    if is_hashable (get? "status" step) then ok (test step) else err unhashable_status

-- `_remaining_count`
unfoldable pub remaining_count : List Fields → Result ℕ
remaining_count [] = ok 0
remaining_count (step ∷ steps) = do
  is_left ← status_in is_open step
  left ← remaining_count steps
  ok (if is_left then suc left else left)

unfoldable pub is_waiting : Fields → Bool
is_waiting step = status_is "queued" step || status_is "retry_wait" step

-- `step.get("status") in {"queued", "retry_wait"} or _stale_running(step, now)`
unfoldable pub can_claim : ℕ → Fields → Result Bool
can_claim now step = do waiting ← status_in is_waiting step; ok (waiting || stale_running step now)

-- The loop of `next_dispatch_step`, which marks the step it takes.
unfoldable pub claim_step : ℕ → ℕ → List Fields → Result (Option (Fields × List Fields))
unfolding can_claim behind
claim_step now stamp [] = ok none
claim_step now stamp (step ∷ steps) =
    let rest = claim_step now stamp steps in
    do
      can ← can_claim now step
      if can
          then ok (some (mark_claimed stamp step, mark_claimed stamp step ∷ steps))
          else (do found ← rest; ok (behind step found))
