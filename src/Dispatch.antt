-- ===== src/Dispatch.antt =====
-- The dispatch bundles of src/cluxion_runtime/resources/py_queue.py: one JSON file for each work
-- id, with a list of steps. Each operation holds the lock `.dispatch.lock`, so it is one function.
-- A file is held as what the code can see of it; time is in microseconds.
pub mod Next
pub mod Steps
pub mod Claim
pub mod Lasting
pub mod Persist
pub mod Brief
pub mod History
pub mod Settled
pub mod Ready
pub mod Paths
pub mod Decide
mod Tests
pub mod Record
use Prim.Native.Char.{Char, code}
use clx_preprocessing.Prelude.{
  Bool, List, Option, String, [], count, if◌then◌else◌, ltb, nat_beq, neg_part, none, pos, pos_part,
  some, true, ℕ, ◌&&◌, ◌*◌, ◌+◌, ◌==◌, ◌||◌, ◌∷◌, comparable_texts, comparable_numbers,
}
use clx_preprocessing.Json.{
  Fields, Items, Json, arr, cons, field_is, float, get?, get_or, int, million, nil, number_or_zero,
  obj, put, str,
}
use clx_preprocessing.Result.{
  Result, bundle_not_found, err, expected_object, expected_step_objects, expected_steps_array,
  invalid_json, missing_field, non_regular_file, ok, symlink_found, work_id_empty, work_id_invalid,
  ◌>>=◌,
}

-- What stands at the path of a bundle.
pub data Leaf : Type 0 where
  absent symlink special garbage : Leaf
  document : Json → Leaf

-- `_read_bundle`
unfoldable pub read_bundle : Leaf → Result Fields
read_bundle absent = err bundle_not_found
read_bundle symlink = err symlink_found
read_bundle special = err non_regular_file
read_bundle garbage = err invalid_json
read_bundle (document (obj m)) = ok m
read_bundle (document _) = err expected_object

-- The elements of `steps`, all of them objects.
unfoldable pub step_objects : Items → Result (List Fields)
step_objects nil = ok []
step_objects (cons (obj s) rest) = do steps ← step_objects rest; ok (s ∷ steps)
step_objects (cons _ rest) = err expected_step_objects

steps_of_value : Option Json → Result (List Fields)
steps_of_value (some (arr items)) = step_objects items
steps_of_value _ = err expected_steps_array

-- `_steps`
unfoldable pub steps_of : Fields → Result (List Fields)
unfolding steps_of_value
steps_of bundle = steps_of_value (get? "steps" bundle)

unfoldable pub items_of : List Fields → Items
items_of [] = nil
items_of (s ∷ steps) = cons (obj s) (items_of steps)

-- The bundle after its step objects have been mutated in place.
unfoldable pub with_steps : List Fields → Fields → Fields
unfolding items_of
with_steps steps bundle = put "steps" (arr (items_of steps)) bundle

-- `step.get("status") == text`
abbrev pub status_is : String → Fields → Bool
status_is t s = field_is "status" t s

abbrev pub is_succeeded : Fields → Bool
is_succeeded s = status_is "succeeded" s

-- `step.get("status") in {"succeeded", "failed"}`, of a status that can be looked up in a set.
abbrev pub is_terminal : Fields → Bool
is_terminal s = is_succeeded s || status_is "failed" s

abbrev pub is_open : Fields → Bool
is_open s = status_is "queued" s || status_is "retry_wait" s || status_is "running" s

-- `_remaining`
unfoldable pub remaining : List Fields → ℕ
remaining steps = count is_open steps

-- `all(s.get("status") == "succeeded" for s in steps)`
unfoldable pub synthesis_ready : List Fields → Bool
synthesis_ready [] = true
synthesis_ready (s ∷ steps) = is_succeeded s && synthesis_ready steps

-- `_RUNNING_LEASE_SECONDS`
abbrev pub running_lease : ℕ
running_lease = 600 * million

-- `_stale_running`: `now - updated_at > lease`
unfoldable pub stale_running : Fields → ℕ → Bool
stale_running s now =
    let updated = number_or_zero (get? "updated_at" s) in
    status_is "running" s && ltb (pos_part updated + running_lease) (now + neg_part updated)

unfoldable pub claimable : ℕ → Fields → Bool
claimable now s = status_is "queued" s || status_is "retry_wait" s || stale_running s now

-- `time.time()`, a float.
abbrev pub timestamp : ℕ → Json
timestamp t = float (pos t)

unfoldable pub mark_claimed : ℕ → Fields → Fields
mark_claimed stamp s = put "updated_at" (timestamp stamp) (put "status" (str "running") s)

unfoldable pub behind : Fields → Option (Fields × List Fields) → Option (Fields × List Fields)
behind s none = none
behind s (some (t, steps)) = some (t, s ∷ steps)

-- The loop of `_next_step`: the first claimable step is marked, in place.
unfoldable pub claim : ℕ → ℕ → List Fields → Option (Fields × List Fields)
unfolding behind
claim now stamp [] = none
claim now stamp (s ∷ steps) =
    let rest = claim now stamp steps in
    if claimable now s
    then (let s' = mark_claimed stamp s in some (s', s' ∷ steps))
    else behind s rest

abbrev pub no_text : Json
no_text = str ""

pub record PublicStep : Type 0 where
  pub step_id : Json
  pub segment_id : Json
  pub checksum : Json
  pub token_estimate : Json
  pub content : Json
  pub instruction : String

abbrev instruction_text : String
instruction_text =
    "Process this segment with the current host model. Preserve checksum and do not claim checks were run unless they were run."

-- `_public_step`
unfoldable pub public_step : Fields → PublicStep
public_step s = record {
  step_id = get_or "step_id" no_text s;
  segment_id = get_or "segment_id" no_text s;
  checksum = get_or "checksum" no_text s;
  token_estimate = get_or "token_estimate" (int (pos 0)) s;
  content = get_or "content" no_text s;
  instruction = instruction_text;
}

-- Python's own part: which characters `str.isalnum` accepts, and `str(v)` of a value that is no
-- text.
pub record Python : Type 0 where
  pub is_alnum : Char → Bool
  pub render : Json → String

module _ (py : Python) where
  unfoldable pub is_safe : Char → Bool
  is_safe c = py.is_alnum c || nat_beq (code c) b'-' || nat_beq (code c) b'_'

  safe_part : String → String
  safe_part String.[] = String.[]
  safe_part (String.◌∷◌ c s) =
      let rest = safe_part s in if is_safe c then String.◌∷◌ c rest else rest

  -- `_validated_work_id`
  unfoldable pub validated_work_id : String → Result String
  unfolding safe_part
  validated_work_id work_id =
      let safe = safe_part work_id in
      if safe == ""
      then err work_id_empty
      else if safe == work_id
      then ok safe
      else err work_id_invalid

-- The bundles of a store: what stands at `<work_id>.json`.
abbrev pub Store : Type 0
Store = String → Leaf

unfoldable pub write_leaf : String → Leaf → Store → Store
write_leaf w leaf store v = if w == v then leaf else store v

unfoldable pub require_str : String → Option Json → Result String
require_str key (some (str s)) = if s == "" then err (missing_field key) else ok s
require_str key _ = err (missing_field key)
