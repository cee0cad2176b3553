-- ===== src/Ledger/Event.antt =====
-- The events of src/cluxion_runtime/core/ledger.py, and the owner in a work item's metadata.
use clx_preprocessing.Prelude.{
  List, Option, String, [], if◌then◌else◌, max, none, pos, pos_part, refl, some, ℤ, ◌==◌, ◌∷◌, ◌≡◌,
  comparable_texts, comparable_numbers,
}
use clx_preprocessing.Json.{Fields, Json, end, field, float, get?, int, obj, str, str_of}
use clx_preprocessing.Result.{Result, err, ok, type_error, value_error, ◌>>=◌}
use clx_preprocessing.Types.{WorkItem}
use clx_preprocessing.Owner.{Checked, Owner, invalid, valid}
use clx_preprocessing.Ledger.{Python, float_at, int_at, item_at, text_at}
use clx_preprocessing.Ledger.Codec.{item_from_dict, item_from_dict-item_to_dict, item_to_dict}

pub data WorkStatus : Type 0 where
  queued running retry_wait succeeded failed dead : WorkStatus

-- `status.value`
unfoldable pub status_value : WorkStatus → String
status_value queued = "queued"
status_value running = "running"
status_value retry_wait = "retry_wait"
status_value succeeded = "succeeded"
status_value failed = "failed"
status_value dead = "dead"

-- `WorkStatus(text)`
unfoldable pub status_of : String → Result WorkStatus
status_of s =
    if s == "queued"
    then ok queued
    else if s == "running"
    then ok running
    else if s == "retry_wait"
    then ok retry_wait
    else if s == "succeeded"
    then ok succeeded
    else if s == "failed"
    then ok failed
    else if s == "dead"
    then ok dead
    else err value_error

pub record LedgerEntry : Type 0 where
  pub work_id : String
  pub status : WorkStatus
  pub attempt : ℤ
  pub max_attempts : ℤ
  pub next_after_epoch : ℤ
  pub reason : String
  pub item : WorkItem

-- `_event`. The fields are in the order of the source; `sort_keys` of `json.dumps` only reorders them
-- in the text of the line, and a dictionary is read by its keys.
unfoldable pub event :
    WorkItem
    → WorkStatus
    → (attempt max_attempts : ℤ) → (reason : String) → (next_after_epoch now : ℤ) → Fields
event item status attempt max_attempts reason next_after_epoch now =
    field "created_at" (float now) (
      field "work_id" (str item.work_id) (
        field "status" (str (status_value status)) (
          field "attempt" (int (pos (pos_part attempt))) (
            field "max_attempts" (int (pos (max 1 (pos_part max_attempts)))) (
              field "next_after_epoch" (float (pos (pos_part next_after_epoch)))
                (field "reason" (str reason) (field "item" (obj (item_to_dict item)) end)))))))

module _ (py : Python) where
  entry_from_fields : Fields → Result LedgerEntry
  entry_from_fields m = do
    work_id ← text_at py "work_id" m
    status_text ← text_at py "status" m
    status ← status_of status_text
    attempt ← int_at py "attempt" m
    max_attempts ← int_at py "max_attempts" m
    next_after_epoch ← float_at py "next_after_epoch" m
    reason ← text_at py "reason" m
    item_value ← item_at "item" m
    item ← item_from_dict py item_value
    ok (record {
      work_id = work_id;
      status = status;
      attempt = attempt;
      max_attempts = max_attempts;
      next_after_epoch = next_after_epoch;
      reason = reason;
      item = item;
    })

  -- `_entry_from_event`; what is no object has no text keys.
  unfoldable pub entry_from_event : Json → Result LedgerEntry
  unfolding entry_from_fields
  entry_from_event (obj m) = entry_from_fields m
  entry_from_event _ = err type_error

-- `metadata.get(key)` on the metadata of a work item, whose values are texts.
unfoldable pub meta : String → List (String × String) → Option String
meta k [] = none
meta k ((j, v) ∷ l) = if j == k then some v else meta k l

owner_of_present : Option String → Option String → Option String → Checked (Option Owner)
owner_of_present none none none = valid none
owner_of_present (some cwd) (some session_id) (some scope) =
    if cwd == ""
    then invalid
    else if scope == ""
    then invalid
    else valid (some (record { cwd = cwd; session_id = session_id; scope = scope }))
owner_of_present _ _ _ = invalid

-- `_owner_from_metadata`
unfoldable pub owner_from_metadata : List (String × String) → Checked (Option Owner)
unfolding owner_of_present
owner_from_metadata l =
    owner_of_present (meta "owner_cwd" l) (meta "owner_session_id" l) (meta "owner_scope" l)

status_of-status_value : (s : WorkStatus) → status_of (status_value s) ≡ ok s
unfolding status_of status_value
status_of-status_value queued = refl
status_of-status_value running = refl
status_of-status_value retry_wait = refl
status_of-status_value succeeded = refl
status_of-status_value failed = refl
status_of-status_value dead = refl

-- The entry that an event stands for: the numbers are clamped, the item is restored.
abbrev pub entry_of :
    WorkItem → WorkStatus → (attempt max_attempts : ℤ) → String → (next_after : ℤ) → LedgerEntry
entry_of item status attempt max_attempts reason next_after = record {
  work_id = item.work_id;
  status = status;
  attempt = pos (pos_part attempt);
  max_attempts = pos (max 1 (pos_part max_attempts));
  next_after_epoch = pos (pos_part next_after);
  reason = reason;
  item = item;
}

pub entry_from_event-event :
    (py : Python) (item : WorkItem) (status : WorkStatus) (attempt max_attempts : ℤ)
    (reason : String) (next_after now : ℤ)
    → entry_from_event py (obj (event item status attempt max_attempts reason next_after now))
      ≡ ok (entry_of item status attempt max_attempts reason next_after)
unfolding entry_from_event event text_at int_at float_at item_at get? str_of
entry_from_event-event py item status attempt max_attempts reason next_after now =
    rw (status_of-status_value status, item_from_dict-item_to_dict py item) refl
