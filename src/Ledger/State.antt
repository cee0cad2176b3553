-- ===== src/Ledger/State.antt =====
-- `DurableWorkLedger` of src/cluxion_runtime/core/ledger.py: the fold of the file and the writers.
-- Each writer holds the exclusive lock, so it is one function of the file's text. A missing file
-- reads as the empty text. Times are numbers of microseconds, and floats are exact.
pub mod Replay
pub mod Writers
pub mod Owners
mod Tests
use clx_preprocessing.Chars.{Text, newline}
use clx_preprocessing.Prelude.{
  Bool, List, Option, String, [], if◌then◌else◌, ltb_ℤ, none, pos, pos_part, scale, some, suc, ℕ, ℤ,
  ◌&&◌, ◌++◌, ◌+ℤ◌, ◌-◌, ◌==◌, ◌^◌, ◌∷◌, comparable_texts, comparable_numbers,
}
use clx_preprocessing.Json.{Fields, Json, obj}
use clx_preprocessing.Result.{Error, Result, err, ok, value_error, ◌>>=◌}
use clx_preprocessing.Types.{WorkItem}
use clx_preprocessing.Owner.{Owner, invalid, queue_owners_conflict, valid}
use clx_preprocessing.Ledger.{Python}
use clx_preprocessing.Ledger.Lines.{is_blank, splitlines}
use clx_preprocessing.Ledger.Event.{
  LedgerEntry, WorkStatus, dead, entry_from_event, event, owner_from_metadata, queued, retry_wait,
  running, succeeded,
}

-- `json.dumps(event, ensure_ascii=False, sort_keys=True)`, and `json.loads` with `none` where it
-- raises. No read of the ledger depends on the order of the keys.
pub record JsonModule : Type 0 where
  pub dumps : Fields → Text
  pub loads : Text → Option Json

-- `states`, a dictionary.
abbrev pub States : Type 0
States = List (String × LedgerEntry)

unfoldable pub lookup : String → States → Option LedgerEntry
lookup w [] = none
lookup w ((v, e) ∷ st) = if v == w then some e else lookup w st

-- `states[entry.work_id] = entry`
unfoldable pub set_state : LedgerEntry → States → States
set_state e [] = (e.work_id, e) ∷ []
set_state e ((v, f) ∷ st) = if v == e.work_id then (v, e) ∷ st else (v, f) ∷ set_state e st

-- `corrupt` with the number of the line, for `LedgerCorruptionError`.
pub data Latest : Type 0 where
  states : States → Latest
  corrupt : ℕ → Latest

-- What a writer returns or raises.
pub data Answer (A : Type 0) : Type 0 where
  done : A → Answer A
  corruption : ℕ → Answer A
  invalid_owner : Answer A
  owner_conflict : String → Answer A
  unknown_work : String → Answer A
  raised : Error → Answer A

pub record RetryDecision : Type 0 where
  pub retryable : Bool
  pub next_after_epoch : ℤ
  pub attempt : ℤ
  pub reason : String

abbrev pub on_latest : {A : Type 0} → Latest → (States → Answer A × Text) → Text → Answer A × Text
on_latest (corrupt n) body text = (corruption n, text)
on_latest (states st) body text = body st

-- `latest[work_id]`
abbrev pub on_entry :
    {A : Type 0}
    → Option LedgerEntry
    → String
    → (LedgerEntry → Answer A × Text)
    → Text
    → Answer A × Text
on_entry none w body text = (unknown_work w, text)
on_entry (some entry) w body text = body entry

abbrev pub returned : Result LedgerEntry → Answer LedgerEntry
returned (err e) = raised e
returned (ok entry) = done entry

module _ (py : Python) (js : JsonModule) where
  read_line : Text → Result LedgerEntry
  read_line line = elim (js.loads line) [ none ↦ err value_error | some v ↦ entry_from_event py v ]

  pub read_into : Text → States → Result States
  unfolding read_line
  read_into line st =
      if is_blank line then ok st else do entry ← read_line line; ok (set_state entry st)

  pub fold : ℕ → List Text → States → Latest
  fold n [] st = states st
  fold n (line ∷ lines) st = elim (read_into line st) [
    | err _ ↦ corrupt n
    | ok after ↦ fold (suc n) lines after
  ]

  -- `_latest_unlocked`
  unfoldable pub latest_unlocked : Text → Latest
  unfolding fold read_into
  latest_unlocked text = fold 1 (splitlines text) []

  -- `_append_unlocked`
  unfoldable pub append : Fields → Text → Text
  append e text = text ++ (js.dumps e ++ newline ∷ [])

  -- `_append_unlocked(event)` and `return _entry_from_event(event)`
  unfoldable pub logged : Fields → Text → Answer LedgerEntry × Text
  logged e text = (returned (entry_from_event py (obj e)), append e text)

  -- Under the lock, with the item's own owner already read.
  enqueue_over :
      Option LedgerEntry → Option Owner → WorkItem → ℤ → ℤ → Text → Answer LedgerEntry × Text
  enqueue_over none owner item max_attempts now text =
      logged (event item queued (pos 0) max_attempts "queued" (pos 0) now) text
  enqueue_over (some existing) owner item max_attempts now text =
      elim (owner_from_metadata existing.item.metadata) [
        | valid stored ↦
            if queue_owners_conflict stored owner
            then (owner_conflict item.work_id, text)
            else logged (event item queued (pos 0) max_attempts "queued" (pos 0) now) text
        | invalid ↦ (invalid_owner, text)
      ]

  unfoldable pub record_enqueued : WorkItem → ℤ → ℤ → Text → Answer LedgerEntry × Text
  unfolding enqueue_over
  record_enqueued item max_attempts now text = elim (owner_from_metadata item.metadata) [
    | valid owner ↦
        on_latest (latest_unlocked text)
          (λ st. enqueue_over (lookup item.work_id st) owner item max_attempts now text) text
    | invalid ↦ (invalid_owner, text)
  ]

  unfoldable pub record_started : String → ℤ → Text → Answer LedgerEntry × Text
  record_started w now text =
      on_latest (latest_unlocked text)
        (λ st.
          on_entry (lookup w st) w
            (λ entry.
              logged
                (event entry.item running (entry.attempt +ℤ pos 1) entry.max_attempts "started"
                  (pos 0) now)
                text)
            text)
        text

  unfoldable pub record_finished : String → String → ℤ → Text → Answer LedgerEntry × Text
  record_finished w reason now text =
      on_latest (latest_unlocked text)
        (λ st.
          on_entry (lookup w st) w
            (λ entry.
              logged
                (event entry.item succeeded entry.attempt entry.max_attempts reason (pos 0) now)
                text)
            text)
        text

-- `retryable and entry.attempt < entry.max_attempts`
unfoldable pub can_retry : Bool → LedgerEntry → Bool
can_retry retryable entry = retryable && ltb_ℤ entry.attempt entry.max_attempts

-- `current + delay if can_retry else 0.0`
unfoldable pub next_after : Bool → ℤ → ℤ → LedgerEntry → ℤ
next_after retryable backoff now entry =
    if can_retry retryable entry
    then now +ℤ scale (2 ^ (pos_part entry.attempt - 1)) backoff
    else pos 0

unfoldable pub failed_status : Bool → LedgerEntry → WorkStatus
failed_status retryable entry = if can_retry retryable entry then retry_wait else dead

unfoldable pub failure : Bool → ℤ → String → ℤ → LedgerEntry → Fields
failure retryable backoff reason now entry =
    event entry.item (failed_status retryable entry) entry.attempt entry.max_attempts reason
      (next_after retryable backoff now entry) now

unfoldable pub decision : Bool → ℤ → String → ℤ → LedgerEntry → RetryDecision
decision retryable backoff reason now entry = record {
  retryable = can_retry retryable entry;
  next_after_epoch = next_after retryable backoff now entry;
  attempt = entry.attempt;
  reason = reason;
}

module _ (py : Python) (js : JsonModule) where
  unfoldable pub record_failed : String → Bool → ℤ → String → ℤ → Text → Answer RetryDecision × Text
  record_failed w retryable backoff reason now text =
      on_latest (latest_unlocked py js text)
        (λ st.
          on_entry (lookup w st) w
            (λ entry. (
              done (decision retryable backoff reason now entry),
              append py js (failure retryable backoff reason now entry) text,
            ))
            text)
        text
