-- ===== src/SqlQueue.antt =====
-- The SQLite work queue of src/cluxion_runtime/resources/py_queue.py: `_enqueue`, `_dequeue`,
-- `_peek` and `_status` on the table `work_queue`. A database is the list of its rows in the order
-- of their rowids; a transaction is one function, as `BEGIN IMMEDIATE` makes it. `enqueue` and
-- `dequeue` open the database first (`open_db`); `peek` and the counts are given the opened table.
pub mod Table
pub mod Order
pub mod Claim
pub mod Admission
pub mod Retry
pub mod History
pub mod Turns
mod Tests
use clx_preprocessing.Prelude.{
  Bool, List, Option, String, [], count, false, if◌then◌else◌, ltb, max, none, not, some, suc, take,
  true, zero, ℕ, ◌&&◌, ◌+◌, ◌==◌, ◌||◌, ◌∷◌, comparable_texts, comparable_numbers,
}
use clx_preprocessing.Json.{Json, end, obj, str}
use clx_preprocessing.Owner.{
  Checked, Owner, invalid, queue_owner_from_metadata, queue_owners_conflict, valid,
}

pub data Status : Type 0 where
  pending running : Status

pub record Row : Type 0 where
  pub work_id : String
  pub prompt : String
  pub surface : String
  pub priority : ℕ
  pub status : Status
  pub metadata_json : Option Json
  pub sequence : ℕ
  pub created_at : ℕ
  pub updated_at : ℕ

abbrev pub Db : Type 0
Db = List Row

-- The payload's values: `work_id`, `prompt` and `metadata` are checked by the code; the bridge
-- sends `surface` as a text and `priority` as an integer from 0 to 3.
pub record Payload : Type 0 where
  pub work_id : Option Json
  pub prompt : Option Json
  pub surface : Option String
  pub priority : Option ℕ
  pub metadata : Option Json

pub data Reply : Type 0 where
  queued : String → ℕ → Reply
  invalid_queue_owner : String → Reply
  queue_owner_conflict : String → Reply
  -- the exceptions
  missing_field : String → Reply
  operational_error : Reply
  enqueue_failed : Reply

unfoldable pub is_pending : Status → Bool
is_pending pending = true
is_pending running = false

unfoldable pub has_sequence : ℕ → Db → Bool
has_sequence n [] = false
has_sequence n (r ∷ rows) = r.sequence == n || has_sequence n rows

-- Whether `CREATE UNIQUE INDEX … ON work_queue(sequence)` finds no duplicate.
unfoldable pub sequences_differ : Db → Bool
unfolding has_sequence
sequences_differ [] = true
sequences_differ (r ∷ rows) = not (has_sequence r.sequence rows) && sequences_differ rows

-- `_open_db`, on the rows. Where the unique index cannot be built, `resequence` is what SQLite makes
-- of the table by the UPDATE of `_ensure_unique_sequence_index`, or leaves of it where that fails.
unfoldable pub open_db : (Db → Db) → Db → Db
unfolding sequences_differ
open_db resequence db = if sequences_differ db then db else resequence db

-- `SELECT … WHERE work_id = ?`
unfoldable pub select : String → Db → Option Row
select w [] = none
select w (r ∷ rows) = if r.work_id == w then some r else select w rows

-- `SELECT COALESCE(MAX(sequence), 0)`
unfoldable pub max_sequence : Db → ℕ
max_sequence [] = 0
max_sequence (r ∷ rows) = max r.sequence (max_sequence rows)

-- The row that the INSERT gives, and what `ON CONFLICT(work_id) DO UPDATE` makes of the old one.
unfoldable pub updated : Row → Row → Row
updated excluded old = record old {
  prompt = excluded.prompt;
  surface = excluded.surface;
  priority = excluded.priority;
  metadata_json = excluded.metadata_json;
  status = pending;
  updated_at = excluded.updated_at;
}

unfoldable pub upsert : Row → Db → Db
unfolding updated
upsert new [] = new ∷ []
upsert new (r ∷ rows) =
    if r.work_id == new.work_id then updated new r ∷ rows else r ∷ upsert new rows

unfoldable pub require_str : Option Json → Option String
require_str (some (str s)) = if s == "" then none else some s
require_str _ = none

-- `payload.get("surface") or "api"`
unfoldable pub surface_or_api : Option String → String
surface_or_api none = "api"
surface_or_api (some s) = if s == "" then "api" else s

-- The checks of the owner stored under the same `work_id`, before anything is written.
unfoldable pub stored_owner : Option Json → Checked (Option Owner)
stored_owner none = invalid
stored_owner (some m) = queue_owner_from_metadata m

unfoldable pub sequence_of : String → Db → ℕ
sequence_of w db = elim (select w db) [ none ↦ 0 | some r ↦ r.sequence ]

abbrev write : Row → Db → Reply × Db
write new db = let db' = upsert new db in (queued new.work_id (sequence_of new.work_id db'), db')

admit : Checked (Option Owner) → Option Owner → Row → Db → Reply × Db
admit invalid owner new db = (invalid_queue_owner new.work_id, db)
admit (valid existing) owner new db =
    if queue_owners_conflict existing owner
    then (queue_owner_conflict new.work_id, db)
    else write new db

admit_over : Option Row → Option Owner → Row → Db → Reply × Db
admit_over none owner new db = write new db
admit_over (some old) owner new db = admit (stored_owner old.metadata_json) owner new db

-- The body of the `with _open_db(...)` block. `new` holds the values that the INSERT binds.
unfoldable pub transaction : Option Owner → Row → Db → Reply × Db
unfolding admit admit_over
transaction owner new db = admit_over (select new.work_id db) owner new db

-- What SQLite does to one attempt: it runs, it meets a lock (`locked` or `busy` in the message), it
-- breaks the unique index, or it fails otherwise. A failed transaction is rolled back.
pub data Attempt : Type 0 where
  runs locked unique_violation fails : Attempt

-- The `for` loop over the attempts that are left, the next of them being number `n`.
unfoldable pub attempts : ℕ → ℕ → (ℕ → Attempt) → Option Owner → Row → Db → Reply × Db
attempts zero n env owner new db = (enqueue_failed, db)
attempts (suc left) n env owner new db =
    let again = attempts left (suc n) env owner new db in
    elim (env n) [
      | runs ↦ transaction owner (record new { sequence = max_sequence db + 1 }) db
      | fails ↦ (operational_error, db)
      | locked ↦ again
      | unique_violation ↦ again
    ]

abbrev pub enqueue_retry_attempts : ℕ
enqueue_retry_attempts = 5

abbrev metadata_or_empty : Option Json → Json
metadata_or_empty none = obj end
metadata_or_empty (some m) = m

new_row : String → String → Payload → ℕ → Row
new_row work_id prompt p now = record {
  work_id = work_id;
  prompt = prompt;
  surface = surface_or_api p.surface;
  priority = elim p.priority [ none ↦ 2 | some n ↦ n ];
  status = pending;
  metadata_json = some (metadata_or_empty p.metadata);
  sequence = 0;
  created_at = now;
  updated_at = now;
}

enqueue_checked : (Db → Db) → Checked (Option Owner) → (ℕ → Attempt) → Row → Db → Reply × Db
unfolding open_db
enqueue_checked resequence invalid env new db = (invalid_queue_owner new.work_id, db)
enqueue_checked resequence (valid owner) env new db =
    attempts enqueue_retry_attempts 0 env owner new (open_db resequence db)

enqueue_fields :
    (Db → Db) → Option String → Option String → Payload → (ℕ → Attempt) → ℕ → Db → Reply × Db
unfolding enqueue_checked new_row
enqueue_fields resequence none _ p env now db = (missing_field "work_id", db)
enqueue_fields resequence (some w) none p env now db = (missing_field "prompt", db)
enqueue_fields resequence (some w) (some t) p env now db =
    enqueue_checked resequence (queue_owner_from_metadata (metadata_or_empty p.metadata)) env
      (new_row w t p now) db

-- `_enqueue`. Each attempt opens the database; the first leaves it so that the others find nothing
-- to do, and it is opened once here, before the attempts.
unfoldable pub enqueue : (Db → Db) → Payload → (ℕ → Attempt) → ℕ → Db → Reply × Db
unfolding enqueue_fields
enqueue resequence p env now db =
    enqueue_fields resequence (require_str p.work_id) (require_str p.prompt) p env now db

-- `ORDER BY priority ASC, sequence ASC`: `r` comes strictly before `s`.
unfoldable pub precedes : Row → Row → Bool
precedes r s = ltb r.priority s.priority || (r.priority == s.priority && ltb r.sequence s.sequence)

choose : Row → Option Row → Option Row
choose r none = if is_pending r.status then some r else none
choose r (some s) = if is_pending r.status && not (precedes s r) then some r else some s

-- `SELECT … WHERE status = 'pending' ORDER BY … LIMIT 1`
unfoldable pub next_pending : Db → Option Row
unfolding choose
next_pending [] = none
next_pending (r ∷ rows) = choose r (next_pending rows)

-- `UPDATE work_queue SET status='running', updated_at=? WHERE work_id=?`
unfoldable pub mark_running : ℕ → String → Db → Db
mark_running now w [] = []
mark_running now w (r ∷ rows) =
    (if r.work_id == w then record r { status = running; updated_at = now } else r)
    ∷ mark_running now w rows

pub record Item : Type 0 where
  pub work_id : String
  pub prompt : String
  pub surface : String
  pub priority : ℕ
  pub metadata : Json

unfoldable pub item_of : Row → Item
item_of r = record {
  work_id = r.work_id;
  prompt = r.prompt;
  surface = r.surface;
  priority = r.priority;
  metadata = metadata_or_empty r.metadata_json;
}

take_row : Option Row → ℕ → Db → Option Item × Db
take_row none now db = (none, db)
take_row (some r) now db = (some (item_of r), mark_running now r.work_id db)

-- The transaction of `_dequeue`.
unfoldable pub take_first : ℕ → Db → Option Item × Db
unfolding take_row
take_first now db = take_row (next_pending db) now db

-- `_dequeue`
unfoldable pub dequeue : (Db → Db) → ℕ → Db → Option Item × Db
unfolding open_db take_first
dequeue resequence now db = take_first now (open_db resequence db)

-- `_status`
unfoldable pub pending_count : Db → ℕ
pending_count db = count (λ r. is_pending r.status) db

unfoldable pub running_count : Db → ℕ
running_count db = count (λ r. not (is_pending r.status)) db

-- `_peek`: all rows in order, then `LIMIT`. The sort is by insertion, and stable.
insert_row : Row → Db → Db
insert_row r [] = r ∷ []
insert_row r (s ∷ rows) = if precedes s r then s ∷ insert_row r rows else r ∷ s ∷ rows

unfoldable pub order_rows : Db → Db
unfolding insert_row
order_rows [] = []
order_rows (r ∷ rows) = insert_row r (order_rows rows)

unfoldable pub peek : ℕ → Db → Db
peek limit db = take limit (order_rows db)
