-- ===== src/Ledger/State/Tests.antt =====
-- The ledger on a file of one line, and its theorems there.

use clx_preprocessing.Chars.{Text, is_space, newline}
use clx_preprocessing.Prelude.{
  Option, [], false, if◌then◌else◌, inr, length, ltb_ℤ, negsuc, none, pos, refl, scale, some, true,
  ◌+ℤ◌, ◌+◌, ◌-◌, ◌==◌, ◌^◌, ◌∷◌, ◌≡◌, ◌⊎◌, comparable_texts, comparable_numbers,
}
use clx_preprocessing.Json.{Fields, Json, end, get?, obj, str_of}
use clx_preprocessing.Result.{ok}
use clx_preprocessing.Types.{WorkItem, codex, high, priority_int}
use clx_preprocessing.Ledger.{Python, dict_of, float_at, int_at, item_at, text_at}
use clx_preprocessing.Ledger.Codec.{
  item_from_dict, item_from_dict-item_to_dict, item_to_dict, priority_of, surface_of, surface_value,
}
use clx_preprocessing.Ledger.Lines.{is_blank, is_break, splitlines}
use clx_preprocessing.Ledger.Event.{
  LedgerEntry, dead, entry_from_event, entry_of, event, queued, retry_wait, running, status_of,
  status_value,
}
use clx_preprocessing.Ledger.State.{
  JsonModule, States, append, corrupt, done, failure, latest_unlocked, lookup, record_enqueued,
  record_failed, record_started, set_state, states,
}
use clx_preprocessing.Ledger.State.Replay.{IsClosed, IsWritten, append-corrupt}
use clx_preprocessing.Ledger.State.Writers.{Recorded, record_failed_replays, record_started_replays}
use clx_preprocessing.Ledger.State.Owners.{Enqueued, record_enqueued-Enqueued}

abbrev py : Python
py = record {
  render = λ _. "";
  int_of_text = λ _. none;
  float_of_text = λ _. none;
  dict_of_other = λ _. none;
}

abbrev task : WorkItem
task = record {
  work_id = "w";
  prompt = "do it";
  surface = codex;
  priority = high;
  model_route = "auto";
  expected_ram_mb = pos 0;
  context_tokens = negsuc 0;
  metadata = ("source", "cli") ∷ [];
}

abbrev first : Fields
first = event task running (pos 1) (pos 3) "started" (pos 0) (pos 5)

abbrev entry : LedgerEntry
entry = entry_of task running (pos 1) (pos 3) "started" (pos 0)

-- The line `1` is the first event, and `2` the one that is written.
abbrev loads_with : Fields → Text → Option Json
loads_with e [] = none
loads_with e (c ∷ _) = if c == 49 then some (obj first) else if c == 50 then some (obj e) else none

abbrev writing : Fields → JsonModule
writing e = record { dumps = λ _. 50 ∷ []; loads = loads_with e }

-- A line separator in a text stays in the line that is written.
abbrev breaking : JsonModule
breaking = record { dumps = λ _. 123 ∷ 8232 ∷ 125 ∷ []; loads = loads_with end }

abbrev file : Text
file = 49 ∷ newline ∷ []

abbrev known : States
known = ("w", entry) ∷ []

file-IsClosed : IsClosed file
file-IsClosed = inr (49 ∷ [], refl)

reads : (e : Fields) → latest_unlocked py (writing e) file ≡ states known
unfolding latest_unlocked splitlines is_break is_blank is_space entry_from_event event text_at
    int_at float_at item_at get? str_of status_of status_value item_from_dict item_to_dict
    surface_of surface_value priority_of priority_int dict_of set_state
reads e = refl

breaking_reads : latest_unlocked py breaking file ≡ states known
unfolding latest_unlocked splitlines is_break is_blank is_space entry_from_event event text_at
    int_at float_at item_at get? str_of status_of status_value item_from_dict item_to_dict
    surface_of surface_value priority_of priority_int dict_of set_state
breaking_reads = refl

found : lookup "w" known ≡ some entry
unfolding lookup
found = refl

written : (e : Fields) → IsWritten (writing e) e
unfolding is_break is_blank is_space
written e = record { line = (refl, tt); not_blank = refl; read_back = refl }

item_from_dict-item_to_dict_example : item_from_dict py (obj (item_to_dict task)) ≡ ok task
item_from_dict-item_to_dict_example = item_from_dict-item_to_dict py task

abbrev again : Fields
again = event task running (pos 1 +ℤ pos 1) (pos 3) "started" (pos 0) (pos 9)

record_started_replays_example :
    (record_started py (writing again) "w" (pos 9) file).0
      ≡ done (entry_of task running (pos 1 +ℤ pos 1) (pos 3) "started" (pos 0))
    × Recorded py
        (writing again)
        known
        (entry_of task running (pos 1 +ℤ pos 1) (pos 3) "started" (pos 0))
        (record_started py (writing again) "w" (pos 9) file).1
record_started_replays_example =
    record_started_replays py (writing again) file known file-IsClosed (reads again) "w" entry found
      (pos 9) (written again)

abbrev failing : Fields
failing = failure true (pos 1000) "crash" (pos 9) entry

abbrev failing_js : JsonModule
failing_js = writing failing

record_failed_replays_example :
    (true ≡ true)
      × (ltb_ℤ (pos 1) (pos 3) ≡ true)
      × ((record_failed py failing_js "w" true (pos 1000) "crash" (pos 9) file).0
          ≡ done (record {
            retryable = true;
            next_after_epoch = pos 9 +ℤ scale (2 ^ (1 - 1)) (pos 1000);
            attempt = pos 1;
            reason = "crash";
          }))
      × Recorded py failing_js known
          (entry_of task retry_wait
            (pos 1)
            (pos 3)
            "crash"
            (pos 9 +ℤ scale (2 ^ (1 - 1)) (pos 1000)))
          (record_failed py failing_js "w" true (pos 1000) "crash" (pos 9) file).1
    ⊎ ((true ≡ false) ⊎ (ltb_ℤ (pos 1) (pos 3) ≡ false))
      × ((record_failed py failing_js "w" true (pos 1000) "crash" (pos 9) file).0
          ≡ done (record {
            retryable = false;
            next_after_epoch = pos 0;
            attempt = pos 1;
            reason = "crash";
          }))
      × Recorded py failing_js known
          (entry_of task dead (pos 1) (pos 3) "crash" (pos 0))
          (record_failed py failing_js "w" true (pos 1000) "crash" (pos 9) file).1
record_failed_replays_example =
    record_failed_replays py failing_js file known file-IsClosed (reads failing) "w" entry found
      true (pos 1000) "crash" (pos 9) (written failing)

abbrev entering : Fields
entering = event task queued (pos 0) (pos 3) "queued" (pos 0) (pos 9)

record_enqueued-Enqueued_example :
    Enqueued py
      (writing entering)
      known
      task
      (pos 3)
      file
      (record_enqueued py (writing entering) task (pos 3) (pos 9) file).0
      (record_enqueued py (writing entering) task (pos 3) (pos 9) file).1
record_enqueued-Enqueued_example =
    record_enqueued-Enqueued py (writing entering) file known file-IsClosed (reads entering) task
      (pos 3) (pos 9) (written entering)

append-corrupt_example :
    latest_unlocked py breaking (append py breaking first file)
    ≡ corrupt (length (splitlines file) + 1)
append-corrupt_example =
    append-corrupt py breaking file known first (123 ∷ []) 8232 (125 ∷ []) file-IsClosed
      breaking_reads refl (unfold is_break in (refl, tt)) (unfold is_break in refl)
      (unfold is_blank is_space in refl) refl
