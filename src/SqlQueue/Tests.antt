-- ===== src/SqlQueue/Tests.antt =====
-- The queue on small tables, and its theorems at them.

use clx_preprocessing.SqlQueue.Claim.{Claims, dequeue_lem}
use clx_preprocessing.SqlQueue.Admission.{Outcome, transaction-Outcome}
use clx_preprocessing.SqlQueue.Retry.{IsTransient, enqueue_absorbs, enqueue_refused_unchanged}
use clx_preprocessing.SqlQueue.History.{
  Steps, Steps-IsUnique, admission_lasts, dequeues, enqueues, here, next,
}
use clx_preprocessing.SqlQueue.Turns.{dequeue_twice}
use clx_preprocessing.Prelude.{
  String, [], arith, inl, inr, ne_of_test, none, refl, some, suc, zero, ℕ, ◌<◌, ◌∷◌, ◌≡◌, ◌≢◌, ◌≤◌,
  ◌⊎◌,
}
use clx_preprocessing.Json.{end, get?, obj, str}
use clx_preprocessing.Owner.{queue_owner_from_metadata}
use clx_preprocessing.SqlQueue.{
  Attempt, Db, Payload, Row, attempts, dequeue, enqueue, is_pending, item_of, locked, mark_running,
  max_sequence, next_pending, open_db, pending, pending_count, precedes, queued, require_str, runs,
  select, sequence_of, stored_owner, surface_or_api, transaction, unique_violation, upsert,
}
use clx_preprocessing.SqlQueue.Table.{IsUnique}

abbrev request : String → ℕ → Payload
request w p = record {
  work_id = some (str w);
  prompt = some (str "do it");
  surface = none;
  priority = some p;
  metadata = none;
}

abbrev row : String → ℕ → ℕ → Row
row w p n = record {
  work_id = w;
  prompt = "do it";
  surface = "api";
  priority = p;
  status = pending;
  metadata_json = some (obj end);
  sequence = n;
  created_at = 7;
  updated_at = 7;
}

abbrev table : Db
table = row "a" 2 1 ∷ row "b" 0 2 ∷ row "c" 2 3 ∷ []

table-IsUnique : IsUnique table
table-IsUnique = (
  ((ne_of_test "a" "b" refl, omega arith), ((ne_of_test "a" "c" refl, omega arith), tt)),
  (((ne_of_test "b" "c" refl, omega arith), tt), (tt, tt)),
)

abbrev locked_twice : ℕ → Attempt
locked_twice zero = locked
locked_twice (suc zero) = unique_violation
locked_twice (suc (suc n)) = runs

abbrev no_rows : Db → Db
no_rows _ = []

enqueue_test : (enqueue no_rows (request "b" 2) locked_twice 9 (row "a" 2 1 ∷ [])).0 ≡ queued "b" 2
unfolding enqueue attempts transaction select queue_owner_from_metadata get? upsert max_sequence
    sequence_of require_str surface_or_api
enqueue_test = refl

dequeue_b : (dequeue no_rows 9 table).0 ≡ some (item_of (row "b" 0 2))
unfolding dequeue next_pending is_pending precedes
dequeue_b = refl

dequeue_a : (dequeue no_rows 9 (dequeue no_rows 9 table).1).0 ≡ some (item_of (row "a" 2 1))
unfolding dequeue next_pending is_pending precedes mark_running
dequeue_a = refl

dequeue_lem_example :
    (dequeue no_rows 9 table ≡ (none, table)) × (pending_count table ≡ 0)
    ⊎ ((r : Row) × ((dequeue no_rows 9 table).0 ≡ some (item_of r))
        × Claims 9 table (dequeue no_rows 9 table).1 r)
dequeue_lem_example = dequeue_lem no_rows 9 table table-IsUnique

dequeue_twice_example :
    ◌≢◌ {A = String} "b" "a"
    × ((0 < 2) ⊎ ◌≡◌ {A = ℕ} 0 2 × (sequence_of "b" table ≤ sequence_of "a" table))
unfolding item_of
dequeue_twice_example =
    dequeue_twice no_rows no_rows 9 9 table (item_of (row "b" 0 2)) (item_of (row "a" 2 1))
      table-IsUnique dequeue_b dequeue_a

transaction-Outcome_example :
    Outcome none
      (row "a" 1 9)
      table
      (transaction none (row "a" 1 9) table).0
      (transaction none (row "a" 1 9) table).1
transaction-Outcome_example = transaction-Outcome (row "a" 1 9) table none

abbrev after_run : Db
after_run = (enqueue no_rows (request "a" 1) locked_twice 8 (dequeue no_rows 9 table).1).1

abbrev some_run : Steps table after_run
some_run = next (next here (dequeues no_rows 9)) (enqueues no_rows (request "a" 1) locked_twice 8)

select_c : select "c" table ≡ some (row "c" 2 3)
unfolding select
select_c = refl

admission_lasts_example :
    (r : Row) × (select "c" after_run ≡ some r)
    × (r.sequence ≡ 3)
    × (r.created_at ≡ 7)
    × (stored_owner r.metadata_json ≡ stored_owner (some (obj end)))
admission_lasts_example = admission_lasts some_run "c" (row "c" 2 3) table-IsUnique select_c

Steps-IsUnique_example : IsUnique after_run
Steps-IsUnique_example = Steps-IsUnique some_run table-IsUnique

turned_away : (i : ℕ) → i < 2 → IsTransient (locked_twice i)
turned_away zero h = inl refl
turned_away (suc zero) h = inr refl
turned_away (suc (suc i)) h = absurd (omega arith)

enqueue_absorbs_example :
    enqueue no_rows (request "d" 1) locked_twice 9 table
    ≡ enqueue no_rows (request "d" 1) (λ _. runs) 9 table
enqueue_absorbs_example =
    enqueue_absorbs no_rows (request "d" 1) locked_twice 9 2 table (omega arith) turned_away refl

always_locked : ℕ → Attempt
always_locked _ = locked

never_queued :
    (w : String) (n : ℕ) → (enqueue no_rows (request "d" 1) always_locked 9 table).0 ≢ queued w n
unfolding enqueue attempts queue_owner_from_metadata get? require_str always_locked
never_queued w n e = cc

enqueue_refused_unchanged_example :
    (enqueue no_rows (request "d" 1) always_locked 9 table).1 ≡ table
enqueue_refused_unchanged_example =
    enqueue_refused_unchanged no_rows (request "d" 1) always_locked 9 table table-IsUnique
      never_queued

-- Sequences that are not unique are numbered again.
reopened : open_db (λ _. table) (row "a" 2 1 ∷ row "b" 0 1 ∷ []) ≡ table
unfolding open_db
reopened = refl
