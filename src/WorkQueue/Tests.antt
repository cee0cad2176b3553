-- ===== src/WorkQueue/Tests.antt =====
-- The in-memory queue over sorted lists, and its theorems at a full queue.
use mathlib.Core.List.{Perm}
use clx_preprocessing.Prelude.{String, [], arith, pos, refl, some, ℕ, ◌∷◌, ◌≡◌}
use clx_preprocessing.Types.{WorkItem, WorkPriority, api, critical, high, low, priority_int}
use clx_preprocessing.WorkQueue.{
  Admission, Entry, Queue, dequeue, enqueue, precedes, queue_full_lower_or_equal_priority, queued,
  queued_after_eviction, set, worst,
}
use clx_preprocessing.WorkQueue.Model.{Enqueued, IsValid, enqueue-IsValid, entry_of}
use clx_preprocessing.WorkQueue.Turns.{HasTurn, enqueue_then_dequeue}
use clx_preprocessing.WorkQueue.Sorted.{IsSorted, insert, sort, sorted}

abbrev task : String → WorkPriority → WorkItem
task w p = record {
  work_id = w;
  prompt = "do it";
  surface = api;
  priority = p;
  model_route = "auto";
  expected_ram_mb = pos 0;
  context_tokens = pos 0;
  metadata = [];
}

abbrev waiting : WorkPriority → ℕ → String → Entry
waiting p n w = record { priority = priority_int p; sequence = n; item = task w p }

abbrev full_queue : Queue
full_queue = record {
  max_size = 2;
  sequence = 2;
  heap = waiting high 0 "a" ∷ waiting low 1 "b" ∷ [];
}

full_queue-IsValid : IsValid sorted full_queue
unfolding sorted IsSorted precedes priority_int
full_queue-IsValid = record {
  positive = omega arith;
  bounded = omega arith;
  ordered = ((refl, tt), (tt, tt));
  numbered = (omega arith, (omega arith, tt));
}

evicts :
    enqueue sorted (task "c" critical) full_queue
    ≡ some (
      queued_after_eviction "b",
      record {
        max_size = 2;
        sequence = 3;
        heap = waiting critical 2 "c" ∷ waiting high 0 "a" ∷ [];
      },
    )
unfolding enqueue worst set sort insert precedes sorted priority_int
evicts = refl

turns_away :
    enqueue sorted (task "c" low) full_queue
    ≡ some (queue_full_lower_or_equal_priority, record full_queue { sequence = 3 })
unfolding enqueue worst precedes priority_int
turns_away = refl

takes :
    dequeue sorted full_queue
    ≡ (some (task "a" high), record full_queue { heap = waiting low 1 "b" ∷ [] })
unfolding dequeue sorted priority_int
takes = refl

enqueue-IsValid_example :
    (a : Admission) × (after : Queue) × (enqueue sorted (task "c" critical) full_queue
      ≡ some (a, after))
    × IsValid sorted after
    × Enqueued (task "c" critical) full_queue after a
enqueue-IsValid_example = enqueue-IsValid sorted (task "c" critical) full_queue full_queue-IsValid

abbrev half_queue : Queue
half_queue = record { max_size = 2; sequence = 1; heap = waiting high 0 "a" ∷ [] }

half_queue-IsValid : IsValid sorted half_queue
unfolding sorted IsSorted precedes priority_int
half_queue-IsValid = record {
  positive = omega arith;
  bounded = omega arith;
  ordered = (tt, tt);
  numbered = (omega arith, tt);
}

-- Of two items of the same priority the first to come is taken.
in_turn :
    dequeue sorted (record half_queue { heap = waiting high 0 "a" ∷ waiting high 1 "c" ∷ [] })
    ≡ (some (task "a" high), record half_queue { heap = waiting high 1 "c" ∷ [] })
unfolding dequeue sorted priority_int
in_turn = refl

enqueue_then_dequeue_example :
    (mid after : Queue) × (e : Entry) × (enqueue sorted (task "c" high) half_queue
      ≡ some (queued, mid))
    × (dequeue sorted mid ≡ (some e.item, after))
    × Perm (e ∷ after.heap) (entry_of (task "c" high) half_queue ∷ half_queue.heap)
    × HasTurn sorted (task "c" high) half_queue e
enqueue_then_dequeue_example =
    enqueue_then_dequeue sorted (task "c" high) half_queue half_queue-IsValid (omega arith)
