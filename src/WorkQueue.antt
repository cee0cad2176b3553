-- ===== src/WorkQueue.antt =====
-- The in-memory queue of src/cluxion_runtime/core/work_queue.py. `heapq` is given by what its
-- documentation says of it.
pub mod Model
pub mod Turns
mod Sorted
mod Tests
use mathlib.Core.List.{Perm}
use clx_preprocessing.Prelude.{
  All, Bool, List, Option, String, [], false, if◌then◌else◌, leb, length, ltb, none, some, suc,
  zero, ℕ, ◌&&◌, ◌+◌, ◌==◌, ◌||◌, ◌∷◌, ◌≡◌, comparable_texts, comparable_numbers,
}
use clx_preprocessing.Types.{WorkItem, priority_int}

-- `_QueueEntry`: ordered by priority, then sequence; the item is not compared.
pub record Entry : Type 0 where
  pub priority : ℕ
  pub sequence : ℕ
  pub item : WorkItem

-- `a < b`
unfoldable pub precedes : Entry → Entry → Bool
precedes a b = ltb a.priority b.priority || (a.priority == b.priority && ltb a.sequence b.sequence)

-- `heapq`, and the invariant of its heaps.
pub record Heapq : Type 1 where
  pub IsHeap : List Entry → Type 0
  pub heappush : Entry → List Entry → List Entry
  pub heappop : List Entry → Option (Entry × List Entry)
  pub heapify : List Entry → List Entry
  pub nil-IsHeap : IsHeap []
  pub heappush-IsHeap : (e : Entry) (l : List Entry) → IsHeap l → IsHeap (heappush e l)
  pub heappush-perm : (e : Entry) (l : List Entry) → Perm (heappush e l) (e ∷ l)
  pub heapify-IsHeap : (l : List Entry) → IsHeap (heapify l)
  pub heapify-perm : (l : List Entry) → Perm (heapify l) l
  pub heappop-nil : heappop [] ≡ none
  pub heappop-cons :
      (e : Entry) (l : List Entry)
      → IsHeap (e ∷ l)
      → (least : Entry) × (rest : List Entry) × (heappop (e ∷ l) ≡ some (least, rest))
        × IsHeap rest
        × Perm (least ∷ rest) (e ∷ l)
        × All (λ x. precedes x least ≡ false) (e ∷ l)

pub record Queue : Type 0 where
  pub max_size : ℕ
  pub sequence : ℕ
  pub heap : List Entry

pub data Admission : Type 0 where
  queued : Admission
  queue_full_lower_or_equal_priority : Admission
  queued_after_eviction : String → Admission

-- `AgentWorkQueue(max_size)`, and `none` for its `ValueError`.
unfoldable pub new_queue : ℕ → Option Queue
new_queue max_size =
    if ltb max_size 1 then none else some (record { max_size = max_size; sequence = 0; heap = [] })

-- `_worst_index` and the entry there: the first greatest one of a list that is not empty.
unfoldable pub worst : Entry → List Entry → ℕ × Entry
worst e [] = (0, e)
worst e (f ∷ l) = let (i, w) = worst f l in if precedes e w then (suc i, w) else (0, e)

-- `self._heap[index] = entry`
unfoldable pub set : List Entry → ℕ → Entry → List Entry
set [] i e = []
set (x ∷ l) zero e = e ∷ l
set (x ∷ l) (suc i) e = x ∷ set l i e

module _ (hq : Heapq) where
  open hq use {heappush, heappop, heapify}

  -- The queue is full, and `e ∷ l` is its heap.
  replace : Entry → Queue → Entry → List Entry → Admission × Queue
  replace entry q e l =
      let (i, w) = worst e l in
      if leb w.priority entry.priority
      then (queue_full_lower_or_equal_priority, q)
      else (queued_after_eviction w.item.work_id, record q { heap = heapify (set (e ∷ l) i entry) })

  -- On an empty heap that is full `max` raises; a queue of positive size is never that.
  full : Entry → Queue → List Entry → Option (Admission × Queue)
  full entry q [] = none
  full entry q (e ∷ l) = some (replace entry q e l)

  unfoldable pub enqueue : WorkItem → Queue → Option (Admission × Queue)
  unfolding full replace
  enqueue item q =
      let entry : Entry = record {
        priority = priority_int item.priority;
        sequence = q.sequence;
        item = item;
      } in
      let q' : Queue = record q { sequence = q.sequence + 1 } in
      if ltb (length q.heap) q.max_size
      then some (queued, record q' { heap = heappush entry q.heap })
      else full entry q' q.heap

  popped : Queue → Option (Entry × List Entry) → Option WorkItem × Queue
  popped q none = (none, q)
  popped q (some (e, rest)) = (some e.item, record q { heap = rest })

  unfoldable pub dequeue : Queue → Option WorkItem × Queue
  unfolding popped
  dequeue q = popped q (heappop q.heap)
