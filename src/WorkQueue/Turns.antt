-- ===== src/WorkQueue/Turns.antt =====
-- The turn of an item that is enqueued and the next dequeue.
use mathlib.Core.List.{Perm}
use mathlib.Core.List.Perm
use native.Mathlib.Bridge.{le_prop}
use clx_preprocessing.Prelude.{
  All, All-map, All-perm, Bool-cases, List, [], ap, arith, eq_iff, false, inl, inr, leb, length,
  length-perm, refl, some, subst, true, ◌+◌, ◌<◌, ◌==◌, ◌∷◌, ◌≡◌, ◌≤◌, ◌⊎◌, comparable_texts,
  comparable_numbers,
}
use clx_preprocessing.Types.{WorkItem, priority_int}
use clx_preprocessing.WorkQueue.{
  Admission, Entry, Heapq, Queue, dequeue, enqueue, full, precedes, queued,
}
use clx_preprocessing.WorkQueue.Model.{
  Enqueued, IsLeast, IsValid, dequeue-IsLeast, enqueue-IsValid, entry_of, evicted, had_room,
  turned_away,
}

module _ (hq : Heapq) (item : WorkItem) (q : Queue) where
  -- The entry `e` is the item's own, which is more urgent than all that waited; or one that waited,
  -- as urgent as the item or more, and the first of those of its own priority.
  abbrev pub HasTurn : Entry → Type 0
  HasTurn e =
      (e.sequence ≡ q.sequence)
        × (e.item.work_id ≡ item.work_id)
        × All (λ x. priority_int item.priority < x.priority) q.heap
      ⊎ (e.sequence < q.sequence)
        × (e.priority ≤ priority_int item.priority)
        × All
            (λ x. (e.priority < x.priority) ⊎ (e.priority ≡ x.priority) × (e.sequence ≤ x.sequence))
            q.heap

  -- An entry with the item's number is the item's.
  abbrev IsOwn : Entry → Type 0
  IsOwn e =
      e.sequence ≡ q.sequence
      → (e.priority ≡ priority_int item.priority) × (e.item.work_id == item.work_id ≡ true)

  joined-IsOwn : All (λ x. x.sequence < q.sequence) q.heap → All IsOwn (entry_of item q ∷ q.heap)
  joined-IsOwn numbered = (
    λ _. (refl, (eq_iff item.work_id item.work_id).1 refl),
    All-map q.heap (λ x below e. absurd (omega (arith, below, e))) numbered,
  )

  urgent_lem :
      (e : Entry) (l : List Entry)
      → e.sequence ≡ q.sequence
      → e.priority ≡ priority_int item.priority
      → All (λ x. x.sequence < q.sequence) l
      → IsLeast e l
      → All (λ x. priority_int item.priority < x.priority) l
  unfolding precedes
  urgent_lem e [] own is below least = tt
  urgent_lem e (x ∷ l) own is below least =
      (ground (arith, own, is, below.0, least.0), urgent_lem e l own is below.1 least.1)

  first_lem :
      (e x : Entry)
      → precedes x e ≡ false
      → (e.priority < x.priority) ⊎ (e.priority ≡ x.priority) × (e.sequence ≤ x.sequence)
  unfolding precedes
  first_lem e x h = ground (arith, h)

  -- The least entry of the queue with the item in it has its turn.
  least-HasTurn :
      (e : Entry) (l : List Entry)
      → IsValid hq q
      → Perm (e ∷ l) (entry_of item q ∷ q.heap)
      → IsLeast e (entry_of item q ∷ q.heap)
      → HasTurn e
  unfolding precedes
  least-HasTurn e l v p least =
      let own =
        (All-perm IsOwn (λ x. hlevel) (entry_of item q ∷ q.heap) (e ∷ l) (Perm.symm p)
          (joined-IsOwn v.numbered)).0 in
      let numbered : e.sequence < q.sequence + 1 =
        (All-perm (λ x. x.sequence < q.sequence + 1) (λ x. le_prop) (entry_of item q ∷ q.heap)
          (e ∷ l) (Perm.symm p)
          (omega arith, All-map q.heap (λ x k. omega (arith, k)) v.numbered)).0 in
      elim (Bool-cases (leb q.sequence e.sequence)) [
        | inl last ↦
            let same : e.sequence ≡ q.sequence = ground (arith, last, numbered) in
            inl (
              same,
              (eq_iff e.item.work_id item.work_id).0 (own same).1,
              urgent_lem e q.heap same (own same).0 v.numbered least.1,
            )
        | inr before ↦ inr (
          ground (arith, before),
          ground (arith, least.0),
          All-map q.heap (λ x h. first_lem e x h) least.1,
        )
      ]

  with_room :
      (a : Admission) (after : Queue)
      → length q.heap < q.max_size
      → Enqueued item q after a
      → (a ≡ queued) × Perm after.heap (entry_of item q ∷ q.heap)
  with_room a after room (had_room _ p) = (refl, p)
  with_room a after room (turned_away w full _ _ _) = absurd (omega (arith, room, full))
  with_room a after room (evicted w full _ _ _) = absurd (omega (arith, room, full))

  -- On a valid queue with room `enqueue` answers `queued`, and the next `dequeue` takes an entry out
  -- and leaves the others: it takes the item just enqueued only where each entry that waited is
  -- strictly less urgent; otherwise it takes an entry that waited, at least as urgent as the item, and
  -- among the entries that waited the first enqueued of the most urgent priority.
  pub enqueue_then_dequeue :
      IsValid hq q
      → length q.heap < q.max_size
      → (mid after : Queue) × (e : Entry) × (enqueue hq item q ≡ some (queued, mid))
        × (dequeue hq mid ≡ (some e.item, after))
        × Perm (e ∷ after.heap) (entry_of item q ∷ q.heap)
        × HasTurn e
  enqueue_then_dequeue v room =
      let (a, mid, answers, valid, how) = enqueue-IsValid hq item q v in
      let (is, p) = with_room a mid room how in
      elim (dequeue-IsLeast hq mid valid) [
        | inl (nothing, _) ↦ absurd (omega (arith, length-perm p, ap length nothing))
        | inr (e, after, takes, _, others, least) ↦
            let all = Perm.trans others p in
            let first =
              All-perm (λ x. precedes x e ≡ false) (λ x. hlevel) mid.heap (entry_of item q ∷ q.heap)
                p least in
            (
              mid,
              after,
              e,
              subst (λ b. enqueue hq item q ≡ some (b, mid)) is answers,
              takes,
              all,
              least-HasTurn e after.heap v all first,
            )
      ]
