-- ===== src/WorkQueue/Model.antt =====
-- What `enqueue` and `dequeue` do to the multiset of the waiting entries.
use mathlib.Core.List.{Perm}
use mathlib.Core.List.Perm
use native.Mathlib.Bridge.{le_prop}
use clx_preprocessing.Prelude.{
  All, All-map, All-perm, Bool-cases, List, List-cases, Option, [], ap, arith, false, inl, inr, leb,
  length, length-perm, ltb, ltb→lt, none, not_ltb→le, refl, some, subst, suc, sym, true, ◌+◌, ◌<◌,
  ◌∷◌, ◌≡◌, ◌≤◌, ◌⊎◌,
}
use clx_preprocessing.Types.{WorkItem, priority_int}
use clx_preprocessing.WorkQueue.{
  Admission, Entry, Heapq, Queue, dequeue, enqueue, full, precedes,
  queue_full_lower_or_equal_priority, queued, queued_after_eviction, replace, set, worst,
}

pub record IsValid (hq : Heapq) (q : Queue) : Type 0 where
  pub positive : 1 ≤ q.max_size
  pub bounded : length q.heap ≤ q.max_size
  pub ordered : hq.IsHeap q.heap
  pub numbered : All (λ x. x.sequence < q.sequence) q.heap

-- No entry comes after `w`.
abbrev pub IsWorst : Entry → List Entry → Type 0
IsWorst w l = All (λ x. precedes w x ≡ false) l

-- No entry comes before `e`.
abbrev pub IsLeast : Entry → List Entry → Type 0
IsLeast e l = All (λ x. precedes x e ≡ false) l

pub precedes_trans :
    (a b c : Entry) → precedes a b ≡ false → precedes b c ≡ false → precedes a c ≡ false
unfolding precedes
precedes_trans a b c h k = ground arith

pub precedes_irrefl : (a : Entry) → precedes a a ≡ false
unfolding precedes
precedes_irrefl a = ground arith

pub precedes_asym : (a b : Entry) → precedes a b ≡ true → precedes b a ≡ false
unfolding precedes
precedes_asym a b h = ground arith

module _ (e f : Entry) (l : List Entry) where
  worst_later :
      precedes e (worst f l).1 ≡ true → worst e (f ∷ l) ≡ (suc (worst f l).0, (worst f l).1)
  unfolding worst
  worst_later h = rw (h, worst) refl

  worst_first : precedes e (worst f l).1 ≡ false → worst e (f ∷ l) ≡ (0, e)
  unfolding worst
  worst_first h = rw (h, worst) refl

worst-IsWorst : (e : Entry) (l : List Entry) → IsWorst (worst e l).1 (e ∷ l)
worst-IsWorst e [] = (unfold worst in precedes_irrefl e, tt)
worst-IsWorst e (f ∷ l) = elim (Bool-cases (precedes e (worst f l).1)) [
  | inl later ↦
      subst (λ p. IsWorst p.1 (e ∷ f ∷ l)) (sym (worst_later e f l later))
        (precedes_asym e (worst f l).1 later, worst-IsWorst f l)
  | inr first ↦
      subst (λ p. IsWorst p.1 (e ∷ f ∷ l)) (sym (worst_first e f l first))
        (
          precedes_irrefl e,
          All-map (f ∷ l) (λ x p. precedes_trans e (worst f l).1 x first p) (worst-IsWorst f l),
        )
]

-- The entry at the worst index is exchanged for the new one.
set-worst-perm :
    (e : Entry) (l : List Entry) (new : Entry)
    → Perm ((worst e l).1 ∷ set (e ∷ l) (worst e l).0 new) (new ∷ e ∷ l)
unfolding set
set-worst-perm e [] new = unfold worst in Perm.swap new e []
set-worst-perm e (f ∷ l) new = elim (Bool-cases (precedes e (worst f l).1)) [
  | inl later ↦ rw (worst_later e f l later) (
      Perm.trans (Perm.swap e (worst f l).1 (set (f ∷ l) (worst f l).0 new))
        (Perm.trans (Perm.cons e (set-worst-perm f l new)) (Perm.swap new e (f ∷ l))))
  | inr first ↦ rw (worst_first e f l first) (Perm.swap new e (f ∷ l))
]

abbrev pub entry_of : WorkItem → Queue → Entry
entry_of item q = record {
  priority = priority_int item.priority;
  sequence = q.sequence;
  item = item;
}

-- What an enqueue did to the waiting entries.
pub data Enqueued (item : WorkItem) (q : Queue) (after : Queue) : Admission → Type 0 where
  had_room :
      length q.heap < q.max_size
      → Perm after.heap (entry_of item q ∷ q.heap)
      → Enqueued item q after queued
  turned_away :
      (w : Entry)
      → length q.heap ≡ q.max_size
      → IsWorst w q.heap
      → w.priority ≤ priority_int item.priority
      → after.heap ≡ q.heap
      → Enqueued item q after queue_full_lower_or_equal_priority
  evicted :
      (w : Entry)
      → length q.heap ≡ q.max_size
      → IsWorst w q.heap
      → priority_int item.priority < w.priority
      → Perm (w ∷ after.heap) (entry_of item q ∷ q.heap)
      → Enqueued item q after (queued_after_eviction w.item.work_id)

numbered_next :
    (q : Queue) (item : WorkItem) (l : List Entry)
    → All (λ x. x.sequence < q.sequence) q.heap
    → Perm l (entry_of item q ∷ q.heap)
    → All (λ x. x.sequence < q.sequence + 1) l
numbered_next q item l h p =
    All-perm (λ x. x.sequence < q.sequence + 1) (λ x. le_prop) (entry_of item q ∷ q.heap) l
      (Perm.symm p) (omega arith, All-map q.heap (λ x k. omega arith) h)

module _ (hq : Heapq) (item : WorkItem) (q : Queue) (v : IsValid hq q) (x : Entry) (l : List Entry)
    (e : q.heap ≡ x ∷ l) (is_full : length q.heap ≡ q.max_size) where
  abbrev bumped : Queue
  bumped = record q { sequence = q.sequence + 1 }

  abbrev w : Entry
  w = (worst x l).1

  abbrev new_heap : List Entry
  new_heap = hq.heapify (set (x ∷ l) (worst x l).0 (entry_of item q))

  w-IsWorst : IsWorst w q.heap
  w-IsWorst = subst (IsWorst w) (sym e) (worst-IsWorst x l)

  exchanged : Perm (w ∷ new_heap) (entry_of item q ∷ q.heap)
  exchanged =
      subst (λ h. Perm (w ∷ new_heap) (entry_of item q ∷ h)) (sym e)
        (Perm.trans (Perm.cons w (hq.heapify-perm (set (x ∷ l) (worst x l).0 (entry_of item q))))
          (set-worst-perm x l (entry_of item q)))

  abbrev Answer : Option (Admission × Queue) → Type 0
  Answer answer =
      (a : Admission) × (after : Queue) × (answer ≡ some (a, after))
      × IsValid hq after
      × Enqueued item q after a

  kept_lem :
      leb w.priority (priority_int item.priority) ≡ true
      → Answer (some (replace hq (entry_of item q) bumped x l))
  unfolding enqueue
  kept_lem below = (
    queue_full_lower_or_equal_priority,
    bumped,
    rw below refl,
    record {
      positive = v.positive;
      bounded = v.bounded;
      ordered = v.ordered;
      numbered = All-map q.heap (λ y k. omega arith) v.numbered;
    },
    turned_away w is_full w-IsWorst (ground (arith, below)) refl,
  )

  evict_lem :
      leb w.priority (priority_int item.priority) ≡ false
      → Answer (some (replace hq (entry_of item q) bumped x l))
  unfolding enqueue
  evict_lem urgent = (
    queued_after_eviction w.item.work_id,
    record q { sequence = q.sequence + 1; heap = new_heap },
    rw urgent refl,
    record {
      positive = v.positive;
      bounded = omega (arith, length-perm exchanged, is_full);
      ordered = hq.heapify-IsHeap (set (x ∷ l) (worst x l).0 (entry_of item q));
      numbered =
          (All-perm (λ y. y.sequence < q.sequence + 1) (λ y. le_prop) (entry_of item q ∷ q.heap)
            (w ∷ new_heap) (Perm.symm exchanged)
            (omega arith, All-map q.heap (λ y k. omega arith) v.numbered)).1;
    },
    evicted w is_full w-IsWorst (ground (arith, urgent)) exchanged,
  )

module _ (hq : Heapq) where
  -- On a valid queue `enqueue` answers, and leaves a valid queue: where there is room the item
  -- joins the others; on a full queue the worst entry, the last one of the least urgent priority,
  -- gives way to a more urgent item, and any other item is turned away.
  pub enqueue-IsValid :
      (item : WorkItem) (q : Queue)
      → IsValid hq q
      → (a : Admission) × (after : Queue) × (enqueue hq item q ≡ some (a, after))
        × IsValid hq after
        × Enqueued item q after a
  unfolding enqueue
  enqueue-IsValid item q v = elim (Bool-cases (ltb (length q.heap) q.max_size)) [
    | inl room ↦
        let p = hq.heappush-perm (entry_of item q) q.heap in
        (
          queued,
          record q { sequence = q.sequence + 1; heap = hq.heappush (entry_of item q) q.heap },
          rw room refl,
          record {
            positive = v.positive;
            bounded = omega (arith, length-perm p, ltb→lt (length q.heap) q.max_size room);
            ordered = hq.heappush-IsHeap (entry_of item q) q.heap v.ordered;
            numbered = numbered_next q item _ v.numbered p;
          },
          had_room (ltb→lt (length q.heap) q.max_size room) p,
        )
    | inr none_left ↦ elim (List-cases q.heap) [
      | inl e ↦
          absurd (
            omega (arith, not_ltb→le (length q.heap) q.max_size none_left, ap length e, v.positive))
      | inr (x, l, e) ↦
          let is_full : length q.heap ≡ q.max_size =
            omega (arith, not_ltb→le (length q.heap) q.max_size none_left, v.bounded) in
          rw (none_left) (
            subst
              (λ h.
                Answer hq item q v x l e is_full
                  (full hq (entry_of item q) (bumped hq item q v x l e is_full) h))
              (sym e)
              (elim (Bool-cases (leb (worst x l).1.priority (priority_int item.priority))) [
                | inl below ↦ kept_lem hq item q v x l e is_full below
                | inr urgent ↦ evict_lem hq item q v x l e is_full urgent
              ]))
    ]
  ]

  -- `dequeue` answers nothing only on an empty queue, and otherwise takes the least entry.
  pub dequeue-IsLeast :
      (q : Queue)
      → IsValid hq q
      → (q.heap ≡ []) × (dequeue hq q ≡ (none, q))
        ⊎ ((e : Entry) × (after : Queue) × (dequeue hq q ≡ (some e.item, after))
            × IsValid hq after
            × Perm (e ∷ after.heap) q.heap
            × IsLeast e q.heap)
  unfolding dequeue
  dequeue-IsLeast q v = elim (List-cases q.heap) [
    | inl e ↦ inl (e, rw (e, hq.heappop-nil) refl)
    | inr (x, l, e) ↦
        let (least, rest, pops, heap, p, first) =
          hq.heappop-cons x l (subst hq.IsHeap e v.ordered) in
        inr (
          least,
          record q { heap = rest },
          rw (e, pops) refl,
          record {
            positive = v.positive;
            bounded = omega (arith, length-perm p, ap length e, v.bounded);
            ordered = heap;
            numbered =
                (All-perm (λ y. y.sequence < q.sequence) (λ y. le_prop) (x ∷ l) (least ∷ rest)
                  (Perm.symm p) (subst (All (λ y. y.sequence < q.sequence)) e v.numbered)).1;
          },
          subst (Perm (least ∷ rest)) (sym e) p,
          subst (IsLeast least) (sym e) first,
        )
  ]
