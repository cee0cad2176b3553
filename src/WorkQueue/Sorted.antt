-- ===== src/WorkQueue/Sorted.antt =====
-- Sorted lists do what the documentation of `heapq` says.
use mathlib.Core.List.{Perm}
use mathlib.Core.List.Perm
use clx_preprocessing.Prelude.{
  All, All-map, All-perm, Bool-cases, List, Option, [], false, if◌then◌else◌, inl, inr, none, refl,
  some, subst, sym, true, ◌∷◌, ◌≡◌,
}
use clx_preprocessing.WorkQueue.{Entry, Heapq, precedes}
use clx_preprocessing.WorkQueue.Model.{precedes_asym, precedes_irrefl, precedes_trans}

unfoldable pub IsSorted : List Entry → Type 0
IsSorted [] = Unit
IsSorted (e ∷ l) = All (λ x. precedes x e ≡ false) l × IsSorted l

unfoldable pub insert : Entry → List Entry → List Entry
insert e [] = e ∷ []
insert e (x ∷ l) = let rest = insert e l in if precedes x e then x ∷ rest else e ∷ x ∷ l

unfoldable pub sort : List Entry → List Entry
sort [] = []
sort (e ∷ l) = insert e (sort l)

module _ (e x : Entry) (l : List Entry) where
  insert_later : precedes x e ≡ true → insert e (x ∷ l) ≡ x ∷ insert e l
  unfolding insert
  insert_later h = rw (h) refl

  insert_here : precedes x e ≡ false → insert e (x ∷ l) ≡ e ∷ x ∷ l
  unfolding insert
  insert_here h = rw (h) refl

pub insert-perm : (e : Entry) (l : List Entry) → Perm (insert e l) (e ∷ l)
insert-perm e [] = unfold insert in Perm.refl (e ∷ [])
insert-perm e (x ∷ l) = elim (Bool-cases (precedes x e)) [
  | inl later ↦
      rw (insert_later e x l later) (Perm.trans (Perm.cons x (insert-perm e l)) (Perm.swap e x l))
  | inr here ↦ rw (insert_here e x l here) (Perm.refl (e ∷ x ∷ l))
]

pub sort-perm : (l : List Entry) → Perm (sort l) l
unfolding sort
sort-perm [] = Perm.refl []
sort-perm (e ∷ l) = Perm.trans (insert-perm e (sort l)) (Perm.cons e (sort-perm l))

pub insert-IsSorted : (e : Entry) (l : List Entry) → IsSorted l → IsSorted (insert e l)
unfolding IsSorted
insert-IsSorted e [] h = unfold insert in (tt, tt)
insert-IsSorted e (x ∷ l) h = elim (Bool-cases (precedes x e)) [
  | inl later ↦ subst IsSorted (sym (insert_later e x l later)) (
    All-perm (λ y. precedes y x ≡ false) (λ y. hlevel) (e ∷ l) (insert e l)
        (Perm.symm (insert-perm e l)) (precedes_asym x e later, h.0),
    insert-IsSorted e l h.1,
  )
  | inr here ↦
      subst IsSorted (sym (insert_here e x l here))
        ((here, All-map l (λ y k. precedes_trans y x e k here) h.0), h)
]

pub sort-IsSorted : (l : List Entry) → IsSorted (sort l)
unfolding sort IsSorted
sort-IsSorted [] = tt
sort-IsSorted (e ∷ l) = insert-IsSorted e (sort l) (sort-IsSorted l)

abbrev pub pop : List Entry → Option (Entry × List Entry)
pop [] = none
pop (e ∷ l) = some (e, l)

unfoldable pub sorted : Heapq
unfolding IsSorted
sorted = record {
  IsHeap = IsSorted;
  heappush = insert;
  heappop = pop;
  heapify = sort;
  nil-IsHeap = tt;
  heappush-IsHeap = insert-IsSorted;
  heappush-perm = insert-perm;
  heapify-IsHeap = sort-IsSorted;
  heapify-perm = sort-perm;
  heappop-nil = refl;
  heappop-cons = λ e l h. (e, l, refl, h.1, Perm.refl (e ∷ l), (precedes_irrefl e, h.0));
}
