-- ===== src/HybridForget/Ordered.antt =====
-- The orders of `apply_hybrid_forget` keep what holds of each element.
use clx_preprocessing.Prelude.{All, Bool-cases, List, [], inl, inr, leb, ℕ, ◌∷◌}
use clx_preprocessing.ContextCompress.Pinned.{sort as sort, insert as insert}
use clx_preprocessing.HybridForget.{Scored, insert_scored, is_before, sorted}

module _ (P : ℕ × ℕ → Type 0) where
  All-insert_scored : (p : ℕ × ℕ) (l : Scored) → P p → All P l → All P (insert_scored p l)
  unfolding insert_scored
  All-insert_scored p [] h k = (h, tt)
  All-insert_scored p (q ∷ l) h k = elim (Bool-cases (is_before p q)) [
    | inl first ↦ rw (first) (h, k)
    | inr later ↦ rw (later) (k.0, All-insert_scored p l h k.1)
  ]

  pub All-sorted : (l : Scored) → All P l → All P (sorted l)
  unfolding sorted
  All-sorted [] h = tt
  All-sorted (p ∷ l) h = All-insert_scored p (sorted l) h.0 (All-sorted l h.1)

  inserted-All : (p : ℕ × ℕ) (l : Scored) → All P (insert_scored p l) → P p × All P l
  unfolding insert_scored
  inserted-All p [] h = h
  inserted-All p (q ∷ l) h = elim (Bool-cases (is_before p q)) [
    | inl first ↦ rw first at h
    | inr later ↦
        let k : P q × All P (insert_scored p l) = (rw later at h) in
        let rest = inserted-All p l k.1 in (rest.0, (k.0, rest.1))
  ]

  pub sorted-All : (l : Scored) → All P (sorted l) → All P l
  unfolding sorted
  sorted-All [] h = tt
  sorted-All (p ∷ l) h = let k = inserted-All p (sorted l) h in (k.0, sorted-All l k.1)

All-insert : (P : ℕ → Type 0) (n : ℕ) (l : List ℕ) → P n → All P l → All P (insert n l)
unfolding insert
All-insert P n [] h k = (h, tt)
All-insert P n (m ∷ l) h k = elim (Bool-cases (leb n m)) [
  | inl first ↦ rw (first) (h, k)
  | inr later ↦ rw (later) (k.0, All-insert P n l h k.1)
]

pub All-sort : (P : ℕ → Type 0) (l : List ℕ) → All P l → All P (sort l)
unfolding sort
All-sort P [] h = tt
All-sort P (n ∷ l) h = All-insert P n (sort l) h.0 (All-sort P l h.1)
