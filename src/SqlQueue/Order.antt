-- ===== src/SqlQueue/Order.antt =====
-- Which row `dequeue` takes.
use clx_preprocessing.Prelude.{
  All, All-map, Bool-cases, Option, Option-cases, String, [], arith, eq_iff, false, inl, inr, none,
  not, some, subst, true, ◌&&◌, ◌==◌, ◌∷◌, ◌≡◌, ◌≢◌, ◌⊎◌, comparable_texts, comparable_numbers,
}
use clx_preprocessing.SqlQueue.Table.{IsUnique}
use clx_preprocessing.SqlQueue.{
  Db, Row, choose, is_pending, next_pending, pending, precedes, running, select,
}

-- `r` is a pending row, and no pending row of the table comes before it.
pub record IsFirst (db : Db) (r : Row) : Type 0 where
  pub waits : r.status ≡ pending
  pub minimal : All (λ s. s.status ≡ pending → precedes s r ≡ false) db

precedes_trans : (t s r : Row) → precedes t s ≡ false → precedes s r ≡ false → precedes t r ≡ false
unfolding precedes
precedes_trans t s r h k = ground arith

precedes_irrefl : (r : Row) → precedes r r ≡ false
unfolding precedes
precedes_irrefl r = ground arith

precedes_asym : (r s : Row) → precedes r s ≡ true → precedes s r ≡ false
unfolding precedes
precedes_asym r s h = ground arith

pub next_pending-none : (db : Db) → next_pending db ≡ none → All (λ s. s.status ≡ running) db
unfolding next_pending is_pending
next_pending-none [] h = tt
next_pending-none (q ∷ rows) h = elim (Option-cases (next_pending rows)) [
  | inl e ↦ (ground (arith, e), next_pending-none rows e)
  | inr (s, e) ↦ absurd (ground (arith, e))
]

-- What `choose` does with the first row, over what the rest gave.
choose-IsFirst :
    (q s : Row) (rows : Db) (r : Row)
    → IsFirst rows s
    → choose q (some s) ≡ some r
    → IsFirst (q ∷ rows) r
unfolding choose is_pending
choose-IsFirst q s rows r first h = elim (Bool-cases (is_pending q.status && not (precedes s q))) [
  | inl takes ↦
      let e : q ≡ r = ground (arith, h, takes) in
      subst (IsFirst (q ∷ rows)) e (record {
        waits = ground (arith, takes);
        minimal = (
          λ _. precedes_irrefl q,
          All-map rows (λ t p w. precedes_trans t s q (p w) (ground (arith, takes))) first.minimal,
        );
      })
  | inr leaves ↦
      let e : s ≡ r = ground (arith, h, leaves) in
      subst (IsFirst (q ∷ rows)) e (record {
        waits = first.waits;
        minimal = (λ w. precedes_asym s q (ground (arith, leaves, w)), first.minimal);
      })
]

choose_alone-IsFirst :
    (q : Row) (rows : Db) (r : Row)
    → All (λ s. s.status ≡ running) rows
    → choose q none ≡ some r
    → IsFirst (q ∷ rows) r
unfolding choose is_pending
choose_alone-IsFirst q rows r busy h =
    let e : q ≡ r = ground (arith, h) in
    subst (IsFirst (q ∷ rows)) e (record {
      waits = ground (arith, h);
      minimal = (λ _. precedes_irrefl q, All-map rows (λ t p w. cc) busy);
    })

pub next_pending-IsFirst : (db : Db) (r : Row) → next_pending db ≡ some r → IsFirst db r
unfolding next_pending
next_pending-IsFirst [] r h = cc
next_pending-IsFirst (q ∷ rows) r h = elim (Option-cases (next_pending rows)) [
  | inl e ↦ choose_alone-IsFirst q rows r (next_pending-none rows e) (rw e at h)
  | inr (s, e) ↦ choose-IsFirst q s rows r (next_pending-IsFirst rows s e) (rw e at h)
]

choose_either : (q r : Row) (o : Option Row) → choose q o ≡ some r → (q ≡ r) ⊎ (o ≡ some r)
unfolding choose
choose_either q r none h = ground arith
choose_either q r (some s) h = ground arith

pub select-All :
    (P : Row → Type 0) (w : String) (db : Db) (r : Row) → All P db → select w db ≡ some r → P r
unfolding select
select-All P w [] r p h = cc
select-All P w (s ∷ rows) r p h = elim (Bool-cases (s.work_id == w)) [
  | inl same ↦ subst P (ground (arith, h, same)) p.0
  | inr other ↦ select-All P w rows r p.1 (rw other at h)
]

-- A work id of the table that differs from the first row's is looked up in the rest.
select_rest :
    (q r : Row) (rows : Db)
    → All (λ s. (q.work_id ≢ s.work_id) × (q.sequence ≢ s.sequence)) rows
    → select r.work_id rows ≡ some r
    → select r.work_id (q ∷ rows) ≡ some r
unfolding select
select_rest q r rows fresh h =
    let ne =
      select-All (λ s. (q.work_id ≢ s.work_id) × (q.sequence ≢ s.sequence)) r.work_id rows r fresh
        h in
    ground (arith, ne.0, eq_iff q.work_id r.work_id, h)

pub next_pending-select :
    (db : Db) (r : Row) → IsUnique db → next_pending db ≡ some r → select r.work_id db ≡ some r
unfolding next_pending select
next_pending-select [] r u h = cc
next_pending-select (q ∷ rows) r u h = elim (choose_either q r (next_pending rows) h) [
  | inl e ↦ ground (arith, e, eq_iff q.work_id q.work_id)
  | inr e ↦ select_rest q r rows u.0 (next_pending-select rows r u.1 e)
]
