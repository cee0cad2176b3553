-- ===== src/SqlQueue/Claim.antt =====
-- What one `dequeue` does.
use clx_preprocessing.Prelude.{
  All, All-map, Option-cases, String, [], arith, count, eq_cases, eq_iff, if◌then◌else◌, inl, inr,
  none, refl, some, subst, ℕ, ◌+◌, ◌==◌, ◌∙◌, ◌∷◌, ◌≡◌, ◌≢◌, ◌⊎◌, comparable_texts,
  comparable_numbers,
}
use clx_preprocessing.SqlQueue.{
  Db, Row, dequeue, is_pending, item_of, mark_running, next_pending, pending, pending_count,
  running, running_count, select, take_first, take_row,
}
use clx_preprocessing.SqlQueue.Table.{
  IsUnique, dequeue-take_first, select-mark_running_ne, select-mark_running_self, started,
}
use clx_preprocessing.SqlQueue.Order.{
  IsFirst, next_pending-IsFirst, next_pending-none, next_pending-select,
}

-- `r` is claimed: it was the first pending row, and now it alone has changed, to running.
pub record Claims (now : ℕ) (db after : Db) (r : Row) : Type 0 where
  pub stored : select r.work_id db ≡ some r
  pub first : IsFirst db r
  pub rows :
      (j : String) → select j after ≡ (if r.work_id == j then some (started now r) else select j db)
  pub one_less : pending_count after + 1 ≡ pending_count db
  pub one_more : running_count after ≡ running_count db + 1

mark_running_absent :
    (now : ℕ) (w : String) (db : Db) → All (λ s. w ≢ s.work_id) db → mark_running now w db ≡ db
unfolding mark_running
mark_running_absent now w [] h = refl
mark_running_absent now w (r ∷ rows) h =
    ground (arith, h.0, eq_iff r.work_id w, mark_running_absent now w rows h.1)

-- On unique work ids one row changes, so each count moves by one.
counts-mark_running :
    (now : ℕ) (w : String) (db : Db) (r : Row)
    → IsUnique db
    → select w db ≡ some r
    → r.status ≡ pending
    → (pending_count (mark_running now w db) + 1 ≡ pending_count db)
      × (running_count (mark_running now w db) ≡ running_count db + 1)
unfolding pending_count running_count count select mark_running is_pending
counts-mark_running now w [] r u h p = cc
counts-mark_running now w (s ∷ rows) r u h p = elim (eq_cases s.work_id w) [
  | inl (same, e) ↦
      let absent : mark_running now w rows ≡ rows =
        mark_running_absent now w rows (All-map rows (λ t d q. d.0 (e ∙ q)) u.0) in
      ground (arith, same, absent)
  | inr (other, _) ↦ ground (arith, other, counts-mark_running now w rows r u.1 (rw other at h) p)
]

none_pending : (rows : Db) → All (λ s. s.status ≡ running) rows → pending_count rows ≡ 0
unfolding pending_count count is_pending
none_pending [] h = refl
none_pending (r ∷ rows) h = ground (arith, h.0, none_pending rows h.1)

take_first_lem :
    (now : ℕ) (db : Db)
    → IsUnique db
    → (take_first now db ≡ (none, db)) × (pending_count db ≡ 0)
      ⊎ ((r : Row) × ((take_first now db).0 ≡ some (item_of r))
          × Claims now db (take_first now db).1 r)
unfolding take_first
take_first_lem now db u = elim (Option-cases (next_pending db)) [
  | inl e ↦ inl (rw (e, take_row) refl, none_pending db (next_pending-none db e))
  | inr (r, e) ↦
      let stored = next_pending-select db r u e in
      let first = next_pending-IsFirst db r e in
      let counts = counts-mark_running now r.work_id db r u stored first.waits in
      inr (
        r,
        rw (e, take_row) refl,
        rw (e, take_row)
            (record {
              stored = stored;
              first = first;
              rows = λ j. claimed_rows j r stored;
              one_less = counts.0;
              one_more = counts.1;
            }),
      )
]
  where
    claimed_rows :
        (j : String) (r : Row)
        → select r.work_id db ≡ some r
        → select j (mark_running now r.work_id db)
          ≡ (if r.work_id == j then some (started now r) else select j db)
    claimed_rows j r stored = elim (eq_cases r.work_id j) [
      | inl (e, same) ↦ rw e (
          subst (λ x. select x (mark_running now r.work_id db) ≡ some (started now r)) same
            (select-mark_running_self now db r stored))
      | inr (e, ne) ↦ rw e (select-mark_running_ne j now r.work_id db ne)
    ]

-- On unique work ids and sequences `dequeue` answers nothing only where no row is pending, and then it changes
-- nothing; otherwise it answers the first pending row and claims it.
pub dequeue_lem :
    (resequence : Db → Db) (now : ℕ) (db : Db)
    → IsUnique db
    → (dequeue resequence now db ≡ (none, db)) × (pending_count db ≡ 0)
      ⊎ ((r : Row) × ((dequeue resequence now db).0 ≡ some (item_of r))
          × Claims now db (dequeue resequence now db).1 r)
dequeue_lem resequence now db u =
    rw (dequeue-take_first resequence now db u) (take_first_lem now db u)
