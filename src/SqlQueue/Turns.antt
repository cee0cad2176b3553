-- ===== src/SqlQueue/Turns.antt =====
-- Two dequeues in a row.
use clx_preprocessing.SqlQueue.Claim.{Claims, dequeue_lem}
use clx_preprocessing.SqlQueue.Order.{select-All}
use clx_preprocessing.SqlQueue.Table.{IsUnique, dequeue-IsUnique, started}
use clx_preprocessing.Prelude.{
  Option, String, ap, arith, eq_iff, false, inl, inr, refl, some, subst, sym, ℕ, ◌<◌, ◌∙◌, ◌≡◌, ◌≢◌,
  ◌≤◌, ◌⊎◌,
}
use clx_preprocessing.SqlQueue.{
  Db, Item, Row, dequeue, item_of, pending, precedes, select, sequence_of,
}

claimed :
    (resequence : Db → Db) (now : ℕ) (db : Db) (a : Item)
    → IsUnique db
    → (dequeue resequence now db).0 ≡ some a
    → (r : Row) × (a ≡ item_of r) × Claims now db (dequeue resequence now db).1 r
claimed resequence now db a u h = elim (dequeue_lem resequence now db u) [
  | inl (nothing, _) ↦ absurd (cc (h, ap (λ (x : Option Item × Db). x.0) nothing))
  | inr (r, e, c) ↦ (r, ground (arith, h, e), c)
]

sequence_of-stored :
    (w : String) (db : Db) (r : Row) → select w db ≡ some r → sequence_of w db ≡ r.sequence
unfolding sequence_of
sequence_of-stored w db r h = rw (h, sequence_of)

module _ (now : ℕ) (db mid : Db) (r s : Row) (first : Claims now db mid r)
    (stored : select s.work_id mid ≡ some s) (waits : s.status ≡ pending) where
  -- The row that was claimed runs now, so it is not the pending one.
  other_work : r.work_id ≢ s.work_id
  unfolding started
  other_work e =
      let same : some (started now r) ≡ some s =
        sym (first.rows r.work_id ∙ rw ((eq_iff r.work_id r.work_id).1 refl) refl)
        ∙ subst (λ w. select w mid ≡ some s) (sym e) stored in
      ground (arith, same, waits)

  was_stored : select s.work_id db ≡ some s
  was_stored = ground (arith, first.rows s.work_id, other_work, eq_iff r.work_id s.work_id, stored)

  waited : precedes s r ≡ false
  waited =
      select-All (λ t. t.status ≡ pending → precedes t r ≡ false) s.work_id db s first.first.minimal
        was_stored waits

-- On unique work ids and sequences two dequeues in a row take different work: the second is less
-- urgent, or of the same priority and admitted later.
pub dequeue_twice :
    (resequence resequence' : Db → Db) (now later : ℕ) (db : Db) (a b : Item)
    → IsUnique db
    → (dequeue resequence now db).0 ≡ some a
    → (dequeue resequence' later (dequeue resequence now db).1).0 ≡ some b
    → (a.work_id ≢ b.work_id)
      × ((a.priority < b.priority)
          ⊎ (a.priority ≡ b.priority) × (sequence_of a.work_id db ≤ sequence_of b.work_id db))
unfolding item_of precedes
dequeue_twice resequence resequence' now later db a b u ha hb =
    let mid = (dequeue resequence now db).1 in
    let (r, is_r, first) = claimed resequence now db a u ha in
    let (s, is_s, second) =
      claimed resequence' later mid b (dequeue-IsUnique resequence now db u) hb in
    let order = waited now db mid r s first second.stored second.first.waits in
    let before = was_stored now db mid r s first second.stored second.first.waits in
    let at_r = sequence_of-stored r.work_id db r first.stored in
    let at_s = sequence_of-stored s.work_id db s before in
    rw (is_r, is_s)
      (
        other_work now db mid r s first second.stored second.first.waits,
        ground (arith, order, at_r, at_s),
      )
