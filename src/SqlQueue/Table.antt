-- ===== src/SqlQueue/Table.antt =====
-- What the SQL statements do to the table, read through `select`.
use clx_preprocessing.Prelude.{
  All, Bool-cases, Option, Option-cases, String, [], ap, arith, eq_cases, eq_iff, false,
  if◌then◌else◌, inl, inr, none, refl, some, sym, true, ℕ, ◌+◌, ◌<◌, ◌==◌, ◌∙◌, ◌∷◌, ◌≡◌, ◌≢◌, ◌≤◌,
  comparable_texts, comparable_numbers,
}
use clx_preprocessing.SqlQueue.{
  Db, Row, dequeue, has_sequence, mark_running, max_sequence, next_pending, open_db, running,
  select, sequences_differ, take_first, take_row, updated, upsert,
}

-- Work ids and sequences are unique: the primary key and the unique index.
abbrev pub IsUnique : Db → Type 0
IsUnique [] = Unit
IsUnique (r ∷ rows) =
    All (λ s. (r.work_id ≢ s.work_id) × (r.sequence ≢ s.sequence)) rows × IsUnique rows

has_sequence-none :
    (r : Row) (rows : Db)
    → All (λ s. (r.work_id ≢ s.work_id) × (r.sequence ≢ s.sequence)) rows
    → has_sequence r.sequence rows ≡ false
unfolding has_sequence
has_sequence-none r [] h = refl
has_sequence-none r (s ∷ rows) h = ground (arith, h.0.1, has_sequence-none r rows h.1)

sequences_differ-IsUnique : (db : Db) → IsUnique db → sequences_differ db ≡ true
unfolding sequences_differ
sequences_differ-IsUnique [] u = refl
sequences_differ-IsUnique (r ∷ rows) u =
    rw (has_sequence-none r rows u.0, sequences_differ-IsUnique rows u.1) refl

-- Opening the database leaves a table alone whose sequences are unique.
pub open_db-IsUnique : (resequence : Db → Db) (db : Db) → IsUnique db → open_db resequence db ≡ db
unfolding open_db
open_db-IsUnique resequence db u = rw (sequences_differ-IsUnique db u) refl

pub select-work_id : (w : String) (db : Db) (r : Row) → select w db ≡ some r → r.work_id ≡ w
unfolding select
select-work_id w [] r h = cc
select-work_id w (s ∷ rows) r h = ground (arith, eq_iff s.work_id w, select-work_id w rows r)

unfoldable pub upserted : Row → Option Row → Row
upserted new none = new
upserted new (some old) = updated new old

pub select-upsert :
    (j : String) (new : Row) (db : Db)
    → select j (upsert new db)
      ≡ (if new.work_id == j then some (upserted new (select new.work_id db)) else select j db)
unfolding select upsert upserted
select-upsert j new [] = refl
select-upsert j new (r ∷ rows) = ground (
  arith,
  eq_iff r.work_id new.work_id,
  eq_iff r.work_id j,
  eq_iff new.work_id j,
  select-upsert j new rows,
)

unfoldable pub started : ℕ → Row → Row
started now r = record r { status = running; updated_at = now }

pub select-mark_running :
    (j : String) (now : ℕ) (w : String) (db : Db) (r : Row)
    → select j db ≡ some r
    → select j (mark_running now w db) ≡ some (if w == j then started now r else r)
unfolding select mark_running started
select-mark_running j now w [] r h = cc
select-mark_running j now w (s ∷ rows) r h =
    ground (
      arith,
      eq_iff s.work_id w,
      eq_iff s.work_id j,
      eq_iff w j,
      select-mark_running j now w rows r,
    )

pub select-mark_running-none :
    (j : String) (now : ℕ) (w : String) (db : Db)
    → select j db ≡ none
    → select j (mark_running now w db) ≡ none
unfolding select mark_running
select-mark_running-none j now w [] h = refl
select-mark_running-none j now w (s ∷ rows) h =
    ground (arith, eq_iff s.work_id w, eq_iff s.work_id j, select-mark_running-none j now w rows)

pub select-mark_running_self :
    (now : ℕ) (db : Db) (r : Row)
    → select r.work_id db ≡ some r
    → select r.work_id (mark_running now r.work_id db) ≡ some (started now r)
select-mark_running_self now db r h =
    ground (arith, eq_iff r.work_id r.work_id, select-mark_running r.work_id now r.work_id db r h)

pub select-mark_running_ne :
    (j : String) (now : ℕ) (w : String) (db : Db)
    → w ≢ j
    → select j (mark_running now w db) ≡ select j db
select-mark_running_ne j now w db ne = elim (Option-cases (select j db)) [
  | inl e ↦ select-mark_running-none j now w db e ∙ sym e
  | inr (r, e) ↦ ground (arith, e, ne, eq_iff w j, select-mark_running j now w db r e)
]

-- Every stored sequence is below the next one.
pub sequences-lt-next : (db : Db) {n : ℕ} → max_sequence db ≤ n → All (λ s. s.sequence < n + 1) db
unfolding max_sequence
sequences-lt-next [] h = tt
sequences-lt-next (r ∷ rows) h = (omega arith, sequences-lt-next rows (omega arith))

module _ (P : Row → Type 0) where
  pub All-upsert :
      (new : Row) (db : Db)
      → P new
      → ((s : Row) → P s → P (updated new s))
      → All P db
      → All P (upsert new db)
  unfolding upsert
  All-upsert new [] p keeps h = (p, tt)
  All-upsert new (r ∷ rows) p keeps h = elim (Bool-cases (r.work_id == new.work_id)) [
    | inl same ↦ rw same (keeps r h.0, h.1)
    | inr other ↦ rw other (h.0, All-upsert new rows p keeps h.1)
  ]

  pub All-mark_running :
      (now : ℕ) (w : String) (db : Db)
      → ((s : Row) → P s → P (started now s))
      → All P db
      → All P (mark_running now w db)
  unfolding mark_running started
  All-mark_running now w [] keeps h = tt
  All-mark_running now w (r ∷ rows) keeps h = elim (Bool-cases (r.work_id == w)) [
    | inl same ↦ rw same (keeps r h.0, All-mark_running now w rows keeps h.1)
    | inr other ↦ rw other (h.0, All-mark_running now w rows keeps h.1)
  ]

pub upsert-IsUnique :
    (new : Row) (db : Db)
    → All (λ s. s.sequence < new.sequence) db
    → IsUnique db
    → IsUnique (upsert new db)
unfolding upsert
upsert-IsUnique new [] below u = (tt, tt)
upsert-IsUnique new (r ∷ rows) below u = elim (eq_cases r.work_id new.work_id) [
  | inl (same, _) ↦ rw same (u.0, u.1)
  | inr (other, ne) ↦ rw other (
    All-upsert (λ s. (r.work_id ≢ s.work_id) × (r.sequence ≢ s.sequence)) new rows (ne, omega arith)
        (unfold updated in λ s p. p) u.0,
    upsert-IsUnique new rows below.1 u.1,
  )
]

pub mark_running-IsUnique :
    (now : ℕ) (w : String) (db : Db) → IsUnique db → IsUnique (mark_running now w db)
unfolding mark_running
mark_running-IsUnique now w [] u = tt
mark_running-IsUnique now w (r ∷ rows) u = elim (Bool-cases (r.work_id == w)) [
  | inl same ↦ rw same (rest, mark_running-IsUnique now w rows u.1)
  | inr other ↦ rw other (rest, mark_running-IsUnique now w rows u.1)
]
  where
    rest : All (λ s. (r.work_id ≢ s.work_id) × (r.sequence ≢ s.sequence)) (mark_running now w rows)
    rest =
        All-mark_running (λ s. (r.work_id ≢ s.work_id) × (r.sequence ≢ s.sequence)) now w rows
          (unfold started in λ s p. p) u.0

take_first-IsUnique : (now : ℕ) (db : Db) → IsUnique db → IsUnique (take_first now db).1
unfolding take_first
take_first-IsUnique now db u = elim (Option-cases (next_pending db)) [
  | inl e ↦ rw (e, take_row) u
  | inr (r, e) ↦ rw (e, take_row) (mark_running-IsUnique now r.work_id db u)
]

-- On a table with unique sequences a dequeue is its transaction.
pub dequeue-take_first :
    (resequence : Db → Db) (now : ℕ) (db : Db)
    → IsUnique db
    → dequeue resequence now db ≡ take_first now db
unfolding dequeue
dequeue-take_first resequence now db u = ap (take_first now) (open_db-IsUnique resequence db u)

pub dequeue-IsUnique :
    (resequence : Db → Db) (now : ℕ) (db : Db)
    → IsUnique db
    → IsUnique (dequeue resequence now db).1
dequeue-IsUnique resequence now db u =
    rw (dequeue-take_first resequence now db u) (take_first-IsUnique now db u)
