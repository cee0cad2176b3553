-- ===== src/SqlQueue/History.antt =====
-- The table over any sequence of enqueues and dequeues, by any number of clients: each is one
-- transaction on the database that it opens, so a run is a sequence of steps.

use clx_preprocessing.SqlQueue.Admission.{
  Allowed, fresh, refused_conflict, refused_invalid, same_owner, transaction-Outcome, written,
}
use clx_preprocessing.Prelude.{
  Bool, Option, Option-cases, String, ap, arith, eq_cases, false, if◌then◌else◌, inl, inr, none,
  refl, some, subst, sym, true, ℕ, ◌+◌, ◌==◌, ◌∙◌, ◌≡◌, comparable_texts, comparable_numbers,
}
use clx_preprocessing.Owner.{Checked, Owner, invalid, queue_owners_conflict, valid}
use clx_preprocessing.SqlQueue.{
  Attempt, Db, Payload, Row, admit, admit_over, dequeue, enqueue, max_sequence, next_pending,
  queue_owner_conflict, select, stored_owner, take_first, take_row, transaction, updated, upsert,
  write,
}
use clx_preprocessing.SqlQueue.Table.{
  IsUnique, dequeue-IsUnique, dequeue-take_first, select-mark_running, sequences-lt-next, started,
  upsert-IsUnique, upserted,
}
use clx_preprocessing.SqlQueue.Retry.{enqueue_ind}

pub data Step (db : Db) : Db → Type 0 where
  enqueues :
      (resequence : Db → Db) (p : Payload) (env : ℕ → Attempt) (now : ℕ)
      → Step db (enqueue resequence p env now db).1
  dequeues : (resequence : Db → Db) (now : ℕ) → Step db (dequeue resequence now db).1

pub data Steps (db : Db) : Db → Type 0 where
  here : Steps db db
  next : {mid after : Db} → Steps db mid → Step mid after → Steps db after

-- What a row keeps for ever: its admission and its owner.
pub record Lasting (old r : Row) : Type 0 where
  pub sequence : r.sequence ≡ old.sequence
  pub created_at : r.created_at ≡ old.created_at
  pub owner : stored_owner r.metadata_json ≡ stored_owner old.metadata_json

abbrev pub Keeps : Db → Db → Type 0
Keeps db after =
    (w : String) (old : Row)
    → select w db ≡ some old
    → (r : Row) × (select w after ≡ some r) × Lasting old r

Lasting-refl : (r : Row) → Lasting r r
Lasting-refl r = record { sequence = refl; created_at = refl; owner = refl }

Lasting-trans : {a b c : Row} → Lasting a b → Lasting b c → Lasting a c
Lasting-trans f g = record {
  sequence = g.sequence ∙ f.sequence;
  created_at = g.created_at ∙ f.created_at;
  owner = g.owner ∙ f.owner;
}

Keeps-refl : (db : Db) → Keeps db db
Keeps-refl db w old h = (old, h, Lasting-refl old)

Keeps-trans : (a b c : Db) → Keeps a b → Keeps b c → Keeps a c
Keeps-trans a b c f g w old h =
    let (r, e, k) = f w old h in let (s, e', k') = g w r e in (s, e', Lasting-trans k k')

written-Lasting :
    (owner : Option Owner) (new old r : Row) (found : Option Row)
    → stored_owner new.metadata_json ≡ valid owner
    → found ≡ some old
    → Allowed owner found
    → r ≡ upserted new found
    → Lasting old r
unfolding upserted updated
written-Lasting owner new old r found named e (fresh absent) is = absurd (cc)
written-Lasting owner new old r found named e (same_owner stored e' own) is =
    let sameRow : stored ≡ old = cc in
    let result : r ≡ updated new old = ground (arith, is, e) in
    record {
      sequence = ap (λ (x : Row). x.sequence) result;
      created_at = ap (λ (x : Row). x.created_at) result;
      owner =
          ap (λ (x : Row). stored_owner x.metadata_json) result
          ∙ named
          ∙ sym own
          ∙ ap (λ (x : Row). stored_owner x.metadata_json) sameRow;
    }

transaction-Keeps :
    (owner : Option Owner) (new : Row) (db : Db)
    → stored_owner new.metadata_json ≡ valid owner
    → Keeps db (transaction owner new db).1
transaction-Keeps owner new db named w old h = elim (transaction-Outcome new db owner) [
  | refused_invalid _ _ _ _ same ↦ (old, ap (select w) same ∙ h, Lasting-refl old)
  | refused_conflict _ _ _ _ _ _ same ↦ (old, ap (select w) same ∙ h, Lasting-refl old)
  | written r ok is reply stored others ↦ elim (eq_cases new.work_id w) [
    | inl (_, e) ↦ (
      r,
      subst (λ j. select j (transaction owner new db).1 ≡ some r) e stored,
      written-Lasting owner new old r (select new.work_id db) named (ap (λ j. select j db) e ∙ h) ok
          is,
    )
    | inr (_, ne) ↦ (old, others w ne ∙ h, Lasting-refl old)
  ]
]

enqueue-Keeps :
    (resequence : Db → Db) (p : Payload) (env : ℕ → Attempt) (now : ℕ) (db : Db)
    → IsUnique db
    → Keeps db (enqueue resequence p env now db).1
enqueue-Keeps resequence p env now db u =
    enqueue_ind (λ _ after. Keeps db after) db u (λ _ _. Keeps-refl db)
      (λ owner new named _. transaction-Keeps owner new db named) resequence p env now

started-Lasting :
    (now : ℕ) (b : Bool) (old : Row) → Lasting old (if b then started now old else old)
unfolding started
started-Lasting now true old = record { sequence = refl; created_at = refl; owner = refl }
started-Lasting now false old = Lasting-refl old

take_first-Keeps : (now : ℕ) (db : Db) → Keeps db (take_first now db).1
unfolding take_first
take_first-Keeps now db w old h = elim (Option-cases (next_pending db)) [
  | inl e ↦ rw (e, take_row) (old, h, Lasting-refl old)
  | inr (r, e) ↦
      rw (e, take_row)
        (
          if r.work_id == w then started now old else old,
          select-mark_running w now r.work_id db old h,
          started-Lasting now (r.work_id == w) old,
        )
]

transaction-IsUnique :
    (owner : Option Owner) (new : Row) (db : Db)
    → new.sequence ≡ max_sequence db + 1
    → IsUnique db
    → IsUnique (transaction owner new db).1
unfolding transaction
transaction-IsUnique owner new db numbers u = over (select new.work_id db)
  where
    inserted : IsUnique (upsert new db)
    inserted = upsert-IsUnique new db (rw numbers (sequences-lt-next db (omega arith))) u

    unless :
        (c : Bool) → IsUnique (if c then (queue_owner_conflict new.work_id, db) else write new db).1
    unless true = u
    unless false = inserted

    checked : (c : Checked (Option Owner)) → IsUnique (admit c owner new db).1
    checked invalid = u
    checked (valid existing) = unless (queue_owners_conflict existing owner)

    over : (found : Option Row) → IsUnique (admit_over found owner new db).1
    over none = inserted
    over (some old) = checked (stored_owner old.metadata_json)

-- What one step keeps of a table with unique work ids and sequences.
Step-IsUnique : {db after : Db} → Step db after → IsUnique db → IsUnique after
Step-IsUnique {db} (enqueues resequence p env now) u =
    enqueue_ind (λ _ after. IsUnique after) db u (λ _ _. u)
      (λ owner new _ n. transaction-IsUnique owner new db n u) resequence p env now
Step-IsUnique {db} (dequeues resequence now) u = dequeue-IsUnique resequence now db u

Step-Keeps : {db after : Db} → Step db after → IsUnique db → Keeps db after
Step-Keeps {db} (enqueues resequence p env now) u = enqueue-Keeps resequence p env now db u
Step-Keeps {db} (dequeues resequence now) u =
    rw (dequeue-take_first resequence now db u) (take_first-Keeps now db)

-- Both operations, on the database that they open, keep work ids and sequences unique, so the
-- unique index can always be built.
pub Steps-IsUnique : {db after : Db} → Steps db after → IsUnique db → IsUnique after
Steps-IsUnique here u = u
Steps-IsUnique (next r s) u = Step-IsUnique s (Steps-IsUnique r u)

Steps-Keeps : {db after : Db} → Steps db after → IsUnique db → Keeps db after
Steps-Keeps {db} here u = Keeps-refl db
Steps-Keeps {db} (next {mid} r s) u =
    Keeps-trans db mid _ (Steps-Keeps r u) (Step-Keeps s (Steps-IsUnique r u))

-- On a table with unique work ids and sequences, whatever is enqueued and dequeued after it, by
-- whatever owner, a row that is in the table stays in the table with its sequence, its creation
-- time and its owner.
pub admission_lasts :
    {db after : Db} (run : Steps db after) (w : String) (old : Row)
    → IsUnique db
    → select w db ≡ some old
    → (r : Row) × (select w after ≡ some r)
      × (r.sequence ≡ old.sequence)
      × (r.created_at ≡ old.created_at)
      × (stored_owner r.metadata_json ≡ stored_owner old.metadata_json)
admission_lasts run w old u h =
    let (r, e, k) = Steps-Keeps run u w old h in (r, e, k.sequence, k.created_at, k.owner)
