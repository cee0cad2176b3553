-- ===== src/SqlQueue/Admission.antt =====
-- What one transaction of `enqueue` does to the row of its work id, and to the others.
use clx_preprocessing.Prelude.{
  Bool-cases, Option, Option-cases, String, ap, arith, eq_iff, inl, inr, none, refl, some, ◌∙◌, ◌≡◌,
  ◌≢◌,
}
use clx_preprocessing.Owner.{
  Checked, Owner, invalid, no_conflict_refl, no_conflict→eq, queue_owners_conflict, valid,
}
use clx_preprocessing.SqlQueue.{
  Db, Reply, Row, admit, admit_over, invalid_queue_owner, queue_owner_conflict, queued, select,
  sequence_of, stored_owner, transaction, upsert, write,
}
use clx_preprocessing.SqlQueue.Table.{select-upsert, upserted}

-- The row stored under the work id, if any, has the owner of the request.
pub data Allowed (owner : Option Owner) (found : Option Row) : Type 0 where
  fresh : found ≡ none → Allowed owner found
  same_owner :
      (old : Row)
      → found ≡ some old
      → stored_owner old.metadata_json ≡ valid owner
      → Allowed owner found

-- What a transaction did. Refused: nothing. Written: the row of the work id is the new one, or the
-- old one with its sequence and creation time, and no other row has changed.
pub data Outcome (owner : Option Owner) (new : Row) (db : Db) (reply : Reply) (after : Db)
    : Type 0 where
  refused_invalid :
      (old : Row)
      → select new.work_id db ≡ some old
      → stored_owner old.metadata_json ≡ invalid
      → reply ≡ invalid_queue_owner new.work_id
      → after ≡ db
      → Outcome owner new db reply after
  refused_conflict :
      (old : Row) (other : Option Owner)
      → select new.work_id db ≡ some old
      → stored_owner old.metadata_json ≡ valid other
      → other ≢ owner
      → reply ≡ queue_owner_conflict new.work_id
      → after ≡ db
      → Outcome owner new db reply after
  written :
      (r : Row)
      → Allowed owner (select new.work_id db)
      → r ≡ upserted new (select new.work_id db)
      → reply ≡ queued new.work_id r.sequence
      → select new.work_id after ≡ some r
      → ((j : String) → new.work_id ≢ j → select j after ≡ select j db)
      → Outcome owner new db reply after

module _ (new : Row) (db : Db) where
  abbrev result_row : Row
  result_row = upserted new (select new.work_id db)

  select-upsert_self : select new.work_id (upsert new db) ≡ some result_row
  select-upsert_self =
      ground (arith, eq_iff new.work_id new.work_id, select-upsert new.work_id new db)

  select-upsert_ne : (j : String) → new.work_id ≢ j → select j (upsert new db) ≡ select j db
  select-upsert_ne j ne = ground (arith, eq_iff new.work_id j, select-upsert j new db)

  write-Outcome :
      (owner : Option Owner)
      → Allowed owner (select new.work_id db)
      → Outcome owner new db (write new db).0 (write new db).1
  unfolding sequence_of
  write-Outcome owner ok =
      written result_row ok refl (rw (select-upsert_self, sequence_of)) select-upsert_self
        select-upsert_ne

  admit-Outcome :
      (owner : Option Owner) (old : Row)
      → select new.work_id db ≡ some old
      → (c : Checked (Option Owner)) → stored_owner old.metadata_json ≡ c
      → Outcome owner new db (admit c owner new db).0 (admit c owner new db).1
  unfolding admit
  admit-Outcome owner old e invalid bad = refused_invalid old e bad refl refl
  admit-Outcome owner old e (valid other) good =
      elim (Bool-cases (queue_owners_conflict other owner)) [
        | inl clash ↦ rw clash (
            refused_conflict old other e good
              (λ same.
                cc (clash, no_conflict_refl owner, ap (λ o. queue_owners_conflict o owner) same))
              refl refl)
        | inr agree ↦ rw agree (
            write-Outcome owner
              (same_owner old e (good ∙ ap valid (no_conflict→eq other owner agree))))
      ]

  -- A transaction of `_enqueue` is refused exactly where the stored owner is unreadable or another
  -- one, and then the table stays as it was; otherwise it writes the one row of its work id.
  pub transaction-Outcome :
      (owner : Option Owner)
      → Outcome owner new db (transaction owner new db).0 (transaction owner new db).1
  unfolding transaction
  transaction-Outcome owner = elim (Option-cases (select new.work_id db)) [
    | inl e ↦ rw (e, admit_over) (write-Outcome owner (fresh e))
    | inr (old, e) ↦
        rw (e, admit_over) (admit-Outcome owner old e (stored_owner old.metadata_json) refl)
  ]
