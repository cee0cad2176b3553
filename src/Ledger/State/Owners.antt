-- ===== src/Ledger/State/Owners.antt =====
-- Who may enqueue a work id again.

use clx_preprocessing.Chars.{Text}
use clx_preprocessing.Prelude.{
  Bool-cases, Option, Option-cases, ap, inl, inr, none, pos, refl, some, subst, sym, ℤ, ◌∙◌, ◌≡◌,
  ◌≢◌, ◌⊎◌,
}
use clx_preprocessing.Types.{WorkItem}
use clx_preprocessing.Owner.{
  Checked, Owner, invalid, no_conflict_refl, no_conflict→eq, queue_owners_conflict, valid,
}
use clx_preprocessing.Ledger.{Python}
use clx_preprocessing.Ledger.Event.{LedgerEntry, entry_of, event, owner_from_metadata, queued}
use clx_preprocessing.Ledger.State.{
  Answer, JsonModule, States, done, enqueue_over, invalid_owner, latest_unlocked, logged, lookup,
  owner_conflict, record_enqueued, states,
}
use clx_preprocessing.Ledger.State.Replay.{IsClosed, IsWritten}
use clx_preprocessing.Ledger.State.Writers.{Recorded, logged-Recorded}

-- Nobody holds the work id, or the same owner does.
abbrev pub IsOwnedBy : Option Owner → Option LedgerEntry → Type 0
IsOwnedBy owner found =
    (found ≡ none)
    ⊎ ((existing : LedgerEntry) × (found ≡ some existing)
        × (owner_from_metadata existing.item.metadata ≡ valid owner))

-- How `record_enqueued` ends on a readable ledger.
pub data Enqueued (py : Python) (js : JsonModule) (st : States) (item : WorkItem) (max_attempts : ℤ)
    (text : Text) : Answer LedgerEntry → Text → Type 0 where
  entered :
      (owner : Option Owner) (after : Text)
      → owner_from_metadata item.metadata ≡ valid owner
      → IsOwnedBy owner (lookup item.work_id st)
      → Recorded py js st (entry_of item queued (pos 0) max_attempts "queued" (pos 0)) after
      → Enqueued py js st item max_attempts text
          (done (entry_of item queued (pos 0) max_attempts "queued" (pos 0)))
          after
  conflicting :
      (owner stored : Option Owner) (existing : LedgerEntry)
      → owner_from_metadata item.metadata ≡ valid owner
      → lookup item.work_id st ≡ some existing
      → owner_from_metadata existing.item.metadata ≡ valid stored
      → stored ≢ owner
      → Enqueued py js st item max_attempts text (owner_conflict item.work_id) text
  malformed :
      owner_from_metadata item.metadata ≡ invalid
      → Enqueued py js st item max_attempts text invalid_owner text
  stored_malformed :
      (existing : LedgerEntry)
      → lookup item.work_id st ≡ some existing
      → owner_from_metadata existing.item.metadata ≡ invalid
      → Enqueued py js st item max_attempts text invalid_owner text

Checked-cases : {A : Type 0} (c : Checked A) → ((a : A) × (c ≡ valid a)) ⊎ (c ≡ invalid)
Checked-cases (valid a) = inl (a, refl)
Checked-cases invalid = inr refl

module _ (py : Python) (js : JsonModule) (text : Text) (st : States) (closed : IsClosed text)
    (reads : latest_unlocked py js text ≡ states st) (item : WorkItem) (max_attempts now : ℤ)
    (h : IsWritten js (event item queued (pos 0) max_attempts "queued" (pos 0) now)) where
  abbrev Ends : Answer LedgerEntry × Text → Type 0
  Ends p = Enqueued py js st item max_attempts text p.0 p.1

  abbrev over : Option Owner → LedgerEntry → Answer LedgerEntry × Text
  over owner existing = enqueue_over py js (some existing) owner item max_attempts now text

  abbrev whole : Answer LedgerEntry × Text
  whole = record_enqueued py js item max_attempts now text

  abbrev written : Answer LedgerEntry × Text
  written = logged py js (event item queued (pos 0) max_attempts "queued" (pos 0) now) text

  entered_lem :
      (owner : Option Owner)
      → owner_from_metadata item.metadata ≡ valid owner
      → IsOwnedBy owner (lookup item.work_id st)
      → Ends written
  entered_lem owner e own =
      let (a, r) =
        logged-Recorded py js text st closed reads item queued (pos 0) max_attempts "queued" now
          h in
      subst (λ x. Enqueued py js st item max_attempts text x written.1) (sym a)
        (entered owner written.1 e own r)

  over_existing :
      (owner : Option Owner) (existing : LedgerEntry)
      → owner_from_metadata item.metadata ≡ valid owner
      → lookup item.work_id st ≡ some existing
      → Ends (enqueue_over py js (some existing) owner item max_attempts now text)
  unfolding enqueue_over
  over_existing owner existing e found =
      elim (Checked-cases (owner_from_metadata existing.item.metadata)) [
        | inl (stored, v) ↦ elim (Bool-cases (queue_owners_conflict stored owner)) [
          | inl differ ↦
              let q : over owner existing ≡ (owner_conflict item.work_id, text) =
                rw (v, differ, enqueue_over) refl in
              let k = no_conflict_refl owner in
              subst Ends (sym q) (conflicting owner stored existing e found v (λ same. cc))
          | inr agree ↦
              let q : over owner existing ≡ written = rw (v, agree, enqueue_over) refl in
              subst Ends (sym q) (
                entered_lem owner e
                  (inr (existing, found, v ∙ ap valid (no_conflict→eq stored owner agree))))
        ]
        | inr bad ↦
            let q : over owner existing ≡ (invalid_owner, text) = rw (bad, enqueue_over) refl in
            subst Ends (sym q) (stored_malformed existing found bad)
      ]

  -- On a readable ledger, where `json` reads the written line back, `record_enqueued` enters the
  -- item, with no attempt made, where its owner is well formed and the work id is free or held by
  -- the same owner. Where another owner holds it, or either owner is malformed, it raises and leaves
  -- the file as it was.
  pub record_enqueued-Enqueued :
      Enqueued py js st item max_attempts text
        (record_enqueued py js item max_attempts now text).0
        (record_enqueued py js item max_attempts now text).1
  unfolding record_enqueued
  record_enqueued-Enqueued = elim (Checked-cases (owner_from_metadata item.metadata)) [
    | inl (owner, e) ↦ elim (Option-cases (lookup item.work_id st)) [
      | inl free ↦
          let q : whole ≡ written =
            rw (e, reads, free, record_enqueued) (unfold enqueue_over in refl) in
          subst Ends (sym q) (entered_lem owner e (inl free))
      | inr (existing, found) ↦
          let q : whole ≡ over owner existing = rw (e, reads, found, record_enqueued) refl in
          subst Ends (sym q) (over_existing owner existing e found)
    ]
    | inr bad ↦
        let q : whole ≡ (invalid_owner, text) = rw (bad, record_enqueued) refl in
        subst Ends (sym q) (malformed bad)
  ]
