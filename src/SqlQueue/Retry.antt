-- ===== src/SqlQueue/Retry.antt =====
-- The retry loop of `_enqueue`.
use clx_preprocessing.SqlQueue.Admission.{
  refused_conflict, refused_invalid, transaction-Outcome, written,
}
use clx_preprocessing.Prelude.{
  Option, String, arith, inl, inr, none, refl, some, subst, suc, sym, zero, ℕ, ◌+◌, ◌<◌, ◌∙◌, ◌≡◌,
  ◌≢◌, ◌⊎◌,
}
use clx_preprocessing.Owner.{Checked, Owner, invalid, queue_owner_from_metadata, valid}
use clx_preprocessing.SqlQueue.Table.{IsUnique, open_db-IsUnique}
use clx_preprocessing.SqlQueue.{
  Attempt, Db, Payload, Reply, Row, attempts, enqueue, enqueue_checked, enqueue_failed,
  enqueue_fields, enqueue_retry_attempts, fails, invalid_queue_owner, locked, max_sequence,
  metadata_or_empty, missing_field, new_row, open_db, operational_error, queued, require_str, runs,
  stored_owner, transaction, unique_violation,
}

-- The attempts after which the loop goes on.
abbrev pub IsTransient : Attempt → Type 0
IsTransient a = (a ≡ locked) ⊎ (a ≡ unique_violation)

abbrev pub numbered : Row → Db → Row
numbered new db = record new { sequence = max_sequence db + 1 }

settled : (a : Attempt) → (a ≡ runs) ⊎ ((a ≡ fails) ⊎ ((a ≡ locked) ⊎ (a ≡ unique_violation)))
settled runs = inl refl
settled fails = inr (inl refl)
settled locked = inr (inr (inl refl))
settled unique_violation = inr (inr (inr refl))

module _ (env : ℕ → Attempt) (owner : Option Owner) (new : Row) (db : Db) where
  attempts_again :
      (left n : ℕ)
      → IsTransient (env n)
      → attempts (suc left) n env owner new db ≡ attempts left (suc n) env owner new db
  unfolding attempts
  attempts_again left n (inl e) = rw (e, attempts)
  attempts_again left n (inr e) = rw (e, attempts)

  pub attempts_absorb :
      (k left n : ℕ)
      → k < left
      → ((i : ℕ) → i < k → IsTransient (env (n + i)))
      → env (n + k) ≡ runs
      → attempts left n env owner new db ≡ transaction owner (numbered new db) db
  unfolding attempts
  attempts_absorb k zero n h before e = elim h [ ]
  attempts_absorb zero (suc left) n h before e =
      let now : env n ≡ runs = subst (λ m. env m ≡ runs) (omega arith) e in rw (now, attempts)
  attempts_absorb (suc k) (suc left) n h before e =
      attempts_again left n
        (subst (λ m. IsTransient (env m)) (omega arith) (before 0 (omega arith)))
      ∙ attempts_absorb k left (suc n) (omega arith)
          (λ i below. subst (λ m. IsTransient (env m)) (omega arith) (before (suc i) (omega arith)))
          (subst (λ m. env m ≡ runs) (omega arith) e)

  pub attempts_exhausted :
      (left n : ℕ)
      → ((i : ℕ) → i < left → IsTransient (env (n + i)))
      → attempts left n env owner new db ≡ (enqueue_failed, db)
  unfolding attempts
  attempts_exhausted zero n all = refl
  attempts_exhausted (suc left) n all =
      attempts_again left n (subst (λ m. IsTransient (env m)) (omega arith) (all 0 (omega arith)))
      ∙ attempts_exhausted left (suc n)
          (λ i below. subst (λ m. IsTransient (env m)) (omega arith) (all (suc i) (omega arith)))

  -- What holds of the table as it is and as the transaction leaves it holds after the loop.
  pub attempts_ind {ℓ} :
      (P : Reply → Db → Type ℓ)
      → P enqueue_failed db
      → P operational_error db
      → P (transaction owner (numbered new db) db).0 (transaction owner (numbered new db) db).1
      → (left n : ℕ) → P (attempts left n env owner new db).0 (attempts left n env owner new db).1
  unfolding attempts
  attempts_ind P failed broken ran zero n = failed
  attempts_ind P failed broken ran (suc left) n = elim (settled (env n)) [
    | inl e ↦ rw (e, attempts) ran
    | inr (inl e) ↦ rw (e, attempts) broken
    | inr (inr (inl e)) ↦ rw (e, attempts) (attempts_ind P failed broken ran left (suc n))
    | inr (inr (inr e)) ↦ rw (e, attempts) (attempts_ind P failed broken ran left (suc n))
  ]

module _ {ℓ} (P : Reply → Db → Type ℓ) (db : Db) (u : IsUnique db) where
  -- A proof rule for the whole of `_enqueue`: what holds where the table is left alone, and of what
  -- a transaction answers and leaves, holds of its answer and of the table behind it.
  pub enqueue_ind :
      ((reply : Reply) → ((w : String) (n : ℕ) → reply ≢ queued w n) → P reply db)
      → ((owner : Option Owner) (new : Row)
          → stored_owner new.metadata_json ≡ valid owner
          → new.sequence ≡ max_sequence db + 1
          → P (transaction owner new db).0 (transaction owner new db).1)
      → (resequence : Db → Db) (p : Payload) (env : ℕ → Attempt) (now : ℕ)
      → P (enqueue resequence p env now db).0 (enqueue resequence p env now db).1
  unfolding enqueue stored_owner queue_owner_from_metadata
  enqueue_ind left_alone ran resequence p env now =
      by_fields (require_str p.work_id) (require_str p.prompt)
    where
      by_owner :
          (w t : String) (c : Checked (Option Owner))
          → queue_owner_from_metadata (metadata_or_empty p.metadata) ≡ c
          → P
              (enqueue_checked resequence c env (new_row w t p now) db).0
              (enqueue_checked resequence c env (new_row w t p now) db).1
      by_owner w t invalid e = left_alone (invalid_queue_owner w) (λ _ _ d. cc)
      by_owner w t (valid owner) e = rw (open_db-IsUnique resequence db u) (
          attempts_ind env owner (new_row w t p now) db P (left_alone enqueue_failed (λ _ _ d. cc))
            (left_alone operational_error (λ _ _ d. cc))
            (ran owner (numbered (new_row w t p now) db) e refl) enqueue_retry_attempts 0)

      by_fields :
          (w t : Option String)
          → P
              (enqueue_fields resequence w t p env now db).0
              (enqueue_fields resequence w t p env now db).1
      by_fields none t = left_alone (missing_field "work_id") (λ _ _ d. cc)
      by_fields (some w) none = left_alone (missing_field "prompt") (λ _ _ d. cc)
      by_fields (some w) (some t) =
          by_owner w t (queue_owner_from_metadata (metadata_or_empty p.metadata)) refl

-- An enqueue that SQLite turns away at most four times, by a lock or a unique-sequence collision,
-- ends as if it had run at once.
pub enqueue_absorbs :
    (resequence : Db → Db) (p : Payload) (env : ℕ → Attempt) (now k : ℕ) (db : Db)
    → k < enqueue_retry_attempts
    → ((i : ℕ) → i < k → IsTransient (env i))
    → env k ≡ runs
    → enqueue resequence p env now db ≡ enqueue resequence p (λ _. runs) now db
unfolding enqueue
enqueue_absorbs resequence p env now k db few before e =
    by_fields (require_str p.work_id) (require_str p.prompt)
  where
    by_owner :
        (c : Checked (Option Owner)) (new : Row)
        → enqueue_checked resequence c env new db ≡ enqueue_checked resequence c (λ _. runs) new db
    by_owner invalid new = refl
    by_owner (valid owner) new =
        attempts_absorb env owner new (open_db resequence db) k enqueue_retry_attempts 0 few
          (λ i below. subst (λ m. IsTransient (env m)) (omega arith) (before i below))
          (subst (λ m. env m ≡ runs) (omega arith) e)
        ∙ sym (
            attempts_absorb (λ _. runs) owner new (open_db resequence db) 0 enqueue_retry_attempts 0
              (omega arith) (λ i below. absurd (omega arith)) refl)

    by_fields :
        (w t : Option String)
        → enqueue_fields resequence w t p env now db
          ≡ enqueue_fields resequence w t p (λ _. runs) now db
    by_fields none t = refl
    by_fields (some w) none = refl
    by_fields (some w) (some t) =
        by_owner (queue_owner_from_metadata (metadata_or_empty p.metadata)) _

-- On a table with unique work ids and sequences, every answer of `enqueue` but an acceptance, an
-- exception included, leaves the table as it was before the database was opened.
pub enqueue_refused_unchanged :
    (resequence : Db → Db) (p : Payload) (env : ℕ → Attempt) (now : ℕ) (db : Db)
    → IsUnique db
    → ((w : String) (n : ℕ) → (enqueue resequence p env now db).0 ≢ queued w n)
    → (enqueue resequence p env now db).1 ≡ db
enqueue_refused_unchanged resequence p env now db u =
    enqueue_ind (λ reply after. ((w : String) (n : ℕ) → reply ≢ queued w n) → after ≡ db) db u
      (λ _ _ _. refl)
      (λ owner new _ _ refused. elim (transaction-Outcome new db owner) [
        | refused_invalid _ _ _ _ same ↦ same
        | refused_conflict _ _ _ _ _ _ same ↦ same
        | written r _ _ reply _ _ ↦ absurd (refused new.work_id r.sequence reply)
      ])
      resequence p env now
