-- ===== src/Ledger/State/Writers.antt =====
-- What the writers of the ledger make of one work id and leave of the others.
use clx_preprocessing.Chars.{Text}
use clx_preprocessing.Prelude.{
  Bool, Bool-cases, String, [], ap, arith, eq_iff, false, if◌then◌else◌, inl, inr, ltb_ℤ, pos,
  pos_part, refl, scale, some, subst, sym, true, ℤ, ◌+ℤ◌, ◌-◌, ◌==◌, ◌^◌, ◌∙◌, ◌∷◌, ◌≡◌, ◌⊎◌,
  comparable_texts, comparable_numbers,
}
use clx_preprocessing.Json.{Fields, obj}
use clx_preprocessing.Result.{ok}
use clx_preprocessing.Types.{WorkItem}
use clx_preprocessing.Ledger.{Python}
use clx_preprocessing.Ledger.Event.{
  LedgerEntry, WorkStatus, dead, entry_from_event, entry_from_event-event, entry_of, event,
  retry_wait, running,
}
use clx_preprocessing.Ledger.State.{
  JsonModule, States, append, can_retry, decision, done, failed_status, failure, latest_unlocked,
  logged, lookup, next_after, record_failed, record_started, returned, set_state, states,
}
use clx_preprocessing.Ledger.State.Replay.{IsClosed, IsWritten, append-IsClosed, latest-append}

-- The new text reads back with this entry at its work id, and with the old ones elsewhere.
pub record Recorded (py : Python) (js : JsonModule) (st : States) (entry : LedgerEntry)
    (text : Text) : Type 0 where
  pub after : States
  pub closed : IsClosed text
  pub reads : latest_unlocked py js text ≡ states after
  pub here : lookup entry.work_id after ≡ some entry
  pub others : (v : String) → entry.work_id == v ≡ false → lookup v after ≡ lookup v st

module _ (retryable : Bool) (backoff : ℤ) (reason : String) (now : ℤ) (entry : LedgerEntry) where
  allowed :
      can_retry retryable entry ≡ true
      → (retryable ≡ true) × (ltb_ℤ entry.attempt entry.max_attempts ≡ true)
  unfolding can_retry
  allowed h = ground (arith, h)

  refused :
      can_retry retryable entry ≡ false
      → (retryable ≡ false) ⊎ (ltb_ℤ entry.attempt entry.max_attempts ≡ false)
  unfolding can_retry
  refused h = ground (arith, h)

  abbrev delayed : ℤ
  delayed = now +ℤ scale (2 ^ (pos_part entry.attempt - 1)) backoff

  waits :
      can_retry retryable entry ≡ true
      → (failed_status retryable entry ≡ retry_wait)
        × (next_after retryable backoff now entry ≡ delayed)
        × (decision retryable backoff reason now entry ≡ record {
          retryable = true;
          next_after_epoch = delayed;
          attempt = entry.attempt;
          reason = reason;
        })
  unfolding failed_status next_after decision
  waits h = rw (h) (refl, refl, refl)

  dies :
      can_retry retryable entry ≡ false
      → (failed_status retryable entry ≡ dead)
        × (next_after retryable backoff now entry ≡ pos 0)
        × (decision retryable backoff reason now entry ≡ record {
          retryable = false;
          next_after_epoch = pos 0;
          attempt = entry.attempt;
          reason = reason;
        })
  unfolding failed_status next_after decision
  dies h = rw (h) (refl, refl, refl)

lookup-set_state :
    (v : String) (e : LedgerEntry) (st : States)
    → lookup v (set_state e st) ≡ (if e.work_id == v then some e else lookup v st)
unfolding lookup set_state
lookup-set_state v e [] = refl
lookup-set_state v e ((u, f) ∷ st) =
    ground (arith, eq_iff e.work_id v, eq_iff u e.work_id, eq_iff u v, lookup-set_state v e st)

module _ (py : Python) (js : JsonModule) (text : Text) (st : States) (closed : IsClosed text)
    (reads : latest_unlocked py js text ≡ states st) where
  pub append-Recorded :
      (e : Fields) (entry : LedgerEntry)
      → IsWritten js e
      → entry_from_event py (obj e) ≡ ok entry
      → Recorded py js st entry (append py js e text)
  append-Recorded e entry w k = record {
    after = set_state entry st;
    closed = append-IsClosed py js e text;
    reads = latest-append py js text st e entry closed reads w k;
    here =
        ground (arith, lookup-set_state entry.work_id entry st, eq_iff entry.work_id entry.work_id);
    others = λ v ne. ground (arith, lookup-set_state v entry st);
  }

  pub logged-Recorded :
      (item : WorkItem) (status : WorkStatus) (attempt max_attempts : ℤ) (reason : String) (now : ℤ)
      → IsWritten js (event item status attempt max_attempts reason (pos 0) now)
      → (logged py js (event item status attempt max_attempts reason (pos 0) now) text).0
          ≡ done (entry_of item status attempt max_attempts reason (pos 0))
        × Recorded py js st
            (entry_of item status attempt max_attempts reason (pos 0))
            (logged py js (event item status attempt max_attempts reason (pos 0) now) text).1
  unfolding logged
  logged-Recorded item status attempt max_attempts reason now w =
      let k = entry_from_event-event py item status attempt max_attempts reason (pos 0) now in
      (ap returned k, append-Recorded _ _ w k)

  module _ (w : String) (entry : LedgerEntry) (found : lookup w st ≡ some entry) where
    -- On a readable ledger that holds an entry for the work id, the start is recorded under the work
    -- id of the entry's item, where `json` reads the written line back: that entry runs, with one
    -- attempt more, and every other work id keeps its entry.
    pub record_started_replays :
        (now : ℤ)
        → IsWritten js (
            event entry.item running
              (entry.attempt +ℤ pos 1)
              entry.max_attempts
              "started"
              (pos 0)
              now)
        → (record_started py js w now text).0
            ≡ done (
                entry_of entry.item running
                  (entry.attempt +ℤ pos 1)
                  entry.max_attempts
                  "started"
                  (pos 0))
          × Recorded py js st
              (entry_of entry.item running
                (entry.attempt +ℤ pos 1)
                entry.max_attempts
                "started"
                (pos 0))
              (record_started py js w now text).1
    unfolding record_started
    record_started_replays now h =
        rw (reads, found)
          (logged-Recorded entry.item running (entry.attempt +ℤ pos 1) entry.max_attempts "started"
            now h)

    record_failed_found :
        (retryable : Bool) (backoff : ℤ) (reason : String) (now : ℤ)
        → record_failed py js w retryable backoff reason now text ≡ (
          done (decision retryable backoff reason now entry),
          append py js (failure retryable backoff reason now entry) text,
        )
    unfolding record_failed
    record_failed_found retryable backoff reason now = rw (reads, found) refl

    module _ (retryable : Bool) (backoff : ℤ) (reason : String) (now : ℤ)
        (h : IsWritten js (failure retryable backoff reason now entry)) where
      abbrev ended : Text
      ended = (record_failed py js w retryable backoff reason now text).1

      failure-Recorded :
          Recorded py js st
            (entry_of entry.item
              (failed_status retryable entry)
              entry.attempt
              entry.max_attempts
              reason
              (next_after retryable backoff now entry))
            ended
      failure-Recorded =
          subst
            (λ p.
              Recorded py js st
                (entry_of entry.item (failed_status retryable entry) entry.attempt
                  entry.max_attempts reason (next_after retryable backoff now entry))
                p.1)
            (sym (record_failed_found retryable backoff reason now))
            (append-Recorded (failure retryable backoff reason now entry)
              (entry_of entry.item (failed_status retryable entry) entry.attempt entry.max_attempts
                reason (next_after retryable backoff now entry))
              h
              (unfold failure in
                entry_from_event-event py entry.item (failed_status retryable entry) entry.attempt
                  entry.max_attempts reason (next_after retryable backoff now entry) now))

      failed_answer :
          (record_failed py js w retryable backoff reason now text).0
          ≡ done (decision retryable backoff reason now entry)
      failed_answer = ap (λ p. p.0) (record_failed_found retryable backoff reason now)

    -- On a readable ledger that holds an entry for the work id, a failure is recorded under the work
    -- id of the entry's item, where `json` reads the written line back: it waits for its next
    -- attempt, after a delay that doubles with each attempt, where the caller allows another attempt
    -- and attempts are left; otherwise it is dead. Every other work id keeps its entry.
    pub record_failed_replays :
        (retryable : Bool) (backoff : ℤ) (reason : String) (now : ℤ)
        → IsWritten js (failure retryable backoff reason now entry)
        → (retryable ≡ true)
            × (ltb_ℤ entry.attempt entry.max_attempts ≡ true)
            × ((record_failed py js w retryable backoff reason now text).0
                ≡ done (record {
                  retryable = true;
                  next_after_epoch = now +ℤ scale (2 ^ (pos_part entry.attempt - 1)) backoff;
                  attempt = entry.attempt;
                  reason = reason;
                }))
            × Recorded py js st
                (entry_of entry.item retry_wait entry.attempt entry.max_attempts reason
                  (now +ℤ scale (2 ^ (pos_part entry.attempt - 1)) backoff))
                (record_failed py js w retryable backoff reason now text).1
          ⊎ ((retryable ≡ false) ⊎ (ltb_ℤ entry.attempt entry.max_attempts ≡ false))
            × ((record_failed py js w retryable backoff reason now text).0
                ≡ done (record {
                  retryable = false;
                  next_after_epoch = pos 0;
                  attempt = entry.attempt;
                  reason = reason;
                }))
            × Recorded py js st
                (entry_of entry.item dead entry.attempt entry.max_attempts reason (pos 0))
                (record_failed py js w retryable backoff reason now text).1
    record_failed_replays retryable backoff reason now h =
        let r = failure-Recorded retryable backoff reason now h in
        let a = failed_answer retryable backoff reason now h in
        elim (Bool-cases (can_retry retryable entry)) [
          | inl can ↦
              let (status, next, e) = waits retryable backoff reason now entry can in
              let (may, left) = allowed retryable backoff reason now entry can in
              inl (may, left, a ∙ ap done e, rw (status, next) at r)
          | inr cannot ↦
              let (status, next, e) = dies retryable backoff reason now entry cannot in
              inr (
                refused retryable backoff reason now entry cannot,
                a ∙ ap done e,
                rw (status, next) at r,
              )
        ]
