-- ===== src/LoopAuto/Account.antt =====
-- The account of a whole run: the runner's calls, the records and the success it reports.

use clx_preprocessing.DispatchStore.Next.{text}
use clx_preprocessing.LoopAuto.Drain.{End, Ended, Progress, finalized, finished, interrupted, snoc}
use clx_preprocessing.Prelude.{
  All, Bool, List, String, [], ap, arith, count, if◌then◌else◌, not, refl, sym, ℕ, ◌++◌, ◌+◌, ◌∙◌,
  ◌∷◌, ◌≡◌, ◌≤◌,
}
use clx_preprocessing.LoopAuto.{StepRecord, fail, finalize}

abbrev pub succeeded_in : List StepRecord → ℕ
succeeded_in records = count (λ r. r.succeeded) records

abbrev pub failed_in : List StepRecord → ℕ
failed_in records = count (λ r. not r.succeeded) records

count-snoc :
    {A : Type 0} (f : A → Bool) (l : List A) (x : A)
    → count f (l ++ (x ∷ [])) ≡ count f l + (if f x then 1 else 0)
unfolding count
count-snoc f [] x = ground arith
count-snoc f (y ∷ l) x = ground (arith, count-snoc f l x)

All-snoc :
    {A : Type 0} (P : A → Type 0) (l : List A) (x : A) → All P l → P x → All P (l ++ (x ∷ []))
All-snoc P [] x h k = (k, tt)
All-snoc P (y ∷ l) x h k = (h.0, All-snoc P l x h.1 k)

-- The counts are those of the records, and no record has too many attempts.
pub record IsConsistent (tries : ℕ) (records : List StepRecord) (processed failed : ℕ)
    : Type 0 where
  pub processed_are : processed ≡ succeeded_in records
  pub failed_are : failed ≡ failed_in records
  pub tried : All (λ r. r.attempts ≤ tries) records

unfoldable pub Accounted : ℕ → Ended → Type 0
Accounted tries interrupted = Unit
Accounted tries (finished r) = IsConsistent tries r.steps r.segments_processed r.segments_failed

pub fail-Accounted :
    (tries : ℕ) (status : String) (records : List StepRecord) (text : String)
    → All (λ r. r.attempts ≤ tries) records
    → Accounted tries (finished (fail status records text))
unfolding Accounted fail
fail-Accounted tries status records text h = record {
  processed_are = refl;
  failed_are = refl;
  tried = h;
}

abbrev pub ConsistentProgress : ℕ → Progress → Type 0
ConsistentProgress tries p = IsConsistent tries p.records p.processed p.failed

pub finalized-Accounted :
    (tries : ℕ) (status : String) (p : Progress) (briefing text : String)
    → ConsistentProgress tries p
    → Accounted tries (finalized status p briefing text)
unfolding Accounted finalized finalize
finalized-Accounted tries status p briefing text h = record {
  processed_are = h.processed_are;
  failed_are = h.failed_are;
  tried = h.tried;
}

pub with_record :
    (tries : ℕ) (p : Progress) (r : StepRecord)
    → ConsistentProgress tries p
    → r.attempts ≤ tries
    → IsConsistent tries
        (snoc p.records r)
        (p.processed + (if r.succeeded then 1 else 0))
        (p.failed + (if not r.succeeded then 1 else 0))
with_record tries p r h k = record {
  processed_are =
      ap (λ n. n + (if r.succeeded then 1 else 0)) h.processed_are
      ∙ sym (count-snoc (λ q. q.succeeded) p.records r);
  failed_are =
      ap (λ n. n + (if not r.succeeded then 1 else 0)) h.failed_are
      ∙ sym (count-snoc (λ q. not q.succeeded) p.records r);
  tried = All-snoc (λ q. q.attempts ≤ tries) p.records r h.tried k;
}

-- What is claimed of the end of a run.
pub record IsSound (tries calls : ℕ) (end_ : End) : Type 0 where
  pub accounted : Accounted tries end_.0
  pub bounded : end_.2.calls ≤ calls
