-- ===== src/LoopAuto/Sound.antt =====
-- The turns of the queue keep the account.
use clx_preprocessing.DispatchStore.Next.{PublicStep as PublicStep}
use clx_preprocessing.DispatchStore.Brief.{
  Reply as BriefReply, not_ready as not_ready, ready as ready,
}
use clx_preprocessing.Dispatch.Record.{Reply as RecordReply}
use clx_preprocessing.Dispatch.{Python as Python, Store as Store}
use clx_preprocessing.Prelude.{
  Bool-cases, Option, String, arith, false, if◌then◌else◌, inl, inr, not, some, suc, sym, true, ℕ,
  ℤ, ◌+◌, ◌==◌, ◌∙◌, ◌≡◌, ◌≤◌, comparable_texts, comparable_numbers,
}
use clx_preprocessing.Result.{Result, err, ok}
use clx_preprocessing.LoopAuto.{Counters, Run, StepRecord, World, call_once, raised, ran, use_once}
use clx_preprocessing.LoopAuto.Segment.{SegmentEnd, crashed, ended, has_failed, preview}
use clx_preprocessing.LoopAuto.Attempts.{AttemptsWithin}
use clx_preprocessing.LoopAuto.Drain.{
  Continue, End, Ended, Progress, Signature, interrupted, on_brief_run, on_briefing, on_error,
  on_exception, on_recorded_failure, on_recorded_success, on_segment, release_crashed_step,
  released, snoc,
}
use clx_preprocessing.LoopAuto.Account.{
  Accounted, ConsistentProgress, IsConsistent, IsSound, fail-Accounted, finalized-Accounted,
  with_record,
}

abbrev failure_record : PublicStep → ℕ → String → String → StepRecord
failure_record step attempts last_error result_text = record {
  step_id = step.step_id;
  segment_id = step.segment_id;
  succeeded = false;
  attempts = attempts;
  result_preview = preview result_text;
  error = last_error;
}

abbrev success_record : PublicStep → ℕ → String → StepRecord
success_record step attempts result_text = record {
  step_id = step.step_id;
  segment_id = step.segment_id;
  succeeded = true;
  attempts = attempts;
  result_preview = preview result_text;
  error = "";
}

-- One more record, counted.
counted :
    (tries : ℕ) (p : Progress) (r : StepRecord) (processed failed : ℕ)
    → ConsistentProgress tries p
    → r.attempts ≤ tries
    → p.processed + (if r.succeeded then 1 else 0) ≡ processed
    → p.failed + (if not r.succeeded then 1 else 0) ≡ failed
    → IsConsistent tries (snoc p.records r) processed failed
counted tries p r processed failed h k e f =
    let w = with_record tries p r h k in
    record {
      processed_are = sym e ∙ w.processed_are;
      failed_are = sym f ∙ w.failed_are;
      tried = w.tried;
    }

-- More calls may be allowed.
pub within :
    (tries calls more : ℕ) (e : End) → calls ≤ more → IsSound tries calls e → IsSound tries more e
within tries calls more e le h = record {
  accounted = h.accounted;
  bounded = omega (arith, h.bounded, le);
}

module _ (world : World) (py : Python) (int_of_text : String → Option ℤ) (work_id : String)
    (max_iterations retries : ℕ) where
  brief_run-IsSound :
      (r : Run) (p : Progress) (store : Store) (c : Counters) (calls : ℕ)
      → ConsistentProgress (suc retries) p
      → c.calls ≤ calls
      → IsSound
          (suc retries)
          calls
          (on_brief_run world py int_of_text work_id max_iterations retries r p store c)
  unfolding on_brief_run on_exception
  brief_run-IsSound (raised true text) p store c calls h k = record {
    accounted = fail-Accounted (suc retries) "loop_error" p.records text h.tried;
    bounded = k;
  }
  brief_run-IsSound (raised false text) p store c calls h k = record {
    accounted = unfold Accounted in tt;
    bounded = k;
  }
  brief_run-IsSound (ran r) p store c calls h k = elim (Bool-cases (has_failed r)) [
    | inl bad ↦
        rw (bad) (record { accounted = finalized-Accounted (suc retries) _ p _ _ h; bounded = k })
    | inr good ↦
        rw (good) (record { accounted = finalized-Accounted (suc retries) _ p _ _ h; bounded = k })
  ]

  pub on_briefing-IsSound :
      (b : Result BriefReply) (p : Progress) (store : Store) (c : Counters) (calls : ℕ)
      → ConsistentProgress (suc retries) p
      → suc c.calls ≤ calls
      → IsSound
          (suc retries)
          calls
          (on_briefing world py int_of_text work_id max_iterations retries b p store c)
  unfolding on_briefing on_error
  on_briefing-IsSound (err e) p store c calls h k = record {
    accounted = fail-Accounted (suc retries) _ p.records _ h.tried;
    bounded = omega (arith, k);
  }
  on_briefing-IsSound (ok (not_ready missing_ids)) p store c calls h k = record {
    accounted = finalized-Accounted (suc retries) _ p _ _ h;
    bounded = omega (arith, k);
  }
  on_briefing-IsSound (ok (ready prompt n)) p store c calls h k =
      brief_run-IsSound _ p store (call_once c) calls h k

  released-IsSound :
      (e : Ended) (step_id text : String) (store : Store) (c : Counters) (calls : ℕ)
      → Accounted (suc retries) e
      → c.calls ≤ calls
      → IsSound
          (suc retries)
          calls
          (released world py int_of_text work_id max_iterations retries e step_id text store c)
  unfolding released release_crashed_step
  released-IsSound e step_id text store c calls h k = elim (Bool-cases (step_id == "")) [
    | inl none_given ↦ rw (none_given) (record { accounted = h; bounded = k })
    | inr given ↦ rw (given) (record { accounted = h; bounded = k })
  ]

  failure-IsSound :
      (step : PublicStep) (attempts : ℕ) (last_error result_text : String) (p : Progress)
      (recorded : Result RecordReply × Store) (c : Counters) (calls : ℕ)
      → ConsistentProgress (suc retries) p
      → attempts ≤ suc retries
      → c.calls ≤ calls
      → IsSound (suc retries) calls (
          on_recorded_failure world py int_of_text work_id max_iterations retries step attempts
            last_error result_text p recorded c)
  unfolding on_recorded_failure on_error
  failure-IsSound step attempts last_error result_text p (err e, store) c calls h l k =
      released-IsSound _ step.step_id (world.message e) store c calls
        (fail-Accounted (suc retries) _ p.records _ h.tried) k
  failure-IsSound step attempts last_error result_text p (ok reply, store) c calls h l k = record {
    accounted =
        finalized-Accounted (suc retries) "segment_failed"
          (record {
            records = snoc p.records (failure_record step attempts last_error result_text);
            processed = p.processed;
            failed = suc p.failed;
          })
          "" _
          (counted (suc retries) p (failure_record step attempts last_error result_text) p.processed
            (suc p.failed) h l (omega arith) (omega arith));
    bounded = k;
  }

  -- The next turns are sound on a budget of calls.
  abbrev pub SoundOn : ℕ → Continue world py int_of_text work_id max_iterations retries → Type 0
  SoundOn budget again =
      (previous : Option Signature) (p : Progress) (store : Store) (c : Counters)
      → ConsistentProgress (suc retries) p
      → IsSound (suc retries) (c.calls + budget) (again previous p store c)

  success-IsSound :
      (again : Continue world py int_of_text work_id max_iterations retries) (budget : ℕ)
      (state : Signature) (step : PublicStep) (attempts : ℕ) (result_text : String) (p : Progress)
      (recorded : Result RecordReply × Store) (c : Counters) (calls : ℕ)
      → SoundOn budget again
      → ConsistentProgress (suc retries) p
      → attempts ≤ suc retries
      → c.calls + budget ≤ calls
      → IsSound (suc retries) calls (
          on_recorded_success world py int_of_text work_id max_iterations retries again state step
            attempts result_text p recorded c)
  unfolding on_recorded_success on_error
  success-IsSound again budget state step attempts result_text p (err e, store) c calls next h l k =
      released-IsSound _ step.step_id (world.message e) store c calls
        (fail-Accounted (suc retries) _ p.records _ h.tried) (omega (arith, k))
  success-IsSound again budget state step attempts result_text p (ok reply, store) c calls next h l
        k =
      within (suc retries) _ calls _ k (
        next (some state) _ store c (
          counted (suc retries) p (success_record step attempts result_text) (suc p.processed)
            p.failed h l (omega arith) (omega arith)))

  pub segment-IsSound :
      (again : Continue world py int_of_text work_id max_iterations retries) (budget : ℕ)
      (state : Signature) (step : PublicStep) (e : SegmentEnd) (p : Progress) (store : Store)
      (start calls : ℕ)
      → SoundOn budget again
      → ConsistentProgress (suc retries) p
      → AttemptsWithin (suc retries) start e
      → start + budget ≤ calls
      → IsSound (suc retries) calls (
          on_segment world py int_of_text work_id max_iterations retries again state step e p store)
  unfolding on_segment on_exception
  segment-IsSound again budget state step (crashed true text c) p store start calls next h w k =
      released-IsSound _ step.step_id text store c calls
        (fail-Accounted (suc retries) _ p.records _ h.tried) (omega (arith, w, k))
  segment-IsSound again budget state step (crashed false text c) p store start calls next h w k =
      released-IsSound interrupted step.step_id text store c calls (unfold Accounted in tt)
        (omega (arith, w, k))
  segment-IsSound again budget state step (ended true attempts last_error result_text c) p store
        start calls next h w k =
      success-IsSound again budget state step attempts result_text p _ (use_once c) calls next h w.0
        (omega (arith, w.1, k))
  segment-IsSound again budget state step (ended false attempts last_error result_text c) p store
        start calls next h w k =
      failure-IsSound step attempts last_error result_text p _ (use_once c) calls h w.0
        (omega (arith, w.1, k))
