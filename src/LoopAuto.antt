-- ===== src/LoopAuto.antt =====
-- src/cluxion_runtime/core/loop_auto.py: the loop that drains the dispatch queue through a runner of
-- segments. The clock, the runner, the preflight checks and Python's texts of a value are given
-- as a `World`.
pub mod Markers
pub mod Segment
pub mod Drain
pub mod Attempts
pub mod Account
pub mod Sound
pub mod Turns
pub mod Honest
pub mod Success
pub mod Parked
pub mod Crash
pub mod Cap
mod Tests
use clx_preprocessing.Result.{Error as Error}
use clx_preprocessing.Prelude.{
  Bool, List, String, count, false, not, suc, ℕ, ℤ, ◌&&◌, ◌==◌, ◌||◌, comparable_texts,
  comparable_numbers,
}

-- `HermesSegmentResult`
pub record SegmentResult : Type 0 where
  pub stdout : String
  pub stderr : String
  pub returncode : ℤ
  pub timed_out : Bool

-- One call of the runner: it returns, or raises an `Exception` (`true`) or another
-- `BaseException`, with the text of it.
pub data Run : Type 0 where
  ran : SegmentResult → Run
  raised : Bool → String → Run

-- `before_deadline n` is the n-th test `time.monotonic() < deadline`; `now n` and `stamp n` are the
-- readings of `time.time()` in the n-th call of the store; `run n` is the n-th call of the runner;
-- `message` is `str(exc)`, and `preflight` what `_preflight_error` returns.
pub record World : Type 0 where
  pub before_deadline : ℕ → Bool
  pub now : ℕ → ℕ
  pub stamp : ℕ → ℕ
  pub run : ℕ → String → Run
  pub show_int : ℤ → String
  pub show_list : List String → String
  pub message : Error → String
  pub preflight : String

-- `LoopAutoStepRecord`
pub record StepRecord : Type 0 where
  pub step_id : String
  pub segment_id : String
  pub succeeded : Bool
  pub attempts : ℕ
  pub result_preview : String
  pub error : String

-- `LoopAutoResult`, less the duration.
pub record LoopAutoResult : Type 0 where
  pub ok : Bool
  pub status : String
  pub segments_processed : ℕ
  pub segments_failed : ℕ
  pub briefing_answer : String
  pub steps : List StepRecord
  pub error : String

-- `_finalize`
unfoldable pub finalize :
    String → List StepRecord → (processed failed : ℕ) → (briefing error : String) → LoopAutoResult
finalize status records processed failed briefing error = record {
  ok = (status == "complete" || status == "complete_unmarked") && failed == 0 && error == "";
  status = status;
  segments_processed = processed;
  segments_failed = failed;
  briefing_answer = briefing;
  steps = records;
  error = error;
}

-- `_fail`
unfoldable pub fail : String → List StepRecord → String → LoopAutoResult
fail status records error = record {
  ok = false;
  status = status;
  segments_processed = count (λ r. r.succeeded) records;
  segments_failed = count (λ r. not r.succeeded) records;
  briefing_answer = "";
  steps = records;
  error = error;
}

-- How many clock readings, runner calls and store calls have been made.
pub record Counters : Type 0 where
  pub reads : ℕ
  pub calls : ℕ
  pub uses : ℕ

abbrev pub read_once : Counters → Counters
read_once c = record c { reads = suc c.reads }

abbrev pub call_once : Counters → Counters
call_once c = record c { calls = suc c.calls }

abbrev pub use_once : Counters → Counters
use_once c = record c { uses = suc c.uses }
