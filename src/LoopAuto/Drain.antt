-- ===== src/LoopAuto/Drain.antt =====
-- `run_loop_auto` of src/cluxion_runtime/core/loop_auto.py: the turns of the queue, and the briefing.
use Prim.Native.String.{◌++◌ as text_append}
use clx_preprocessing.DispatchStore.Next.{
  PublicStep as PublicStep, Reply as NextReply, next_dispatch_step as next_dispatch_step,
}
use clx_preprocessing.DispatchStore.Record.{
  record_dispatch_result as record_dispatch_result, report as report,
}
use clx_preprocessing.Dispatch.Record.{Reply as RecordReply}
use clx_preprocessing.DispatchStore.Brief.{
  Reply as BriefReply, not_ready as not_ready, ready as ready,
  build_briefing_payload as build_briefing_payload,
}
use clx_preprocessing.Dispatch.{Python as Python, Store as Store}
use clx_preprocessing.Prelude.{
  Bool, List, Option, String, [], false, if◌then◌else◌, none, pos, some, suc, true, zero, ℕ, ℤ,
  ◌&&◌, ◌++◌, ◌==◌, ◌∷◌, comparable_texts, comparable_numbers,
}
use clx_preprocessing.Result.{
  Error, Result, err, key_error, ok, type_error, unhashable_status, value_error,
}
use clx_preprocessing.LoopAuto.{
  Counters, LoopAutoResult, Run, StepRecord, World, call_once, fail, finalize, raised, ran,
  read_once, use_once,
}
use clx_preprocessing.LoopAuto.Markers.{parse_briefing_marker, strip_markers}
use clx_preprocessing.LoopAuto.Segment.{
  SegmentEnd, attempt_loop, build_segment_prompt, crashed, ended, error_text, has_failed, preview,
}

-- The call returns, or a `BaseException` that is no `Exception` leaves it.
pub data Ended : Type 0 where
  finished : LoopAutoResult → Ended
  interrupted : Ended

abbrev pub End : Type 0
End = Ended × Store × Counters

-- `_queue_state_signature`: remaining, step_id, segment_id, checksum.
abbrev pub Signature : Type 0
Signature = ℕ × String × String × String

unfoldable pub same_state : Option Signature → Signature → Bool
same_state none s = false
same_state (some (m, a, b, c)) (n, d, e, f) = m == n && a == d && b == e && c == f

abbrev pub briefing_contract : String
briefing_contract =
    "\n\n[cluxion_loop_auto_briefing_contract]\nSynthesize segment results into a concise user-facing answer.\nEnd your final line with exactly TASK_COMPLETE when done.\n"

-- `DispatchStoreError`, as against the other exceptions.
unfoldable pub is_store_error : Error → Bool
is_store_error unhashable_status = false
is_store_error key_error = false
is_store_error type_error = false
is_store_error value_error = false
is_store_error _ = true

-- The records so far, and how many segments were processed and failed.
pub record Progress : Type 0 where
  pub records : List StepRecord
  pub processed : ℕ
  pub failed : ℕ

abbrev pub begun : Progress
begun = record { records = []; processed = 0; failed = 0 }

unfoldable pub finalized : String → Progress → (briefing error : String) → Ended
finalized status p briefing error =
    finished (finalize status p.records p.processed p.failed briefing error)

abbrev pub snoc : List StepRecord → StepRecord → List StepRecord
snoc records r = records ++ (r ∷ [])

module _ (world : World) (py : Python) (int_of_text : String → Option ℤ) (work_id : String)
    (max_iterations max_segment_retries : ℕ) where
  -- The `except` clauses of the whole call.
  unfoldable pub on_error : Error → Progress → Ended
  on_error e p = finished (
      fail (if is_store_error e then "dispatch_error" else "loop_error") p.records
        (world.message e))

  unfoldable pub on_exception : Bool → String → Progress → Ended
  on_exception is_exception text p =
      if is_exception then finished (fail "loop_error" p.records text) else interrupted

  -- `_release_crashed_step`
  unfoldable pub release_crashed_step : String → String → Store → Counters → Store × Counters
  release_crashed_step step_id text store c = if step_id == "" then (store, c) else (
    (record_dispatch_result py work_id
        (report step_id "" (text_append "loop_auto crashed mid-step: " text) false true)
        (world.stamp c.uses) store).1,
    use_once c,
  )

  -- A crash in the block of one step: the step is released, and the exception goes on.
  unfoldable pub released : Ended → String → String → Store → Counters → End
  released ended_as step_id text store c =
      let (after, d) = release_crashed_step step_id text store c in (ended_as, after, d)

  -- The briefing, after the loop.
  unfoldable pub on_brief_run : Run → Progress → Store → Counters → End
  on_brief_run (raised is_exception text) p store c = (on_exception is_exception text p, store, c)
  on_brief_run (ran r) p store c =
      if has_failed r
      then (finalized "briefing_failed" p "" (error_text world "briefing hermes exit " r), store, c)
      else (
        finalized (if parse_briefing_marker r.stdout then "complete" else "complete_unmarked") p
            (strip_markers r.stdout) "",
        store,
        c,
      )

  unfoldable pub on_briefing : Result BriefReply → Progress → Store → Counters → End
  unfolding on_brief_run
  on_briefing (err e) p store c = (on_error e p, store, c)
  on_briefing (ok (not_ready missing_ids)) p store c = (
    finalized "briefing_not_ready" p ""
        (text_append "missing steps: " (world.show_list missing_ids)),
    store,
    c,
  )
  on_briefing (ok (ready prompt n)) p store c =
      on_brief_run (world.run c.calls (text_append prompt briefing_contract)) p store (call_once c)

  unfoldable pub brief : Progress → Store → Counters → End
  unfolding on_briefing
  brief p store c = on_briefing (build_briefing_payload py work_id store) p store c

  -- What the next turns of the loop do; `none` where no iteration is left.
  abbrev pub Continue : Type 0
  Continue = Option Signature → Progress → Store → Counters → End

  unfoldable pub on_recorded_failure :
      PublicStep
      → (attempts : ℕ) → (last_error result_text : String) → Progress
      → Result RecordReply × Store
      → Counters
      → End
  on_recorded_failure step attempts last_error result_text p (err e, store) c =
      released (on_error e p) step.step_id (world.message e) store c
  on_recorded_failure step attempts last_error result_text p (ok _, store) c = (
    finalized "segment_failed"
        (record {
          records = snoc p.records (record {
            step_id = step.step_id;
            segment_id = step.segment_id;
            succeeded = false;
            attempts = attempts;
            result_preview = preview result_text;
            error = last_error;
          });
          processed = p.processed;
          failed = suc p.failed;
        })
        "" (text_append "segment " (text_append step.step_id (text_append " failed: " last_error))),
    store,
    c,
  )

  unfoldable pub on_recorded_success :
      Continue
      → Signature
      → PublicStep
      → (attempts : ℕ) → (result_text : String) → Progress
      → Result RecordReply × Store
      → Counters
      → End
  on_recorded_success again state step attempts result_text p (err e, store) c =
      released (on_error e p) step.step_id (world.message e) store c
  on_recorded_success again state step attempts result_text p (ok _, store) c =
      again (some state)
        (record {
          records = snoc p.records (record {
            step_id = step.step_id;
            segment_id = step.segment_id;
            succeeded = true;
            attempts = attempts;
            result_preview = preview result_text;
            error = "";
          });
          processed = suc p.processed;
          failed = p.failed;
        })
        store c

  unfoldable pub on_segment :
      Continue → Signature → PublicStep → SegmentEnd → Progress → Store → End
  unfolding on_recorded_failure on_recorded_success released
  on_segment again state step (crashed is_exception text c) p store =
      released (on_exception is_exception text p) step.step_id text store c
  on_segment again state step (ended true attempts last_error result_text c) p store =
      on_recorded_success again state step attempts result_text p
        (record_dispatch_result py work_id (report step.step_id result_text "" true false)
          (world.stamp c.uses) store)
        (use_once c)
  on_segment again state step (ended false attempts last_error result_text c) p store =
      on_recorded_failure step attempts last_error result_text p
        (record_dispatch_result py work_id
          (report step.step_id result_text
            (if last_error == "" then "segment_failed" else last_error) false false)
          (world.stamp c.uses) store)
        (use_once c)

  -- A step has been claimed.
  unfoldable pub on_step :
      Option Continue → Option Signature → ℕ → PublicStep → Progress → Store → Counters → End
  unfolding on_segment
  on_step none previous remaining step p store c = (
    finalized "iteration_cap_exceeded" p ""
        (text_append "loop_auto exceeded max_iterations=" (world.show_int (pos max_iterations))),
    store,
    c,
  )
  on_step (some again) previous remaining step p store c =
      let state : Signature = (remaining, step.step_id, step.segment_id, step.checksum) in
      if same_state previous state
      then (
        finalized "no_progress" p "" "dispatch queue made no progress between loop_auto iterations",
        store,
        c,
      )
      else on_segment again state step
          (attempt_loop world step work_id (suc max_segment_retries) 0
            (build_segment_prompt step work_id "") "" "" c)
          p store

  unfoldable pub on_next :
      Option Continue → Option Signature → Progress → Result NextReply × Store → Counters → End
  unfolding on_step brief
  on_next again previous p (err e, store) c = (on_error e p, store, c)
  on_next again previous p (ok reply, store) c = elim reply.step [
    | none ↦ brief p store c
    | some step ↦ on_step again previous reply.remaining step p store c
  ]

  unfoldable pub turn : Option Continue → Continue
  unfolding on_next brief
  turn again previous p store c = elim (world.before_deadline c.reads) [
    | false ↦ brief p store (read_once c)
    | true ↦
        on_next again previous p
          (next_dispatch_step py int_of_text work_id (world.now c.uses) (world.stamp c.uses) store)
          (use_once (read_once c))
  ]

  -- The loop; `left` iterations may still begin.
  unfoldable pub drain : ℕ → Continue
  unfolding turn
  drain zero = turn none
  drain (suc left) = turn (some (drain left))

  unfoldable pub run_loop_auto : Store → End
  unfolding drain
  run_loop_auto store =
      let c : Counters = record { reads = 0; calls = 0; uses = 0 } in
      if world.preflight == ""
      then drain max_iterations none begun store c
      else (finished (fail "preflight_failed" [] world.preflight), store, c)
