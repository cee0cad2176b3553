-- ===== src/LoopAuto/Tests.antt =====
-- A plan of two segments, drained by a runner that completes one at once and the other at its second attempt.

use clx_preprocessing.DispatchStore.{
  can_claim, claim_step, is_hashable, is_waiting, load_dispatch_bundle, remaining_count, status_in,
}
use clx_preprocessing.Dispatch.{
  behind, is_safe, items_of, mark_claimed, stale_running, step_objects, steps_of, synthesis_ready,
  validated_work_id, with_steps, write_leaf,
}
use clx_preprocessing.Json.{
  Fields, end, field, field_is, get?, get_or, is_str, number_or_zero, obj, put, str, str_of,
}
use clx_preprocessing.DispatchStore.Plan.{
  Plan, bundle_with_owner, owner_fields, step_from_segment, texts,
}
use clx_preprocessing.LoopAuto.Drain.{
  Progress, begun, brief, drain, finalized, finished, is_store_error, on_brief_run, on_briefing,
  on_error, on_exception, on_next, on_recorded_failure, on_recorded_success, on_segment, on_step,
  release_crashed_step, released, run_loop_auto, same_state, turn,
}
use clx_preprocessing.LoopAuto.Markers.{
  is_marker_line, last_line, last_of, lstrip, marked_lines, parse_briefing_marker,
  parse_segment_marker, removeprefix, rstrip, splitlines, starts_with, strip, strip_markers,
}
use clx_preprocessing.DispatchStore.Next.{finish, next_under_lock, text}
use clx_preprocessing.LoopAuto.Segment.{
  attempt_loop, build_segment_prompt, error_text, has_failed, is_zero, on_marker, on_run,
  one_attempt, prefix_of, preview, resume_segment_prompt, sent, words,
}
use clx_preprocessing.DispatchStore.Record.{record_dispatch_result, record_under_lock, report}
use clx_preprocessing.DispatchStore.Brief.{briefing_of, build_briefing_payload, missing_ids}
use clx_preprocessing.Ledger.Lines.{is_break}
use clx_preprocessing.Ledger.{int_of}
use clx_preprocessing.LoopAuto.{
  Counters, LoopAutoResult, Run, StepRecord, World, fail, finalize, raised, ran,
}
use clx_preprocessing.Ledger.Codec.{surface_value}
use clx_preprocessing.Chars.{is_space}
use clx_preprocessing.Dispatch.Record.{find_step, mark_recorded, mark_step, status_of}
use clx_preprocessing.Prelude.{
  All, Option, String, [], arith, count, false, keep, none, pos, refl, some, suc, true, zero, ℕ, ℤ,
  ◌*◌, ◌+◌, ◌∷◌, ◌≡◌, ◌≤◌,
}
use clx_preprocessing.Types.{QueueSegment, hermes, normal}
use clx_preprocessing.Owner.{Owner}
use clx_preprocessing.Dispatch.{Python as Python, Store as Store, document as document}
use clx_preprocessing.LoopAuto.Success.{AllSucceeded, success_is_earned}
use clx_preprocessing.LoopAuto.Crash.{crash_is_retried}
use clx_preprocessing.LoopAuto.Cap.{AllSucceeded as AllSucceededSteps, cap_abandons_step}
use clx_preprocessing.Dispatch.Steps.{steps_of-with_steps}
use clx_preprocessing.DispatchStore.Next.{next_dispatch_step as next_dispatch_step}
use clx_preprocessing.DispatchStore.Planned.{handed, steps_of-bundle}
use clx_preprocessing.Result.{ok}
use clx_preprocessing.LoopAuto.Turns.{report_is_consistent, runner_calls_bounded}
use clx_preprocessing.LoopAuto.Account.{failed_in, succeeded_in}

abbrev py : Python
py = record { is_alnum = λ _. true; render = λ _. "" }

abbrev no_numbers : String → Option ℤ
no_numbers _ = none

abbrev segment : String → String → QueueSegment
segment id content = record {
  segment_id = id;
  char_start = 0;
  char_end = 9;
  token_estimate = 3;
  checksum = "00ff";
  preview = content;
  content = content;
}

abbrev plan : Plan
plan = record {
  item = record {
    work_id = "w";
    prompt = "a long prompt";
    surface = hermes;
    priority = normal;
    model_route = "auto";
    expected_ram_mb = pos 0;
    context_tokens = pos 0;
    metadata = [];
  };
  normalized_prompt = "a long prompt";
  answer_policy = record {
    response_contract = "synthesize_from_segment_evidence";
    verification_required = true;
    citation_required = false;
    uncertainty_level = "high";
    required_checks = [];
    rules = [];
  };
  segments = segment "seg_000" "a long" ∷ segment "seg_001" "prompt" ∷ [];
  queue_required = true;
}

abbrev owner : Owner
owner = record { cwd = "/work"; session_id = ""; scope = "project:/work" }

abbrev store : Store
store _ = document (obj (bundle_with_owner 5 plan owner))

abbrev said : String → Run
said text = ran (record { stdout = text; stderr = ""; returncode = pos 0; timed_out = false })

abbrev answers : ℕ → String
answers zero = "first\nSEGMENT_COMPLETE\n"
answers (suc zero) = "half\nWORK_REMAINS: the end"
answers (suc (suc zero)) = "second\nSEGMENT_COMPLETE"
answers _ = "the answer\nTASK_COMPLETE"

abbrev world : World
world = record {
  before_deadline = λ _. true;
  now = λ _. 7;
  stamp = λ _. 8;
  run = λ n prompt. said (answers n);
  show_int = λ _. "0";
  show_list = λ _. "";
  message = λ _. "";
  preflight = "";
}

abbrev done : String → String → ℕ → String → StepRecord
done step_id segment_id attempts result_preview = record {
  step_id = step_id;
  segment_id = segment_id;
  succeeded = true;
  attempts = attempts;
  result_preview = result_preview;
  error = "";
}

abbrev final_report : LoopAutoResult
final_report = record {
  ok = true;
  status = "complete";
  segments_processed = 2;
  segments_failed = 0;
  briefing_answer = "the answer";
  steps = done "exec_seg_000" "seg_000" 1 "first" ∷ done "exec_seg_001" "seg_001" 2 "second" ∷ [];
  error = "";
}

drained : (run_loop_auto world py no_numbers "w" 3 1 store).0 ≡ finished final_report
unfolding run_loop_auto is_waiting items_of is_str status_in is_hashable step_from_segment
    claim_step step_objects field_is on_recorded_success synthesis_ready last_of finish marked_lines
    is_zero on_briefing on_marker last_line with_steps texts record_dispatch_result remaining_count
    missing_ids number_or_zero parse_segment_marker is_break starts_with same_state turn on_run
    error_text sent briefing_of on_brief_run words on_recorded_failure build_segment_prompt report
    int_of can_claim on_exception stale_running parse_briefing_marker
    clx_preprocessing.DispatchStore.Next.public_step release_crashed_step behind removeprefix text
    rstrip steps_of attempt_loop drain strip strip_markers finalize on_step on_next fail brief
    on_segment mark_claimed lstrip is_store_error preview released finalized surface_value is_space
    is_marker_line splitlines get_or resume_segment_prompt on_error put one_attempt prefix_of str_of
    has_failed owner_fields build_briefing_payload bundle_with_owner mark_recorded record_under_lock
    validated_work_id status_of next_under_lock keep load_dispatch_bundle find_step write_leaf
    mark_step next_dispatch_step is_safe count get?
drained = refl

runner_calls_bounded_example : (run_loop_auto world py no_numbers "w" 3 1 store).2.calls ≤ 3 * 2 + 1
runner_calls_bounded_example = runner_calls_bounded world py no_numbers "w" 3 1 store

report_is_consistent_example :
    (final_report.segments_processed ≡ succeeded_in final_report.steps)
    × (final_report.segments_failed ≡ failed_in final_report.steps)
    × All (λ s. s.attempts ≤ 2) final_report.steps
report_is_consistent_example =
    report_is_consistent world py no_numbers "w" 3 1 store final_report drained

success_is_earned_example :
    (failed_in final_report.steps ≡ 0)
    × AllSucceeded py "w" (run_loop_auto world py no_numbers "w" 3 1 store).1
success_is_earned_example =
    success_is_earned world py no_numbers "w" 3 1 store final_report drained refl

-- A runner that raises at its first call.
abbrev broken : World
broken = record world { run = λ n prompt. raised true "boom" }

accepted : validated_work_id py "w" ≡ ok "w"
unfolding validated_work_id is_safe
accepted = refl

crash_is_retried_example :
    (next_dispatch_step py no_numbers "w" 9 9
      (run_loop_auto broken py no_numbers "w" 3 1 store).1).0
    ≡ ok (record {
      step = some (handed (segment "seg_000" "a long"));
      remaining = 2;
      synthesis_ready = false;
    })
crash_is_retried_example =
    crash_is_retried py no_numbers 5 (segment "seg_000" "a long") (segment "seg_001" "prompt" ∷ [])
      broken "w" "w" 2 1 true "boom" (bundle_with_owner 5 plan owner) store 9 9 accepted refl
      (steps_of-bundle 5 plan owner) refl (λ n. refl) (λ prompt. refl)

abbrev done_step : Fields
done_step = field "step_id" (str "step_001") (field "status" (str "succeeded") end)

abbrev late_bundle : Fields
late_bundle =
    with_steps (done_step ∷ step_from_segment 5 (segment "seg_000" "a long") ∷ [])
      (bundle_with_owner 5 plan owner)

abbrev late_store : Store
late_store _ = document (obj late_bundle)

abbrev started : Counters
started = record { reads = 0; calls = 0; uses = 0 }

abbrev shown : World
shown = record world { show_int = λ _. "1" }

-- One segment has been run, and the cap is one.
abbrev run_once : Progress
run_once = record begun { processed = 1 }

done_step-AllSucceeded : AllSucceededSteps (done_step ∷ [])
unfolding field_is is_str get?
done_step-AllSucceeded = (refl, tt)

cap_abandons_step_example :
    ((drain shown py no_numbers "w" 1 1 0 none run_once late_store started).0
      ≡ finalized "iteration_cap_exceeded" run_once "" "loop_auto exceeded max_iterations=1")
    × ((next_dispatch_step py no_numbers "w" 9 9
          (drain shown py no_numbers "w" 1 1 0 none run_once late_store started).1).0
        ≡ ok (record { step = none; remaining = 1; synthesis_ready = false }))
cap_abandons_step_example =
    cap_abandons_step py no_numbers 5 (segment "seg_000" "a long") (done_step ∷ [])
      done_step-AllSucceeded shown "w" "w" 1 1 none run_once late_bundle late_store started 9 9
      accepted refl
      (steps_of-with_steps (done_step ∷ step_from_segment 5 (segment "seg_000" "a long") ∷ [])
        (bundle_with_owner 5 plan owner))
      refl (omega arith)
