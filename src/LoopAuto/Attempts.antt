-- ===== src/LoopAuto/Attempts.antt =====
-- The bounds of the attempts at one segment.
use clx_preprocessing.DispatchStore.Next.{PublicStep as PublicStep}
use clx_preprocessing.Prelude.{Bool-cases, String, arith, inl, inr, suc, zero, ℕ, ◌+◌, ◌≤◌}
use clx_preprocessing.LoopAuto.{Counters, Run, World, call_once, raised, ran, read_once}
use clx_preprocessing.LoopAuto.Markers.{
  Marker, complete, missing, parse_segment_marker, remains, strip_markers,
}
use clx_preprocessing.LoopAuto.Segment.{
  Retry, SegmentEnd, attempt_loop, crashed, ended, has_failed, on_marker, on_run, one_attempt, sent,
}

-- The attempts of a segment: the runner's calls, and the attempts that are reported.
abbrev pub AttemptsWithin : ℕ → ℕ → SegmentEnd → Type 0
AttemptsWithin tries calls (ended done attempts last_error result_text c) =
    (attempts ≤ tries) × (c.calls ≤ calls)
AttemptsWithin tries calls (crashed is_exception text c) = c.calls ≤ calls

module _ (world : World) (step : PublicStep) (work_id : String) where
  on_marker-Within :
      (again : Retry) (m : Marker) (attempts tries calls : ℕ)
      (prompt last_error result_text : String) (c : Counters)
      → c.calls ≤ calls
      → ((q e r : String) → AttemptsWithin tries calls (again attempts q e r c))
      → attempts ≤ tries
      → AttemptsWithin tries calls
          (on_marker world step work_id again m attempts prompt last_error result_text c)
  unfolding on_marker
  on_marker-Within again complete attempts tries calls prompt last_error result_text c h k l =
      (l, h)
  on_marker-Within again (remains line) attempts tries calls prompt last_error result_text c h k l =
      k _ _ _
  on_marker-Within again missing attempts tries calls prompt last_error result_text c h k l =
      k _ _ _

  on_run-Within :
      (again : Retry) (r : Run) (attempts tries calls : ℕ) (prompt last_error result_text : String)
      (c : Counters)
      → c.calls ≤ calls
      → ((q e r : String) → AttemptsWithin tries calls (again attempts q e r c))
      → attempts ≤ tries
      → AttemptsWithin tries calls
          (on_run world step work_id again r attempts prompt last_error result_text c)
  unfolding on_run
  on_run-Within again (raised is_exception text) attempts tries calls prompt last_error result_text
        c h k l =
      h
  on_run-Within again (ran r) attempts tries calls prompt last_error result_text c h k l =
      elim (Bool-cases (has_failed r)) [
        | inl bad ↦ rw (bad) (k _ _ _)
        | inr good ↦ rw (good) (
            on_marker-Within again (parse_segment_marker r.stdout) attempts tries calls prompt
              last_error (strip_markers r.stdout) c h k l)
      ]

  pub attempt_loop-Within :
      (left attempts tries calls : ℕ) (prompt last_error result_text : String) (c : Counters)
      → attempts + left ≤ tries
      → c.calls + left ≤ calls
      → AttemptsWithin tries calls
          (attempt_loop world step work_id left attempts prompt last_error result_text c)
  unfolding attempt_loop one_attempt
  attempt_loop-Within zero attempts tries calls prompt last_error result_text c h k =
      (omega (arith, h), omega (arith, k))
  attempt_loop-Within (suc left) attempts tries calls prompt last_error result_text c h k =
      elim (Bool-cases (world.before_deadline c.reads)) [
        | inr late ↦ rw (late, attempt_loop) (omega (arith, h), omega (arith, k))
        | inl early ↦
            rw (early, attempt_loop)
              (on_run-Within (attempt_loop world step work_id left)
                (world.run c.calls (sent world step work_id (suc attempts) prompt last_error))
                (suc attempts) tries calls prompt last_error result_text (call_once (read_once c))
                (omega (arith, k))
                (λ q e r.
                  attempt_loop-Within left (suc attempts) tries calls q e r
                    (call_once (read_once c)) (omega (arith, h)) (omega (arith, k)))
                (omega (arith, h)))
      ]
