-- ===== src/LoopAuto/Honest.antt =====
-- What a run that reports success has left in the store.

use clx_preprocessing.DispatchStore.Next.{text}
use clx_preprocessing.LoopAuto.Segment.{SegmentEnd, crashed, ended, has_failed}
use clx_preprocessing.DispatchStore.Next.{
  Reply as NextReply, next_dispatch_step as next_dispatch_step, PublicStep as PublicStep,
}
use clx_preprocessing.DispatchStore.Brief.{
  Reply as BriefReply, not_ready as not_ready, ready as ready,
  build_briefing_payload as build_briefing_payload,
}
use clx_preprocessing.Dispatch.Record.{Reply as RecordReply}
use clx_preprocessing.Dispatch.{Python as Python, Store as Store}
use clx_preprocessing.Prelude.{
  Bool-cases, List, Option, Option-cases, String, [], arith, false, inl, inr, none, refl, some, suc,
  true, zero, ℕ, ℤ, ◌==◌, ◌||◌, ◌≡◌, comparable_texts, comparable_numbers,
}
use clx_preprocessing.Result.{Result, err, ok}
use clx_preprocessing.LoopAuto.{
  Counters, Run, StepRecord, World, call_once, fail, finalize, raised, ran, read_once, use_once,
}
use clx_preprocessing.LoopAuto.Drain.{
  Continue, End, Ended, Progress, Signature, begun, brief, drain, finalized, finished, interrupted,
  on_brief_run, on_briefing, on_error, on_exception, on_next, on_recorded_failure,
  on_recorded_success, on_segment, on_step, released, run_loop_auto, same_state, turn,
}

-- The briefing of the stored bundle is ready: every step of it has succeeded.
abbrev pub CanBrief : Python → String → Store → Type 0
CanBrief py work_id store =
    (prompt : String) × (n : ℕ) × (build_briefing_payload py work_id store ≡ ok (ready prompt n))

unfoldable pub HonestEnd : Python → String → Ended → Store → Type 0
HonestEnd py work_id interrupted store = Unit
HonestEnd py work_id (finished r) store =
    r.ok ≡ true → CanBrief py work_id store × (r.segments_failed ≡ 0)

abbrev pub IsHonest : Python → String → End → Type 0
IsHonest py work_id e = HonestEnd py work_id e.0 e.1

module _ (world : World) (py : Python) (int_of_text : String → Option ℤ) (work_id : String)
    (max_iterations retries : ℕ) where
  fail-Honest :
      (status : String) (records : List StepRecord) (text : String) (store : Store)
      → HonestEnd py work_id (finished (fail status records text)) store
  unfolding HonestEnd fail
  fail-Honest status records text store e = cc

  -- Another status than the two of a completed run.
  other-Honest :
      (status : String) (p : Progress) (briefing text : String) (store : Store)
      → (status == "complete" || status == "complete_unmarked") ≡ false
      → HonestEnd py work_id (finalized status p briefing text) store
  unfolding HonestEnd finalized finalize
  other-Honest status p briefing text store h = rw (h) (λ e. cc)

  completed-Honest :
      (status : String) (p : Progress) (briefing : String) (store : Store)
      → CanBrief py work_id store
      → HonestEnd py work_id (finalized status p briefing "") store
  unfolding HonestEnd finalized finalize
  completed-Honest status p briefing store can e = (can, ground (arith, e))

  brief_run-Honest :
      (r : Run) (p : Progress) (store : Store) (c : Counters)
      → CanBrief py work_id store
      → IsHonest py work_id
          (on_brief_run world py int_of_text work_id max_iterations retries r p store c)
  unfolding on_brief_run on_exception
  brief_run-Honest (raised true text) p store c can = fail-Honest "loop_error" p.records text store
  brief_run-Honest (raised false text) p store c can = unfold HonestEnd in tt
  brief_run-Honest (ran r) p store c can = elim (Bool-cases (has_failed r)) [
    | inl bad ↦ rw (bad) (other-Honest "briefing_failed" p _ _ store refl)
    | inr good ↦ rw (good) (completed-Honest _ p _ store can)
  ]

  briefing-Honest :
      (b : Result BriefReply) (p : Progress) (store : Store) (c : Counters)
      → build_briefing_payload py work_id store ≡ b
      → IsHonest py work_id
          (on_briefing world py int_of_text work_id max_iterations retries b p store c)
  unfolding on_briefing on_error
  briefing-Honest (err e) p store c is = fail-Honest _ p.records _ store
  briefing-Honest (ok (not_ready missing_ids)) p store c is =
      other-Honest "briefing_not_ready" p _ _ store refl
  briefing-Honest (ok (ready prompt n)) p store c is =
      brief_run-Honest _ p store (call_once c) (prompt, n, is)

  released-Honest :
      (status : String) (records : List StepRecord) (text step_id said : String) (store : Store)
      (c : Counters)
      → IsHonest py work_id (
          released world py int_of_text work_id max_iterations retries
            (finished (fail status records text))
            step_id
            said
            store
            c)
  unfolding released
  released-Honest status records text step_id said store c = fail-Honest status records text _

  -- What the next turns of the loop do is honest.
  abbrev pub HonestOn : Continue world py int_of_text work_id max_iterations retries → Type 0
  HonestOn again =
      (previous : Option Signature) (p : Progress) (store : Store) (c : Counters)
      → IsHonest py work_id (again previous p store c)

  failure-Honest :
      (step : PublicStep) (attempts : ℕ) (last_error result_text : String) (p : Progress)
      (recorded : Result RecordReply × Store) (c : Counters)
      → IsHonest py work_id (
          on_recorded_failure world py int_of_text work_id max_iterations retries step attempts
            last_error result_text p recorded c)
  unfolding on_recorded_failure on_error
  failure-Honest step attempts last_error result_text p (err e, store) c =
      released-Honest _ p.records _ step.step_id (world.message e) store c
  failure-Honest step attempts last_error result_text p (ok reply, store) c =
      other-Honest "segment_failed" _ _ _ store refl

  success-Honest :
      (again : Continue world py int_of_text work_id max_iterations retries) (state : Signature)
      (step : PublicStep) (attempts : ℕ) (result_text : String) (p : Progress)
      (recorded : Result RecordReply × Store) (c : Counters)
      → HonestOn again
      → IsHonest py work_id (
          on_recorded_success world py int_of_text work_id max_iterations retries again state step
            attempts result_text p recorded c)
  unfolding on_recorded_success on_error
  success-Honest again state step attempts result_text p (err e, store) c next =
      released-Honest _ p.records _ step.step_id (world.message e) store c
  success-Honest again state step attempts result_text p (ok reply, store) c next =
      next (some state) _ store c

  segment-Honest :
      (again : Continue world py int_of_text work_id max_iterations retries) (state : Signature)
      (step : PublicStep) (e : SegmentEnd) (p : Progress) (store : Store)
      → HonestOn again
      → IsHonest py work_id (
          on_segment world py int_of_text work_id max_iterations retries again state step e p store)
  unfolding on_segment on_exception
  segment-Honest again state step (crashed true text c) p store next =
      released-Honest _ p.records _ step.step_id text store c
  segment-Honest again state step (crashed false text c) p store next =
      unfold released HonestEnd in tt
  segment-Honest again state step (ended true attempts last_error result_text c) p store next =
      success-Honest again state step attempts result_text p _ (use_once c) next
  segment-Honest again state step (ended false attempts last_error result_text c) p store next =
      failure-Honest step attempts last_error result_text p _ (use_once c)

  -- What may follow a claimed step.
  abbrev MayHonest : Option (Continue world py int_of_text work_id max_iterations retries) → Type 0
  MayHonest none = Unit
  MayHonest (some again) = HonestOn again

  step-Honest :
      (again : Option (Continue world py int_of_text work_id max_iterations retries))
      (previous : Option Signature) (remaining : ℕ) (step : PublicStep) (p : Progress)
      (store : Store) (c : Counters)
      → MayHonest again
      → IsHonest py work_id (
          on_step world py int_of_text work_id max_iterations retries again previous remaining step
            p store c)
  unfolding on_step
  step-Honest none previous remaining step p store c may =
      other-Honest "iteration_cap_exceeded" p _ _ store refl
  step-Honest (some again) previous remaining step p store c may =
      elim (Bool-cases
        (same_state previous (remaining, step.step_id, step.segment_id, step.checksum))) [
          | inl same ↦ rw (same) (other-Honest "no_progress" p _ _ store refl)
          | inr new ↦ rw (new) (segment-Honest again _ step _ p store may)
        ]

  next-Honest :
      (again : Option (Continue world py int_of_text work_id max_iterations retries))
      (previous : Option Signature) (p : Progress) (r : Result NextReply) (store : Store)
      (c : Counters)
      → MayHonest again
      → IsHonest py work_id (
          on_next world py int_of_text work_id max_iterations retries again previous p (r, store) c)
  unfolding on_next on_error brief
  next-Honest again previous p (err e) store c may = fail-Honest _ p.records _ store
  next-Honest again previous p (ok reply) store c may = elim (Option-cases reply.step) [
    | inl nothing ↦
        rw (nothing, on_next)
          (briefing-Honest (build_briefing_payload py work_id store) p store c refl)
    | inr (step, given) ↦
        rw (given, on_next) (step-Honest again previous reply.remaining step p store c may)
  ]

  turn-Honest :
      (again : Option (Continue world py int_of_text work_id max_iterations retries))
      → MayHonest again
      → HonestOn (turn world py int_of_text work_id max_iterations retries again)
  unfolding turn brief
  turn-Honest again may previous p store c = elim (Bool-cases (world.before_deadline c.reads)) [
    | inr late ↦
        rw (late, turn)
          (briefing-Honest (build_briefing_payload py work_id store) p store (read_once c) refl)
    | inl early ↦
        let r =
          next_dispatch_step py int_of_text work_id (world.now c.uses) (world.stamp c.uses) store in
        rw (early, turn) (next-Honest again previous p r.0 r.1 (use_once (read_once c)) may)
  ]

  drain-Honest :
      (left : ℕ) → HonestOn (drain world py int_of_text work_id max_iterations retries left)
  unfolding drain
  drain-Honest zero = turn-Honest none tt
  drain-Honest (suc left) =
      turn-Honest (some (drain world py int_of_text work_id max_iterations retries left))
        (drain-Honest left)

  pub run-Honest :
      (store : Store)
      → IsHonest py work_id
          (run_loop_auto world py int_of_text work_id max_iterations retries store)
  unfolding run_loop_auto
  run-Honest store = elim (Bool-cases (world.preflight == "")) [
    | inl clear ↦ rw (clear) (drain-Honest max_iterations none begun store _)
    | inr refused ↦ rw (refused) (fail-Honest "preflight_failed" [] world.preflight store)
  ]
