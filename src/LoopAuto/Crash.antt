-- ===== src/LoopAuto/Crash.antt =====
-- A runner that crashes on a segment: the step is released, and handed out again at once.
use clx_preprocessing.LoopAuto.Segment.{
  attempt_loop, build_segment_prompt, crashed, on_run, one_attempt, sent,
}
use clx_preprocessing.Dispatch.{
  Python as Python, Store as Store, document as document, with_steps, steps_of, validated_work_id,
}
use clx_preprocessing.DispatchStore.Next.{text}
use clx_preprocessing.DispatchStore.Plan.{step_from_segment}
use clx_preprocessing.DispatchStore.Planned.{handed, write_leaf_self}
use clx_preprocessing.Types.{QueueSegment}
use clx_preprocessing.DispatchStore.Next.{PublicStep as PublicStep}
use clx_preprocessing.DispatchStore.Next.{next_dispatch_step as next_dispatch_step}
use clx_preprocessing.Dispatch.{steps_of as steps_of}
use clx_preprocessing.LoopAuto.{Counters, World, call_once, raised, read_once, use_once}
use clx_preprocessing.LoopAuto.Drain.{
  Continue, Progress, begun, drain, on_next, on_segment, on_step, run_loop_auto, same_state, turn,
}
use clx_preprocessing.Prelude.{
  Bool, List, Option, String, map, none, refl, some, suc, true, ℕ, ℤ, ◌==◌, ◌∷◌, ◌≡◌,
  comparable_texts, comparable_numbers,
}
use clx_preprocessing.Json.{Fields, obj}
use clx_preprocessing.Result.{ok}
use clx_preprocessing.LoopAuto.Parked.{
  claimed, crashed-Parks, next-again, next_dispatch-claims, parked, reply, rest,
}

module _ (py : Python) (int_of_text : String → Option ℤ) (created : ℕ) (segment : QueueSegment)
    (segments : List QueueSegment) where
  attempt-crashed :
      (world : World) (step : PublicStep) (work_id prompt text : String) (retries : ℕ) (b : Bool)
      (c : Counters)
      → world.before_deadline c.reads ≡ true
      → ((q : String) → world.run c.calls q ≡ raised b text)
      → attempt_loop world step work_id (suc retries) 0 prompt "" "" c
        ≡ crashed b text (call_once (read_once c))
  unfolding attempt_loop one_attempt on_run
  attempt-crashed world step work_id prompt text retries b c early raises =
      rw (early, attempt_loop, one_attempt, raises (sent world step work_id 1 prompt "")) refl

  -- What a turn of the loop leaves at the path of the bundle where the runner raises.
  turn-Parks :
      (world : World) (work_id w : String) (max_iterations retries : ℕ)
      (again : Continue world py int_of_text work_id max_iterations retries) (b : Bool)
      (text : String) (p : Progress) (bundle : Fields) (store : Store) (c : Counters)
      → validated_work_id py work_id ≡ ok w
      → store w ≡ document (obj bundle)
      → steps_of bundle ≡ ok (map (step_from_segment created) (segment ∷ segments))
      → ((n : ℕ) → world.before_deadline n ≡ true)
      → ((prompt : String) → world.run c.calls prompt ≡ raised b text)
      → (turn world py int_of_text work_id max_iterations retries (some again) none p store c).1 w
        ≡ document (
            obj (
              with_steps
                (parked py int_of_text created segment segments
                    (world.stamp c.uses)
                    (world.stamp (suc c.uses))
                    text
                  ∷ rest py int_of_text created segment segments)
                (with_steps
                  (claimed py int_of_text created segment segments (world.stamp c.uses)
                    ∷ rest py int_of_text created segment segments)
                  bundle)))
  unfolding turn
  turn-Parks world work_id w max_iterations retries again b text p bundle store c id holds are early
        raises =
      let taken =
        next_dispatch-claims py int_of_text created segment segments work_id w (world.now c.uses)
          (world.stamp c.uses) bundle store id holds are in
      rw (early c.reads, turn, taken)
        (unfold on_next on_step same_state on_segment in
          rw
            (attempt-crashed world (handed segment) work_id
              (build_segment_prompt (handed segment) work_id "") text retries b
              (use_once (read_once c)) (early (suc c.reads)) raises)
            (crashed-Parks py int_of_text created segment segments world work_id w max_iterations
              retries b text p bundle (world.stamp c.uses) _
              (call_once (read_once (use_once (read_once c)))) id (write_leaf_self w _ store)))

  -- Where the first planned segment is the one to do and the runner raises on it, the next
  -- `next_dispatch_step` hands the same segment out again, however soon it comes.
  pub crash_is_retried :
      (world : World) (work_id w : String) (left retries : ℕ) (b : Bool) (text : String)
      (bundle : Fields) (store : Store) (later again : ℕ)
      → validated_work_id py work_id ≡ ok w
      → store w ≡ document (obj bundle)
      → steps_of bundle ≡ ok (map (step_from_segment created) (segment ∷ segments))
      → (world.preflight == "") ≡ true
      → ((n : ℕ) → world.before_deadline n ≡ true)
      → ((prompt : String) → world.run 0 prompt ≡ raised b text)
      → (next_dispatch_step py int_of_text work_id later again
          (run_loop_auto world py int_of_text work_id (suc left) retries store).1).0
        ≡ ok (reply py int_of_text created segment segments)
  unfolding next_dispatch_step
  crash_is_retried world work_id w left retries b text bundle store later again id holds are clear
        early raises =
      let started : Counters = record { reads = 0; calls = 0; uses = 0 } in
      let ends =
        turn-Parks world work_id w (suc left) retries
          (drain world py int_of_text work_id (suc left) retries left) b text begun bundle store
          started id holds are early raises in
      let run : run_loop_auto world py int_of_text work_id (suc left) retries store
          ≡ turn world py int_of_text work_id (suc left) retries
              (some (drain world py int_of_text work_id (suc left) retries left)) none begun store
              started =
        (unfold run_loop_auto drain in rw (clear) refl) in
      rw (id, run, ends)
        (next-again py int_of_text created segment segments (world.stamp 0) (world.stamp 1) later
          again text
          (with_steps
            (claimed py int_of_text created segment segments (world.stamp 0)
              ∷ rest py int_of_text created segment segments)
            bundle))
