-- ===== src/LoopAuto/Turns.antt =====
-- The whole loop keeps the account, on a budget of calls.

use clx_preprocessing.DispatchStore.Next.{
  Reply as NextReply, next_dispatch_step as next_dispatch_step, PublicStep as PublicStep,
}
use clx_preprocessing.DispatchStore.Brief.{build_briefing_payload as build_briefing_payload}
use clx_preprocessing.Dispatch.{Python as Python, Store as Store}
use native.Mathlib.Nat.{add-mul}
use clx_preprocessing.Prelude.{
  All, Bool-cases, Option, Option-cases, String, [], arith, count, inl, inr, none, refl, some,
  subst, suc, zero, ℕ, ℤ, ◌*◌, ◌+◌, ◌==◌, ◌≡◌, ◌≤◌, comparable_texts, comparable_numbers,
}
use clx_preprocessing.Result.{Result, err, ok}
use clx_preprocessing.LoopAuto.{Counters, LoopAutoResult, World, read_once, use_once}
use clx_preprocessing.LoopAuto.Attempts.{attempt_loop-Within}
use clx_preprocessing.LoopAuto.Drain.{
  Continue, Progress, Signature, begun, brief, drain, finished, on_error, on_next, on_step,
  run_loop_auto, same_state, turn,
}
use clx_preprocessing.LoopAuto.Account.{
  Accounted, ConsistentProgress, IsConsistent, IsSound, fail-Accounted, failed_in,
  finalized-Accounted, succeeded_in,
}
use clx_preprocessing.LoopAuto.Sound.{SoundOn, on_briefing-IsSound, segment-IsSound, within}

grown :
    (left tries budget : ℕ)
    → budget ≡ suc left * suc tries + 1
    → budget ≡ suc tries + (left * suc tries + 1)
grown left tries budget e = omega (arith, e, add-mul left 1 (suc tries))

finished-IsConsistent :
    (tries : ℕ) (r : LoopAutoResult)
    → Accounted tries (finished r)
    → IsConsistent tries r.steps r.segments_processed r.segments_failed
unfolding Accounted
finished-IsConsistent tries r h = h

module _ (world : World) (py : Python) (int_of_text : String → Option ℤ) (work_id : String)
    (max_iterations retries : ℕ) where
  -- What may follow a claimed step.
  abbrev MaySound :
      ℕ → Option (Continue world py int_of_text work_id max_iterations retries) → Type 0
  MaySound budget none = Unit
  MaySound budget (some again) =
      (rest : ℕ) × (budget ≡ suc retries + rest)
      × SoundOn world py int_of_text work_id max_iterations retries rest again

  step-IsSound :
      (again : Option (Continue world py int_of_text work_id max_iterations retries)) (budget : ℕ)
      (previous : Option Signature) (remaining : ℕ) (step : PublicStep) (p : Progress)
      (store : Store) (c : Counters)
      → MaySound budget again
      → ConsistentProgress (suc retries) p
      → IsSound (suc retries) (c.calls + budget) (
          on_step world py int_of_text work_id max_iterations retries again previous remaining step
            p store c)
  unfolding on_step
  step-IsSound none budget previous remaining step p store c may h = record {
    accounted = finalized-Accounted (suc retries) _ p _ _ h;
    bounded = omega arith;
  }
  step-IsSound (some again) budget previous remaining step p store c (rest, e, next) h =
      elim (Bool-cases
        (same_state previous (remaining, step.step_id, step.segment_id, step.checksum))) [
          | inl same ↦ rw (same) (record {
            accounted = finalized-Accounted (suc retries) _ p _ _ h;
            bounded = omega arith;
          })
          | inr new ↦ rw (new) (
              segment-IsSound world py int_of_text work_id max_iterations retries again rest _ step
                _ p store (c.calls + suc retries) (c.calls + budget) next h
                (attempt_loop-Within world step work_id (suc retries) 0 (suc retries)
                  (c.calls + suc retries) _ _ _ c (omega arith) (omega arith))
                (omega (arith, e)))
        ]

  next-IsSound :
      (again : Option (Continue world py int_of_text work_id max_iterations retries)) (budget : ℕ)
      (previous : Option Signature) (p : Progress) (r : Result NextReply) (store : Store)
      (c : Counters)
      → MaySound budget again
      → 1 ≤ budget
      → ConsistentProgress (suc retries) p
      → IsSound (suc retries) (c.calls + budget) (
          on_next world py int_of_text work_id max_iterations retries again previous p (r, store) c)
  unfolding on_next on_error brief
  next-IsSound again budget previous p (err e) store c may b h = record {
    accounted = fail-Accounted (suc retries) _ p.records _ h.tried;
    bounded = omega arith;
  }
  next-IsSound again budget previous p (ok reply) store c may b h = elim (Option-cases reply.step) [
    | inl nothing ↦
        rw (nothing, on_next)
          (on_briefing-IsSound world py int_of_text work_id max_iterations retries
            (build_briefing_payload py work_id store) p store c (c.calls + budget) h
            (omega (arith, b)))
    | inr (step, given) ↦
        rw (given, on_next)
          (step-IsSound again budget previous reply.remaining step p store c may h)
  ]

  turn-IsSound :
      (again : Option (Continue world py int_of_text work_id max_iterations retries)) (budget : ℕ)
      → MaySound budget again
      → 1 ≤ budget
      → SoundOn world py int_of_text work_id max_iterations retries budget
          (turn world py int_of_text work_id max_iterations retries again)
  unfolding turn brief
  turn-IsSound again budget may b previous p store c h =
      elim (Bool-cases (world.before_deadline c.reads)) [
        | inr late ↦
            rw (late, turn)
              (on_briefing-IsSound world py int_of_text work_id max_iterations retries
                (build_briefing_payload py work_id store) p store (read_once c) (c.calls + budget) h
                (omega (arith, b)))
        | inl early ↦
            let r =
              next_dispatch_step py int_of_text work_id (world.now c.uses) (world.stamp c.uses)
                store in
            rw (early, turn)
              (next-IsSound again budget previous p r.0 r.1 (use_once (read_once c)) may b h)
      ]

  drain-IsSound :
      (left budget : ℕ)
      → budget ≡ left * suc retries + 1
      → SoundOn world py int_of_text work_id max_iterations retries budget
          (drain world py int_of_text work_id max_iterations retries left)
  unfolding drain
  drain-IsSound zero budget e = turn-IsSound none budget tt (omega (arith, e))
  drain-IsSound (suc left) budget e =
      turn-IsSound (some (drain world py int_of_text work_id max_iterations retries left)) budget
        (
          left * suc retries + 1,
          grown left retries budget e,
          drain-IsSound left (left * suc retries + 1) refl,
        )
        (omega (arith, e))

  run-IsSound :
      (store : Store)
      → IsSound
          (suc retries)
          (max_iterations * suc retries + 1)
          (run_loop_auto world py int_of_text work_id max_iterations retries store)
  unfolding run_loop_auto
  run-IsSound store = elim (Bool-cases (world.preflight == "")) [
    | inl clear ↦ rw (clear) (
        within (suc retries) (0 + (max_iterations * suc retries + 1))
          (max_iterations * suc retries + 1) _ (omega arith)
          (drain-IsSound max_iterations (max_iterations * suc retries + 1) refl none begun store
            (record { reads = 0; calls = 0; uses = 0 })
            (record {
              processed_are = (unfold count in refl);
              failed_are = (unfold count in refl);
              tried = tt;
            })))
    | inr refused ↦ rw (refused) (record {
      accounted = fail-Accounted (suc retries) "preflight_failed" [] world.preflight tt;
      bounded = omega arith;
    })
  ]

  -- Whatever the queue and the runner do, the runner is called at most once for each attempt that the
  -- iterations allow, and once for the briefing.
  pub runner_calls_bounded :
      (store : Store)
      → (run_loop_auto world py int_of_text work_id max_iterations retries store).2.calls
        ≤ max_iterations * suc retries + 1
  runner_calls_bounded store = (run-IsSound store).bounded

  -- The numbers of processed and failed segments that a run reports are those of its records, and no
  -- record has more attempts than the retries allow.
  pub report_is_consistent :
      (store : Store) (r : LoopAutoResult)
      → (run_loop_auto world py int_of_text work_id max_iterations retries store).0 ≡ finished r
      → (r.segments_processed ≡ succeeded_in r.steps)
        × (r.segments_failed ≡ failed_in r.steps)
        × All (λ s. s.attempts ≤ suc retries) r.steps
  report_is_consistent store r e =
      let a =
        finished-IsConsistent (suc retries) r
          (subst (Accounted (suc retries)) e (run-IsSound store).accounted) in
      (a.processed_are, a.failed_are, a.tried)
