-- ===== src/LoopAuto/Cap.antt =====
-- A step that is claimed when no iteration is left.
use Prim.Native.String.{◌++◌ as text_append}
use clx_preprocessing.Dispatch.Steps.{steps_of-with_steps as steps_of-with_steps}
use clx_preprocessing.Dispatch.{
  Python as Python, Store as Store, document as document, mark_claimed as mark_claimed,
  with_steps as with_steps, steps_of as steps_of, validated_work_id as validated_work_id,
  write_leaf as write_leaf, running_lease, stale_running, behind, is_succeeded, is_open,
  synthesis_ready as synthesis_ready,
}
use clx_preprocessing.DispatchStore.{
  can_claim, claim_step, is_hashable, is_waiting, load_dispatch_bundle, remaining_count, status_in,
}
use clx_preprocessing.DispatchStore.Next.{
  next_dispatch_step as next_dispatch_step, next_under_lock as next_under_lock, finish as finish,
}
use clx_preprocessing.DispatchStore.Plan.{step_from_segment}
use clx_preprocessing.DispatchStore.Planned.{handed, handed-claimed, write_leaf_self}
use clx_preprocessing.Dispatch.Steps.{status_is_one as status_is_one}
use clx_preprocessing.Types.{QueueSegment}
use clx_preprocessing.Prelude.{
  All, List, Option, Option-cases, String, [], ap, arith, false, inl, inr, ltb, none, pos, refl,
  some, true, ℕ, ℤ, ◌++◌, ◌+◌, ◌∷◌, ◌≡◌, ◌≤◌,
}
use clx_preprocessing.Json.{Fields, field_is, get?, is_str, number_or_zero, obj, put, str}
use clx_preprocessing.Result.{Result-cases, ok}
use clx_preprocessing.LoopAuto.{Counters, World, read_once, use_once}
use clx_preprocessing.LoopAuto.Drain.{Progress, Signature, drain, finalized, on_next, on_step, turn}
use clx_preprocessing.LoopAuto.Parked.{claimed}

-- Steps that have succeeded are passed by.
abbrev pub AllSucceeded : List Fields → Type 0
AllSucceeded steps = All (λ s. is_succeeded s ≡ true) steps

succeeded-hashable : (s : Fields) → is_succeeded s ≡ true → is_hashable (get? "status" s) ≡ true
unfolding field_is is_str is_hashable
succeeded-hashable s h = elim (Option-cases (get? "status" s)) [
  | inl e ↦ rw (e) refl
  | inr (str t, e) ↦ rw (e) refl
  | inr (_, e) ↦ ground (arith, e, h)
]

cannot_claim : (now : ℕ) (s : Fields) → is_succeeded s ≡ true → can_claim now s ≡ ok false
unfolding can_claim status_in is_waiting stale_running
cannot_claim now s h =
    rw
      (
        succeeded-hashable s h,
        status_is_one "succeeded" "queued" s refl h,
        status_is_one "succeeded" "retry_wait" s refl h,
        status_is_one "succeeded" "running" s refl h,
      )
      refl

not_open : (s : Fields) → is_succeeded s ≡ true → status_in is_open s ≡ ok false
unfolding status_in
not_open s h =
    rw
      (
        succeeded-hashable s h,
        status_is_one "succeeded" "queued" s refl h,
        status_is_one "succeeded" "retry_wait" s refl h,
        status_is_one "succeeded" "running" s refl h,
      )
      refl

all_behind : List Fields → Option (Fields × List Fields) → Option (Fields × List Fields)
all_behind [] found = found
all_behind (s ∷ done) found = behind s (all_behind done found)

-- The claim, and the count, of the steps behind those that have succeeded.
claim_step-behind :
    (now stamp : ℕ) (done steps : List Fields) (found : Option (Fields × List Fields))
    → AllSucceeded done
    → claim_step now stamp steps ≡ ok found
    → claim_step now stamp (done ++ steps) ≡ ok (all_behind done found)
unfolding claim_step all_behind
claim_step-behind now stamp [] steps found h e = e
claim_step-behind now stamp (s ∷ done) steps found h e =
    rw (cannot_claim now s h.0, claim_step-behind now stamp done steps found h.1 e) refl

remaining_count-behind :
    (done steps : List Fields)
    → AllSucceeded done
    → remaining_count (done ++ steps) ≡ remaining_count steps
unfolding remaining_count
remaining_count-behind [] steps h = refl
remaining_count-behind (s ∷ done) steps h =
    rw (not_open s h.0, remaining_count-behind done steps h.1)
      (elim (Result-cases (remaining_count steps)) [
        | inl (n, e) ↦ rw (e) refl
        | inr (problem, e) ↦ rw (e) refl
      ])

synthesis_ready-behind :
    (done steps : List Fields)
    → synthesis_ready steps ≡ false
    → synthesis_ready (done ++ steps) ≡ false
unfolding synthesis_ready
synthesis_ready-behind [] steps h = h
synthesis_ready-behind (s ∷ done) steps h = ground (arith, synthesis_ready-behind done steps h)

module _ (py : Python) (int_of_text : String → Option ℤ) (created : ℕ)
    (segment : QueueSegment) where
  abbrev taken : ℕ → Fields
  taken stamp = claimed py int_of_text created segment [] stamp

  claims_last :
      (now stamp : ℕ)
      → claim_step now stamp (step_from_segment created segment ∷ [])
        ≡ ok (some (taken stamp, taken stamp ∷ []))
  unfolding claim_step can_claim status_in is_hashable is_waiting behind mark_claimed put
      step_from_segment get? field_is is_str
  claims_last now stamp = refl

  within_lease :
      (stamp later again : ℕ)
      → later ≤ stamp + running_lease
      → claim_step later again (taken stamp ∷ []) ≡ ok none
  unfolding claim_step can_claim status_in is_hashable is_waiting behind stale_running mark_claimed
      put step_from_segment get? field_is is_str number_or_zero
  within_lease stamp later again le =
      let fresh : ltb (stamp + running_lease) (later + 0) ≡ false = ground (arith, le) in
      rw (fresh) refl

  left : (stamp : ℕ) → remaining_count (taken stamp ∷ []) ≡ ok 1
  unfolding remaining_count status_in is_hashable mark_claimed put step_from_segment get? field_is
      is_str
  left stamp = refl

  not_ready : (stamp : ℕ) → synthesis_ready (taken stamp ∷ []) ≡ false
  unfolding synthesis_ready mark_claimed put step_from_segment get? field_is is_str
  not_ready stamp = refl

  all_behind-some :
      (done : List Fields) (stamp : ℕ)
      → all_behind done (some (taken stamp, taken stamp ∷ []))
        ≡ some (taken stamp, done ++ (taken stamp ∷ []))
  unfolding all_behind behind
  all_behind-some [] stamp = refl
  all_behind-some (s ∷ done) stamp = rw (all_behind-some done stamp) refl

  all_behind-none : (done : List Fields) → all_behind done none ≡ none
  unfolding all_behind behind
  all_behind-none [] = refl
  all_behind-none (s ∷ done) = rw (all_behind-none done) refl

  module _ (done : List Fields) (succeeded : AllSucceeded done) where
    abbrev last_taken : ℕ → List Fields
    last_taken stamp = done ++ (taken stamp ∷ [])

    next-takes :
        (now stamp : ℕ) (bundle : Fields)
        → steps_of bundle ≡ ok (done ++ (step_from_segment created segment ∷ []))
        → next_under_lock py int_of_text now stamp (document (obj bundle)) ≡ (
          ok (record { step = some (handed segment); remaining = 1; synthesis_ready = false }),
          document (obj (with_steps (last_taken stamp) bundle)),
        )
    unfolding next_under_lock load_dispatch_bundle finish
    next-takes now stamp bundle are =
        rw
          (
            are,
            claim_step-behind now stamp done (step_from_segment created segment ∷ [])
                (some (taken stamp, taken stamp ∷ [])) succeeded (claims_last now stamp),
            all_behind-some done stamp,
            handed-claimed py int_of_text created now stamp segment,
            remaining_count-behind done (taken stamp ∷ []) succeeded,
            left stamp,
          )
          refl

    still_running :
        (stamp later again : ℕ) (bundle : Fields)
        → later ≤ stamp + running_lease
        → (next_under_lock py int_of_text later again
            (document (obj (with_steps (last_taken stamp) bundle)))).0
          ≡ ok (record { step = none; remaining = 1; synthesis_ready = false })
    unfolding next_under_lock load_dispatch_bundle finish
    still_running stamp later again bundle le =
        rw
          (
            steps_of-with_steps (last_taken stamp) bundle,
            claim_step-behind later again done (taken stamp ∷ []) none succeeded
                (within_lease stamp later again le),
            all_behind-none done,
            remaining_count-behind done (taken stamp ∷ []) succeeded,
            left stamp,
            synthesis_ready-behind done (taken stamp ∷ []) (not_ready stamp),
          )
          refl

    next_dispatch-takes :
        (work_id w : String) (now stamp : ℕ) (bundle : Fields) (store : Store)
        → validated_work_id py work_id ≡ ok w
        → store w ≡ document (obj bundle)
        → steps_of bundle ≡ ok (done ++ (step_from_segment created segment ∷ []))
        → next_dispatch_step py int_of_text work_id now stamp store ≡ (
          ok (record { step = some (handed segment); remaining = 1; synthesis_ready = false }),
          write_leaf w (document (obj (with_steps (last_taken stamp) bundle))) store,
        )
    unfolding next_dispatch_step
    next_dispatch-takes work_id w now stamp bundle store id holds are =
        rw (id, holds, next-takes now stamp bundle are) refl

    -- Where no iteration is left, every step of the bundle but the last has succeeded, and the last is
    -- a planned segment that has not been handed out, the loop claims that segment before it stops: it
    -- reports `iteration_cap_exceeded`, and until the lease has passed `next_dispatch_step` finds
    -- nothing to hand out, with one step remaining.
    pub cap_abandons_step :
        (world : World) (work_id w : String) (max_iterations retries : ℕ)
        (previous : Option Signature) (p : Progress) (bundle : Fields) (store : Store)
        (c : Counters) (later again : ℕ)
        → validated_work_id py work_id ≡ ok w
        → store w ≡ document (obj bundle)
        → steps_of bundle ≡ ok (done ++ (step_from_segment created segment ∷ []))
        → world.before_deadline c.reads ≡ true
        → later ≤ world.stamp c.uses + running_lease
        → ((drain world py int_of_text work_id max_iterations retries 0 previous p store c).0
            ≡ finalized "iteration_cap_exceeded" p "" (
                text_append "loop_auto exceeded max_iterations="
                  (world.show_int (pos max_iterations))))
          × ((next_dispatch_step py int_of_text work_id later again
                (drain world py int_of_text work_id max_iterations retries 0 previous p store
                  c).1).0
              ≡ ok (record { step = none; remaining = 1; synthesis_ready = false }))
    unfolding drain
    cap_abandons_step world work_id w max_iterations retries previous p bundle store c later again
          id holds are early le =
        let after = document (obj (with_steps (last_taken (world.stamp c.uses)) bundle)) in
        let stopped : drain world py int_of_text work_id max_iterations retries 0 previous p store c
            ≡ (
              finalized "iteration_cap_exceeded" p "" (
                  text_append "loop_auto exceeded max_iterations="
                    (world.show_int (pos max_iterations))),
              write_leaf w after store,
              use_once (read_once c),
            ) =
          (unfold drain turn in
            rw
              (
                turn,
                early,
                next_dispatch-takes work_id w (world.now c.uses) (world.stamp c.uses) bundle store
                    id holds are,
              )
              (unfold on_next on_step in refl)) in
        (
          ap (λ e. e.0) stopped,
          rw (stopped) (
              unfold next_dispatch_step in
              rw (id, write_leaf_self w after store)
                (still_running (world.stamp c.uses) later again bundle le)),
        )
