-- ===== src/LoopAuto/Parked.antt =====
-- A step in the store: claimed, parked by the crash of its worker, and claimed again.
use Prim.Native.String.{◌++◌ as text_append, count as text_count}
use package.text.Mathlib.TextLemmas.{length-append as count-append}
use clx_preprocessing.Ledger.{int_of as int_of}
use clx_preprocessing.Dispatch.Record.{Report, find_step, mark_recorded, mark_step, status_of}
use clx_preprocessing.Dispatch.Steps.{steps_of-with_steps as steps_of-with_steps}
use clx_preprocessing.Dispatch.{
  Python as Python, Store as Store, document as document, mark_claimed, with_steps, steps_of,
  validated_work_id, is_terminal,
}
use clx_preprocessing.DispatchStore.{
  can_claim, claim_step, is_hashable, is_waiting, load_dispatch_bundle, remaining_count, status_in,
}
use clx_preprocessing.DispatchStore.Next.{
  Reply as NextReply, next_under_lock, finish, public_step, text,
}
use clx_preprocessing.DispatchStore.Record.{
  record_dispatch_result as record_dispatch_result, record_under_lock as record_under_lock,
  report as report, on_found as on_found, on_terminal as on_terminal,
}
use clx_preprocessing.DispatchStore.Plan.{step_from_segment}
use clx_preprocessing.DispatchStore.Planned.{
  claim_step-queued, handed, handed-claimed, left-claimed, left-queued, write_leaf_self,
}
use clx_preprocessing.Types.{QueueSegment}
use clx_preprocessing.Dispatch.{write_leaf as write_leaf}
use clx_preprocessing.DispatchStore.Next.{next_dispatch_step as next_dispatch_step}
use clx_preprocessing.Dispatch.{steps_of as steps_of}
use clx_preprocessing.LoopAuto.{Counters, World}
use clx_preprocessing.LoopAuto.Drain.{Progress, on_exception, release_crashed_step, released}
use clx_preprocessing.Prelude.{
  Bool, Bool-cases, List, Option, String, ap, arith, eq_iff, false, inl, inr, length, map, refl,
  some, suc, true, ℕ, ℤ, ◌==◌, ◌∷◌, ◌≡◌, comparable_texts, comparable_numbers,
}
use clx_preprocessing.Json.{Fields, field_is, get?, get_or, is_str, obj, put, str_of}
use clx_preprocessing.Json.Laws.{eq_refl_str}
use clx_preprocessing.Result.{ok}

-- What is reported of a step whose worker crashed.
abbrev pub crash_report : QueueSegment → String → Report
crash_report segment text =
    report (text_append "exec_" segment.segment_id) ""
      (text_append "loop_auto crashed mid-step: " text) false true

-- The id of a planned step is not empty.
pub named : (segment : QueueSegment) → (text_append "exec_" segment.segment_id == "") ≡ false
named segment = elim (Bool-cases (text_append "exec_" segment.segment_id == "")) [
  | inr other ↦ other
  | inl empty ↦
      let e : text_count (text_append "exec_" segment.segment_id) ≡ 0 =
        ap text_count ((eq_iff (text_append "exec_" segment.segment_id) "").0 empty) in
      absurd (omega (arith, e, count-append "exec_" segment.segment_id))
]

module _ (py : Python) (int_of_text : String → Option ℤ) (created : ℕ) (segment : QueueSegment)
    (segments : List QueueSegment) where
  abbrev pub rest : List Fields
  rest = map (step_from_segment created) segments

  abbrev pub claimed : ℕ → Fields
  claimed stamp = mark_claimed stamp (step_from_segment created segment)

  abbrev pub reply : NextReply
  reply = record {
    step = some (handed segment);
    remaining = suc (length segments);
    synthesis_ready = false;
  }

  pub next-claims :
      (now stamp : ℕ) (bundle : Fields)
      → steps_of bundle ≡ ok (map (step_from_segment created) (segment ∷ segments))
      → next_under_lock py int_of_text now stamp (document (obj bundle))
        ≡ (ok reply, document (obj (with_steps (claimed stamp ∷ rest) bundle)))
  unfolding next_under_lock load_dispatch_bundle finish
  next-claims now stamp bundle are =
      rw
        (
          are,
          claim_step-queued py int_of_text created now stamp segment segments,
          handed-claimed py int_of_text created now stamp segment,
          left-claimed py int_of_text created now stamp segment segments,
        )
        refl

  -- The step after the crash has been recorded.
  abbrev pub parked : ℕ → ℕ → String → Fields
  parked stamp later text = mark_recorded later (crash_report segment text) (claimed stamp)

  found-claimed :
      (stamp : ℕ)
      → find_step (text_append "exec_" segment.segment_id) (claimed stamp ∷ rest)
        ≡ some (claimed stamp)
  unfolding find_step mark_claimed put step_from_segment get? field_is is_str
  found-claimed stamp = rw (eq_refl_str (text_append "exec_" segment.segment_id)) refl

  marked-claimed :
      (stamp later : ℕ) (text : String)
      → mark_step later (crash_report segment text) (claimed stamp ∷ rest)
        ≡ parked stamp later text ∷ rest
  unfolding mark_step mark_claimed put step_from_segment get? field_is is_str report
  marked-claimed stamp later text = rw (eq_refl_str (text_append "exec_" segment.segment_id)) refl

  pub record-parks :
      (stamp later : ℕ) (text : String) (bundle : Fields)
      → (record_under_lock py later
          (crash_report segment text)
          (document (obj (with_steps (claimed stamp ∷ rest) bundle)))).1
        ≡ document (
            obj (
              with_steps
                (parked stamp later text ∷ rest)
                (with_steps (claimed stamp ∷ rest) bundle)))
  unfolding record_under_lock load_dispatch_bundle on_found on_terminal report
  record-parks stamp later text bundle =
      let open_ : status_in is_terminal (claimed stamp) ≡ ok false =
        (unfold status_in is_hashable mark_claimed put step_from_segment get? field_is is_str in
          refl) in
      rw
        (
          steps_of-with_steps (claimed stamp ∷ rest) bundle,
          found-claimed stamp,
          open_,
          marked-claimed stamp later text,
        )
        refl

  parked-claimed :
      (stamp later now again : ℕ) (text : String)
      → claim_step now again (parked stamp later text ∷ rest)
        ≡ ok (
            some (
              mark_claimed again (parked stamp later text),
              mark_claimed again (parked stamp later text) ∷ rest,
            ))
  unfolding claim_step can_claim status_in is_hashable is_waiting mark_recorded mark_claimed put
      step_from_segment get? field_is is_str report status_of
  parked-claimed stamp later now again text = refl

  pub next-again :
      (stamp later now again : ℕ) (text : String) (bundle : Fields)
      → (next_under_lock py int_of_text now again
          (document (obj (with_steps (parked stamp later text ∷ rest) bundle)))).0
        ≡ ok reply
  unfolding next_under_lock load_dispatch_bundle finish
  next-again stamp later now again text bundle =
      let shown : public_step py int_of_text (mark_claimed again (parked stamp later text))
          ≡ ok (handed segment) =
        (unfold public_step mark_recorded mark_claimed put step_from_segment get? text get_or str_of
            int_of report in
          refl) in
      let left : remaining_count (mark_claimed again (parked stamp later text) ∷ rest)
          ≡ ok (suc (length segments)) =
        (unfold remaining_count status_in is_hashable mark_recorded mark_claimed put
            step_from_segment get? field_is is_str report in
          rw (left-queued created segments) refl) in
      rw
        (
          steps_of-with_steps (parked stamp later text ∷ rest) bundle,
          parked-claimed stamp later now again text,
          shown,
          left,
        )
        refl

  -- A segment whose runner raises, in the store as it is left.
  pub crashed-Parks :
      (world : World) (work_id w : String) (max_iterations retries : ℕ) (b : Bool) (text : String)
      (p : Progress) (bundle : Fields) (stamp : ℕ) (store : Store) (c : Counters)
      → validated_work_id py work_id ≡ ok w
      → store w ≡ document (obj (with_steps (claimed stamp ∷ rest) bundle))
      → (released world py int_of_text work_id max_iterations retries
            (on_exception world py int_of_text work_id max_iterations retries b text p)
            (handed segment).step_id
            text
            store
            c).1
          w
        ≡ document (
            obj (
              with_steps
                (parked stamp (world.stamp c.uses) text ∷ rest)
                (with_steps (claimed stamp ∷ rest) bundle)))
  unfolding released release_crashed_step record_dispatch_result
  crashed-Parks world work_id w max_iterations retries b text p bundle stamp store c id holds =
      rw (named segment, id, holds)
        (rw (write_leaf_self w _ store) (record-parks stamp (world.stamp c.uses) text bundle))

  -- The claim, at the store.
  pub next_dispatch-claims :
      (work_id w : String) (now stamp : ℕ) (bundle : Fields) (store : Store)
      → validated_work_id py work_id ≡ ok w
      → store w ≡ document (obj bundle)
      → steps_of bundle ≡ ok (map (step_from_segment created) (segment ∷ segments))
      → next_dispatch_step py int_of_text work_id now stamp store
        ≡ (ok reply, write_leaf w (document (obj (with_steps (claimed stamp ∷ rest) bundle))) store)
  unfolding next_dispatch_step
  next_dispatch-claims work_id w now stamp bundle store id holds are =
      rw (id, holds, next-claims now stamp bundle are) refl
