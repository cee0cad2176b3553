-- ===== src/DispatchStore/Twin.antt =====
-- The two stores of the dispatch bundles do the same to a bundle whose statuses can be hashed.

use clx_preprocessing.Ledger.{int_of as int_of}
use clx_preprocessing.Dispatch.{PublicStep as PyStep, public_step as py_public_step}
use clx_preprocessing.Dispatch.Next.{
  Reply as PyReply, finish as py_finish, next_under_lock as py_next_under_lock,
  reply_none as reply_none, reply_claimed as reply_claimed,
}
use clx_preprocessing.Dispatch.Record.{
  record_under_lock as py_record_under_lock, on_found as py_on_found,
}
use clx_preprocessing.DispatchStore.Record.{
  record_under_lock as core_record_under_lock, settled as settled, same_result as same_result,
  on_terminal as on_terminal, on_found as on_found,
}
use clx_preprocessing.DispatchStore.Next.{
  PublicStep, Reply, conversions, finish, instruction_text, next_under_lock, public_step, text,
}
use clx_preprocessing.DispatchStore.Hashable.{
  AllHashable, ClaimedHashable, claim-hashable, claim_step-claim, load-read, mark_step-hashable,
  remaining_count-remaining, status_in-terminal,
}
use clx_preprocessing.Prelude.{
  Bool, Bool-cases, List, Option, String, false, inl, inr, none, refl, some, true, ℕ, ℤ, ◌≡◌,
}
use clx_preprocessing.Json.{Fields, get?, str_of}
use clx_preprocessing.Result.{Result, err, ok, ◌>>=◌}
use clx_preprocessing.Dispatch.{Leaf, Python, claim, read_bundle, steps_of}
use clx_preprocessing.Dispatch.Record.{
  Report, find_step, mark_step, on_status, same_outcome, settle, stored, terminal_status,
}

-- A step as it is handed out here, from the one that the other store hands out.
unfoldable pub as_texts : Python → (String → Option ℤ) → PyStep → Result PublicStep
as_texts py int_of_text step = do
  token_estimate ← int_of (conversions py int_of_text) step.token_estimate
  ok (record {
    step_id = str_of py.render step.step_id;
    segment_id = str_of py.render step.segment_id;
    checksum = str_of py.render step.checksum;
    token_estimate = token_estimate;
    content = str_of py.render step.content;
    instruction = instruction_text;
  })

unfoldable pub reply_as_texts : Python → (String → Option ℤ) → PyReply → Result Reply
unfolding as_texts
reply_as_texts py int_of_text r = elim r.step [
  | none ↦ ok (record { step = none; remaining = r.remaining; synthesis_ready = r.synthesis_ready })
  | some step ↦ (do
    shown ← as_texts py int_of_text step
    ok (record { step = some shown; remaining = r.remaining; synthesis_ready = r.synthesis_ready }))
]

public_step-twin :
    (py : Python) (int_of_text : String → Option ℤ) (step : Fields)
    → public_step py int_of_text step ≡ as_texts py int_of_text (py_public_step step)
unfolding as_texts py_public_step public_step text
public_step-twin py int_of_text step = refl

module _ (py : Python) (leaf : Leaf) (bundle : Fields) (steps : List Fields)
    (readable : read_bundle leaf ≡ ok bundle) (are : steps_of bundle ≡ ok steps)
    (hashable : AllHashable steps) where
  finish-twin :
      (int_of_text : String → Option ℤ) (found : Option (Fields × List Fields))
      → ClaimedHashable found
      → finish py int_of_text bundle steps (ok found) leaf ≡ (
        ((py_finish bundle steps found leaf).0 >>= reply_as_texts py int_of_text),
        (py_finish bundle steps found leaf).1,
      )
  unfolding finish py_finish reply_as_texts reply_none reply_claimed
  finish-twin int_of_text none h = rw (remaining_count-remaining steps hashable) refl
  finish-twin int_of_text (some (step, claimed)) h =
      rw (remaining_count-remaining claimed h, public_step-twin py int_of_text step) refl

  -- On a bundle whose statuses can be hashed, the two stores write the same claim, and this one
  -- answers with the texts of the step that the other one answers with, or raises where a
  -- conversion does.
  pub next_under_lock_twin :
      (int_of_text : String → Option ℤ) (now stamp : ℕ)
      → next_under_lock py int_of_text now stamp leaf ≡ (
        ((py_next_under_lock now stamp leaf).0 >>= reply_as_texts py int_of_text),
        (py_next_under_lock now stamp leaf).1,
      )
  unfolding next_under_lock py_next_under_lock
  next_under_lock_twin int_of_text now stamp =
      rw (load-read leaf, readable, are, claim_step-claim now stamp steps hashable)
        (finish-twin int_of_text (claim now stamp steps) (claim-hashable now stamp steps hashable))

  settled-twin :
      (r : Report) (step : Fields) → settled py r step steps ≡ ok (settle py r step steps)
  unfolding settled settle same_result same_outcome stored
  settled-twin r step = elim (Bool-cases (same_outcome py r step)) [
    | inl same ↦ rw (same, remaining_count-remaining steps hashable) refl
    | inr other ↦ rw (other) refl
  ]

  on_terminal-twin :
      (stamp : ℕ) (r : Report) (step : Fields) (t : Result Bool)
      → on_terminal py stamp r bundle step steps t leaf
        ≡ on_status py stamp r bundle step steps t leaf
  unfolding on_terminal on_status
  on_terminal-twin stamp r step (err e) = refl
  on_terminal-twin stamp r step (ok true) = rw (settled-twin r step) refl
  on_terminal-twin stamp r step (ok false) =
      rw
        (remaining_count-remaining (mark_step stamp r steps)
          (mark_step-hashable stamp r steps hashable))
        refl

  on_found-twin :
      (stamp : ℕ) (r : Report) (found : Option Fields)
      → on_found py stamp r bundle found steps leaf ≡ py_on_found py stamp r bundle found steps leaf
  unfolding on_found py_on_found
  on_found-twin stamp r none = refl
  on_found-twin stamp r (some step) =
      rw (status_in-terminal step)
        (on_terminal-twin stamp r step (terminal_status (get? "status" step)))

  -- On a bundle whose statuses can be hashed, the two stores answer a report alike and write the
  -- same.
  pub record_under_lock_twin :
      (stamp : ℕ) (r : Report)
      → core_record_under_lock py stamp r leaf ≡ py_record_under_lock py stamp r leaf
  unfolding core_record_under_lock py_record_under_lock
  record_under_lock_twin stamp r =
      rw (load-read leaf, readable, are) (on_found-twin stamp r (find_step r.step_id steps))
