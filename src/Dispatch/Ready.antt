-- ===== src/Dispatch/Ready.antt =====
-- When the briefing is ready.

use clx_preprocessing.Prelude.{
  Bool-cases, List, [], ap, arith, count, false, if◌then◌else◌, inl, inr, keep, length, map, not,
  refl, true, ◌∙◌, ◌∷◌, ◌≡◌, ◌≢◌,
}
use clx_preprocessing.Json.{Fields, Json, field_is, get_or, str}
use clx_preprocessing.Result.{ok}
use clx_preprocessing.Dispatch.{
  Leaf, Python, is_succeeded, read_bundle, remaining, steps_of, synthesis_ready,
}
use clx_preprocessing.Dispatch.Steps.{status_is_one}
use clx_preprocessing.Dispatch.Brief.{
  brief_leaf, briefing_prompt, missing_steps, not_ready, on_missing, ready,
}

missing_none : (steps : List Fields) → synthesis_ready steps ≡ true → missing_steps steps ≡ []
unfolding synthesis_ready missing_steps
missing_none [] h = refl
missing_none (s ∷ steps) h =
    let now : is_succeeded s ≡ true = ground (arith, h) in
    rw now (missing_none steps (ground (arith, h, now)))

none_missing : (steps : List Fields) → missing_steps steps ≡ [] → synthesis_ready steps ≡ true
unfolding synthesis_ready missing_steps
none_missing [] h = refl
none_missing (s ∷ steps) h = elim (Bool-cases (is_succeeded s)) [
  | inl now ↦ rw now (none_missing steps (rw now at h))
  | inr other ↦ absurd (ground (arith, h, other))
]

succeeded-none_remaining :
    (steps : List Fields) → synthesis_ready steps ≡ true → remaining steps ≡ 0
unfolding synthesis_ready remaining count
succeeded-none_remaining [] h = refl
succeeded-none_remaining (s ∷ steps) h =
    let now : is_succeeded s ≡ true = ground (arith, h) in
    ground (
      arith,
      now,
      status_is_one "succeeded" "queued" s refl,
      status_is_one "succeeded" "retry_wait" s refl,
      status_is_one "succeeded" "running" s refl,
      succeeded-none_remaining steps (ground (arith, h, now)),
    )

missing_some : (steps : List Fields) → synthesis_ready steps ≡ false → missing_steps steps ≢ []
missing_some steps h e = cc (h, none_missing steps e)

-- The missing steps are the ids of the steps that have not succeeded, in order.
missing_lem :
    (steps : List Fields)
    → missing_steps steps ≡ map (get_or "step_id" (str "")) (keep (λ s. not (is_succeeded s)) steps)
unfolding missing_steps keep
missing_lem [] = refl
missing_lem (s ∷ steps) = elim (Bool-cases (is_succeeded s)) [
  | inl now ↦ rw (now, missing_lem steps) refl
  | inr other ↦ rw (other, missing_lem steps) refl
]

-- The briefing of a readable bundle is ready exactly where every step has succeeded, and then it
-- counts all the steps; otherwise it lists, in order, the `step_id` of each step whose status is not
-- `succeeded`, with the empty text for a step that has none.
pub brief_lem :
    (py : Python) (leaf : Leaf) (bundle : Fields) (steps : List Fields)
    → read_bundle leaf ≡ ok bundle
    → steps_of bundle ≡ ok steps
    → brief_leaf py leaf
      ≡ ok (
          if synthesis_ready steps
          then ready (briefing_prompt py bundle steps) (length steps)
          else not_ready (
              map
                (get_or "step_id" (str ""))
                (keep (λ s. not (field_is "status" "succeeded" s)) steps)))
unfolding brief_leaf
brief_lem py leaf bundle steps read are = elim (Bool-cases (synthesis_ready steps)) [
  | inl all ↦ rw (read, are, missing_none steps all, all)
  | inr other ↦
      rw (read, are, other)
        (ap ok (
          listed (missing_steps steps) (missing_some steps other)
          ∙ ap not_ready (missing_lem steps)))
]
  where
    listed :
        (missing : List Json)
        → missing ≢ []
        → on_missing py bundle steps missing ≡ not_ready missing
    listed [] ne = absurd (ne refl)
    listed (m ∷ missing) ne = refl
