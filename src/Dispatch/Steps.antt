-- ===== src/Dispatch/Steps.antt =====
-- The step objects of a bundle: reading back what was written, and how a status excludes another.
use clx_preprocessing.Prelude.{
  List, Option-cases, String, [], arith, eq_iff, false, inl, inr, ltb, pos, refl, true, ℕ, ◌+◌,
  ◌==◌, ◌∙◌, ◌∷◌, ◌≡◌, comparable_texts, comparable_numbers,
}
use clx_preprocessing.Json.{Fields, arr, field_is, get?, is_str, number_or_zero, put, str}
use clx_preprocessing.Json.Laws.{field_is-put_ne, field_is-put_self, get?-put_self}
use clx_preprocessing.Result.{ok}
use clx_preprocessing.Dispatch.{
  claimable, is_terminal, items_of, mark_claimed, running_lease, stale_running, status_is,
  step_objects, steps_of, timestamp, with_steps,
}

pub step_objects-items_of : (steps : List Fields) → step_objects (items_of steps) ≡ ok steps
unfolding step_objects items_of
step_objects-items_of [] = refl
step_objects-items_of (s ∷ steps) = rw (step_objects-items_of steps)

-- Steps that are written to a bundle are read back from it.
pub steps_of-with_steps :
    (steps : List Fields) (bundle : Fields) → steps_of (with_steps steps bundle) ≡ ok steps
unfolding steps_of with_steps
steps_of-with_steps steps bundle =
    rw (get?-put_self "steps" (arr (items_of steps)) bundle) (step_objects-items_of steps)

pub status_is_one :
    (a b : String) (s : Fields) → a == b ≡ false → status_is a s ≡ true → status_is b s ≡ false
unfolding field_is is_str
status_is_one a b s ne h = elim (Option-cases (get? "status" s)) [
  | inl e ↦ rw (e, field_is) refl
  | inr (str t, e) ↦ ground (arith, e, h, ne, eq_iff t a, eq_iff t b, eq_iff a b)
  | inr (_, e) ↦ ground (arith, e, h)
]

-- A step that can be claimed is not finished.
pub claimable-not_terminal : (now : ℕ) (s : Fields) → claimable now s ≡ true → is_terminal s ≡ false
unfolding claimable stale_running
claimable-not_terminal now s h = ground (
  arith,
  h,
  status_is_one "queued" "succeeded" s refl,
  status_is_one "queued" "failed" s refl,
  status_is_one "retry_wait" "succeeded" s refl,
  status_is_one "retry_wait" "failed" s refl,
  status_is_one "running" "succeeded" s refl,
  status_is_one "running" "failed" s refl,
)

status_is-mark_claimed :
    (stamp : ℕ) (t : String) (s : Fields) → status_is t (mark_claimed stamp s) ≡ ("running" == t)
unfolding mark_claimed
status_is-mark_claimed stamp t s =
    field_is-put_ne "updated_at" "status" t _ _ refl ∙ field_is-put_self "status" "running" t s

updated_at-mark_claimed :
    (stamp : ℕ) (s : Fields) → number_or_zero (get? "updated_at" (mark_claimed stamp s)) ≡ pos stamp
unfolding mark_claimed number_or_zero
updated_at-mark_claimed stamp s =
    rw (get?-put_self "updated_at" (timestamp stamp) (put "status" (str "running") s))

-- A claimed step can be claimed again exactly once its lease has passed.
pub claimable-mark_claimed :
    (later stamp : ℕ) (s : Fields)
    → claimable later (mark_claimed stamp s) ≡ ltb (stamp + running_lease) later
unfolding claimable stale_running
claimable-mark_claimed later stamp s = ground (
  arith,
  status_is-mark_claimed stamp "queued" s,
  status_is-mark_claimed stamp "retry_wait" s,
  status_is-mark_claimed stamp "running" s,
  updated_at-mark_claimed stamp s,
)
