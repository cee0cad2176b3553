-- ===== src/Dispatch/Settled.antt =====
-- Reporting an outcome twice.
use clx_preprocessing.Dispatch.Steps.{steps_of-with_steps}
use clx_preprocessing.Prelude.{
  Bool, Bool-cases, List, Option-cases, String, [], ap, arith, eq_iff, false, inl, inr, refl, some,
  true, ℕ, ◌&&◌, ◌∙◌, ◌∷◌, ◌≡◌, ◌⊎◌,
}
use clx_preprocessing.Json.{Fields, field_is, get?, get_or, is_str, obj, put, str, str_of}
use clx_preprocessing.Json.Laws.{field_is-put_ne, get?-put_ne, get?-put_self}
use clx_preprocessing.Result.{Result, Result-cases, err, ok}
use clx_preprocessing.Dispatch.{
  Leaf, Python, document, read_bundle, remaining, steps_of, synthesis_ready, timestamp, with_steps,
}
use clx_preprocessing.Dispatch.Record.{
  Reply, Report, find_step, idempotent, mark_recorded, mark_step, on_status, record_under_lock,
  recorded, same_outcome, status_of, stored, terminal_status,
}

module _ (stamp : ℕ) (r : Report) where
  abbrev with_status : Fields → Fields
  with_status s = put "status" (str (status_of r)) s

  abbrev with_result : Fields → Fields
  with_result s = put "result" r.result (with_status s)

  abbrev with_error : Fields → Fields
  with_error s = put "error" r.error (with_result s)

  get?-status : (s : Fields) → get? "status" (mark_recorded stamp r s) ≡ some (str (status_of r))
  unfolding mark_recorded
  get?-status s =
      get?-put_ne "updated_at" "status" (timestamp stamp) (with_error s) refl
      ∙ get?-put_ne "error" "status" r.error (with_result s) refl
      ∙ get?-put_ne "result" "status" r.result (with_status s) refl
      ∙ get?-put_self "status" (str (status_of r)) s

  get?-result : (s : Fields) → get? "result" (mark_recorded stamp r s) ≡ some r.result
  unfolding mark_recorded
  get?-result s =
      get?-put_ne "updated_at" "result" (timestamp stamp) (with_error s) refl
      ∙ get?-put_ne "error" "result" r.error (with_result s) refl
      ∙ get?-put_self "result" r.result (with_status s)

  get?-error : (s : Fields) → get? "error" (mark_recorded stamp r s) ≡ some r.error
  unfolding mark_recorded
  get?-error s =
      get?-put_ne "updated_at" "error" (timestamp stamp) (with_error s) refl
      ∙ get?-put_self "error" r.error (with_result s)

  field_is-step_id :
      (id : String) (s : Fields)
      → field_is "step_id" id (mark_recorded stamp r s) ≡ field_is "step_id" id s
  unfolding mark_recorded
  field_is-step_id id s =
      field_is-put_ne "updated_at" "step_id" id (timestamp stamp) (with_error s) refl
      ∙ field_is-put_ne "error" "step_id" id r.error (with_result s) refl
      ∙ field_is-put_ne "result" "step_id" id r.result (with_status s) refl
      ∙ field_is-put_ne "status" "step_id" id (str (status_of r)) s refl

  -- The marked step is found again.
  find_step-mark_step :
      (steps : List Fields) (s : Fields)
      → find_step r.step_id steps ≡ some s
      → find_step r.step_id (mark_step stamp r steps) ≡ some (mark_recorded stamp r s)
  unfolding find_step mark_step
  find_step-mark_step [] s h = cc
  find_step-mark_step (q ∷ steps) s h = elim (Bool-cases (field_is "step_id" r.step_id q)) [
    | inl same ↦
        let e : q ≡ s = ground (arith, h, same) in
        rw (same, field_is-step_id r.step_id q)
          (rw same (ap (λ x. some (mark_recorded stamp r x)) e))
    | inr other ↦ rw (other) (rw other (find_step-mark_step steps s (rw other at h)))
  ]

-- The report ends its step: it is no failure that may be retried.
abbrev pub IsFinal : Report → Type 0
IsFinal r = (r.failed && r.retryable) ≡ false

final_status : (r : Report) → IsFinal r → (status_of r ≡ "succeeded") ⊎ (status_of r ≡ "failed")
unfolding status_of
final_status r final = elim (Bool-cases r.failed) [
  | inr e ↦ inl (rw e refl)
  | inl e ↦ inr (rw e (ground (arith, e, final)))
]

module _ (py : Python) (stamp : ℕ) (r : Report) (final : IsFinal r) (result error : String)
    (is_result : r.result ≡ str result) (is_error : r.error ≡ str error) where
  terminal_status-final : terminal_status (some (str (status_of r))) ≡ ok true
  unfolding terminal_status
  terminal_status-final = elim (final_status r final) [ inl e ↦ rw e refl | inr e ↦ rw e refl ]

  same_outcome-mark_recorded : (s : Fields) → same_outcome py r (mark_recorded stamp r s) ≡ true
  unfolding same_outcome stored get_or str_of is_str
  same_outcome-mark_recorded s = ground (
    arith,
    get?-status stamp r s,
    get?-result stamp r s,
    get?-error stamp r s,
    eq_iff (status_of r) (status_of r),
    eq_iff result result,
    eq_iff error error,
  )

  stored-status : (s : Fields) → stored py "status" (mark_recorded stamp r s) ≡ status_of r
  unfolding stored get_or str_of
  stored-status s = rw (get?-status stamp r s, get_or) refl

  again :
      (stamp' : ℕ) (m : Fields) (steps : List Fields) (s : Fields)
      → find_step r.step_id steps ≡ some s
      → let marked = mark_step stamp r steps in
        let leaf = document (obj (with_steps marked m)) in
        record_under_lock py stamp' r leaf
        ≡ (ok (idempotent (status_of r) (remaining marked) (synthesis_ready marked)), leaf)
  unfolding record_under_lock read_bundle
  again stamp' m steps s found = rw (
    steps_of-with_steps (mark_step stamp r steps) m,
    find_step-mark_step stamp r steps s found,
    get?-status stamp r s,
    terminal_status-final,
    same_outcome-mark_recorded s,
    stored-status s,
  )

-- What an accepted report did.
record Accepted (py : Python) (stamp : ℕ) (r : Report) (answer : Reply) (after : Leaf)
    : Type 0 where
  bundle : Fields
  steps : List Fields
  step : Fields
  found : find_step r.step_id steps ≡ some step
  answered :
      let marked = mark_step stamp r steps in
      answer ≡ recorded (status_of r) (remaining marked) (synthesis_ready marked)
  wrote : after ≡ document (obj (with_steps (mark_step stamp r steps) bundle))

module _ (py : Python) (stamp : ℕ) (r : Report) (leaf after : Leaf) (t : String) (n : ℕ)
    (b : Bool) where
  abbrev Answer : Type 0
  Answer = Accepted py stamp r (recorded t n b) after

  accepted_status :
      (m : Fields) (steps : List Fields) (s : Fields)
      → find_step r.step_id steps ≡ some s
      → (c : Result Bool) → on_status py stamp r m s steps c leaf ≡ (ok (recorded t n b), after)
      → Answer
  unfolding record_under_lock
  accepted_status m steps s found (err e) h = absurd (ground (arith, h))
  accepted_status m steps s found (ok true) h = absurd (ground (arith, h))
  accepted_status m steps s found (ok false) h = record {
    bundle = m;
    steps = steps;
    step = s;
    found = found;
    answered = ground (arith, h);
    wrote = ground (arith, h);
  }

  accepted : record_under_lock py stamp r leaf ≡ (ok (recorded t n b), after) → Answer
  unfolding record_under_lock
  accepted h = elim (Result-cases (read_bundle leaf)) [
    | inr (e, bad) ↦ absurd (ground (arith, h, bad))
    | inl (m, good) ↦ elim (Result-cases (steps_of m)) [
      | inr (e, bad) ↦ absurd (ground (arith, h, good, bad))
      | inl (steps, are) ↦ elim (Option-cases (find_step r.step_id steps)) [
        | inl missing ↦ absurd (ground (arith, h, good, are, missing))
        | inr (s, found) ↦
            accepted_status m steps s found (terminal_status (get? "status" s))
              (rw (good, are, found) at h)
      ]
    ]
  ]

-- A final outcome with text for its result and error, once recorded, may be reported again, with any
-- time stamp, on the file that the first report left: the answer is the same up to being called
-- idempotent, and nothing is written.
pub record_again :
    (py : Python) (stamp stamp' : ℕ) (r : Report) (result error : String) (leaf after : Leaf)
    (t : String) (n : ℕ) (b : Bool)
    → IsFinal r
    → r.result ≡ str result
    → r.error ≡ str error
    → record_under_lock py stamp r leaf ≡ (ok (recorded t n b), after)
    → record_under_lock py stamp' r after ≡ (ok (idempotent t n b), after)
record_again py stamp stamp' r result error leaf after t n b final is_result is_error h =
    let a = accepted py stamp r leaf after t n b h in
    let marked = mark_step stamp r a.steps in
    let same : idempotent (status_of r) (remaining marked) (synthesis_ready marked)
        ≡ idempotent t n b =
      ground (arith, a.answered) in
    rw (a.wrote) (
      again py stamp r final result error is_result is_error stamp' a.bundle a.steps a.step a.found
      ∙ ap (λ x. (ok x, document (obj (with_steps marked a.bundle)))) same)
