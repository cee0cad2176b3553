-- ===== src/LoopAuto/Success.antt =====
-- What a run that reports success means.
use clx_preprocessing.DispatchStore.Brief.{
  ready as ready, on_missing, missing_ids, briefing_of, build_briefing_payload,
}
use clx_preprocessing.Dispatch.{
  Python as Python, Store as Store, synthesis_ready, validated_work_id, steps_of, is_succeeded,
}
use clx_preprocessing.DispatchStore.{load_dispatch_bundle}
use clx_preprocessing.Prelude.{
  Bool-cases, List, Option, String, [], arith, inl, inr, refl, subst, sym, true, ℕ, ℤ, ◌∙◌, ◌∷◌,
  ◌≡◌,
}
use clx_preprocessing.Json.{Fields}
use clx_preprocessing.Result.{bind-ok, ok}
use clx_preprocessing.LoopAuto.{LoopAutoResult, World}
use clx_preprocessing.LoopAuto.Account.{failed_in}
use clx_preprocessing.LoopAuto.Turns.{report_is_consistent}
use clx_preprocessing.LoopAuto.Honest.{CanBrief, HonestEnd, run-Honest}
use clx_preprocessing.LoopAuto.Drain.{finished, run_loop_auto}

none_missing :
    (py : Python) (steps : List Fields) → missing_ids py steps ≡ [] → synthesis_ready steps ≡ true
unfolding synthesis_ready missing_ids
none_missing py [] h = refl
none_missing py (s ∷ steps) h = elim (Bool-cases (is_succeeded s)) [
  | inl now ↦ rw now (none_missing py steps (rw now at h))
  | inr other ↦ absurd (ground (arith, h, other))
]

ready-none :
    (py : Python) (bundle : Fields) (steps : List Fields) (missing : List String) (prompt : String)
    (n : ℕ)
    → on_missing py bundle steps missing ≡ ready prompt n
    → missing ≡ []
unfolding on_missing
ready-none py bundle steps [] prompt n e = refl
ready-none py bundle steps (m ∷ missing) prompt n e = cc e

ok-injective : {A : Type 0} {a b : A} → ok a ≡ ok b → a ≡ b
ok-injective e = cc e

-- Every step of the stored bundle has succeeded.
abbrev pub AllSucceeded : Python → String → Store → Type 0
AllSucceeded py work_id store =
    (w : String) × (bundle : Fields) × (steps : List Fields) × (validated_work_id py work_id ≡ ok w)
    × (load_dispatch_bundle (store w) ≡ ok bundle)
    × (steps_of bundle ≡ ok steps)
    × (synthesis_ready steps ≡ true)

briefed-AllSucceeded :
    (py : Python) (work_id : String) (store : Store)
    → CanBrief py work_id store
    → AllSucceeded py work_id store
unfolding build_briefing_payload briefing_of
briefed-AllSucceeded py work_id store (prompt, n, e) =
    let (w, named, f) = bind-ok (validated_work_id py work_id) _ _ e in
    let (bundle, read, g) = bind-ok (load_dispatch_bundle (store w)) _ _ f in
    let (steps, are, h) = bind-ok (steps_of bundle) _ _ g in
    (
      w,
      bundle,
      steps,
      named,
      read,
      are,
      none_missing py steps
          (ready-none py bundle steps (missing_ids py steps) prompt n (ok-injective h)),
    )

-- A run that reports success has no failed segment among its records, and in the store that it leaves
-- every step of the bundle has succeeded.
pub success_is_earned :
    (world : World) (py : Python) (int_of_text : String → Option ℤ) (work_id : String)
    (max_iterations retries : ℕ) (store : Store) (r : LoopAutoResult)
    → (run_loop_auto world py int_of_text work_id max_iterations retries store).0 ≡ finished r
    → r.ok ≡ true
    → (failed_in r.steps ≡ 0)
      × AllSucceeded py work_id
          (run_loop_auto world py int_of_text work_id max_iterations retries store).1
unfolding HonestEnd
success_is_earned world py int_of_text work_id max_iterations retries store r e good =
    let end_ = run_loop_auto world py int_of_text work_id max_iterations retries store in
    let h =
      subst (λ x. HonestEnd py work_id x end_.1) e
        (run-Honest world py int_of_text work_id max_iterations retries store) good in
    let a = report_is_consistent world py int_of_text work_id max_iterations retries store r e in
    (sym a.1 ∙ h.1, briefed-AllSucceeded py work_id end_.1 h.0)
