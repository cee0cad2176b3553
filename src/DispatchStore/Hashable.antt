-- ===== src/DispatchStore/Hashable.antt =====
-- The dispatch steps whose statuses Python can look up in a set.
use clx_preprocessing.Prelude.{
  All, Bool, Bool-cases, List, Option, [], ap, count, false, if◌then◌else◌, inl, inr, none, refl,
  some, true, ℕ, ◌||◌, ◌∙◌, ◌∷◌, ◌≡◌,
}
use clx_preprocessing.Json.{
  Fields, Json, arr, bool, field_is, float, get?, int, is_str, null, obj, put, str,
}
use clx_preprocessing.Result.{err, ok, unhashable_status}
use clx_preprocessing.Dispatch.{
  Leaf, absent, behind, claim, claimable, document, garbage, is_open, is_terminal, mark_claimed,
  read_bundle, remaining, special, stale_running, symlink, timestamp,
}
use clx_preprocessing.Json.Laws.{get?-put_ne, get?-put_self}
use clx_preprocessing.Dispatch.Record.{Report, mark_recorded, mark_step, status_of, terminal_status}
use clx_preprocessing.DispatchStore.{
  can_claim, claim_step, is_hashable, is_waiting, load_dispatch_bundle, remaining_count, status_in,
}

abbrev pub AllHashable : List Fields → Type 0
AllHashable steps = All (λ step. is_hashable (get? "status" step) ≡ true) steps

pub load-read : (leaf : Leaf) → load_dispatch_bundle leaf ≡ read_bundle leaf
unfolding load_dispatch_bundle read_bundle
load-read absent = refl
load-read symlink = refl
load-read special = refl
load-read garbage = refl
load-read (document null) = refl
load-read (document (bool _)) = refl
load-read (document (int _)) = refl
load-read (document (float _)) = refl
load-read (document (str _)) = refl
load-read (document (arr _)) = refl
load-read (document (obj _)) = refl

status_in-hashable :
    (test : Fields → Bool) (step : Fields)
    → is_hashable (get? "status" step) ≡ true
    → status_in test step ≡ ok (test step)
unfolding status_in
status_in-hashable test step h = rw (h) refl

pub remaining_count-remaining :
    (steps : List Fields) → AllHashable steps → remaining_count steps ≡ ok (remaining steps)
unfolding remaining_count remaining count
remaining_count-remaining [] h = refl
remaining_count-remaining (step ∷ steps) h =
    rw (status_in-hashable is_open step h.0, remaining_count-remaining steps h.1) refl

claim_or :
    (can : Bool) (stamp : ℕ) (step : Fields) (steps : List Fields)
    (found : Option (Fields × List Fields))
    → (if can
        then ok (some (mark_claimed stamp step, mark_claimed stamp step ∷ steps))
        else ok (behind step found))
      ≡ ok (
          if can
          then some (mark_claimed stamp step, mark_claimed stamp step ∷ steps)
          else behind step found)
claim_or true stamp step steps found = refl
claim_or false stamp step steps found = refl

pub claim_step-claim :
    (now stamp : ℕ) (steps : List Fields)
    → AllHashable steps
    → claim_step now stamp steps ≡ ok (claim now stamp steps)
unfolding claim_step claim can_claim claimable field_is is_waiting
claim_step-claim now stamp [] h = refl
claim_step-claim now stamp (step ∷ steps) h =
    rw (status_in-hashable is_waiting step h.0, claim_step-claim now stamp steps h.1)
      (claim_or (is_waiting step || stale_running step now) stamp step steps
        (claim now stamp steps))

mark_claimed-hashable :
    (stamp : ℕ) (step : Fields) → is_hashable (get? "status" (mark_claimed stamp step)) ≡ true
unfolding mark_claimed
mark_claimed-hashable stamp step =
    let e : get? "status" (mark_claimed stamp step) ≡ some (str "running") =
      get?-put_ne "updated_at" "status" (timestamp stamp) (put "status" (str "running") step) refl
      ∙ get?-put_self "status" (str "running") step in
    ap is_hashable e ∙ (unfold is_hashable in refl)

mark_recorded-hashable :
    (stamp : ℕ) (r : Report) (step : Fields)
    → is_hashable (get? "status" (mark_recorded stamp r step)) ≡ true
unfolding mark_recorded
mark_recorded-hashable stamp r step =
    let e : get? "status" (mark_recorded stamp r step) ≡ some (str (status_of r)) =
      get?-put_ne "updated_at" "status" _ _ refl
      ∙ get?-put_ne "error" "status" _ _ refl
      ∙ get?-put_ne "result" "status" _ _ refl
      ∙ get?-put_self "status" (str (status_of r)) step in
    ap is_hashable e ∙ (unfold is_hashable in refl)

-- What the loop of a claim leaves can be hashed.
abbrev pub ClaimedHashable : Option (Fields × List Fields) → Type 0
ClaimedHashable none = Unit
ClaimedHashable (some (step, claimed)) = AllHashable claimed

pub claim-hashable :
    (now stamp : ℕ) (steps : List Fields)
    → AllHashable steps
    → ClaimedHashable (claim now stamp steps)
unfolding claim
claim-hashable now stamp [] h = tt
claim-hashable now stamp (step ∷ steps) h = elim (Bool-cases (claimable now step)) [
  | inl can ↦ rw (can) (mark_claimed-hashable stamp step, h.1)
  | inr cannot ↦
      rw (cannot)
        (behind-hashable step (claim now stamp steps) h.0 (claim-hashable now stamp steps h.1))
]
  where
    behind-hashable :
        (s : Fields) (found : Option (Fields × List Fields))
        → is_hashable (get? "status" s) ≡ true
        → ClaimedHashable found
        → ClaimedHashable (behind s found)
    behind-hashable s none h k = tt
    behind-hashable s (some (t, l)) h k = (h, k)

pub mark_step-hashable :
    (stamp : ℕ) (r : Report) (steps : List Fields)
    → AllHashable steps
    → AllHashable (mark_step stamp r steps)
unfolding mark_step
mark_step-hashable stamp r [] h = tt
mark_step-hashable stamp r (step ∷ steps) h =
    elim (Bool-cases (field_is "step_id" r.step_id step)) [
      | inl this ↦ rw (this) (mark_recorded-hashable stamp r step, h.1)
      | inr other ↦ rw (other) (h.0, mark_step-hashable stamp r steps h.1)
    ]

terminal_value :
    (v : Option Json)
    → (if is_hashable v
        then ok (
            elim v [ none ↦ false | some w ↦ is_str "succeeded" w ]
            || elim v [ none ↦ false | some w ↦ is_str "failed" w ])
        else err unhashable_status)
      ≡ terminal_status v
unfolding is_hashable terminal_status is_str
terminal_value none = refl
terminal_value (some null) = refl
terminal_value (some (bool _)) = refl
terminal_value (some (int _)) = refl
terminal_value (some (float _)) = refl
terminal_value (some (str _)) = refl
terminal_value (some (arr _)) = refl
terminal_value (some (obj _)) = refl

pub status_in-terminal :
    (step : Fields) → status_in is_terminal step ≡ terminal_status (get? "status" step)
unfolding status_in field_is
status_in-terminal step = terminal_value (get? "status" step)
