-- ===== src/Dispatch/Claim.antt =====
-- The loop of `_next_step`: which step is claimed, and what is left of the others.
use clx_preprocessing.Prelude.{
  All, Bool-cases, List, Option, [], ap, arith, false, inl, inr, length, none, refl, some, subst,
  sym, true, ℕ, ◌++◌, ◌+◌, ◌∙◌, ◌∷◌, ◌≡◌, ◌≢◌, ◌≤◌,
}
use clx_preprocessing.Json.{Fields}
use clx_preprocessing.Dispatch.{behind, claim, claimable, mark_claimed, running_lease}
use clx_preprocessing.Dispatch.Steps.{claimable-mark_claimed}

-- The first claimable step was marked as running, and no other step was touched.
pub record Claimed (now stamp : ℕ) (steps : List Fields) (s : Fields) (after : List Fields)
    : Type 0 where
  pub before : List Fields
  pub old : Fields
  pub rest : List Fields
  pub split : steps ≡ before ++ old ∷ rest
  pub marked : after ≡ before ++ s ∷ rest
  pub is_marked : s ≡ mark_claimed stamp old
  pub was_claimable : claimable now old ≡ true
  pub none_before : All (λ t. claimable now t ≡ false) before

pub behind-some :
    (q s : Fields) (after : List Fields) (o : Option (Fields × List Fields))
    → behind q o ≡ some (s, after)
    → (rest : List Fields) × (o ≡ some (s, rest)) × (after ≡ q ∷ rest)
unfolding behind
behind-some q s after none h = cc
behind-some q s after (some (t, rest)) h = (rest, ground (arith, h), ground (arith, h))

pub claim_lem :
    (now stamp : ℕ) (steps : List Fields) (s : Fields) (after : List Fields)
    → claim now stamp steps ≡ some (s, after)
    → Claimed now stamp steps s after
unfolding claim
claim_lem now stamp [] s after h = cc
claim_lem now stamp (q ∷ steps) s after h = elim (Bool-cases (claimable now q)) [
  | inl can ↦ record {
    before = [];
    old = q;
    rest = steps;
    split = refl;
    marked = ground (arith, h, can);
    is_marked = ground (arith, h, can);
    was_claimable = can;
    none_before = tt;
  }
  | inr cannot ↦
      let (rest, e, is_after) = behind-some q s after (claim now stamp steps) (rw cannot at h) in
      let c = claim_lem now stamp steps s rest e in
      record {
        before = q ∷ c.before;
        old = c.old;
        rest = c.rest;
        split = ap (λ l. q ∷ l) c.split;
        marked = is_after ∙ ap (λ l. q ∷ l) c.marked;
        is_marked = c.is_marked;
        was_claimable = c.was_claimable;
        none_before = (cannot, c.none_before);
      }
]

pub claim-none :
    (now stamp : ℕ) (steps : List Fields)
    → claim now stamp steps ≡ none
    → All (λ t. claimable now t ≡ false) steps
unfolding claim behind
claim-none now stamp [] h = tt
claim-none now stamp (q ∷ steps) h = elim (Bool-cases (claimable now q)) [
  | inl can ↦ absurd (ground (arith, can, h))
  | inr cannot ↦ (cannot, claim-none now stamp steps (ground (arith, cannot, h)))
]

same_place :
    (xs ys : List Fields) (a b : Fields) (us vs : List Fields)
    → xs ++ a ∷ us ≡ ys ++ b ∷ vs
    → length xs ≡ length ys
    → a ≡ b
same_place [] [] a b us vs h e = ground (arith, h)
same_place [] (y ∷ ys) a b us vs h e = absurd (omega arith)
same_place (x ∷ xs) [] a b us vs h e = absurd (omega arith)
same_place (x ∷ xs) (y ∷ ys) a b us vs h e = same_place xs ys a b us vs (cc) (omega arith)

apart :
    (now stamp later stamp' : ℕ) (steps : List Fields) (s t : Fields) (mid after : List Fields)
    (first : Claimed now stamp steps s mid) (second : Claimed later stamp' mid t after)
    → later ≤ stamp + running_lease
    → length first.before ≢ length second.before
apart now stamp later stamp' steps s t mid after first second early e =
    let same =
      same_place first.before second.before s second.old first.rest second.rest
        (sym first.marked ∙ second.split) e in
    let again : claimable later (mark_claimed stamp first.old) ≡ true =
      subst (λ x. claimable later x ≡ true) (sym same ∙ first.is_marked) second.was_claimable in
    ground (arith, again, claimable-mark_claimed later stamp first.old)

-- Two claims in a row, the second begun before the lease of the first has passed, never take the
-- step at the same place of the bundle; each changes the step that it takes and no other.
pub claim_twice :
    (now stamp later stamp' : ℕ) (steps mid after : List Fields) (s t : Fields)
    → claim now stamp steps ≡ some (s, mid)
    → claim later stamp' mid ≡ some (t, after)
    → later ≤ stamp + running_lease
    → (before rest before' rest' : List Fields) × (old old' : Fields) × (steps
        ≡ before ++ old ∷ rest)
      × (mid ≡ before ++ s ∷ rest)
      × (mid ≡ before' ++ old' ∷ rest')
      × (after ≡ before' ++ t ∷ rest')
      × (length before ≢ length before')
claim_twice now stamp later stamp' steps mid after s t first second early =
    let c = claim_lem now stamp steps s mid first in
    let d = claim_lem later stamp' mid t after second in
    (
      c.before,
      c.rest,
      d.before,
      d.rest,
      c.old,
      d.old,
      c.split,
      c.marked,
      d.split,
      d.marked,
      apart now stamp later stamp' steps s t mid after c d early,
    )
