-- ===== src/Dispatch/Decide.antt =====
-- What `_persist` decides.
use clx_preprocessing.Prelude.{
  Bool-cases, Option, Option-cases, [], ap, arith, eq_iff, false, inl, inr, none, refl, some, subst,
  sym, true, ◌∙◌, ◌∷◌, ◌≡◌, ◌≢◌,
}
use clx_preprocessing.Json.{Fields, obj}
use clx_preprocessing.Owner.{
  Checked, Owner, invalid, owners_equal, owners_equal_refl, owners_equal→eq, valid,
}
use clx_preprocessing.Result.{Result-cases, ok}
use clx_preprocessing.Dispatch.{Leaf, Python, absent, document}
use clx_preprocessing.Dispatch.Persist.{
  Identity, Reply, decide_existing, decide_owners, dispatch_bundle_conflict,
  dispatch_owner_conflict, idempotent, invalid_dispatch_owner, owner_from_bundle, persist_over,
  same_identity, step_identity_sequence, stored,
}

pub same_identity→eq : (a b : Identity) → same_identity a b ≡ true → a ≡ b
unfolding same_identity
same_identity→eq [] [] h = refl
same_identity→eq [] (x ∷ b) h = cc
same_identity→eq (x ∷ a) [] h = cc
same_identity→eq ((p, q) ∷ a) ((s, t) ∷ b) h =
    ground (arith, eq_iff p s, eq_iff q t, same_identity→eq a b)

same_identity_refl : (a : Identity) → same_identity a a ≡ true
unfolding same_identity
same_identity_refl [] = refl
same_identity_refl ((p, q) ∷ a) = ground (arith, eq_iff p p, eq_iff q q, same_identity_refl a)

different_steps : (a b : Identity) → same_identity a b ≡ false → a ≢ b
different_steps a b h e =
    let k : same_identity a b ≡ true =
      subst (λ c. same_identity a c ≡ true) e (same_identity_refl a) in
    cc (h, k)

different_owners : (a b : Owner) → owners_equal a b ≡ false → a ≢ b
different_owners a b h e =
    let k : owners_equal a b ≡ true =
      subst (λ c. owners_equal a c ≡ true) e (owners_equal_refl a) in
    cc (h, k)

-- What each answer says of what was found: nothing was there and the bundle is now; or a readable
-- bundle was there and is still, of the same owner and the same steps; or with an owner that is not
-- valid; or with another owner, or with none where one of the two has none; or of the same owner and
-- of other steps.
pub data Decided (py : Python) (owner : Option Owner) (bundle : Fields) (leaf after : Leaf)
    : Reply → Type 0 where
  was_absent :
      leaf ≡ absent → after ≡ document (obj bundle) → Decided py owner bundle leaf after stored
  was_same :
      (existing : Fields) (o : Owner) (steps : Identity)
      → leaf ≡ document (obj existing)
      → owner ≡ some o
      → owner_from_bundle existing ≡ valid (some o)
      → step_identity_sequence py existing ≡ ok steps
      → step_identity_sequence py bundle ≡ ok steps
      → after ≡ leaf
      → Decided py owner bundle leaf after idempotent
  had_invalid_owner :
      (existing : Fields)
      → leaf ≡ document (obj existing)
      → owner_from_bundle existing ≡ invalid
      → after ≡ leaf
      → Decided py owner bundle leaf after invalid_dispatch_owner
  had_other_owner :
      (existing : Fields) (old : Option Owner)
      → leaf ≡ document (obj existing)
      → owner_from_bundle existing ≡ valid old
      → ((o : Owner) → old ≡ some o → owner ≢ some o)
      → after ≡ leaf
      → Decided py owner bundle leaf after dispatch_owner_conflict
  had_other_steps :
      (existing : Fields) (o : Owner) (old new : Identity)
      → leaf ≡ document (obj existing)
      → owner ≡ some o
      → owner_from_bundle existing ≡ valid (some o)
      → step_identity_sequence py existing ≡ ok old
      → step_identity_sequence py bundle ≡ ok new
      → old ≢ new
      → after ≡ leaf
      → Decided py owner bundle leaf after dispatch_bundle_conflict

module _ (py : Python) (owner : Option Owner) (bundle existing : Fields) where
  abbrev leaf : Leaf
  leaf = document (obj existing)

  decide_owner :
      (old : Option Owner)
      → owner_from_bundle existing ≡ valid old
      → (a b : Identity) → step_identity_sequence py existing ≡ ok a
      → step_identity_sequence py bundle ≡ ok b
      → Decided py owner bundle leaf leaf (decide_owners py old owner (same_identity a b))
  unfolding decide_owners
  decide_owner none is a b are new = had_other_owner existing none refl is (λ o e f. cc e) refl
  decide_owner (some o) is a b are new = elim (Option-cases owner) [
    | inl e ↦ rw (e, decide_owners) (had_other_owner existing (some o) refl is (λ p f g. cc g) refl)
    | inr (o', e) ↦
        rw (e, decide_owners)
          (elim (Bool-cases (owners_equal o o')) [
            | inr other ↦ rw other (
                had_other_owner existing (some o) refl is
                  (λ p f g. different_owners o o' other (cc (f, g))) refl)
            | inl same ↦ rw same (elim (Bool-cases (same_identity a b)) [
              | inr changed ↦ rw changed (
                  had_other_steps existing o' a b refl refl
                    (is ∙ ap (λ x. valid (some x)) (owners_equal→eq o o' same)) are new
                    (different_steps a b changed) refl)
              | inl kept ↦ rw kept (
                  was_same existing o' a refl refl
                    (is ∙ ap (λ x. valid (some x)) (owners_equal→eq o o' same)) are
                    (new ∙ ap ok (sym (same_identity→eq a b kept))) refl)
            ])
          ])
  ]

  decide_over :
      (reply : Reply)
      → persist_over py owner bundle existing ≡ ok reply
      → Decided py owner bundle leaf leaf reply
  unfolding persist_over
  decide_over reply h = elim (Result-cases (step_identity_sequence py existing)) [
    | inr (e, bad) ↦ absurd (ground (arith, h, bad))
    | inl (a, are) ↦ elim (Result-cases (step_identity_sequence py bundle)) [
      | inr (e, bad) ↦ absurd (ground (arith, h, are, bad))
      | inl (b, new) ↦
          subst (Decided py owner bundle leaf leaf) (answer a b (rw (are, new) at h))
            (by_owner a b are new (owner_from_bundle existing) refl)
    ]
  ]
    where
      answer :
          (a b : Identity)
          → ok (decide_existing py (owner_from_bundle existing) owner (same_identity a b))
            ≡ ok reply
          → decide_existing py (owner_from_bundle existing) owner (same_identity a b) ≡ reply
      answer a b e = ground (arith, e)

      by_owner :
          (a b : Identity)
          → step_identity_sequence py existing ≡ ok a
          → step_identity_sequence py bundle ≡ ok b
          → (c : Checked (Option Owner)) → owner_from_bundle existing ≡ c
          → Decided py owner bundle leaf leaf (decide_existing py c owner (same_identity a b))
      by_owner a b are new invalid e = had_invalid_owner existing refl e refl
      by_owner a b are new (valid old) e = decide_owner old e a b are new
