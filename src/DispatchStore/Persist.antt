-- ===== src/DispatchStore/Persist.antt =====
-- `_persist_under_lock` of src/cluxion_runtime/core/dispatch_store.py.
use clx_preprocessing.DispatchStore.Hashable.{load-read}
use clx_preprocessing.Dispatch.Persist.{
  Reply as PyReply, persist_under_lock as py_persist_under_lock, persist_over as py_persist_over,
  owner_from_bundle as owner_from_bundle, same_identity as same_identity,
  step_identity_sequence as step_identity_sequence, stored as stored, idempotent as py_idempotent,
  invalid_dispatch_owner as invalid_dispatch_owner,
  dispatch_owner_conflict as dispatch_owner_conflict,
  dispatch_bundle_conflict as dispatch_bundle_conflict, decide_owners as decide_owners,
  decide_existing as decide_existing,
}
use clx_preprocessing.Prelude.{
  Bool, Bool-cases, Option, ap, if◌then◌else◌, inl, inr, none, refl, some, sym, ◌≡◌,
}
use clx_preprocessing.Json.{Fields, obj}
use clx_preprocessing.Result.{Result, Result-cases, err, ok, owner_invalid, symlink_found, ◌>>=◌}
use clx_preprocessing.Owner.{Checked, Owner, invalid, owners_equal, valid}
use clx_preprocessing.Dispatch.{
  Leaf, Python, absent, document, garbage, read_bundle, special, symlink,
}
use clx_preprocessing.DispatchStore.{load_dispatch_bundle}

pub data Decision : Type 0 where
  written idempotent owner_conflict conflict : Decision

-- The owner of a bundle, where a malformed one raises.
unfoldable pub owner_or_raise : Checked (Option Owner) → Result (Option Owner)
owner_or_raise (valid owner) = ok owner
owner_or_raise invalid = err owner_invalid

unfoldable pub decide : Option Owner → Option Owner → Bool → Decision
decide (some existing) (some new) same =
    if owners_equal existing new then (if same then idempotent else conflict) else owner_conflict
decide _ _ same = owner_conflict

module _ (py : Python) where
  -- Something stands at the path.
  unfoldable pub decide_over : Option Owner → Fields → Leaf → Result Decision
  decide_over new_owner bundle leaf = do
    existing ← load_dispatch_bundle leaf
    existing_id ← step_identity_sequence py existing
    new_id ← step_identity_sequence py bundle
    existing_owner ← owner_or_raise (owner_from_bundle existing)
    ok (decide existing_owner new_owner (same_identity existing_id new_id))

  unfoldable pub persist_owned : Option Owner → Fields → Leaf → Result Decision × Leaf
  persist_owned new_owner bundle absent = (ok written, document (obj bundle))
  persist_owned new_owner bundle symlink = (err symlink_found, symlink)
  persist_owned new_owner bundle special = (decide_over new_owner bundle special, special)
  persist_owned new_owner bundle garbage = (decide_over new_owner bundle garbage, garbage)
  persist_owned new_owner bundle (document v) =
      (decide_over new_owner bundle (document v), document v)

  unfoldable pub persist_checked : Result (Option Owner) → Fields → Leaf → Result Decision × Leaf
  persist_checked (err e) bundle leaf = (err e, leaf)
  persist_checked (ok owner) bundle leaf = persist_owned owner bundle leaf

  unfoldable pub persist_under_lock : Fields → Leaf → Result Decision × Leaf
  unfolding persist_checked persist_owned decide_over
  persist_under_lock bundle leaf =
      persist_checked (owner_or_raise (owner_from_bundle bundle)) bundle leaf

-- The decision here for an answer of the other store.
unfoldable pub decision_of : PyReply → Result Decision
decision_of stored = ok written
decision_of py_idempotent = ok idempotent
decision_of invalid_dispatch_owner = err owner_invalid
decision_of dispatch_owner_conflict = ok owner_conflict
decision_of dispatch_bundle_conflict = ok conflict

decided :
    (py : Python) (existing new : Option Owner) (same : Bool)
    → decision_of (decide_owners py existing new same) ≡ ok (decide existing new same)
unfolding decision_of decide_owners decide
decided py none new same = refl
decided py (some a) none same = refl
decided py (some a) (some b) same = elim (Bool-cases (owners_equal a b)) [
  | inl h ↦ elim (Bool-cases same) [ inl k ↦ rw (h, k) refl | inr k ↦ rw (h, k) refl ]
  | inr h ↦ rw (h) refl
]

decided_existing :
    (py : Python) (c : Checked (Option Owner)) (new : Option Owner) (same : Bool)
    → decision_of (decide_existing py c new same)
      ≡ (owner_or_raise c >>= λ existing. ok (decide existing new same))
unfolding decide_existing owner_or_raise decision_of
decided_existing py invalid new same = refl
decided_existing py (valid existing) new same = decided py existing new same

module _ (py : Python) (new : Option Owner) (bundle : Fields) where
  decide_over-twin :
      (leaf : Leaf)
      → decide_over py new bundle leaf
        ≡ ((do existing ← read_bundle leaf; py_persist_over py new bundle existing) >>= decision_of)
  unfolding decide_over py_persist_over
  decide_over-twin leaf = elim (Result-cases (read_bundle leaf)) [
    | inr (e, r) ↦ rw (load-read leaf, r) refl
    | inl (existing, r) ↦ elim (Result-cases (step_identity_sequence py existing)) [
      | inr (e, i) ↦ rw (load-read leaf, r, i) refl
      | inl (old_id, i) ↦ elim (Result-cases (step_identity_sequence py bundle)) [
        | inr (e, j) ↦ rw (load-read leaf, r, i, j) refl
        | inl (new_id, j) ↦
            rw (load-read leaf, r, i, j)
              (sym (
                decided_existing py (owner_from_bundle existing) new (same_identity old_id new_id)))
      ]
    ]
  ]

  -- The two stores decide alike on a new bundle, whatever stands at its path, and write the same.
  -- Where the other one answers that an owner is malformed, this one raises.
  pub persist_owned_twin :
      (leaf : Leaf)
      → persist_owned py new bundle leaf ≡ (
        ((py_persist_under_lock py new bundle leaf).0 >>= decision_of),
        (py_persist_under_lock py new bundle leaf).1,
      )
  unfolding persist_owned py_persist_under_lock
  persist_owned_twin absent = unfold decision_of in refl
  persist_owned_twin symlink = refl
  persist_owned_twin special = ap (λ d. (d, special)) (decide_over-twin special)
  persist_owned_twin garbage = ap (λ d. (d, garbage)) (decide_over-twin garbage)
  persist_owned_twin (document v) = ap (λ d. (d, document v)) (decide_over-twin (document v))
