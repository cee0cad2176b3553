-- ===== src/Dispatch/History.antt =====
-- The store over any sequence of operations of any number of workers: each operation holds the
-- lock, so a run is a sequence of steps.

use clx_preprocessing.Prelude.{List, Option, String, eq_cases, inl, inr, subst, ℕ, ◌≡◌}
use clx_preprocessing.Json.{Fields, Json, obj}
use clx_preprocessing.Owner.{Checked, Owner, invalid, valid}
use clx_preprocessing.Result.{Result, err, ok, ◌>>=◌}
use clx_preprocessing.Dispatch.{
  Leaf, Python, Store, absent, document, garbage, require_str, special, steps_of, symlink,
  validated_work_id, write_leaf,
}
use clx_preprocessing.Dispatch.Next.{next_at, next_step, next_under_lock}
use clx_preprocessing.Dispatch.Record.{Report, record_at, record_step, record_under_lock}
use clx_preprocessing.Dispatch.Persist.{
  owner_from_bundle, persist, persist_at, persist_under_lock, with_owner,
}
use clx_preprocessing.Dispatch.Lasting.{
  Keeps, Keeps-refl, Keeps-trans, KeptAll, next-Keeps, record-Keeps,
}

module _ (py : Python) where
  pub data Step (store : Store) : Store → Type 0 where
    nexts :
        (work_id : Option Json) (now stamp : ℕ)
        → Step store (next_step py work_id now stamp store).1
    records : (payload : Fields) (stamp : ℕ) → Step store (record_step py payload stamp store).1
    persists : (payload : Fields) → Step store (persist py payload store).1

  pub data Steps (store : Store) : Store → Type 0 where
    here : Steps store store
    next : {mid after : Store} → Steps store mid → Step mid after → Steps store after

  write-Keeps :
      (store : Store) (v w : String) (leaf : Leaf)
      → Keeps (store v) leaf
      → Keeps (store w) (write_leaf v leaf store w)
  unfolding write_leaf
  write-Keeps store v w leaf k = elim (eq_cases v w) [
    | inl (e, same) ↦ rw e (subst (λ x. Keeps (store x) leaf) same k)
    | inr (e, _) ↦ rw e (Keeps-refl (store w))
  ]

  next_step-Keeps :
      (store : Store) (w : String) (work_id : Option Json) (now stamp : ℕ)
      → Keeps (store w) ((next_step py work_id now stamp store).1 w)
  unfolding next_step
  next_step-Keeps store w work_id now stamp =
      at (do id ← require_str "work_id" work_id; validated_work_id py id)
    where
      at : (r : Result String) → Keeps (store w) ((next_at py r now stamp store).1 w)
      at (err e) = Keeps-refl (store w)
      at (ok v) =
          write-Keeps store v w (next_under_lock now stamp (store v)).1
            (next-Keeps now stamp (store v))

  record_step-Keeps :
      (store : Store) (w : String) (payload : Fields) (stamp : ℕ)
      → Keeps (store w) ((record_step py payload stamp store).1 w)
  unfolding record_step
  record_step-Keeps store w payload stamp = at _
    where
      at : (r : Result (String × Report)) → Keeps (store w) ((record_at py r stamp store).1 w)
      at (err e) = Keeps-refl (store w)
      at (ok (v, r)) =
          write-Keeps store v w (record_under_lock py stamp r (store v)).1
            (record-Keeps py stamp r (store v))

  -- Over an existing bundle `_persist` writes nothing.
  persist_under_lock-Keeps :
      (owner : Option Owner) (bundle : Fields) (leaf : Leaf)
      → Keeps leaf (persist_under_lock py owner bundle leaf).1
  unfolding persist_under_lock
  persist_under_lock-Keeps owner bundle absent m steps e are = cc
  persist_under_lock-Keeps owner bundle symlink m steps e are = cc
  persist_under_lock-Keeps owner bundle special m steps e are = cc
  persist_under_lock-Keeps owner bundle garbage m steps e are = cc
  persist_under_lock-Keeps owner bundle (document v) m steps e are =
      Keeps-refl (document v) m steps e are

  persist-Keeps :
      (store : Store) (w : String) (payload : Fields)
      → Keeps (store w) ((persist py payload store).1 w)
  unfolding persist
  persist-Keeps store w payload = at _
    where
      owned :
          (v : String) (c : Checked (Option Owner)) (bundle : Fields)
          → Keeps (store w) ((with_owner py v c bundle store).1 w)
      owned v invalid bundle = Keeps-refl (store w)
      owned v (valid owner) bundle =
          write-Keeps store v w (persist_under_lock py owner bundle (store v)).1
            (persist_under_lock-Keeps owner bundle (store v))

      at : (r : Result (String × Fields)) → Keeps (store w) ((persist_at py r store).1 w)
      at (err e) = Keeps-refl (store w)
      at (ok (v, bundle)) = owned v (owner_from_bundle bundle) bundle

  Steps-Keeps : {store after : Store} (w : String) → Steps store after → Keeps (store w) (after w)
  Steps-Keeps {store} w here = Keeps-refl (store w)
  Steps-Keeps {store} w (next {mid} run (nexts work_id now stamp)) =
      Keeps-trans (store w) (mid w) _ (Steps-Keeps w run) (next_step-Keeps mid w work_id now stamp)
  Steps-Keeps {store} w (next {mid} run (records payload stamp)) =
      Keeps-trans (store w) (mid w) _ (Steps-Keeps w run) (record_step-Keeps mid w payload stamp)
  Steps-Keeps {store} w (next {mid} run (persists payload)) =
      Keeps-trans (store w) (mid w) _ (Steps-Keeps w run) (persist-Keeps mid w payload)

-- Whatever operations follow, with whatever payloads: a bundle keeps its steps in their order with
-- all that is not their progress, and a step that succeeded or failed is never changed.
pub steps_last :
    (py : Python) {store after : Store} (run : Steps py store after) (w : String) (bundle : Fields)
    (steps : List Fields)
    → store w ≡ document (obj bundle)
    → steps_of bundle ≡ ok steps
    → (bundle' : Fields) × (steps' : List Fields) × (after w ≡ document (obj bundle'))
      × (steps_of bundle' ≡ ok steps')
      × KeptAll steps steps'
steps_last py run w = Steps-Keeps py w run
