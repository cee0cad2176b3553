-- ===== src/Dispatch/Persist.antt =====
-- `_persist` of src/cluxion_runtime/resources/py_queue.py, with the owner of a bundle.
use clx_preprocessing.Prelude.{
  Bool, List, Option, String, [], false, if◌then◌else◌, map, none, pos, some, true, ℕ, ◌&&◌, ◌==◌,
  ◌||◌, ◌∷◌, comparable_texts, comparable_numbers,
}
use clx_preprocessing.Json.{Fields, Json, end, field, get?, get_or, int, null, obj, str_of}
use clx_preprocessing.Owner.{Checked, Owner, invalid, owner_of_values, owners_equal, valid}
use clx_preprocessing.Result.{
  Result, bundle_missing, bundle_not_object, err, ok, symlink_found, ◌>>=◌,
}
use clx_preprocessing.Dispatch.{
  Leaf, Python, Store, absent, document, garbage, no_text, read_bundle, require_str, special,
  steps_of, symlink, validated_work_id, write_leaf,
}

-- `_validated_schema_version`: 1 where the key is missing, else the integers 1 and 2 alone.
unfoldable pub validated_schema_version : Fields → Checked ℕ
validated_schema_version bundle = elim (get? "schema_version" bundle) [
  | none ↦ valid 1
  | some (int (pos n)) ↦ if n == 1 then valid 1 else if n == 2 then valid 2 else invalid
  | some _ ↦ invalid
]

is_owner_key : String → Bool
is_owner_key k = k == "cwd" || k == "session_id" || k == "scope"

keys_are_owner : Fields → Bool
keys_are_owner end = true
keys_are_owner (field k v m) = is_owner_key k && keys_are_owner m

-- `set(owner) == {"cwd", "session_id", "scope"}`, and the `isinstance` tests on the three values.
unfoldable pub owner_of_fields : Fields → Checked (Option Owner)
unfolding keys_are_owner is_owner_key owner_of_values
owner_of_fields m = elim (get? "cwd" m) [
  | none ↦ invalid
  | some cwd ↦ elim (get? "session_id" m) [
    | none ↦ invalid
    | some session_id ↦ elim (get? "scope" m) [
      | none ↦ invalid
      | some scope ↦ if keys_are_owner m then owner_of_values cwd session_id scope else invalid
    ]
  ]
]

-- `bundle.get("owner")` under a valid schema version.
owner_under : ℕ → Option Json → Checked (Option Owner)
owner_under v none = if v == 1 then valid none else invalid
owner_under v (some null) = if v == 1 then valid none else invalid
owner_under v (some (obj m)) = if v == 2 then owner_of_fields m else invalid
owner_under v (some _) = invalid

owner_of_version : Checked ℕ → Option Json → Checked (Option Owner)
owner_of_version invalid o = invalid
owner_of_version (valid v) o = owner_under v o

-- `_owner_from_bundle`
unfoldable pub owner_from_bundle : Fields → Checked (Option Owner)
unfolding owner_of_version owner_under
owner_from_bundle bundle = owner_of_version (validated_schema_version bundle) (get? "owner" bundle)

pub data Reply : Type 0 where
  stored : Reply
  idempotent : Reply
  invalid_dispatch_owner : Reply
  dispatch_owner_conflict : Reply
  dispatch_bundle_conflict : Reply

abbrev pub Identity : Type 0
Identity = List (String × String)

unfoldable pub same_identity : Identity → Identity → Bool
same_identity [] [] = true
same_identity ((a, b) ∷ l) ((c, d) ∷ m) = a == c && b == d && same_identity l m
same_identity _ _ = false

module _ (py : Python) where
  unfoldable pub step_identity : Fields → String × String
  step_identity s = (
    str_of py.render (get_or "step_id" no_text s),
    str_of py.render (get_or "checksum" no_text s),
  )

  -- `_step_identity_sequence`
  unfoldable pub step_identity_sequence : Fields → Result Identity
  unfolding step_identity
  step_identity_sequence bundle = do steps ← steps_of bundle; ok (map step_identity steps)

  -- The decision over an existing bundle whose owner and identity could be read.
  unfoldable pub decide_owners : Option Owner → Option Owner → Bool → Reply
  decide_owners (some a) (some b) same =
      if owners_equal a b
      then (if same then idempotent else dispatch_bundle_conflict)
      else dispatch_owner_conflict
  decide_owners _ _ _ = dispatch_owner_conflict

  unfoldable pub decide_existing : Checked (Option Owner) → Option Owner → Bool → Reply
  decide_existing invalid new same = invalid_dispatch_owner
  decide_existing (valid old) new same = decide_owners old new same

  unfoldable pub persist_over : Option Owner → Fields → Fields → Result Reply
  unfolding decide_existing decide_owners
  persist_over owner bundle existing = do
    existing_id ← step_identity_sequence existing
    new_id ← step_identity_sequence bundle
    ok (decide_existing (owner_from_bundle existing) owner (same_identity existing_id new_id))

  -- The critical section, for a bundle with a valid owner.
  unfoldable pub persist_under_lock : Option Owner → Fields → Leaf → Result Reply × Leaf
  persist_under_lock owner bundle absent = (ok stored, document (obj bundle))
  persist_under_lock owner bundle symlink = (err symlink_found, symlink)
  persist_under_lock owner bundle special =
      ((do existing ← read_bundle special; persist_over owner bundle existing), special)
  persist_under_lock owner bundle garbage =
      ((do existing ← read_bundle garbage; persist_over owner bundle existing), garbage)
  persist_under_lock owner bundle (document v) =
      ((do existing ← read_bundle (document v); persist_over owner bundle existing), document v)

  pub with_owner : String → Checked (Option Owner) → Fields → Store → Result Reply × Store
  with_owner w invalid bundle store = (ok invalid_dispatch_owner, store)
  with_owner w (valid owner) bundle store =
      let (reply, leaf) = persist_under_lock owner bundle (store w) in
      (reply, write_leaf w leaf store)

  unfoldable pub bundle_of : Option Json → Result Fields
  bundle_of none = err bundle_missing
  bundle_of (some (obj m)) = ok m
  bundle_of (some _) = err bundle_not_object

  pub persist_at : Result (String × Fields) → Store → Result Reply × Store
  persist_at (err e) store = (err e, store)
  persist_at (ok (w, bundle)) store = with_owner w (owner_from_bundle bundle) bundle store

  unfoldable pub persist : Fields → Store → Result Reply × Store
  unfolding persist_at with_owner
  persist payload store =
      persist_at
        (do
          work_id ← require_str "work_id" (get? "work_id" payload)
          bundle ← bundle_of (get? "bundle" payload)
          w ← validated_work_id py work_id
          ok (w, bundle))
        store
