-- ===== src/Owner.antt =====
-- The queue owner of src/cluxion_runtime/resources/py_queue.py: three reserved metadata keys, all
-- present or all absent.
use clx_preprocessing.Prelude.{
  Bool, Option, String, ap, arith, eq_iff, false, if◌then◌else◌, none, not, refl, some, true, ◌&&◌,
  ◌==◌, ◌≡◌, comparable_texts, comparable_numbers,
}
use clx_preprocessing.Json.{Json, get?, null, obj, str}

pub record Owner : Type 0 where
  pub cwd : String
  pub session_id : String
  pub scope : String

-- The result of code that raises `ValueError("invalid_queue_owner")`.
pub data Checked {ℓ} (A : Type ℓ) : Type ℓ where
  valid : A → Checked A
  invalid : Checked A

-- The three `isinstance` tests with their emptiness tests, in the order of the source.
unfoldable pub owner_of_values : Json → Json → Json → Checked (Option Owner)
owner_of_values (str cwd) (str session_id) (str scope) =
    if cwd == ""
    then invalid
    else if scope == ""
    then invalid
    else valid (some (record { cwd = cwd; session_id = session_id; scope = scope }))
owner_of_values _ _ _ = invalid

owner_of_present : Option Json → Option Json → Option Json → Checked (Option Owner)
owner_of_present none none none = valid none
owner_of_present (some cwd) (some session_id) (some scope) = owner_of_values cwd session_id scope
owner_of_present _ _ _ = invalid

unfoldable pub queue_owner_from_metadata : Json → Checked (Option Owner)
unfolding owner_of_present owner_of_values
queue_owner_from_metadata null = valid none
queue_owner_from_metadata (obj m) =
    owner_of_present (get? "owner_cwd" m) (get? "owner_session_id" m) (get? "owner_scope" m)
queue_owner_from_metadata _ = invalid

-- `left == right` on the two dictionaries with the keys `cwd`, `session_id` and `scope`.
unfoldable pub owners_equal : Owner → Owner → Bool
owners_equal a b = a.cwd == b.cwd && a.session_id == b.session_id && a.scope == b.scope

unfoldable pub queue_owners_conflict : Option Owner → Option Owner → Bool
queue_owners_conflict none none = false
queue_owners_conflict (some a) (some b) = not (owners_equal a b)
queue_owners_conflict _ _ = true

pub owners_equal→eq : (a b : Owner) → owners_equal a b ≡ true → a ≡ b
unfolding owners_equal
owners_equal→eq a b h =
    ground (arith, eq_iff a.cwd b.cwd, eq_iff a.session_id b.session_id, eq_iff a.scope b.scope)

pub owners_equal_refl : (a : Owner) → owners_equal a a ≡ true
unfolding owners_equal
owners_equal_refl a =
    ground (arith, eq_iff a.cwd a.cwd, eq_iff a.session_id a.session_id, eq_iff a.scope a.scope)

pub no_conflict→eq : (a b : Option Owner) → queue_owners_conflict a b ≡ false → a ≡ b
unfolding queue_owners_conflict
no_conflict→eq none none h = refl
no_conflict→eq none (some b) h = cc
no_conflict→eq (some a) none h = cc
no_conflict→eq (some a) (some b) h = ap some (owners_equal→eq a b (ground arith))

pub no_conflict_refl : (a : Option Owner) → queue_owners_conflict a a ≡ false
unfolding queue_owners_conflict
no_conflict_refl none = refl
no_conflict_refl (some a) = ground (arith, owners_equal_refl a)
