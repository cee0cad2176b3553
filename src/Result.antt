-- ===== src/Result.antt =====
-- Code that may raise: a value or the exception.
use clx_preprocessing.Prelude.{String, inl, inr, refl, ◌≡◌, ◌⊎◌}

pub data Error : Type 0 where
  missing_field : String → Error
  bundle_missing bundle_not_object : Error
  work_id_empty work_id_invalid : Error
  symlink_found non_regular_file bundle_not_found invalid_json expected_object : Error
  expected_steps_array expected_step_objects : Error
  unhashable_status : Error
  step_not_found : Error
  key_error type_error value_error : Error
  owner_invalid owner_conflicting bundle_conflicting : Error

-- `err` for a raised exception, `ok` for a return.
pub data Result {ℓ} (A : Type ℓ) : Type ℓ where
  err : Error → Result A
  ok : A → Result A

-- The rest of a block runs only where nothing was raised.
infixl 5 ◌>>=◌
abbrev pub ◌>>=◌ {ℓ κ} : {A : Type ℓ} {B : Type κ} (r : Result A) (rest : A → Result B) → Result B
err raised >>= rest = err raised
ok value >>= rest = rest value

pub Result-cases {ℓ} :
    {A : Type ℓ} (r : Result A) → ((a : A) × (r ≡ ok a)) ⊎ ((e : Error) × (r ≡ err e))
Result-cases (ok a) = inl (a, refl)
Result-cases (err e) = inr (e, refl)

-- What a bind that returns has gone through.
pub bind-ok {ℓ κ} :
    {A : Type ℓ} {B : Type κ} (r : Result A) (rest : A → Result B) (b : B)
    → (r >>= rest) ≡ ok b
    → (a : A) × (r ≡ ok a) × (rest a ≡ ok b)
bind-ok (ok a) rest b e = (a, refl, e)
bind-ok (err raised) rest b e = cc e
