-- ===== src/Ledger.antt =====
-- The durable ledger of src/cluxion_runtime/core/ledger.py: what Python's built-in conversions make
-- of a JSON value, and the modules of the ledger.
pub mod Codec
pub mod Lines
pub mod Event
pub mod State
use clx_preprocessing.Prelude.{
  Option, String, if◌then◌else◌, negsuc, none, pos, some, sub_ℕ, suc, ℤ, ◌/◌,
}
use clx_preprocessing.Json.{
  Fields, Json, bool, float, get?, int, million, number_or_zero, obj, str, str_of,
}
use clx_preprocessing.Result.{Result, err, key_error, ok, type_error, value_error, ◌>>=◌}

-- `str` of a value that is no text, `int` and `float` of a text, and `dict` of a value that is no
-- object, with `none` where they raise `ValueError` or `TypeError`.
pub record Python : Type 0 where
  pub render : Json → String
  pub int_of_text : String → Option ℤ
  pub float_of_text : String → Option ℤ
  pub dict_of_other : Json → Option Fields

pub or_value_error {ℓ} : {A : Type ℓ} → Option A → Result A
or_value_error none = err value_error
or_value_error (some a) = ok a

-- `d[key]`
unfoldable pub item_at : String → Fields → Result Json
item_at k m = elim (get? k m) [ none ↦ err key_error | some v ↦ ok v ]

module _ (py : Python) where
  unfoldable pub text_at : String → Fields → Result String
  text_at k m = do v ← item_at k m; ok (str_of py.render v)

  -- `int(v)`; a float is cut towards zero.
  unfoldable pub int_of : Json → Result ℤ
  int_of (int n) = ok n
  int_of (bool b) = ok (pos (if b then 1 else 0))
  int_of (float (pos n)) = ok (pos (n / million))
  int_of (float (negsuc n)) = ok (sub_ℕ 0 (suc n / million))
  int_of (str s) = or_value_error (py.int_of_text s)
  int_of _ = err type_error

  -- `float(v)`, in millionths.
  float_of : Json → Result ℤ
  float_of (float n) = ok n
  float_of (int n) = ok (number_or_zero (some (int n)))
  float_of (bool b) = ok (pos (if b then million else 0))
  float_of (str s) = or_value_error (py.float_of_text s)
  float_of _ = err type_error

  unfoldable pub int_at : String → Fields → Result ℤ
  unfolding int_of
  int_at k m = do v ← item_at k m; int_of v

  unfoldable pub float_at : String → Fields → Result ℤ
  unfolding float_of
  float_at k m = do v ← item_at k m; float_of v

  -- `dict(v)`
  unfoldable pub dict_of : Json → Result Fields
  dict_of (obj m) = ok m
  dict_of v = or_value_error (py.dict_of_other v)
