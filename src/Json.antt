-- ===== src/Json.antt =====
-- The JSON values that the Python code holds as `dict[str, Any]`, and what it asks of them. A float
-- is held as its number of millionths. A text that stands for a JSON document is held as what
-- `json.loads` makes of it, and `none` where `json.loads` raises.
pub mod Laws
use clx_preprocessing.Prelude.{
  Bool, List, Option, String, [], false, if◌then◌else◌, neg_part, negsuc, none, pos, pos_part, some,
  sub_ℕ, true, ℕ, ℤ, ◌*◌, ◌==◌, ◌∷◌, comparable_texts, comparable_numbers,
}

mutual
  pub data Json : Type 0 where
    null : Json
    bool : Bool → Json
    int : ℤ → Json
    float : ℤ → Json
    str : String → Json
    arr : Items → Json
    obj : Fields → Json

  pub data Items : Type 0 where
    nil : Items
    cons : Json → Items → Items

  pub data Fields : Type 0 where
    end : Fields
    field : String → Json → Fields → Fields

-- `d.get(key)`, with `none` for a missing key.
unfoldable pub get? : String → Fields → Option Json
get? k end = none
get? k (field j v m) = if j == k then some v else get? k m

-- `d.get(key, default)`
unfoldable pub get_or : String → Json → Fields → Json
get_or k d m = elim (get? k m) [ none ↦ d | some v ↦ v ]

-- `key in d`
unfoldable pub has : String → Fields → Bool
has k m = elim (get? k m) [ none ↦ false | some _ ↦ true ]

-- `d[key] = value`
unfoldable pub put : String → Json → Fields → Fields
put k v end = field k v end
put k v (field j w m) = if j == k then field k v m else field j w (put k v m)

-- `value == text`
unfoldable pub is_str : String → Json → Bool
is_str t (str s) = s == t
is_str t _ = false

-- `d.get(key) == text`
unfoldable pub field_is : String → String → Fields → Bool
field_is k t m = elim (get? k m) [ none ↦ false | some v ↦ is_str t v ]

-- Python's truth of a value.
unfoldable pub truthy : Json → Bool
truthy null = false
truthy (bool b) = b
truthy (int (pos n)) = if n == 0 then false else true
truthy (int (negsuc _)) = true
truthy (float (pos n)) = if n == 0 then false else true
truthy (float (negsuc _)) = true
truthy (str s) = if s == "" then false else true
truthy (arr nil) = false
truthy (arr (cons _ _)) = true
truthy (obj end) = false
truthy (obj (field _ _ _)) = true

abbrev pub million : ℕ
million = 1000000

-- `float(v) if isinstance(v, (int, float)) else 0.0`, in millionths. A `bool` is an `int`.
unfoldable pub number_or_zero : Option Json → ℤ
number_or_zero (some (bool true)) = pos million
number_or_zero (some (int n)) = sub_ℕ (pos_part n * million) (neg_part n * million)
number_or_zero (some (float n)) = n
number_or_zero _ = pos 0

-- The elements of a JSON array.
unfoldable pub to_list : Items → List Json
to_list nil = []
to_list (cons v m) = v ∷ to_list m

unfoldable pub of_list : List Json → Items
of_list [] = nil
of_list (v ∷ l) = cons v (of_list l)

-- `str(v)` of a value that is no text is Python's own rendering, given as an argument.
unfoldable pub str_of : (Json → String) → Json → String
str_of render (str s) = s
str_of render v = render v
