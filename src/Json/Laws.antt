-- ===== src/Json/Laws.antt =====
-- The laws of the dictionary operations.
use clx_preprocessing.Prelude.{
  String, ◌≡◌, refl, true, false, some, List, [], ◌∷◌, arith, eq_iff, ◌==◌, comparable_texts,
  if◌then◌else◌, ap,
}
use clx_preprocessing.Json.{
  Json, Fields, end, field, get?, put, str, is_str, field_is, to_list, of_list,
}

pub get?-put :
    (k j : String) (v : Json) (m : Fields)
    → get? j (put k v m) ≡ (if k == j then some v else get? j m)
unfolding get? put
get?-put k j v end = refl
get?-put k j v (field i w m) = ground (arith, eq_iff k j, eq_iff i k, eq_iff i j, get?-put k j v m)

pub eq_refl_str : (k : String) → (k == k) ≡ true
eq_refl_str k = (eq_iff k k).1 refl

pub get?-put_self : (k : String) (v : Json) (m : Fields) → get? k (put k v m) ≡ some v
get?-put_self k v m = ground (arith, get?-put k k v m, eq_refl_str k)

pub get?-put_ne :
    (k j : String) (v : Json) (m : Fields) → k == j ≡ false → get? j (put k v m) ≡ get? j m
get?-put_ne k j v m h = ground (arith, get?-put k j v m)

pub field_is-put_self : (k s t : String) (m : Fields) → field_is k t (put k (str s) m) ≡ (s == t)
unfolding field_is is_str
field_is-put_self k s t m = ground (arith, get?-put_self k (str s) m)

pub field_is-put_ne :
    (k j t : String) (v : Json) (m : Fields)
    → k == j ≡ false
    → field_is j t (put k v m) ≡ field_is j t m
unfolding field_is
field_is-put_ne k j t v m h = ground (arith, get?-put_ne k j v m h)

pub to_list-of_list : (l : List Json) → to_list (of_list l) ≡ l
unfolding to_list of_list
to_list-of_list [] = refl
to_list-of_list (v ∷ l) = ap (λ r. v ∷ r) (to_list-of_list l)
