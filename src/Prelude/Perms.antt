-- ===== src/Prelude/Perms.antt =====
-- What a permutation keeps.
use mathlib.Core.HLevel.{Unit-prop, ×_prop}
use mathlib.Core.Logic.{∥∥₁_elim}
use mathlib.Core.List.{Perm, Permᴰ}
use mathlib.Core.Path.{◌≡◌, refl, ◌∙◌, subst}
use mathlib.Core.List.{List, [], ◌∷◌}
use native.Mathlib.Nat.{ℕ_set}
use native.Mathlib.Omega.{arith}
use clx_preprocessing.Prelude.Lists.{All, length}

module _ {ℓ} {A : Type ℓ} where
  length-permᴰ : {xs ys : List A} → Permᴰ xs ys → length xs ≡ length ys
  length-permᴰ Permᴰ.nil = refl
  length-permᴰ (Permᴰ.cons e p) = omega (arith, length-permᴰ p)
  length-permᴰ (Permᴰ.swap e f) = refl
  length-permᴰ (Permᴰ.trans p q) = length-permᴰ p ∙ length-permᴰ q

  pub length-perm : {xs ys : List A} → Perm xs ys → length xs ≡ length ys
  length-perm p = ∥∥₁_elim p (ℕ_set _ _) length-permᴰ

module _ {ℓ κ} {A : Type ℓ} (P : A → Type κ) where
  All-permᴰ : {xs ys : List A} → Permᴰ xs ys → All P xs → All P ys
  All-permᴰ Permᴰ.nil h = h
  All-permᴰ (Permᴰ.cons e p) h = (subst P e h.0, All-permᴰ p h.1)
  All-permᴰ (Permᴰ.swap e f) h = (subst P f h.1.0, (subst P e h.0, h.1.1))
  All-permᴰ (Permᴰ.trans p q) h = All-permᴰ q (All-permᴰ p h)

  All-prop : ((x : A) → IsProp (P x)) → (xs : List A) → IsProp (All P xs)
  All-prop f [] = Unit-prop
  All-prop f (x ∷ xs) = ×_prop (f x) (All-prop f xs)

  pub All-perm : ((x : A) → IsProp (P x)) → (xs ys : List A) → Perm xs ys → All P xs → All P ys
  All-perm f xs ys p h = ∥∥₁_elim p (All-prop f ys) (λ d. All-permᴰ d h)
