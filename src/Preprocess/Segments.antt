-- ===== src/Preprocess/Segments.antt =====
-- The segments lose nothing but white space, and the loop ends.
use clx_preprocessing.Prelude.{
  Bool-cases, List, Option, [], arith, if◌then◌else◌, inl, inr, keep, length, length-take, ltb, max,
  none, not, refl, some, suc, take, true, ℕ, ◌+◌, ◌/◌, ◌∙◌, ◌∷◌, ◌≡◌, ◌≤◌,
}
use clx_preprocessing.Chars.{Text, is_space}
use clx_preprocessing.Preprocess.{
  add_before, cut, find_boundary, lstrip, markers, rfind, rstrip, starts_with, strip,
}

-- The characters that are no white space, in order.
unfoldable pub visible : Text → Text
visible s = keep (λ c. not (is_space c)) s

lstrip-visible : (s : Text) → visible (lstrip s) ≡ visible s
unfolding lstrip visible keep
lstrip-visible [] = refl
lstrip-visible (c ∷ s) = ground (arith, lstrip-visible s)

add_before-visible : (c : ℕ) (s : Text) → visible (add_before c s) ≡ visible (c ∷ s)
unfolding add_before visible keep
add_before-visible c [] = ground arith
add_before-visible c (d ∷ s) = refl

pub visible_cons : (c : ℕ) (s t : Text) → visible s ≡ visible t → visible (c ∷ s) ≡ visible (c ∷ t)
unfolding visible keep
visible_cons c s t h = ground arith

rstrip-visible : (s : Text) → visible (rstrip s) ≡ visible s
unfolding rstrip
rstrip-visible [] = refl
rstrip-visible (c ∷ s) =
    add_before-visible c (rstrip s) ∙ visible_cons c (rstrip s) s (rstrip-visible s)

pub strip-visible : (s : Text) → visible (strip s) ≡ visible s
unfolding strip
strip-visible s = rstrip-visible (lstrip s) ∙ lstrip-visible s

length-lstrip : (s : Text) → length (lstrip s) ≤ length s
unfolding lstrip
length-lstrip [] = omega arith
length-lstrip (c ∷ s) = ground (arith, length-lstrip s)

length-add_before : (c : ℕ) (s : Text) → length (add_before c s) ≤ suc (length s)
unfolding add_before
length-add_before c [] = ground arith
length-add_before c (d ∷ s) = omega arith

length-rstrip : (s : Text) → length (rstrip s) ≤ length s
unfolding rstrip
length-rstrip [] = omega arith
length-rstrip (c ∷ s) = omega (arith, length-add_before c (rstrip s), length-rstrip s)

pub length-strip : (s : Text) → length (strip s) ≤ length s
unfolding strip
length-strip s = omega (arith, length-rstrip (lstrip s), length-lstrip s)

starts_with-length : (m s : Text) → starts_with m s ≡ true → length m ≤ length s
unfolding starts_with
starts_with-length [] s h = omega arith
starts_with-length (a ∷ m) [] h = cc
starts_with-length (a ∷ m) (c ∷ s) h =
    let k : starts_with m s ≡ true = ground (arith, h) in omega (arith, starts_with-length m s k)

-- What is found lies in the text.
Found : Text → Text → Option ℕ → Type 0
Found m w none = Unit
Found m w (some i) = i + length m ≤ length w

here_lem : (m s : Text) → Found m s (if starts_with m s then some 0 else none)
here_lem m s = elim (Bool-cases (starts_with m s)) [
  | inl h ↦ rw (h) (unfold Found in omega (arith, starts_with-length m s h))
  | inr h ↦ rw (h) (unfold Found in tt)
]

next_lem :
    (m : Text) (c : ℕ) (s : Text) (o : Option ℕ)
    → Found m s o
    → Found m
        (c ∷ s)
        (elim o [ none ↦ if starts_with m (c ∷ s) then some 0 else none | some i ↦ some (suc i) ])
unfolding Found
next_lem m c s none h = here_lem m (c ∷ s)
next_lem m c s (some i) h = omega (arith, h)

rfind-Found : (m w : Text) → Found m w (rfind m w)
unfolding rfind
rfind-Found m [] = unfold Found in tt
rfind-Found m (c ∷ s) = next_lem m c s (rfind m s) (rfind-Found m s)

abbrev IsIn : ℕ → Text → Type 0
IsIn k w = (1 ≤ k) × (k ≤ length w)

cut_at :
    (w m : Text) (later : ℕ) (o : Option ℕ)
    → Found m w o
    → IsIn later w
    → IsIn
        (elim o [
          | none ↦ later
          | some i ↦ if ltb (max 200 (length w / 2)) i then i + length m else later
        ])
        w
unfolding Found
cut_at w m later none h k = k
cut_at w m later (some i) h k = (ground (arith, h, k), ground (arith, h, k))

cut-IsIn : (w : Text) (ms : List Text) → 1 ≤ length w → IsIn (cut w ms) w
unfolding cut
cut-IsIn w [] h = (h, omega arith)
cut-IsIn w (m ∷ ms) h = cut_at w m (cut w ms) (rfind m w) (rfind-Found m w) (cut-IsIn w ms h)

-- The boundary lies after the start, within the limit and the text.
pub find_boundary_lem :
    (max_chars c : ℕ) (s : Text)
    → 1 ≤ max_chars
    → (1 ≤ find_boundary max_chars (c ∷ s))
      × (find_boundary max_chars (c ∷ s) ≤ max_chars)
      × (find_boundary max_chars (c ∷ s) ≤ length (c ∷ s))
unfolding find_boundary
find_boundary_lem max_chars c s h =
    let t = length-take max_chars (c ∷ s) in
    let l : 1 ≤ length (take max_chars (c ∷ s)) = omega (arith, t, h) in
    let (a, b) = cut-IsIn (take max_chars (c ∷ s)) markers l in
    (ground (arith, a, b, t), ground (arith, a, b, t), ground (arith, a, b, t))
