-- ===== src/Preprocess/Collect.antt =====
-- The segments hold what can be seen of the prompt, within the limits.
use mathlib.Core.List.{append_assoc}
use native.Mathlib.Nat.{add-mul, mul-le-mul_right}
use clx_preprocessing.Prelude.{
  All, All-map, Bool-cases, List, Option, [], ap, arith, drop, false, if◌then◌else◌, inl, inr, keep,
  keep-append, length, length-drop, length-take, ltb, max, not, not_ltb→le, refl, some, subst, suc,
  sym, take, take-append-drop, zero, ℕ, ◌&&◌, ◌*◌, ◌++◌, ◌+◌, ◌-◌, ◌/◌, ◌<◌, ◌∙◌, ◌∷◌, ◌≡◌, ◌≤◌,
  ◌⊎◌,
}
use clx_preprocessing.Chars.{Text, is_space}
use clx_preprocessing.Preprocess.{
  Range, both, collect, estimate_tokens, find_boundary, lstrip, skip_blank, strip,
}
use clx_preprocessing.Preprocess.Segments.{find_boundary_lem, length-strip, strip-visible, visible}

unfoldable pub contents : List Range → Text
contents [] = []
contents (r ∷ l) = r.0 ++ contents l

-- Not empty, within the limit on the characters, and within the limit on the tokens unless it is
-- short already.
abbrev pub IsSegment : (max_chars max_tokens : ℕ) → Range → Type 0
IsSegment max_chars max_tokens r =
    (1 ≤ length r.0)
    × (length r.0 ≤ max_chars)
    × ((estimate_tokens r.0 ≤ max_tokens) ⊎ (length r.0 ≤ 1024))

-- The segments of a text, which show what it shows.
pub record Shows (max_chars max_tokens : ℕ) (text : Text) (answer : Option (List Range))
    : Type 0 where
  pub segments : List Range
  pub answered : answer ≡ some segments
  pub same : visible (contents segments) ≡ visible text
  pub limits : All (IsSegment max_chars max_tokens) segments

visible-append : (s t : Text) → visible (s ++ t) ≡ visible s ++ visible t
unfolding visible
visible-append s t = keep-append (λ c. not (is_space c)) s t

contents-append : (l k : List Range) → contents (l ++ k) ≡ contents l ++ contents k
unfolding contents
contents-append [] k = refl
contents-append (r ∷ l) k =
    ap (λ s. r.0 ++ s) (contents-append l k) ∙ sym (append_assoc r.0 (contents l) (contents k))

pub append_nil : (s : Text) → s ++ [] ≡ s
append_nil [] = refl
append_nil (c ∷ s) = ap (λ t. c ∷ t) (append_nil s)

module _ (P : Range → Type 0) where
  pub All-append : (l k : List Range) → All P l → All P k → All P (l ++ k)
  All-append [] k h j = j
  All-append (r ∷ l) k h j = (h.0, All-append l k h.1 j)

module _ (max_chars max_tokens : ℕ) where
  both-Shows :
      (s t : Text) (here later : Option (List Range))
      → Shows max_chars max_tokens s here
      → Shows max_chars max_tokens t later
      → Shows max_chars max_tokens (s ++ t) (both here later)
  both-Shows s t here later h k = record {
    segments = h.segments ++ k.segments;
    answered = rw (h.answered, k.answered) (unfold both in refl);
    same =
        ap visible (contents-append h.segments k.segments)
        ∙ visible-append (contents h.segments) (contents k.segments)
        ∙ ap (λ v. v ++ visible (contents k.segments)) h.same
        ∙ ap (λ v. visible s ++ v) k.same
        ∙ sym (visible-append s t);
    limits = All-append (IsSegment max_chars max_tokens) h.segments k.segments h.limits k.limits;
  }

  same-Shows :
      (s t : Text) (here : Option (List Range))
      → visible s ≡ visible t
      → Shows max_chars max_tokens s here
      → Shows max_chars max_tokens t here
  same-Shows s t here e h = record {
    segments = h.segments;
    answered = h.answered;
    same = h.same ∙ e;
    limits = h.limits;
  }

  skip_blank-Shows :
      (chunk raw rest : Text) (here later : Option (List Range))
      → visible chunk ≡ visible raw
      → (1 ≤ length chunk → Shows max_chars max_tokens chunk here)
      → Shows max_chars max_tokens rest later
      → Shows max_chars max_tokens (raw ++ rest) (skip_blank chunk here later)
  unfolding skip_blank visible keep
  skip_blank-Shows [] raw rest here later e h k =
      same-Shows rest (raw ++ rest) later
        (sym (visible-append raw rest ∙ ap (λ v. v ++ visible rest) (sym e))) k
  skip_blank-Shows (c ∷ chunk) raw rest here later e h k =
      both-Shows raw rest here later (same-Shows (c ∷ chunk) raw here e (h (omega arith))) k

  one-Shows :
      (chunk : Text) (first last : ℕ)
      → IsSegment max_chars max_tokens (chunk, first, last)
      → Shows max_chars max_tokens chunk (some ((chunk, first, last) ∷ []))
  one-Shows chunk first last h = record {
    segments = (chunk, first, last) ∷ [];
    answered = refl;
    same = unfold contents in ap visible (append_nil chunk);
    limits = (h, tt);
  }

-- A smaller limit on the characters leaves the limits of the larger one.
weaker :
    (small large max_tokens : ℕ) (text : Text) (answer : Option (List Range))
    → small ≤ large
    → Shows small max_tokens text answer
    → Shows large max_tokens text answer
weaker small large max_tokens text answer le h = record {
  segments = h.segments;
  answered = h.answered;
  same = h.same;
  limits = All-map h.segments (λ r k. (k.0, omega (arith, k.1, le), k.2)) h.limits;
}

halved : (m : ℕ) → 1024 < m → max 1024 (m / 2) < m
halved m h = ground arith

deeper : (m small n a : ℕ) → small < m → a ≤ n → small * (n + 1) + a < m * (n + 1)
deeper m small n a h k =
    let le : small + 1 ≤ m = omega (arith, h) in
    let p : (small + 1) * (n + 1) ≤ m * (n + 1) = mul-le-mul_right (n + 1) le in
    omega (arith, p, add-mul small 1 (n + 1), k)

module _ (max_tokens n : ℕ) where
  fits_lem :
      (max_chars : ℕ) (chunk : Text)
      → length chunk ≤ max_chars
      → (ltb max_tokens (estimate_tokens chunk) && ltb 1024 max_chars) ≡ false
      → (estimate_tokens chunk ≤ max_tokens) ⊎ (length chunk ≤ 1024)
  fits_lem max_chars chunk short fits = elim (Bool-cases (ltb max_tokens (estimate_tokens chunk))) [
    | inl many ↦ inr (ground (arith, many, fits, short))
    | inr few ↦ inl (not_ltb→le max_tokens (estimate_tokens chunk) few)
  ]

  here-Shows :
      (max_chars first last : ℕ) (chunk : Text) (split : Option (List Range))
      → length chunk ≤ max_chars
      → (1024 < max_chars → Shows (max 1024 (max_chars / 2)) max_tokens chunk split)
      → 1 ≤ length chunk
      → Shows max_chars max_tokens chunk (
          if ltb max_tokens (estimate_tokens chunk) && ltb 1024 max_chars
          then split
          else some ((chunk, first, last) ∷ []))
  here-Shows max_chars first last chunk split short h pos_length =
      elim (Bool-cases (ltb max_tokens (estimate_tokens chunk) && ltb 1024 max_chars)) [
        | inl long ↦
            let large : 1024 < max_chars = ground (arith, long) in
            rw (long) (
              weaker (max 1024 (max_chars / 2)) max_chars max_tokens chunk split
                (omega (arith, halved max_chars large)) (h large))
        | inr fits ↦ rw (fits) (
            one-Shows max_chars max_tokens chunk first last
              (pos_length, short, fits_lem max_chars chunk short fits))
      ]

  -- With a positive limit on the characters and fuel for every turn the segmentation ends, whatever
  -- the text: its segments keep the characters that are no white space, in order, none is empty or longer than the limit, and none
  -- has more tokens than allowed unless it has at most 1024 characters.
  pub collect-Shows :
      (fuel max_chars at : ℕ) (rest : Text)
      → 1 ≤ max_chars
      → length rest ≤ n
      → max_chars * (n + 1) + length rest < fuel
      → Shows max_chars max_tokens rest (collect fuel max_chars max_tokens at rest)
  unfolding collect
  collect-Shows zero max_chars at rest h k l = absurd (omega (arith, l))
  collect-Shows (suc fuel) max_chars at [] h k l = record {
    segments = [];
    answered = refl;
    same = unfold contents in refl;
    limits = tt;
  }
  collect-Shows (suc fuel) max_chars at (c ∷ s) h k l =
      let rest = c ∷ s in
      let b = find_boundary max_chars rest in
      let (b_pos, b_max, b_len) = find_boundary_lem max_chars c s h in
      let raw = take b rest in
      let chunk = strip raw in
      let short : length chunk ≤ b =
        omega (arith, length-strip (take b (c ∷ s)), length-take b (c ∷ s)) in
      let next : b ≡ max b 1 = omega (arith, b_pos) in
      let later =
        collect-Shows fuel max_chars (at + max b 1) (drop (max b 1) rest) h
          (omega (arith, length-drop (max b 1) rest, k))
          (omega (arith, length-drop (max b 1) rest, l)) in
      let split = λ (large : 1024 < max_chars).
        collect-Shows fuel (max 1024 (max_chars / 2)) (at + (length raw - length (lstrip raw)))
          chunk (omega arith) (omega (arith, short, b_len, k))
          (omega (
            arith,
            l,
            deeper max_chars (max 1024 (max_chars / 2)) n (length chunk) (halved max_chars large)
                (omega (arith, short, b_len, k)),
          )) in
      let whole : take b rest ++ drop (max b 1) rest ≡ rest =
        ap (λ j. take b rest ++ drop j rest) (sym next) ∙ take-append-drop b rest in
      subst (λ t. Shows max_chars max_tokens t (collect (suc fuel) max_chars max_tokens at (c ∷ s)))
        whole
        (skip_blank-Shows max_chars max_tokens chunk raw (drop (max b 1) rest) _ _
          (strip-visible raw) (here-Shows max_chars _ _ chunk _ (omega (arith, short, b_max)) split)
          later)
