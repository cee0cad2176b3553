-- ===== src/Preprocess/Places.antt =====
-- The places of the segments in the prompt.
use mathlib.Core.List.{append_assoc}
use clx_preprocessing.Prelude.{
  All, All-map, Bool, Bool-cases, List, Option, [], ap, arith, drop, false, if◌then◌else◌, inl, inr,
  length, length-append, length-take, max, none, refl, some, subst, suc, sym, take,
  take-append-drop, true, zero, ℕ, ◌++◌, ◌+◌, ◌-◌, ◌/◌, ◌∙◌, ◌∷◌, ◌≡◌, ◌≤◌,
}
use clx_preprocessing.Chars.{Text, is_space}
use clx_preprocessing.Preprocess.{
  Range, add_before, both, collect, find_boundary, lstrip, rstrip, skip_blank, strip,
}
use clx_preprocessing.Preprocess.Segments.{find_boundary_lem}
use clx_preprocessing.Preprocess.Collect.{All-append, append_nil}

-- The content stands in the text, whose first place is `at`, between the two places of the range.
pub record IsSlice (at : ℕ) (text : Text) (r : Range) : Type 0 where
  pub before : Text
  pub behind : Text
  pub split : text ≡ before ++ (r.0 ++ behind)
  pub first : r.1 ≡ at + length before
  pub last : r.2 ≡ r.1 + length r.0

unfoldable pub Places : ℕ → Text → Option (List Range) → Type 0
Places at text none = Unit
Places at text (some l) = All (IsSlice at text) l

-- What `lstrip` and `rstrip` take away.
lstrip-split :
    (s : Text)
    → (lead : Text) × (s ≡ lead ++ lstrip s) × (length lead ≡ length s - length (lstrip s))
unfolding lstrip
lstrip-split [] = ([], refl, omega arith)
lstrip-split (c ∷ s) = elim (Bool-cases (is_space c)) [
  | inl h ↦
      let (lead, e, n) = lstrip-split s in
      (
        c ∷ lead,
        rw (h) (ap (λ t. c ∷ t) e),
        rw (h) (omega (arith, n, ap length e, length-append lead (lstrip s))),
      )
  | inr h ↦ ([], rw (h) refl, rw (h) (omega arith))
]

add_before-split : (c : ℕ) (s : Text) → (trail : Text) × (c ∷ s ≡ add_before c s ++ trail)
unfolding add_before
add_before-split c [] = elim (Bool-cases (is_space c)) [
  | inl h ↦ (c ∷ [], rw (h) refl)
  | inr h ↦ ([], rw (h) refl)
]
add_before-split c (d ∷ s) = ([], ap (λ t. c ∷ d ∷ t) (sym (append_nil s)))

rstrip-split : (s : Text) → (trail : Text) × (s ≡ rstrip s ++ trail)
unfolding rstrip
rstrip-split [] = ([], refl)
rstrip-split (c ∷ s) =
    let (trail, e) = rstrip-split s in
    let (more, k) = add_before-split c (rstrip s) in
    (
      more ++ trail,
      ap (λ t. c ∷ t) e
          ∙ ap (λ t. t ++ trail) k
          ∙ append_assoc (add_before c (rstrip s)) more trail,
    )

reassociate :
    (a h r k t d : Text) → a ++ (h ++ (r ++ k) ++ t) ++ d ≡ a ++ h ++ (r ++ (k ++ (t ++ d)))
reassociate a h r k t d = simp append_assoc refl

-- A slice of the stripped chunk is a slice of the text.
chunk-IsSlice :
    (at b : ℕ) (text : Text) (r : Range)
    → IsSlice (at + (length (take b text) - length (lstrip (take b text)))) (strip (take b text)) r
    → IsSlice at text r
unfolding strip
chunk-IsSlice at b text r h =
    let (lead, e, n) = lstrip-split (take b text) in
    let (trail, k) = rstrip-split (lstrip (take b text)) in
    record {
      before = lead ++ h.before;
      behind = h.behind ++ (trail ++ drop b text);
      split =
          sym (take-append-drop b text)
          ∙ ap (λ x. x ++ drop b text) (e ∙ ap (λ x. lead ++ x) (k ∙ ap (λ x. x ++ trail) h.split))
          ∙ reassociate lead h.before r.0 h.behind trail (drop b text);
      first = omega (arith, h.first, length-append lead h.before, n);
      last = h.last;
    }

later-IsSlice :
    (at b : ℕ) (text : Text) (r : Range)
    → b ≤ length text
    → IsSlice (at + b) (drop b text) r
    → IsSlice at text r
later-IsSlice at b text r le h = record {
  before = take b text ++ h.before;
  behind = h.behind;
  split =
      sym (take-append-drop b text)
      ∙ ap (λ t. take b text ++ t) h.split
      ∙ sym (append_assoc (take b text) h.before (r.0 ++ h.behind));
  first = omega (arith, h.first, length-append (take b text) h.before, length-take b text, le);
  last = h.last;
}

Places-map :
    (at to : ℕ) (text whole : Text) (answer : Option (List Range))
    → ((r : Range) → IsSlice at text r → IsSlice to whole r)
    → Places at text answer
    → Places to whole answer
unfolding Places
Places-map at to text whole none f h = tt
Places-map at to text whole (some l) f h = All-map l f h

module _ (at : ℕ) (text : Text) where
  both-Places :
      (here later : Option (List Range))
      → Places at text here
      → Places at text later
      → Places at text (both here later)
  unfolding Places both
  both-Places none later h k = tt
  both-Places (some l) none h k = tt
  both-Places (some l) (some m) h k = All-append (IsSlice at text) l m h k

  skip_blank-Places :
      (chunk : Text) (here later : Option (List Range))
      → Places at text here
      → Places at text later
      → Places at text (skip_blank chunk here later)
  unfolding skip_blank
  skip_blank-Places [] here later h k = k
  skip_blank-Places (c ∷ chunk) here later h k = both-Places here later h k

  here-Places :
      (guard : Bool) (split : Option (List Range)) (r : Range)
      → Places at text split
      → IsSlice at text r
      → Places at text (if guard then split else some (r ∷ []))
  here-Places true split r h k = h
  here-Places false split r h k = unfold Places in (k, tt)

chunk_itself : (at : ℕ) (chunk : Text) → IsSlice at chunk (chunk, at, at + length chunk)
chunk_itself at chunk = record {
  before = [];
  behind = [];
  split = sym (append_nil chunk);
  first = omega arith;
  last = refl;
}

module _ (max_tokens : ℕ) where
  collect-Places :
      (fuel max_chars at : ℕ) (text : Text)
      → 1 ≤ max_chars
      → Places at text (collect fuel max_chars max_tokens at text)
  unfolding collect
  collect-Places zero max_chars at text h = unfold Places in tt
  collect-Places (suc fuel) max_chars at [] h = unfold Places in tt
  collect-Places (suc fuel) max_chars at (c ∷ s) h =
      let text = c ∷ s in
      let b = find_boundary max_chars text in
      let (b_pos, b_max, b_len) = find_boundary_lem max_chars c s h in
      let start = at + (length (take b text) - length (lstrip (take b text))) in
      let chunk = strip (take b text) in
      let inner = λ (r : Range) (k : IsSlice start chunk r). chunk-IsSlice at b text r k in
      skip_blank-Places at text chunk _ _
        (here-Places at text _ _ _
          (Places-map start at chunk text _ inner
            (collect-Places fuel (max 1024 (max_chars / 2)) start chunk (omega arith)))
          (inner _ (chunk_itself start chunk)))
        (Places-map (at + max b 1) at (drop (max b 1) text) text _
          (λ r k. later-IsSlice at (max b 1) text r (omega (arith, b_pos, b_len)) k)
          (collect-Places fuel max_chars (at + max b 1) (drop (max b 1) text) h))

  -- Where the limit on the characters is positive, each segment's content is what stands in the
  -- prompt between its two places.
  pub collect-IsSlice :
      (fuel max_chars : ℕ) (prompt : Text) (segments : List Range)
      → 1 ≤ max_chars
      → collect fuel max_chars max_tokens 0 prompt ≡ some segments
      → All (IsSlice 0 prompt) segments
  collect-IsSlice fuel max_chars prompt segments h e =
      unfold Places in subst (Places 0 prompt) e (collect-Places fuel max_chars 0 prompt h)
