-- ===== src/Ledger/Lines.antt =====
-- The text of the ledger file, as code points, and its lines: `str.splitlines` and `str.strip` as
-- Python documents them. The text is that of `read_text`, which leaves no carriage return in it.
use clx_preprocessing.Chars.{Text, is_space, newline}
use clx_preprocessing.Prelude.{
  All, Bool, Bool-cases, List, [], ap, false, if◌then◌else◌, inl, inr, leb, refl, true, ℕ, ◌&&◌,
  ◌++◌, ◌==◌, ◌||◌, ◌∙◌, ◌∷◌, ◌≡◌, comparable_texts, comparable_numbers,
}

-- The line boundaries of `str.splitlines`.
unfoldable pub is_break : ℕ → Bool
is_break c = leb 10 c && leb c 13 || leb 28 c && leb c 30 || c == 133 || c == 8232 || c == 8233

prepend : ℕ → List Text → List Text
prepend c [] = (c ∷ []) ∷ []
prepend c (l ∷ ls) = (c ∷ l) ∷ ls

-- `text.splitlines()`
unfoldable pub splitlines : Text → List Text
unfolding prepend
splitlines [] = []
splitlines (c ∷ s) = let rest = splitlines s in if is_break c then [] ∷ rest else prepend c rest

-- `not line.strip()`
unfoldable pub is_blank : Text → Bool
is_blank [] = true
is_blank (c ∷ s) = is_space c && is_blank s

-- No line boundary stands in the text.
abbrev pub IsLine : Text → Type 0
IsLine s = All (λ c. is_break c ≡ false) s

prepend-append :
    (c : ℕ) (l : Text) (ls ms : List Text) → prepend c (l ∷ ls ++ ms) ≡ prepend c (l ∷ ls) ++ ms
prepend-append c l ls ms = unfold prepend in refl

splitlines_cons :
    (t s : Text) → (l : Text) × (ls : List Text) × (splitlines (t ++ newline ∷ s) ≡ l ∷ ls)
unfolding splitlines is_break
splitlines_cons [] s = ([], splitlines s, refl)
splitlines_cons (c ∷ t) s =
    let (l, ls, e) = splitlines_cons t s in
    elim (Bool-cases (is_break c)) [
      | inl b ↦ ([], splitlines (t ++ newline ∷ s), rw (b) refl)
      | inr n ↦ (c ∷ l, ls, rw (n, e) refl)
    ]

-- The lines after a newline do not depend on what stands before it.
pub splitlines-append :
    (t s : Text) → splitlines (t ++ newline ∷ s) ≡ splitlines (t ++ newline ∷ []) ++ splitlines s
unfolding splitlines
splitlines-append [] s = unfold is_break in refl
splitlines-append (c ∷ t) s = elim (Bool-cases (is_break c)) [
  | inl b ↦ rw (b) (ap (◌∷◌ []) (splitlines-append t s))
  | inr n ↦ let (l, ls, e) = splitlines_cons t [] in rw (n, splitlines-append t s, e) refl
]

-- A boundary ends the first line.
pub splitlines_first :
    (l : Text) (b : ℕ) (s : Text)
    → IsLine l
    → is_break b ≡ true
    → splitlines (l ++ b ∷ s) ≡ l ∷ splitlines s
unfolding splitlines
splitlines_first [] b s h k = rw (k) refl
splitlines_first (c ∷ l) b s h k = rw (h.0, splitlines_first l b s h.1 k) refl

pub splitlines_line : (l : Text) → IsLine l → splitlines (l ++ newline ∷ []) ≡ l ∷ []
splitlines_line l h =
    splitlines_first l newline [] h (unfold is_break in refl) ∙ (unfold splitlines in refl)
