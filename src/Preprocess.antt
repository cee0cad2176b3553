-- ===== src/Preprocess.antt =====
-- src/cluxion_runtime/core/preprocess.py: the segments of a long prompt.
pub mod Segments
pub mod Collect
pub mod Places
pub mod Signals
pub mod Policy
pub mod Answer
pub mod Guarantees
pub mod Skipped
mod Tests
use clx_preprocessing.Prelude.{
  Bool, List, Option, [], count, drop, false, if◌then◌else◌, leb, length, ltb, max, none, some, suc,
  take, true, zero, ℕ, ◌&&◌, ◌++◌, ◌+◌, ◌-◌, ◌/◌, ◌==◌, ◌∷◌, comparable_texts, comparable_numbers,
}
use clx_preprocessing.Chars.{Text, is_space}

unfoldable pub is_ascii : ℕ → Bool
is_ascii c = ltb c 128

unfoldable pub estimate_tokens : Text → ℕ
estimate_tokens text =
    let ascii_chars = count is_ascii text in max 1 ((length text - ascii_chars) + ascii_chars / 4)

-- `text.lstrip()`
unfoldable pub lstrip : Text → Text
lstrip [] = []
lstrip (c ∷ s) = let rest = lstrip s in if is_space c then rest else c ∷ s

add_before : ℕ → Text → Text
add_before c [] = if is_space c then [] else c ∷ []
add_before c (d ∷ s) = c ∷ d ∷ s

-- `text.rstrip()`
unfoldable pub rstrip : Text → Text
unfolding add_before
rstrip [] = []
rstrip (c ∷ s) = add_before c (rstrip s)

unfoldable pub strip : Text → Text
strip s = rstrip (lstrip s)

-- `text.startswith(marker)`
unfoldable pub starts_with : Text → Text → Bool
starts_with [] s = true
starts_with (m ∷ marker) [] = false
starts_with (m ∷ marker) (c ∷ s) = m == c && starts_with marker s

-- `text.rfind(marker)`, with `none` for -1; the markers are not empty.
unfoldable pub rfind : Text → Text → Option ℕ
rfind marker [] = none
rfind marker (c ∷ s) = elim (rfind marker s) [
  | none ↦ if starts_with marker (c ∷ s) then some 0 else none
  | some i ↦ some (suc i)
]

-- The blank line, the newline, and the ends of sentences.
abbrev pub markers : List Text
markers =
    (10 ∷ 10 ∷ [])
    ∷ (10 ∷ [])
    ∷ (46 ∷ 32 ∷ [])
    ∷ (63 ∷ 32 ∷ [])
    ∷ (33 ∷ 32 ∷ [])
    ∷ (12290 ∷ [])
    ∷ []

-- The end of the window, or the place after the first marker that stands late enough in it.
unfoldable pub cut : Text → List Text → ℕ
cut window [] = length window
cut window (marker ∷ others) =
    let later = cut window others in
    elim (rfind marker window) [
      | none ↦ later
      | some i ↦ if ltb (max 200 (length window / 2)) i then i + length marker else later
    ]

-- `_find_boundary` counted from `start`: `rest` is the text from there on.
unfoldable pub find_boundary : ℕ → Text → ℕ
find_boundary max_chars rest =
    if leb (length rest) max_chars then length rest else cut (take max_chars rest) markers

-- A segment's content, and its first and last place in the prompt.
abbrev pub Range : Type 0
Range = Text × ℕ × ℕ

both : Option (List Range) → Option (List Range) → Option (List Range)
both (some here) (some later) = some (here ++ later)
both _ _ = none

-- `if chunk:`
skip_blank : Text → Option (List Range) → Option (List Range) → Option (List Range)
skip_blank [] here later = later
skip_blank (c ∷ chunk) here later = both here later

-- `_collect_segment_ranges`: `rest` is the text from `start` on and `at` is `origin + start`. The
-- fuel bounds the turns of the loop and the depth of the calls.
unfoldable pub collect : ℕ → ℕ → ℕ → ℕ → Text → Option (List Range)
unfolding both skip_blank
collect zero max_chars max_tokens at rest = none
collect (suc fuel) max_chars max_tokens at [] = some []
collect (suc fuel) max_chars max_tokens at (c ∷ s) =
    let rest = c ∷ s in
    let boundary = find_boundary max_chars rest in
    let raw_chunk = take boundary rest in
    let chunk = strip raw_chunk in
    let orig_start = at + (length raw_chunk - length (lstrip raw_chunk)) in
    let next = max boundary 1 in
    let later = collect fuel max_chars max_tokens (at + next) (drop next rest) in
    let split = collect fuel (max 1024 (max_chars / 2)) max_tokens orig_start chunk in
    let here =
      (if ltb max_tokens (estimate_tokens chunk) && ltb 1024 max_chars
        then split
        else some ((chunk, orig_start, orig_start + length chunk) ∷ [])) in
    skip_blank chunk here later
