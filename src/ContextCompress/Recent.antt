-- ===== src/ContextCompress/Recent.antt =====
-- `_stage_truncate_pinned_recent` of src/cluxion_runtime/core/context_compress.py, and its end.
use clx_preprocessing.Prelude.{
  Bool, Bool-cases, List, Option, Option-cases, [], ap, arith, false, if◌then◌else◌, inl, inr, leb,
  length, none, not, refl, some, subst, suc, true, zero, ℕ, ◌&&◌, ◌+◌, ◌<◌, ◌==◌, ◌∷◌, ◌≡◌, ◌≤◌,
  ◌⊎◌, comparable_texts, comparable_numbers,
}
use clx_preprocessing.Chars.{Text}
use clx_preprocessing.Preprocess.{estimate_tokens as estimate_tokens}
use clx_preprocessing.ContextCompress.{Msg}
use clx_preprocessing.ContextCompress.Stages.{
  Swept, adjusted, apply_head_tail_truncate, behind, elided, truncated, with_content,
}

-- `idx != intent_idx`
unfoldable pub is_other : Option ℕ → ℕ → Bool
is_other none idx = true
is_other (some intent) idx = not (idx == intent)

-- The characters of the contents.
unfoldable pub chars_of : List Msg → ℕ
chars_of [] = 0
chars_of (m ∷ ms) = length m.content + chars_of ms

not_leb : (a b : ℕ) → leb a b ≡ false → suc b ≤ a
not_leb a b h = ground (arith, h)

tested :
    (a b c : Bool) (t text : Text)
    → (if a then none else if b then none else if c then none else some t) ≡ some text
    → (c ≡ false) × (t ≡ text)
tested false false false t text e = (refl, cc e)
tested false false true t text e = cc e
tested false true c t text e = cc e
tested true b c t text e = cc e

module _ (show : ℕ → Text) (recent_start : ℕ) (intent_idx : Option ℕ) (target : ℕ) where
  -- `_pinned_recent_indices`, as a test of the index.
  unfoldable pub is_candidate : ℕ → Bool
  is_candidate idx = leb recent_start idx && is_other intent_idx idx

  unfoldable pub recent_one : ℕ → Msg → ℕ → Msg × ℕ × Bool
  unfolding is_candidate
  recent_one idx m total =
      if is_candidate idx && not (leb total target)
      then (elim (truncated show m) [
        | none ↦ (m, total, false)
        | some text ↦ (with_content m text, adjusted total m text, true)
      ])
      else (m, total, false)

  -- One pass over the candidates, with `progressed`. From where the target is met on nothing changes,
  -- which is what the `break` does.
  unfoldable pub recent_pass : ℕ → List Msg → ℕ → Swept
  unfolding recent_one behind
  recent_pass idx [] total = ([], total, false)
  recent_pass idx (m ∷ ms) total =
      let (n, left, changed) = recent_one idx m total in
      behind n changed (recent_pass (suc idx) ms left)

  -- The loop; `none` where the fuel is used up.
  unfoldable pub truncate_recent : ℕ → List Msg → ℕ → Bool → Option Swept
  unfolding recent_pass
  truncate_recent zero ms total changed = none
  truncate_recent (suc fuel) ms total changed =
      let (ns, left, progressed) = recent_pass 0 ms total in
      let rest = truncate_recent fuel ns left true in
      if leb total target
      then some (ms, total, changed)
      else if progressed
      then rest
      else some (ns, left, changed)

  shortens :
      (content text : Text)
      → apply_head_tail_truncate show content ≡ some text
      → suc (length text) ≤ length content
  unfolding apply_head_tail_truncate
  shortens content text e =
      let (short, is) =
        tested (leb (estimate_tokens content) 512) (leb (length content) 1800)
          (leb (length content) (length (elided show content))) (elided show content) text e in
      subst (λ t. suc (length t) ≤ length content) is
        (not_leb (length content) (length (elided show content)) short)

  -- What one turn of a pass does to the characters.
  recent_one-Shrinks :
      (idx : ℕ) (m : Msg) (total : ℕ)
      → length (recent_one idx m total).0.content + (if (recent_one idx m total).2 then 1 else 0)
        ≤ length m.content
  unfolding recent_one with_content truncated
  recent_one-Shrinks idx m total = elim (Bool-cases (is_candidate idx && not (leb total target))) [
    | inr skipped ↦ rw (skipped) (omega arith)
    | inl taken ↦ elim (Option-cases (apply_head_tail_truncate show m.content)) [
      | inl nothing ↦ rw (taken, nothing, recent_one) (omega arith)
      | inr (text, given) ↦
          rw (taken, given, recent_one) (omega (arith, shortens m.content text given))
    ]
  ]

  recent_pass-Shrinks :
      (idx : ℕ) (ms : List Msg) (total : ℕ)
      → chars_of (recent_pass idx ms total).0 + (if (recent_pass idx ms total).2 then 1 else 0)
        ≤ chars_of ms
  unfolding recent_pass chars_of behind
  recent_pass-Shrinks idx [] total = omega arith
  recent_pass-Shrinks idx (m ∷ ms) total =
      let one = recent_one idx m total in
      ground (arith, recent_one-Shrinks idx m total, recent_pass-Shrinks (suc idx) ms one.1)

  recent_one-same :
      (idx : ℕ) (m : Msg) (total : ℕ)
      → (recent_one idx m total).2 ≡ false
      → recent_one idx m total ≡ (m, total, false)
  unfolding recent_one
  recent_one-same idx m total e = elim (Bool-cases (is_candidate idx && not (leb total target))) [
    | inr skipped ↦ rw (skipped) refl
    | inl taken ↦ elim (Option-cases (truncated show m)) [
      | inl nothing ↦ rw (taken, nothing, recent_one) refl
      | inr (text, given) ↦ let f : true ≡ false = (rw (taken, given, recent_one) at e) in cc f
    ]
  ]

  -- A pass without progress changes nothing.
  recent_pass-same :
      (idx : ℕ) (ms : List Msg) (total : ℕ)
      → (recent_pass idx ms total).2 ≡ false
      → recent_pass idx ms total ≡ (ms, total, false)
  unfolding recent_pass behind
  recent_pass-same idx [] total e = refl
  recent_pass-same idx (m ∷ ms) total e =
      let one = recent_one idx m total in
      let here : one.2 ≡ false = ground (arith, e) in
      let is = recent_one-same idx m total here in
      let later : (recent_pass (suc idx) ms total).2 ≡ false =
        subst (λ n. (recent_pass (suc idx) ms n).2 ≡ false) (ap (λ r. r.1) is)
          (ground (arith, e)) in
      rw (is, recent_pass-same (suc idx) ms total later) refl

  -- What the loop ends with.
  abbrev pub HasEnded : Swept → Type 0
  HasEnded r = (r.1 ≤ target) ⊎ ((recent_pass 0 r.0 r.1).2 ≡ false)

  -- As many turns as the contents have characters, and one more, are enough for the loop of the last
  -- resort: it ends, where the target is met or one more pass would shorten nothing.
  pub truncate_recent_ends :
      (fuel : ℕ) (ms : List Msg) (total : ℕ) (changed : Bool)
      → chars_of ms < fuel
      → (r : Swept) × (truncate_recent fuel ms total changed ≡ some r) × HasEnded r
  unfolding truncate_recent
  truncate_recent_ends zero ms total changed h = absurd (omega (arith, h))
  truncate_recent_ends (suc fuel) ms total changed h = elim (Bool-cases (leb total target)) [
    | inl met ↦ ((ms, total, changed), rw (met) refl, inl (ground (arith, met)))
    | inr above ↦ elim (Bool-cases (recent_pass 0 ms total).2) [
      | inl progressed ↦
          let p = recent_pass 0 ms total in
          let fewer : chars_of p.0 < fuel =
            ground (arith, h, progressed, recent_pass-Shrinks 0 ms total) in
          let (r, e, done) = truncate_recent_ends fuel p.0 p.1 true fewer in
          (r, rw (above, progressed) e, done)
      | inr stuck ↦
          ((ms, total, changed), rw (above, recent_pass-same 0 ms total stuck) refl, inr stuck)
    ]
  ]
