-- ===== src/ContextCompress/Stages.antt =====
-- The stages of src/cluxion_runtime/core/context_compress.py that need no model: `_stage_truncate`,
-- `_stage_dedup`, `_stage_digest`, and what `compress` makes of them.
use clx_preprocessing.Prelude.{
  Bool, List, Option, String, [], drop, false, if◌then◌else◌, leb, length, ltb, none, some, suc,
  take, true, ℕ, ◌++◌, ◌+◌, ◌-◌, ◌==◌, ◌||◌, ◌∷◌, comparable_texts, comparable_numbers,
}
use clx_preprocessing.Chars.{Text, newline}
use clx_preprocessing.Preprocess.{estimate_tokens as estimate_tokens, strip as strip}
use clx_preprocessing.Preprocess.Signals.{code_points as code_points}
use clx_preprocessing.ContextCompress.{Msg, contains, same_text, tokens_of}
use clx_preprocessing.ContextCompress.Pinned.{pinned_indices}

-- The messages, the total, and whether something has changed.
abbrev pub Swept : Type 0
Swept = List Msg × ℕ × Bool

unfoldable pub with_content : Msg → Text → Msg
with_content m text = record m { content = text }

-- `total - tokens + estimate_tokens(replacement)`
unfoldable pub adjusted : ℕ → Msg → Text → ℕ
adjusted total m text = (total - estimate_tokens m.content) + estimate_tokens text

unfoldable pub behind : Msg → Bool → Swept → Swept
behind m changed (ms, total, later) = (m ∷ ms, total, changed || later)

-- The loop of `_stage_truncate` and of `_stage_digest`, which differ in the replacement: it stops
-- where the target is met, and passes by what is pinned and what has no replacement.
module _ (replacement : Msg → Option Text) (pinned : List ℕ) (target : ℕ) where
  unfoldable pub sweep_one : ℕ → Msg → ℕ → Msg × ℕ × Bool
  sweep_one idx m total = if contains idx pinned then (m, total, false) else elim (replacement m) [
    | none ↦ (m, total, false)
    | some text ↦ (with_content m text, adjusted total m text, true)
  ]

  unfoldable pub sweep : ℕ → List Msg → ℕ → Swept
  unfolding sweep_one behind
  sweep idx [] total = ([], total, false)
  sweep idx (m ∷ ms) total = elim (leb total target) [
    | true ↦ (m ∷ ms, total, false)
    | false ↦
        let (n, left, changed) = sweep_one idx m total in behind n changed (sweep (suc idx) ms left)
  ]

-- `msg.content.split("\n", 1)[0]`
unfoldable pub first_line : Text → Text
first_line [] = []
first_line (c ∷ s) = let rest = first_line s in if c == newline then [] else c ∷ rest

module _ (show : ℕ → Text) where
  unfoldable pub elided : Text → Text
  elided content =
      take 1200 content
      ++ (code_points "\n[...cluxion: "
          ++ (show (length content - 1200 - 600)
              ++ (code_points " chars elided...]\n" ++ drop (length content - 600) content)))

  -- `_apply_head_tail_truncate`
  unfoldable pub apply_head_tail_truncate : Text → Option Text
  unfolding elided
  apply_head_tail_truncate content =
      if leb (estimate_tokens content) 512
      then none
      else if leb (length content) 1800
      then none
      else if leb (length content) (length (elided content))
      then none
      else some (elided content)

  unfoldable pub truncated : Msg → Option Text
  truncated m = apply_head_tail_truncate m.content

  unfoldable pub digest_line : Msg → Text
  digest_line m =
      code_points "[cluxion digest] "
      ++ (m.role
          ++ (code_points ": "
              ++ (take 120 (first_line m.content)
                  ++ (code_points " ["
                      ++ (show (estimate_tokens m.content) ++ code_points " tokens elided]")))))

  unfoldable pub digested : Msg → Option Text
  unfolding digest_line
  digested m =
      if leb (estimate_tokens m.content) (estimate_tokens (digest_line m))
      then none
      else some (digest_line m)

  unfoldable pub stage_truncate : List ℕ → ℕ → List Msg → ℕ → Swept
  unfolding sweep truncated
  stage_truncate pinned target messages total = sweep truncated pinned target 0 messages total

  unfoldable pub stage_digest : List ℕ → ℕ → List Msg → ℕ → Swept
  unfolding sweep digested
  stage_digest pinned target messages total = sweep digested pinned target 0 messages total

  -- `seen`
  abbrev pub Seen : Type 0
  Seen = List (Text × ℕ)

  unfoldable pub seen_at : Text → Seen → Option ℕ
  seen_at text [] = none
  seen_at text ((other, idx) ∷ seen) =
      let rest = seen_at text seen in if same_text other text then some idx else rest

  unfoldable pub duplicate_line : ℕ → Text
  duplicate_line idx =
      code_points "[cluxion: duplicate of message #" ++ (show idx ++ code_points " elided]")

  -- The message, the total, whether it has changed, and what has been seen.
  unfoldable pub dedup_one : List ℕ → ℕ → ℕ → Seen → Msg → ℕ → Msg × ℕ × Bool × Seen
  unfolding seen_at duplicate_line
  dedup_one pinned target idx seen m total =
      let trimmed = strip m.content in
      if ltb (length trimmed) 40 then (m, total, false, seen) else elim (seen_at trimmed seen) [
        | none ↦ (m, total, false, (trimmed, idx) ∷ seen)
        | some first ↦
            if leb total target || contains idx pinned then (m, total, false, seen) else (
              with_content m (duplicate_line first),
              adjusted total m (duplicate_line first),
              true,
              seen,
            )
      ]

  unfoldable pub dedup : List ℕ → ℕ → ℕ → Seen → List Msg → ℕ → Swept
  unfolding dedup_one behind
  dedup pinned target idx seen [] total = ([], total, false)
  dedup pinned target idx seen (m ∷ ms) total =
      let (n, left, changed, now_seen) = dedup_one pinned target idx seen m total in
      behind n changed (dedup pinned target (suc idx) now_seen ms left)

  unfoldable pub stage_dedup : List ℕ → ℕ → List Msg → ℕ → Swept
  unfolding dedup
  stage_dedup pinned target messages total = dedup pinned target 0 [] messages total

  -- The messages, the total, and `stages`.
  abbrev pub Staged : Type 0
  Staged = List Msg × ℕ × List String

  unfoldable pub noted : List String → String → Swept → Staged
  noted stages name (messages, total, changed) =
      (messages, total, if changed then stages ++ (name ∷ []) else stages)

  -- A later stage, `if total > target_tokens:`.
  unfoldable pub then_stage :
      (List ℕ → ℕ → List Msg → ℕ → Swept) → String → List ℕ → ℕ → Staged → Staged
  unfolding noted
  then_stage stage name pinned target (messages, total, stages) =
      if ltb target total
      then noted stages name (stage pinned target messages total)
      else (messages, total, stages)

  -- The part of `compress` from the trigger to the end of these stages.
  unfoldable pub stage_one : ℕ → ℕ → List Msg → Staged
  unfolding stage_truncate stage_dedup stage_digest noted then_stage pinned_indices
  stage_one keep_recent target messages =
      let pinned = pinned_indices messages keep_recent in
      then_stage stage_digest "digest" pinned target (
        then_stage stage_dedup "dedup" pinned target
          (noted [] "truncate" (stage_truncate pinned target messages (tokens_of messages))))
