-- ===== src/ContextCompress/Kept.antt =====
-- What `compress` keeps up to the end of the deterministic stages.
use clx_preprocessing.Prelude.{
  Bool-cases, List, Option, Option-cases, String, [], ap, arith, inl, inr, leb, length, ltb, none,
  refl, some, subst, suc, true, zero, ℕ, ◌+◌, ◌<◌, ◌||◌, ◌∷◌, ◌≡◌, ◌≤◌, ◌⊎◌,
}
use clx_preprocessing.Chars.{Text}
use clx_preprocessing.Preprocess.{estimate_tokens as estimate_tokens, strip as strip}
use clx_preprocessing.ContextCompress.{Msg, contains, tokens_of}
use clx_preprocessing.ContextCompress.Pinned.{
  first_user, pinned_indices, recent_pinned, user_pinned,
}
use clx_preprocessing.ContextCompress.Stages.{
  Seen, Staged, Swept, dedup, dedup_one, digested, duplicate_line, noted, seen_at, stage_dedup,
  stage_digest, stage_one, stage_truncate, then_stage, truncated,
}
use clx_preprocessing.ContextCompress.Account.{
  IsStep, IsSwept, KeptFrom, KeptFrom-trans, behind-IsSwept, changed-IsStep, next_total,
  sweep-IsSwept, unchanged-IsStep,
}

module _ (show : ℕ → Text) (pinned : List ℕ) (target : ℕ) where
  dedup_one-IsStep :
      (idx : ℕ) (seen : Seen show) (m : Msg) (total : ℕ)
      → IsStep pinned idx m
          (dedup_one show pinned target idx seen m total).0
          total
          (dedup_one show pinned target idx seen m total).1
  unfolding dedup_one
  dedup_one-IsStep idx seen m total = elim (Bool-cases (ltb (length (strip m.content)) 40)) [
    | inl short ↦ rw (short, dedup_one) (unchanged-IsStep pinned idx m total)
    | inr long ↦ elim (Option-cases (seen_at show (strip m.content) seen)) [
      | inl new ↦ rw (long, new, dedup_one) (unchanged-IsStep pinned idx m total)
      | inr (first, old) ↦ elim (Bool-cases (leb total target || contains idx pinned)) [
        | inl spared ↦ rw (long, old, spared, dedup_one) (unchanged-IsStep pinned idx m total)
        | inr free ↦
            rw (long, old, free, dedup_one)
              (changed-IsStep pinned idx m total (duplicate_line show first) (ground (arith, free)))
      ]
    ]
  ]

  dedup-IsSwept :
      (idx done : ℕ) (seen : Seen show) (ms : List Msg) (total : ℕ)
      → total ≡ done + tokens_of ms
      → IsSwept pinned idx done ms (dedup show pinned target idx seen ms total)
  unfolding dedup
  dedup-IsSwept idx done seen [] total e = record { kept = tt; total_is = e }
  dedup-IsSwept idx done seen (m ∷ ms) total e =
      let one = dedup_one show pinned target idx seen m total in
      let s = dedup_one-IsStep idx seen m total in
      behind-IsSwept pinned idx done m one.0 ms total one.1 one.2 _ s (
        dedup-IsSwept (suc idx) (done + estimate_tokens one.0.content) one.3 ms one.1
          (next_total pinned idx done m one.0 ms total one.1 s e))

  -- After some stages: the messages are kept, and the total is that of them.
  record IsStaged (messages : List Msg) (r : Staged show) : Type 0 where
    kept : KeptFrom pinned 0 messages r.0
    total_is : r.1 ≡ tokens_of r.0

  then_stage-IsStaged :
      (stage : List ℕ → ℕ → List Msg → ℕ → Swept) (name : String) (messages : List Msg)
      (r : Staged show)
      → ((ms : List Msg) (total : ℕ)
          → total ≡ tokens_of ms
          → IsSwept pinned 0 0 ms (stage pinned target ms total))
      → IsStaged messages r
      → IsStaged messages (then_stage show stage name pinned target r)
  unfolding then_stage noted
  then_stage-IsStaged stage name messages (ms, total, stages) sound h =
      elim (Bool-cases (ltb target total)) [
        | inr met ↦ rw (met) h
        | inl above ↦
            let s = sound ms total (omega (arith, h.total_is)) in
            rw (above) (record {
              kept = KeptFrom-trans pinned 0 messages ms _ h.kept s.kept;
              total_is = omega (arith, s.total_is);
            })
      ]

module _ (show : ℕ → Text) (keep_recent target : ℕ) (messages : List Msg) where
  staged :
      IsStaged show
        (pinned_indices messages keep_recent)
        target
        messages
        (stage_one show keep_recent target messages)
  unfolding stage_one stage_truncate stage_dedup stage_digest noted
  staged =
      let pinned = pinned_indices messages keep_recent in
      let first =
        sweep-IsSwept pinned (truncated show) target 0 0 messages (tokens_of messages)
          (omega arith) in
      then_stage-IsStaged show pinned target (stage_digest show) "digest" messages _
        (λ ms total e. sweep-IsSwept pinned (digested show) target 0 0 ms total (omega (arith, e)))
        (then_stage-IsStaged show pinned target (stage_dedup show) "dedup" messages _
          (λ ms total e. dedup-IsSwept show pinned target 0 0 [] ms total (omega (arith, e)))
          (record { kept = first.kept; total_is = omega (arith, first.total_is) }))

  -- Up to the end of the deterministic stages every message keeps its place, its role and its pin, the
  -- content of a pinned one is the same, and the total that the stages count is the sum of the
  -- messages' tokens.
  pub stage_one_keeps :
      KeptFrom
        (pinned_indices messages keep_recent)
        0
        messages
        (stage_one show keep_recent target messages).0
      × ((stage_one show keep_recent target messages).1
          ≡ tokens_of (stage_one show keep_recent target messages).0)
  stage_one_keeps = (staged.kept, staged.total_is)

-- The content of the message at a place.
unfoldable pub content_at : ℕ → List Msg → Option Text
content_at n [] = none
content_at zero (m ∷ ms) = some m.content
content_at (suc n) (m ∷ ms) = content_at n ms

content_at-KeptFrom :
    (pinned : List ℕ) (idx n place : ℕ) (ms ns : List Msg)
    → place ≡ idx + n
    → contains place pinned ≡ true
    → KeptFrom pinned idx ms ns
    → content_at n ns ≡ content_at n ms
unfolding content_at
content_at-KeptFrom pinned idx n place [] [] e h k = refl
content_at-KeptFrom pinned idx zero place (m ∷ ms) (o ∷ ns) e h k =
    let here : place ≡ idx = omega (arith, e) in
    ap some (k.0.content_is (subst (λ i. contains i pinned ≡ true) here h))
content_at-KeptFrom pinned idx (suc n) place (m ∷ ms) (o ∷ ns) e h k =
    content_at-KeptFrom pinned (suc idx) n place ms ns (omega (arith, e)) h k.1
content_at-KeptFrom pinned idx n place [] (o ∷ ns) e h k = absurd k
content_at-KeptFrom pinned idx n place (m ∷ ms) [] e h k = absurd k

-- The deterministic stages leave the content of the first message of the user as it is, and the
-- content of the `keep_recent` last messages.
pub stage_one_spares :
    (show : ℕ → Text) (keep_recent target n : ℕ) (messages : List Msg)
    → (first_user 0 messages ≡ some n)
      ⊎ ((length messages ≤ n + keep_recent) × (n < length messages))
    → content_at n (stage_one show keep_recent target messages).0 ≡ content_at n messages
stage_one_spares show keep_recent target n messages which =
    content_at-KeptFrom (pinned_indices messages keep_recent) 0 n n messages _ (omega arith)
      (elim which [
        | inl first ↦ user_pinned messages keep_recent n first
        | inr (late, inside) ↦ recent_pinned messages keep_recent n late inside
      ])
      (stage_one_keeps show keep_recent target messages).0
