-- ===== src/ContextCompress/Account.antt =====
-- What the deterministic stages keep.

use clx_preprocessing.Prelude.{
  Bool, Bool-cases, List, Option, Option-cases, [], arith, false, inl, inr, leb, refl, suc, true, ℕ,
  ◌+◌, ◌∙◌, ◌∷◌, ◌≡◌,
}
use clx_preprocessing.Chars.{Text}
use clx_preprocessing.Preprocess.{estimate_tokens as estimate_tokens}
use clx_preprocessing.ContextCompress.{Msg, contains, tokens_of}
use clx_preprocessing.ContextCompress.Stages.{
  Swept, adjusted, behind, sweep, sweep_one, with_content,
}

-- One message for another at the place `idx`: the content of a pinned one stays.
pub record IsKept (pinned : List ℕ) (idx : ℕ) (before after : Msg) : Type 0 where
  pub role_is : after.role ≡ before.role
  pub pinned_is : after.pinned ≡ before.pinned
  pub content_is : contains idx pinned ≡ true → after.content ≡ before.content

-- The same messages one by one, from the place `idx` on.
abbrev pub KeptFrom : List ℕ → ℕ → List Msg → List Msg → Type 0
KeptFrom pinned idx [] [] = Unit
KeptFrom pinned idx (m ∷ ms) (n ∷ ns) = IsKept pinned idx m n × KeptFrom pinned (suc idx) ms ns
KeptFrom pinned idx [] (n ∷ ns) = ⊥
KeptFrom pinned idx (m ∷ ms) [] = ⊥

same-IsKept : (pinned : List ℕ) (idx : ℕ) (m : Msg) → IsKept pinned idx m m
same-IsKept pinned idx m = record { role_is = refl; pinned_is = refl; content_is = λ _. refl }

pub KeptFrom-self : (pinned : List ℕ) (idx : ℕ) (ms : List Msg) → KeptFrom pinned idx ms ms
KeptFrom-self pinned idx [] = tt
KeptFrom-self pinned idx (m ∷ ms) = (same-IsKept pinned idx m, KeptFrom-self pinned (suc idx) ms)

pub KeptFrom-trans :
    (pinned : List ℕ) (idx : ℕ) (ms ns ks : List Msg)
    → KeptFrom pinned idx ms ns
    → KeptFrom pinned idx ns ks
    → KeptFrom pinned idx ms ks
KeptFrom-trans pinned idx [] [] [] h k = tt
KeptFrom-trans pinned idx (m ∷ ms) (n ∷ ns) (o ∷ ks) h k = (
  record {
    role_is = k.0.role_is ∙ h.0.role_is;
    pinned_is = k.0.pinned_is ∙ h.0.pinned_is;
    content_is = λ e. k.0.content_is e ∙ h.0.content_is e;
  },
  KeptFrom-trans pinned (suc idx) ms ns ks h.1 k.1,
)
KeptFrom-trans pinned idx [] [] (o ∷ ks) h k = absurd k
KeptFrom-trans pinned idx [] (n ∷ ns) ks h k = absurd h
KeptFrom-trans pinned idx (m ∷ ms) [] ks h k = absurd h
KeptFrom-trans pinned idx (m ∷ ms) (n ∷ ns) [] h k = absurd k

-- What one turn of a loop makes of a message and of the total.
pub record IsStep (pinned : List ℕ) (idx : ℕ) (m n : Msg) (total left : ℕ) : Type 0 where
  pub kept : IsKept pinned idx m n
  -- The total changes by as much as the message's tokens.
  pub moved :
      (others : ℕ)
      → total ≡ estimate_tokens m.content + others
      → left ≡ estimate_tokens n.content + others

pub unchanged-IsStep :
    (pinned : List ℕ) (idx : ℕ) (m : Msg) (total : ℕ) → IsStep pinned idx m m total total
unchanged-IsStep pinned idx m total = record {
  kept = same-IsKept pinned idx m;
  moved = λ others e. e;
}

pub changed-IsStep :
    (pinned : List ℕ) (idx : ℕ) (m : Msg) (total : ℕ) (text : Text)
    → contains idx pinned ≡ false
    → IsStep pinned idx m (with_content m text) total (adjusted total m text)
unfolding with_content adjusted
changed-IsStep pinned idx m total text free = record {
  kept = record { role_is = refl; pinned_is = refl; content_is = λ e. cc (e, free) };
  moved = λ others e. omega (arith, e);
}

-- The messages are kept, and the total is still that of all of them: `done` is what stands before.
pub record IsSwept (pinned : List ℕ) (idx done : ℕ) (ms : List Msg) (r : Swept) : Type 0 where
  pub kept : KeptFrom pinned idx ms r.0
  pub total_is : r.1 ≡ done + tokens_of r.0

module _ (pinned : List ℕ) where
  pub behind-IsSwept :
      (idx done : ℕ) (m n : Msg) (ms : List Msg) (total left : ℕ) (changed : Bool) (later : Swept)
      → IsStep pinned idx m n total left
      → IsSwept pinned (suc idx) (done + estimate_tokens n.content) ms later
      → IsSwept pinned idx done (m ∷ ms) (behind n changed later)
  unfolding behind tokens_of
  behind-IsSwept idx done m n ms total left changed later s h = record {
    kept = (s.kept, h.kept);
    total_is = omega (arith, h.total_is);
  }

  pub next_total :
      (idx done : ℕ) (m n : Msg) (ms : List Msg) (total left : ℕ)
      → IsStep pinned idx m n total left
      → total ≡ done + tokens_of (m ∷ ms)
      → left ≡ (done + estimate_tokens n.content) + tokens_of ms
  unfolding tokens_of
  next_total idx done m n ms total left s e =
      omega (arith, s.moved (done + tokens_of ms) (omega (arith, e)))

  module _ (replacement : Msg → Option Text) (target : ℕ) where
    sweep_one-IsStep :
        (idx : ℕ) (m : Msg) (total : ℕ)
        → IsStep pinned idx m
            (sweep_one replacement pinned target idx m total).0
            total
            (sweep_one replacement pinned target idx m total).1
    unfolding sweep_one
    sweep_one-IsStep idx m total = elim (Bool-cases (contains idx pinned)) [
      | inl held ↦ rw (held) (unchanged-IsStep pinned idx m total)
      | inr free ↦ elim (Option-cases (replacement m)) [
        | inl nothing ↦ rw (free, nothing, sweep_one) (unchanged-IsStep pinned idx m total)
        | inr (text, given) ↦
            rw (free, given, sweep_one) (changed-IsStep pinned idx m total text free)
      ]
    ]

    pub sweep-IsSwept :
        (idx done : ℕ) (ms : List Msg) (total : ℕ)
        → total ≡ done + tokens_of ms
        → IsSwept pinned idx done ms (sweep replacement pinned target idx ms total)
    unfolding sweep
    sweep-IsSwept idx done [] total e = record { kept = tt; total_is = e }
    sweep-IsSwept idx done (m ∷ ms) total e = elim (Bool-cases (leb total target)) [
      | inl met ↦
          rw (met, sweep) (record { kept = KeptFrom-self pinned idx (m ∷ ms); total_is = e })
      | inr above ↦
          let one = sweep_one replacement pinned target idx m total in
          let s = sweep_one-IsStep idx m total in
          rw (above, sweep)
            (behind-IsSwept idx done m one.0 ms total one.1 one.2 _ s (
              sweep-IsSwept (suc idx) (done + estimate_tokens one.0.content) ms one.1
                (next_total idx done m one.0 ms total one.1 s e)))
    ]
