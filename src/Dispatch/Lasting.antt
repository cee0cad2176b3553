-- ===== src/Dispatch/Lasting.antt =====
-- What every operation leaves alone: the list of steps, the content of each step, and each step
-- that has succeeded or failed.
use clx_preprocessing.Dispatch.Claim.{behind-some}
use clx_preprocessing.Dispatch.Steps.{claimable-not_terminal, steps_of-with_steps}
use clx_preprocessing.Dispatch.Next.{next_under_lock}
use clx_preprocessing.Prelude.{
  Bool, Bool-cases, List, Option, Option-cases, String, [], arith, false, inl, inr, none, refl,
  some, subst, sym, true, ℕ, ◌==◌, ◌||◌, ◌∙◌, ◌∷◌, ◌≡◌, comparable_texts, comparable_numbers,
}
use clx_preprocessing.Json.{Fields, field_is, get?, is_str, obj, put, str}
use clx_preprocessing.Json.Laws.{get?-put_ne}
use clx_preprocessing.Result.{Result-cases, ok}
use clx_preprocessing.Dispatch.{
  Leaf, Python, claim, claimable, document, is_terminal, mark_claimed, read_bundle, steps_of,
  timestamp, with_steps,
}
use clx_preprocessing.Dispatch.Record.{
  Report, find_step, mark_recorded, mark_step, on_found, record_under_lock, status_of,
  terminal_status,
}

-- The keys that say how far a step has got.
abbrev is_progress_key : String → Bool
is_progress_key k = "status" == k || "result" == k || "error" == k || "updated_at" == k

pub record Kept (s t : Fields) : Type 0 where
  pub finished : is_terminal s ≡ true → t ≡ s
  pub content : (k : String) → is_progress_key k ≡ false → get? k t ≡ get? k s

-- Step by step, at the same places.
abbrev pub KeptAll : List Fields → List Fields → Type 0
KeptAll [] [] = Unit
KeptAll (s ∷ steps) (t ∷ after) = Kept s t × KeptAll steps after
KeptAll _ _ = ⊥

Kept-refl : (s : Fields) → Kept s s
Kept-refl s = record { finished = λ _. refl; content = λ _ _. refl }

Kept-trans : (a b c : Fields) → Kept a b → Kept b c → Kept a c
Kept-trans a b c f g = record {
  finished = λ done.
      let same = f.finished done in
      g.finished (subst (λ x. is_terminal x ≡ true) (sym same) done) ∙ same;
  content = λ k h. g.content k h ∙ f.content k h;
}

KeptAll-refl : (steps : List Fields) → KeptAll steps steps
KeptAll-refl [] = tt
KeptAll-refl (s ∷ steps) = (Kept-refl s, KeptAll-refl steps)

KeptAll-trans : (xs ys zs : List Fields) → KeptAll xs ys → KeptAll ys zs → KeptAll xs zs
KeptAll-trans [] [] [] f g = tt
KeptAll-trans [] [] (z ∷ zs) f g = absurd g
KeptAll-trans [] (y ∷ ys) zs f g = absurd f
KeptAll-trans (x ∷ xs) [] zs f g = absurd f
KeptAll-trans (x ∷ xs) (y ∷ ys) [] f g = absurd g
KeptAll-trans (x ∷ xs) (y ∷ ys) (z ∷ zs) f g =
    (Kept-trans x y z f.0 g.0, KeptAll-trans xs ys zs f.1 g.1)

mark_claimed-Kept : (stamp : ℕ) (s : Fields) → is_terminal s ≡ false → Kept s (mark_claimed stamp s)
unfolding mark_claimed
mark_claimed-Kept stamp s unfinished = record {
  finished = λ done. cc;
  content = λ k h.
      get?-put_ne "updated_at" k (timestamp stamp) (put "status" (str "running") s) (ground arith)
      ∙ get?-put_ne "status" k (str "running") s (ground arith);
}

mark_recorded-Kept :
    (stamp : ℕ) (r : Report) (s : Fields) → is_terminal s ≡ false → Kept s (mark_recorded stamp r s)
unfolding mark_recorded
mark_recorded-Kept stamp r s unfinished = record {
  finished = λ done. cc;
  content = λ k h.
      let with_status = put "status" (str (status_of r)) s in
      let with_result = put "result" r.result with_status in
      get?-put_ne "updated_at" k (timestamp stamp) (put "error" r.error with_result) (ground arith)
      ∙ get?-put_ne "error" k r.error with_result (ground arith)
      ∙ get?-put_ne "result" k r.result with_status (ground arith)
      ∙ get?-put_ne "status" k (str (status_of r)) s (ground arith);
}

claim-KeptAll :
    (now stamp : ℕ) (steps : List Fields) (s : Fields) (after : List Fields)
    → claim now stamp steps ≡ some (s, after)
    → KeptAll steps after
unfolding claim
claim-KeptAll now stamp [] s after h = cc
claim-KeptAll now stamp (q ∷ steps) s after h = elim (Bool-cases (claimable now q)) [
  | inl can ↦
      let e : mark_claimed stamp q ∷ steps ≡ after = ground (arith, h, can) in
      subst (KeptAll (q ∷ steps)) e
        (mark_claimed-Kept stamp q (claimable-not_terminal now q can), KeptAll-refl steps)
  | inr cannot ↦
      let (rest, e, is_after) = behind-some q s after (claim now stamp steps) (rw cannot at h) in
      subst (KeptAll (q ∷ steps)) (sym is_after)
        (Kept-refl q, claim-KeptAll now stamp steps s rest e)
]

not_terminal : (s : Fields) → terminal_status (get? "status" s) ≡ ok false → is_terminal s ≡ false
unfolding terminal_status field_is is_str
not_terminal s h = ground arith

mark_step-KeptAll :
    (stamp : ℕ) (r : Report) (steps : List Fields) (s : Fields)
    → find_step r.step_id steps ≡ some s
    → terminal_status (get? "status" s) ≡ ok false
    → KeptAll steps (mark_step stamp r steps)
unfolding find_step mark_step
mark_step-KeptAll stamp r [] s h unfinished = tt
mark_step-KeptAll stamp r (q ∷ steps) s h unfinished =
    elim (Bool-cases (field_is "step_id" r.step_id q)) [
      | inl same ↦
          let e : s ≡ q = ground (arith, h, same) in
          rw same (
            mark_recorded-Kept stamp r q (
                not_terminal q
                  (subst (λ x. terminal_status (get? "status" x) ≡ ok false) e unfinished)),
            KeptAll-refl steps,
          )
      | inr other ↦
          rw other (Kept-refl q, mark_step-KeptAll stamp r steps s (rw other at h) unfinished)
    ]

-- A leaf and what an operation leaves in its place: the same, or the same bundle with other
-- progress.
pub data Progress (leaf : Leaf) (after : Leaf) : Type 0 where
  unchanged : after ≡ leaf → Progress leaf after
  advanced :
      (bundle : Fields) (steps steps' : List Fields)
      → leaf ≡ document (obj bundle)
      → steps_of bundle ≡ ok steps
      → after ≡ document (obj (with_steps steps' bundle))
      → KeptAll steps steps'
      → Progress leaf after

read_bundle-ok : (leaf : Leaf) (m : Fields) → read_bundle leaf ≡ ok m → leaf ≡ document (obj m)
unfolding read_bundle
read_bundle-ok leaf m h = ground arith

next-Progress : (now stamp : ℕ) (leaf : Leaf) → Progress leaf (next_under_lock now stamp leaf).1
unfolding next_under_lock
next-Progress now stamp leaf = elim (Result-cases (read_bundle leaf)) [
  | inr (e, bad) ↦ rw bad (unchanged refl)
  | inl (m, good) ↦ rw good (elim (Result-cases (steps_of m)) [
    | inr (e, bad) ↦ rw bad (unchanged refl)
    | inl (steps, are) ↦ rw are (elim (Option-cases (claim now stamp steps)) [
      | inl none_left ↦ rw none_left (unchanged refl)
      | inr ((s, after), e) ↦ rw e (
          advanced m steps after (read_bundle-ok leaf m good) are refl
            (claim-KeptAll now stamp steps s after e))
    ])
  ])
]

module _ (py : Python) where
  record-Progress :
      (stamp : ℕ) (r : Report) (leaf : Leaf) → Progress leaf (record_under_lock py stamp r leaf).1
  unfolding record_under_lock
  record-Progress stamp r leaf = elim (Result-cases (read_bundle leaf)) [
    | inr (e, bad) ↦ rw bad (unchanged refl)
    | inl (m, good) ↦ rw good (elim (Result-cases (steps_of m)) [
      | inr (e, bad) ↦ rw bad (unchanged refl)
      | inl (steps, are) ↦ rw are (over m good steps are (find_step r.step_id steps) refl)
    ])
  ]
    where
      over :
          (m : Fields)
          → read_bundle leaf ≡ ok m
          → (steps : List Fields) → steps_of m ≡ ok steps
          → (o : Option Fields) → find_step r.step_id steps ≡ o
          → Progress leaf (on_found py stamp r m o steps leaf).1
      over m good steps are none e = unchanged refl
      over m good steps are (some s) e = elim (Result-cases (terminal_status (get? "status" s))) [
        | inr (x, bad) ↦ rw bad (unchanged refl)
        | inl (true, done) ↦ rw done (unchanged refl)
        | inl (false, undone) ↦ rw undone (
            advanced m steps (mark_step stamp r steps) (read_bundle-ok leaf m good) are refl
              (mark_step-KeptAll stamp r steps s e undone))
      ]

-- A bundle stays a bundle with the same steps, each of them kept.
abbrev pub Keeps : Leaf → Leaf → Type 0
Keeps leaf after =
    (bundle : Fields) (steps : List Fields)
    → leaf ≡ document (obj bundle)
    → steps_of bundle ≡ ok steps
    → (bundle' : Fields) × (steps' : List Fields) × (after ≡ document (obj bundle'))
      × (steps_of bundle' ≡ ok steps')
      × KeptAll steps steps'

pub Keeps-refl : (leaf : Leaf) → Keeps leaf leaf
Keeps-refl leaf bundle steps e are = (bundle, steps, e, are, KeptAll-refl steps)

pub Keeps-trans : (a b c : Leaf) → Keeps a b → Keeps b c → Keeps a c
Keeps-trans a b c f g bundle steps e are =
    let (bundle', steps', e', are', k) = f bundle steps e are in
    let (bundle'', steps'', e'', are'', k') = g bundle' steps' e' are' in
    (bundle'', steps'', e'', are'', KeptAll-trans steps steps' steps'' k k')

pub Progress-Keeps : (leaf after : Leaf) → Progress leaf after → Keeps leaf after
Progress-Keeps leaf after (unchanged same) bundle steps e are =
    (bundle, steps, same ∙ e, are, KeptAll-refl steps)
Progress-Keeps leaf after (advanced m old new was were is k) bundle steps e are =
    let same : m ≡ bundle = ground (arith, was, e) in
    let same_steps : old ≡ steps = ground (arith, were, are, same) in
    (with_steps new m, new, is, steps_of-with_steps new m, subst (λ l. KeptAll l new) same_steps k)

pub next-Keeps : (now stamp : ℕ) (leaf : Leaf) → Keeps leaf (next_under_lock now stamp leaf).1
next-Keeps now stamp leaf = Progress-Keeps leaf _ (next-Progress now stamp leaf)

pub record-Keeps :
    (py : Python) (stamp : ℕ) (r : Report) (leaf : Leaf)
    → Keeps leaf (record_under_lock py stamp r leaf).1
record-Keeps py stamp r leaf = Progress-Keeps leaf _ (record-Progress py stamp r leaf)
