-- ===== src/ContextCompress/Pinned.antt =====
-- `_pinned_indices` of src/cluxion_runtime/core/context_compress.py.
use clx_preprocessing.Prelude.{
  Bool-cases, List, Option, [], arith, if◌then◌else◌, inl, inr, leb, length, none, refl, some,
  subst, suc, true, zero, ℕ, ◌++◌, ◌+◌, ◌-◌, ◌<◌, ◌==◌, ◌||◌, ◌∷◌, ◌≡◌, ◌≤◌, comparable_texts,
  comparable_numbers,
}
use clx_preprocessing.Preprocess.Signals.{code_points as code_points}
use clx_preprocessing.ContextCompress.{Msg, contains, same_text}

-- The places of the messages that are pinned themselves.
unfoldable pub marked : ℕ → List Msg → List ℕ
marked idx [] = []
marked idx (m ∷ ms) = let rest = marked (suc idx) ms in if m.pinned then idx ∷ rest else rest

-- `next((idx for idx, msg in enumerate(messages) if msg.role == "user"), None)`
unfoldable pub first_user : ℕ → List Msg → Option ℕ
first_user idx [] = none
first_user idx (m ∷ ms) =
    let rest = first_user (suc idx) ms in
    if same_text m.role (code_points "user") then some idx else rest

unfoldable pub with_index : ℕ → List ℕ → List ℕ
with_index idx pinned = if contains idx pinned then pinned else pinned ++ (idx ∷ [])

unfoldable pub with_user : Option ℕ → List ℕ → List ℕ
with_user none pinned = pinned
with_user (some idx) pinned = with_index idx pinned

-- The loop over `range(recent_start, len(messages))`; `left` of its indices are left.
unfoldable pub with_recent : ℕ → ℕ → List ℕ → List ℕ
with_recent zero idx pinned = pinned
with_recent (suc left) idx pinned = with_recent left (suc idx) (with_index idx pinned)

-- `list.sort`
unfoldable pub insert : ℕ → List ℕ → List ℕ
insert n [] = n ∷ []
insert n (m ∷ ms) = let rest = insert n ms in if leb n m then n ∷ m ∷ ms else m ∷ rest

unfoldable pub sort : List ℕ → List ℕ
sort [] = []
sort (n ∷ ns) = insert n (sort ns)

unfoldable pub pinned_indices : List Msg → ℕ → List ℕ
pinned_indices messages keep_recent =
    let recent_start = length messages - keep_recent in
    sort (
      with_recent (length messages - recent_start) recent_start
        (with_user (first_user 0 messages) (marked 0 messages)))

contains-append : (n : ℕ) (l k : List ℕ) → contains n (l ++ k) ≡ (contains n l || contains n k)
unfolding contains
contains-append n [] k = refl
contains-append n (m ∷ l) k = ground (arith, contains-append n l k)

contains-with_index :
    (n idx : ℕ) (l : List ℕ) → contains n l ≡ true → contains n (with_index idx l) ≡ true
unfolding with_index contains
contains-with_index n idx l h = ground (arith, h, contains-append n l (idx ∷ []))

with_index_self : (idx : ℕ) (l : List ℕ) → contains idx (with_index idx l) ≡ true
unfolding with_index contains
with_index_self idx l = ground (arith, contains-append idx l (idx ∷ []))

contains-with_recent :
    (left idx n : ℕ) (l : List ℕ) → contains n l ≡ true → contains n (with_recent left idx l) ≡ true
unfolding with_recent
contains-with_recent zero idx n l h = h
contains-with_recent (suc left) idx n l h =
    contains-with_recent left (suc idx) n (with_index idx l) (contains-with_index n idx l h)

recent-contained :
    (left idx n : ℕ) (l : List ℕ)
    → idx ≤ n
    → n < idx + left
    → contains n (with_recent left idx l) ≡ true
unfolding with_recent
recent-contained zero idx n l h k = absurd (omega (arith, h, k))
recent-contained (suc left) idx n l h k = elim (Bool-cases (n == idx)) [
  | inl here ↦
      let e : n ≡ idx = ground (arith, here) in
      contains-with_recent left (suc idx) n (with_index idx l)
        (subst (λ i. contains n (with_index i l) ≡ true) e (with_index_self n l))
  | inr later ↦
      let ne : suc idx ≤ n = ground (arith, later, h) in
      recent-contained left (suc idx) n (with_index idx l) ne (omega (arith, k))
]

contains-insert : (n m : ℕ) (l : List ℕ) → contains n (insert m l) ≡ (n == m || contains n l)
unfolding insert contains
contains-insert n m [] = refl
contains-insert n m (k ∷ l) = ground (arith, contains-insert n m l)

pub contains-sort : (n : ℕ) (l : List ℕ) → contains n (sort l) ≡ contains n l
unfolding sort contains
contains-sort n [] = refl
contains-sort n (m ∷ l) = ground (arith, contains-insert n m (sort l), contains-sort n l)

-- The recent messages are pinned.
pub recent_pinned :
    (messages : List Msg) (keep_recent n : ℕ)
    → length messages ≤ n + keep_recent
    → n < length messages
    → contains n (pinned_indices messages keep_recent) ≡ true
unfolding pinned_indices
recent_pinned messages keep_recent n h k =
    let start = length messages - keep_recent in
    let among = with_user (first_user 0 messages) (marked 0 messages) in
    rw (contains-sort n (with_recent (length messages - start) start among)) (
      recent-contained (length messages - start) start n among (omega (arith, h))
        (omega (arith, k)))

-- The first message of the user is pinned.
pub user_pinned :
    (messages : List Msg) (keep_recent n : ℕ)
    → first_user 0 messages ≡ some n
    → contains n (pinned_indices messages keep_recent) ≡ true
unfolding pinned_indices
user_pinned messages keep_recent n e =
    let start = length messages - keep_recent in
    let among = with_user (first_user 0 messages) (marked 0 messages) in
    let first : contains n among ≡ true =
      (rw (e) (unfold with_user in with_index_self n (marked 0 messages))) in
    rw (contains-sort n (with_recent (length messages - start) start among))
      (contains-with_recent (length messages - start) start n among first)
