-- ===== src/HybridForget.antt =====
-- src/cluxion_runtime/core/hybrid_forget.py: messages are dropped, the least important first, until
-- the target is met. `lower` is `str.lower`, `mentions_file` the two searches of `re` for a path or a
-- file name, and `backup n` says whether the n-th call of `_cold_demote` succeeds.
pub mod Ordered
pub mod Spared
mod Tests
use clx_preprocessing.Prelude.{
  Bool, List, String, [], false, if◌then◌else◌, leb, length, ltb, max, not, suc, true, zero, ℕ,
  ◌&&◌, ◌*◌, ◌+◌, ◌-◌, ◌==◌, ◌||◌, ◌∷◌, comparable_texts, comparable_numbers,
}
use clx_preprocessing.Chars.{Text}
use clx_preprocessing.Preprocess.{estimate_tokens as estimate_tokens, strip as strip}
use clx_preprocessing.Preprocess.Signals.{has_any as has_any}
use clx_preprocessing.ContextCompress.{Msg as Msg, contains as contains}
use clx_preprocessing.ContextCompress.Pinned.{sort as sort}

-- `ForgetResult`
pub record ForgetResult : Type 0 where
  pub messages : List Msg
  pub tokens_after : ℕ
  pub dropped_indices : List ℕ
  pub dropped_without_backup : Bool
  pub over_target_pinned_only : Bool

abbrev importance_keywords : List String
importance_keywords =
    "decide" ∷ "decision" ∷ "unresolved" ∷ "todo" ∷ "path" ∷ "file" ∷ "implement" ∷ "error" ∷ "fix"
    ∷ "must" ∷ "require" ∷ "intent" ∷ "command" ∷ "/" ∷ "\\" ∷ ".py" ∷ ".rs" ∷ ".ts" ∷ ".js" ∷ "git"
    ∷ "결정" ∷ "의도" ∷ "방향" ∷ "수정" ∷ "오류" ∷ "구현" ∷ "경로" ∷ "파일" ∷ "명령" ∷ "필수" ∷ "반드시" ∷ "미해결" ∷ "할일"
    ∷ "변경" ∷ "핵심" ∷ "중요" ∷ []

abbrev junk_markers : List String
junk_markers = "[cluxion: duplicate" ∷ "[cluxion digest]" ∷ []

-- `_is_true_junk`
unfoldable pub is_true_junk : Text → Bool
is_true_junk content = length (strip content) == 0 || has_any (strip content) junk_markers

unfoldable pub is_repeat : Text → Bool
is_repeat [] = true
is_repeat (c ∷ []) = true
is_repeat (c ∷ d ∷ s) = c == d && is_repeat (d ∷ s)

-- `_is_degenerate`
unfoldable pub is_degenerate : Text → Bool
unfolding is_repeat
is_degenerate content = ltb (length (strip content)) 16 || is_repeat (strip content)

unfoldable pub points : Bool → ℕ → ℕ
points test n = if test then n else 0

-- Each index with its score.
abbrev pub Scored : Type 0
Scored = List (ℕ × ℕ)

-- The key `(score, idx)`.
unfoldable pub is_before : ℕ × ℕ → ℕ × ℕ → Bool
is_before (i, a) (j, b) = ltb a b || a == b && leb i j

unfoldable pub insert_scored : ℕ × ℕ → Scored → Scored
insert_scored p [] = p ∷ []
insert_scored p (q ∷ l) =
    let rest = insert_scored p l in if is_before p q then p ∷ q ∷ l else q ∷ rest

-- `sorted` with that key.
unfoldable pub sorted : Scored → Scored
sorted [] = []
sorted (p ∷ l) = insert_scored p (sorted l)

-- `[msg for i, msg in enumerate(messages) if i not in to_drop]`
unfoldable pub without : List ℕ → ℕ → List Msg → List Msg
without to_drop idx [] = []
without to_drop idx (m ∷ ms) =
    let rest = without to_drop (suc idx) ms in if contains idx to_drop then rest else m ∷ rest

-- `any(i not in pinned_set and i not in to_drop for i in range(len(messages)))`
unfoldable pub any_left : List ℕ → List ℕ → ℕ → List Msg → Bool
any_left pinned to_drop idx [] = false
any_left pinned to_drop idx (m ∷ ms) =
    not (contains idx pinned) && not (contains idx to_drop) || any_left pinned to_drop (suc idx) ms

module _ (lower : Text → Text) (mentions_file : Text → Bool) (backup : ℕ → Text → Bool) where
  -- `_importance_score`, with 70 added and all of it times `total - 1`, which leaves the order as it
  -- is: the place counts 40 points at the end, a keyword 25, a file 20, junk 60 less, a short text 10
  -- less.
  unfoldable pub importance_score : ℕ → Msg → ℕ → ℕ
  unfolding points
  importance_score idx m total =
      let content = m.content in
      let fixed =
        (70
          + points (has_any (lower content) importance_keywords) 25
          + points (mentions_file content) 20)
        - points (is_true_junk content) 60
        - points (ltb (length (strip content)) 20) 10 in
      idx * 40 + fixed * max 1 (total - 1)

  -- The removable messages with their scores.
  unfoldable pub scored : List ℕ → ℕ → ℕ → List Msg → Scored
  scored pinned total idx [] = []
  scored pinned total idx (m ∷ ms) =
      let rest = scored pinned total (suc idx) ms in
      if contains idx pinned then rest else (idx, importance_score idx m total) ∷ rest

  -- `messages[idx].content`
  unfoldable pub content_of : ℕ → List Msg → Text
  content_of idx [] = []
  content_of zero (m ∷ ms) = m.content
  content_of (suc idx) (m ∷ ms) = content_of idx ms

  -- What the loop has dropped, whether something was dropped without a backup, the total, and the
  -- calls of `_cold_demote`.
  pub record Dropping : Type 0 where
    pub to_drop : List ℕ
    pub no_backup : Bool
    pub current_total : ℕ
    pub calls : ℕ

  unfoldable pub drop_one : List Msg → ℕ → Dropping → Dropping
  drop_one messages idx d =
      let content = content_of idx messages in
      let kept_cold = is_true_junk content || is_degenerate content in
      record {
        to_drop = idx ∷ d.to_drop;
        no_backup = d.no_backup || not kept_cold && not (backup d.calls content);
        current_total = d.current_total - estimate_tokens content;
        calls = if kept_cold then d.calls else suc d.calls;
      }

  -- The loop over the sorted messages. Below zero the total stays at 0, which the target bounds as
  -- well, and the answer has `max(0, current_total)`.
  unfoldable pub drop_until : List Msg → ℕ → Scored → Dropping → Dropping
  unfolding drop_one
  drop_until messages target [] d = d
  drop_until messages target ((idx, score) ∷ l) d =
      let rest = drop_until messages target l (drop_one messages idx d) in
      if leb d.current_total target then d else rest

  unfoldable pub is_nil : Scored → Bool
  is_nil [] = true
  is_nil (p ∷ l) = false

  unfoldable pub kept_all : List Msg → ℕ → Bool → ForgetResult
  kept_all messages total pinned_only = record {
    messages = messages;
    tokens_after = total;
    dropped_indices = [];
    dropped_without_backup = false;
    over_target_pinned_only = pinned_only;
  }

  unfoldable pub forgotten : List Msg → List ℕ → ℕ → Dropping → ForgetResult
  forgotten messages pinned target d = record {
    messages = without d.to_drop 0 messages;
    tokens_after = d.current_total;
    dropped_indices = sort d.to_drop;
    dropped_without_backup = d.no_backup;
    over_target_pinned_only =
        ltb target d.current_total && not (any_left pinned d.to_drop 0 messages);
  }

  unfoldable pub apply_hybrid_forget : List Msg → List ℕ → ℕ → ℕ → ForgetResult
  unfolding scored drop_until is_nil kept_all forgotten
  apply_hybrid_forget messages pinned total target =
      let removable = scored pinned (length messages) 0 messages in
      if leb total target
      then kept_all messages total false
      else if is_nil removable
      then kept_all messages total true
      else forgotten messages pinned target (
          drop_until messages target (sorted removable)
            (record { to_drop = []; no_backup = false; current_total = total; calls = 0 }))
