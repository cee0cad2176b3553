-- ===== src/ContextCompress.antt =====
-- src/cluxion_runtime/core/context_compress.py: the messages of a context, which of them are pinned,
-- and the deterministic stages that shorten the others. `show` is Python's `str` of a natural
-- number. The total is a natural number; it is the sum of the messages' tokens where the stages are
-- called, so that the subtraction of one message's tokens does not go below zero.
pub mod Pinned
pub mod Stages
pub mod Account
pub mod Kept
pub mod Recent
mod Tests
use Prim.Native.Char.{code}
use clx_preprocessing.Prelude.{
  Bool, List, [], false, true, ℕ, ◌&&◌, ◌+◌, ◌==◌, ◌||◌, ◌∷◌, comparable_texts, comparable_numbers,
}
use clx_preprocessing.Chars.{Text}
use clx_preprocessing.Preprocess.{estimate_tokens as estimate_tokens, strip as strip}

-- `_Msg`
pub record Msg : Type 0 where
  pub role : Text
  pub content : Text
  pub pinned : Bool

-- `idx in pinned`
unfoldable pub contains : ℕ → List ℕ → Bool
contains n [] = false
contains n (m ∷ ms) = n == m || contains n ms

unfoldable pub same_text : Text → Text → Bool
same_text [] [] = true
same_text (c ∷ s) (d ∷ t) = c == d && same_text s t
same_text _ _ = false

-- `sum(estimate_tokens(m.content) for m in messages)`
unfoldable pub tokens_of : List Msg → ℕ
tokens_of [] = 0
tokens_of (m ∷ ms) = estimate_tokens m.content + tokens_of ms
