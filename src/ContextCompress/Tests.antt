-- ===== src/ContextCompress/Tests.antt =====
-- A context of four messages, of which two are the same and not pinned.
use clx_preprocessing.ContextCompress.Stages.{
  Swept, adjusted, apply_head_tail_truncate, behind, dedup, dedup_one, digest_line, digested,
  duplicate_line, elided, first_line, noted, seen_at, stage_dedup, stage_digest, stage_one,
  stage_truncate, sweep, sweep_one, then_stage, truncated, with_content,
}
use clx_preprocessing.Preprocess.{estimate_tokens, is_ascii, lstrip, rstrip, strip}
use clx_preprocessing.ContextCompress.Pinned.{
  first_user, insert, marked, pinned_indices, sort, with_index, with_recent, with_user,
}
use clx_preprocessing.Chars.{Text, is_space}
use clx_preprocessing.Preprocess.Signals.{code_points as code_points}
use clx_preprocessing.ContextCompress.{Msg, contains, same_text, tokens_of}
use clx_preprocessing.Prelude.{
  List, String, [], arith, count, false, inl, none, refl, some, ℕ, ◌+◌, ◌<◌, ◌∷◌, ◌≡◌,
}
use clx_preprocessing.ContextCompress.Account.{KeptFrom}
use clx_preprocessing.ContextCompress.Recent.{
  HasEnded, chars_of, truncate_recent, truncate_recent_ends,
}
use clx_preprocessing.ContextCompress.Kept.{content_at, stage_one_keeps, stage_one_spares}

abbrev digit : ℕ → Text
digit n = (48 + n) ∷ []

abbrev message : String → String → Msg
message role content = record {
  role = code_points role;
  content = code_points content;
  pinned = false;
}

abbrev log : String
log = "the build log says that nothing is wrong with any of the many packages of this repository"

abbrev context : List Msg
context =
    message "user" "why does it fail?"
    ∷ message "tool" log
    ∷ message "tool" log
    ∷ message "assistant" "let me look"
    ∷ []

shortened : (stage_one digit 1 40 context).2 ≡ "dedup" ∷ []
unfolding stage_one dedup noted lstrip duplicate_line digest_line digested insert is_space adjusted
    dedup_one sweep strip with_content with_user stage_dedup seen_at sweep_one stage_truncate
    then_stage rstrip apply_head_tail_truncate first_line behind stage_digest marked truncated
    elided with_recent is_ascii same_text code_points contains sort count with_index first_user
    estimate_tokens tokens_of
shortened = refl

stage_one_keeps_example :
    KeptFrom (pinned_indices context 1) 0 context (stage_one digit 1 40 context).0
    × ((stage_one digit 1 40 context).1 ≡ tokens_of (stage_one digit 1 40 context).0)
stage_one_keeps_example = stage_one_keeps digit 1 40 context

question : first_user 0 context ≡ some 0
unfolding first_user same_text code_points
question = refl

stage_one_spares_example : content_at 0 (stage_one digit 1 40 context).0 ≡ content_at 0 context
stage_one_spares_example = stage_one_spares digit 1 40 0 context (inl question)

few : chars_of context < 300
unfolding chars_of code_points
few = omega arith

truncate_recent_ends_example :
    (r : Swept) × (truncate_recent digit 3 none 5 300 context 50 false ≡ some r)
    × HasEnded digit 3 none 5 r
truncate_recent_ends_example = truncate_recent_ends digit 3 none 5 300 context 50 false few
