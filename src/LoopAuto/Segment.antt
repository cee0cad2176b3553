-- ===== src/LoopAuto/Segment.antt =====
-- One segment: its prompts, and the attempts of the runner at it.
use Prim.Native.String.{◌++◌ as text_append, count as text_count}
use Prim.Native.Char.{code}
use clx_preprocessing.Dispatch.Brief.{join_with as join_texts}
use clx_preprocessing.DispatchStore.Next.{PublicStep as PublicStep}
use clx_preprocessing.Prelude.{
  Bool, List, String, [], false, if◌then◌else◌, ltb, negsuc, not, pos, suc, true, zero, ℕ, ℤ, ◌==◌,
  ◌||◌, ◌∷◌, comparable_texts, comparable_numbers,
}
use clx_preprocessing.Chars.{is_space}
use clx_preprocessing.LoopAuto.{
  Counters, Run, SegmentResult, World, call_once, raised, ran, read_once,
}
use clx_preprocessing.LoopAuto.Markers.{
  Marker, complete, missing, parse_segment_marker, remains, removeprefix, strip, strip_markers,
  work_remains,
}

abbrev pub segment_contract : String
segment_contract =
    "\n\n[cluxion_loop_auto_segment_contract]\nProcess ONLY this segment. Ground answers in the segment content.\nEnd your final line with exactly one marker:\n- SEGMENT_COMPLETE when this segment is fully handled\n- WORK_REMAINS:<short remainder> if this segment still needs work\n"

remainder_lines : String → List String → List String
remainder_lines remainder others =
    if remainder == "" then others else text_append "remaining_within_segment=" remainder ∷ others

-- `_build_segment_prompt`
unfoldable pub build_segment_prompt : PublicStep → String → String → String
unfolding remainder_lines
build_segment_prompt step work_id remainder = join_texts "\n" "[cluxion_loop_auto_segment]" (
    text_append "work_id=" work_id
    ∷ text_append "step_id=" step.step_id
    ∷ text_append "segment_id=" step.segment_id
    ∷ text_append "checksum=" step.checksum
    ∷ step.instruction
    ∷ remainder_lines remainder ("[segment_content]" ∷ step.content ∷ segment_contract ∷ []))

-- `_resume_segment_prompt`
unfoldable pub resume_segment_prompt : String → String → String
resume_segment_prompt base remainder = text_append base (
    text_append "\n\n[cluxion_loop_auto_resume]\nContinue this segment. Remaining: "
      (text_append remainder "\n"))

-- `text.split()`
words_from : String → List String → List String
words_from word words = if word == "" then words else word ∷ words

unfoldable pub words : String → String × List String
unfolding words_from
words String.[] = ("", [])
words (String.◌∷◌ c s) =
    let (word, others) = words s in
    if is_space (code c) then ("", words_from word others) else (String.◌∷◌ c word, others)

unfoldable pub prefix_of : ℕ → String → String
prefix_of zero s = ""
prefix_of (suc n) String.[] = ""
prefix_of (suc n) (String.◌∷◌ c s) = String.◌∷◌ c (prefix_of n s)

spaced : List String → String
spaced [] = ""
spaced (w ∷ ws) = join_texts " " w ws

-- `_preview`
unfoldable pub preview : String → String
unfolding spaced words_from
preview text =
    let (word, others) = words text in
    let compact = spaced (words_from word others) in
    if ltb 160 (text_count compact) then text_append (prefix_of 160 compact) "…" else compact

unfoldable pub is_zero : ℤ → Bool
is_zero (pos n) = n == 0
is_zero (negsuc _) = false

unfoldable pub has_failed : SegmentResult → Bool
has_failed r = r.timed_out || not (is_zero r.returncode)

-- `r.stderr or f"{what}{r.returncode}"`
unfoldable pub error_text : World → String → SegmentResult → String
error_text world what r =
    if r.stderr == "" then text_append what (world.show_int r.returncode) else r.stderr

-- How the attempts ended: whether the segment is done, the attempts, the last error, the result; or
-- the exception of the runner.
pub data SegmentEnd : Type 0 where
  ended : Bool → ℕ → String → String → Counters → SegmentEnd
  crashed : Bool → String → Counters → SegmentEnd

-- Attempts made, prompt, last error, result.
abbrev pub Retry : Type 0
Retry = ℕ → String → String → String → Counters → SegmentEnd

module _ (world : World) (step : PublicStep) (work_id : String) where
  unfoldable pub on_marker :
      Retry
      → Marker
      → (attempts : ℕ) → (prompt last_error result_text : String) → Counters
      → SegmentEnd
  on_marker again complete attempts prompt last_error result_text c =
      ended true attempts last_error result_text c
  on_marker again (remains line) attempts prompt last_error result_text c =
      let remainder = strip (removeprefix work_remains line) in
      again attempts (build_segment_prompt step work_id remainder) remainder result_text c
  on_marker again missing attempts prompt last_error result_text c =
      again attempts prompt
        (text_append "missing completion marker after "
          (text_append (world.show_int (pos attempts)) " attempts"))
        result_text c

  -- `attempts` counts the run whose outcome this is.
  unfoldable pub on_run :
      Retry
      → Run
      → (attempts : ℕ) → (prompt last_error result_text : String) → Counters
      → SegmentEnd
  unfolding on_marker
  on_run again (raised is_exception text) attempts prompt last_error result_text c =
      crashed is_exception text c
  on_run again (ran r) attempts prompt last_error result_text c =
      if has_failed r
      then again attempts prompt (error_text world "hermes exit " r) result_text c
      else on_marker again (parse_segment_marker r.stdout) attempts prompt last_error
          (strip_markers r.stdout) c

  unfoldable pub sent : ℕ → String → String → String
  sent attempts prompt last_error =
      if attempts == 1 then prompt else resume_segment_prompt prompt last_error

  unfoldable pub one_attempt : Retry → Retry
  unfolding on_run sent
  one_attempt again attempts prompt last_error result_text c =
      on_run again (world.run c.calls (sent (suc attempts) prompt last_error)) (suc attempts) prompt
        last_error result_text (call_once c)

  -- The loop over the attempts; `left` of them may still be made.
  unfoldable pub attempt_loop : ℕ → Retry
  unfolding one_attempt
  attempt_loop zero attempts prompt last_error result_text c =
      ended false attempts last_error result_text c
  attempt_loop (suc left) attempts prompt last_error result_text c =
      elim (world.before_deadline c.reads) [
        | false ↦ ended false attempts last_error result_text (read_once c)
        | true ↦
            one_attempt (attempt_loop left) attempts prompt last_error result_text (read_once c)
      ]
