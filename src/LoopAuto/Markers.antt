-- ===== src/LoopAuto/Markers.antt =====
-- The completion markers in the output of a run. A run's output has no carriage return, since
-- `text=True` translates the line ends.
use Prim.Native.Char.{Char, code}
use clx_preprocessing.Prelude.{
  Bool, List, Option, String, [], false, if◌then◌else◌, keep, nat_beq, none, not, some, true, ◌&&◌,
  ◌==◌, ◌||◌, ◌∷◌, comparable_texts, comparable_numbers,
}
use clx_preprocessing.Chars.{is_space}
use clx_preprocessing.Ledger.Lines.{is_break as is_break}
use clx_preprocessing.Dispatch.Brief.{join_with as join_texts}

unfoldable pub lstrip : String → String
lstrip String.[] = String.[]
lstrip (String.◌∷◌ c s) = let rest = lstrip s in if is_space (code c) then rest else String.◌∷◌ c s

keep_before : Char → String → String
keep_before c String.[] = if is_space (code c) then String.[] else String.◌∷◌ c String.[]
keep_before c (String.◌∷◌ d s) = String.◌∷◌ c (String.◌∷◌ d s)

unfoldable pub rstrip : String → String
unfolding keep_before
rstrip String.[] = String.[]
rstrip (String.◌∷◌ c s) = keep_before c (rstrip s)

unfoldable pub strip : String → String
strip s = rstrip (lstrip s)

first_line : Char → List String → List String
first_line c [] = String.◌∷◌ c String.[] ∷ []
first_line c (l ∷ ls) = String.◌∷◌ c l ∷ ls

unfoldable pub splitlines : String → List String
unfolding first_line
splitlines String.[] = []
splitlines (String.◌∷◌ c s) =
    let rest = splitlines s in if is_break (code c) then String.[] ∷ rest else first_line c rest

-- `text.startswith(prefix)` and `text.removeprefix(prefix)`
unfoldable pub starts_with : String → String → Bool
starts_with String.[] s = true
starts_with (String.◌∷◌ p prefix) String.[] = false
starts_with (String.◌∷◌ p prefix) (String.◌∷◌ c s) =
    nat_beq (code p) (code c) && starts_with prefix s

behind : String → String → String
behind String.[] s = s
behind (String.◌∷◌ p prefix) String.[] = String.[]
behind (String.◌∷◌ p prefix) (String.◌∷◌ c s) = behind prefix s

unfoldable pub removeprefix : String → String → String
unfolding behind
removeprefix prefix s = if starts_with prefix s then behind prefix s else s

abbrev pub segment_complete : String
segment_complete = "SEGMENT_COMPLETE"

abbrev pub task_complete : String
task_complete = "TASK_COMPLETE"

abbrev pub work_remains : String
work_remains = "WORK_REMAINS:"

-- The stripped lines that are not blank.
unfoldable pub marked_lines : List String → List String
marked_lines [] = []
marked_lines (l ∷ ls) =
    let rest = marked_lines ls in let s = strip l in if s == "" then rest else s ∷ rest

unfoldable pub last_of : List String → Option String
last_of [] = none
last_of (l ∷ []) = some l
last_of (l ∷ m ∷ ls) = last_of (m ∷ ls)

unfoldable pub last_line : String → Option String
last_line text = last_of (marked_lines (splitlines (rstrip text)))

pub data Marker : Type 0 where
  missing : Marker
  complete : Marker
  remains : String → Marker

marker_of : Option String → Marker
marker_of none = missing
marker_of (some l) =
    if l == segment_complete
    then complete
    else if starts_with work_remains l
    then remains l
    else missing

-- `_parse_segment_marker`
unfoldable pub parse_segment_marker : String → Marker
unfolding marker_of
parse_segment_marker text = marker_of (last_line text)

-- `_parse_briefing_marker`: whether the last line is the marker.
unfoldable pub parse_briefing_marker : String → Bool
parse_briefing_marker text = elim (last_line text) [ none ↦ false | some l ↦ l == task_complete ]

unfoldable pub is_marker_line : String → Bool
is_marker_line line =
    let s = strip line in s == segment_complete || s == task_complete || starts_with work_remains s

joined : List String → String
joined [] = ""
joined (l ∷ ls) = join_texts "\n" l ls

-- `_strip_markers`
unfoldable pub strip_markers : String → String
unfolding joined
strip_markers text = strip (joined (keep (λ l. not (is_marker_line l)) (splitlines (rstrip text))))
