-- ===== src/Segmentation/Markdown.antt =====
-- `_markdown_boundaries` of segmentation.py: fences, headings and blank lines. The two regular
-- expressions are recognisers over the text of one line, which holds no newline.
pub mod Laws
use knowledge_flow.Common.{ℕ, suc, ◌-◌, Bool, not, ◌&&◌, ◌||◌, Option, none}
use knowledge_flow.Common.{some, List, [], ◌∷◌, ◌++◌, leb, ◌==◌, if◌then◌else◌, length}
use knowledge_flow.Common.{take, drop, all}
use knowledge_flow.Common.Text.{Text, is_space, drop_while, strip, utf8_size}
use knowledge_flow.Common.Result.{Result, ok, ◌>>=◌, ◌>>◌}
use knowledge_flow.Segmentation.Utf8.{Bytes}
use knowledge_flow.Segmentation.Lines.{line_text}

abbrev pub max_heading_bytes : ℕ
max_heading_bytes = 512

-- How often a character stands at the front.
run_length : ℕ → Text → ℕ
run_length c [] = 0
run_length c (d ∷ s) = let rest = suc (run_length c s) in if d == c then rest else 0

-- `{3,}|~{3,}`
fence_marker : Text → Option (ℕ × ℕ)
fence_marker s =
    if leb 3 (run_length b'`' s)
    then some (b'`', run_length b'`' s)
    else if leb 3 (run_length b'~' s)
    then some (b'~', run_length b'~' s)
    else none

-- `_FENCE`: the fence character and the length of the marker
unfoldable pub match_fence : Text → Option (ℕ × ℕ)
unfolding run_length fence_marker
match_fence s =
    let indent = run_length b' ' s in if leb indent 3 then fence_marker (drop indent s) else none

is_blank_char : ℕ → Bool
is_blank_char c = c == b' ' || c == b'\t'

-- The test that ends a fence: at most three spaces, the character at least as often as in the
-- opening marker, then blanks only.
unfoldable pub closes_fence : ℕ → ℕ → Text → Bool
unfolding run_length is_blank_char drop_while
closes_fence fence_character fence_length s =
    let stripped = drop_while (λ c. c == b' ') s in
    let count = run_length fence_character stripped in
    leb (length s - length stripped) 3
    && leb fence_length count
    && all is_blank_char (drop count stripped)

-- `\s*#*\s*$`
is_closing : Text → Bool
is_closing s =
    length (drop_while is_space (drop_while (λ c. c == b'#') (drop_while is_space s))) == 0

-- `(.+?)`: the shortest text that is not empty and leaves a closing sequence
lazy_label : Text → Text
unfolding is_closing drop_while is_space
lazy_label [] = []
lazy_label (c ∷ s) = if is_closing s then c ∷ [] else c ∷ lazy_label s

-- The group of the label after the marker: all blanks are taken, or all but one where the line
-- holds nothing else.
label_group : Text → Option Text
unfolding is_blank_char lazy_label drop_while
label_group after =
    let body = drop_while is_blank_char after in
    let blanks = length after - length body in
    if blanks == 0
    then none
    else if not (length body == 0)
    then some (lazy_label body)
    else if leb 2 blanks
    then some (drop (blanks - 1) after)
    else none

with_level : ℕ → Option Text → Option (ℕ × Text)
with_level level none = none
with_level level (some label) = some (level, label)

-- `_HEADING`: the level and the group of the label
unfoldable pub match_heading : Text → Option (ℕ × Text)
unfolding run_length label_group with_level
match_heading s =
    let indent = run_length b' ' s in
    let marked = drop indent s in
    let level = run_length b'#' marked in
    if leb indent 3 && leb 1 level && leb level 6
    then with_level level (label_group (drop level marked))
    else none

pub record MarkdownState : Type 0 where
  pub preferred : List ℕ
  pub heading_events : List (ℕ × List Text)
  pub headings : List Text
  pub fence : Option (ℕ × ℕ)

-- `del headings[level - 1 :]`, `headings.append(label)` and the new event
add_heading : ℕ → ℕ → Text → MarkdownState → MarkdownState
add_heading start_at level label st =
    let path = take (level - 1) st.headings ++ (label ∷ []) in
    record st { headings = path; heading_events = st.heading_events ++ ((start_at, path) ∷ []) }

on_heading : ℕ → Option (ℕ × Text) → MarkdownState → MarkdownState
unfolding add_heading strip utf8_size
on_heading start_at none st = st
on_heading start_at (some (level, group)) st =
    let label = strip group in
    let st' =
      if not (length label == 0) && leb (utf8_size label) max_heading_bytes
      then add_heading start_at level label st
      else st in
    record st' { preferred = start_at ∷ st'.preferred }

on_blank : ℕ → Text → MarkdownState → MarkdownState
unfolding strip
on_blank end_at s st =
    if length (strip s) == 0 then record st { preferred = end_at ∷ st.preferred } else st

outside_fence : ℕ → ℕ → Text → Option (ℕ × ℕ) → MarkdownState → MarkdownState
unfolding on_heading on_blank match_heading
outside_fence start_at end_at s none st =
    on_blank end_at s (on_heading start_at (match_heading s) st)
outside_fence start_at end_at s (some marker) st = record st {
  fence = some marker;
  preferred = start_at ∷ st.preferred;
}

inside_fence : ℕ → Text → ℕ × ℕ → MarkdownState → MarkdownState
unfolding closes_fence
inside_fence end_at s (character, count) st =
    if closes_fence character count s
    then record st { fence = none; preferred = end_at ∷ st.preferred }
    else st

on_line : ℕ → ℕ → Text → Option (ℕ × ℕ) → MarkdownState → MarkdownState
unfolding inside_fence outside_fence match_fence
on_line start_at end_at s none st = outside_fence start_at end_at s (match_fence s) st
on_line start_at end_at s (some open_fence) st = inside_fence end_at s open_fence st

-- The `for` loop over the spans.
boundaries_loop : Bytes → List (ℕ × ℕ) → MarkdownState → Result MarkdownState
unfolding on_line line_text
boundaries_loop source [] st = ok st
boundaries_loop source ((start_at, end_at) ∷ spans) st = do
  s ← line_text source start_at end_at
  boundaries_loop source spans (on_line start_at end_at s st.fence st)

unfoldable pub markdown_boundaries : Bytes → List (ℕ × ℕ) → Result MarkdownState
unfolding boundaries_loop
markdown_boundaries source spans = boundaries_loop source spans (record {
  preferred = 0 ∷ length source ∷ [];
  heading_events = [];
  headings = [];
  fence = none;
})
