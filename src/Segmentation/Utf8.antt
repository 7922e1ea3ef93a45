-- ===== src/Segmentation/Utf8.antt =====
-- Bytes, `bytes.decode("utf-8", errors="strict")`, and the test on character boundaries.
pub mod Laws
use knowledge_flow.Common.{ℕ, ◌+◌, ◌-◌, ◌*◌, bit_and, Bool, false, not, ◌&&◌}
use knowledge_flow.Common.{◌||◌, Option, none, some, List, [], ◌∷◌, ltb, leb}
use knowledge_flow.Common.{◌==◌, if◌then◌else◌, length, get_elem?}
use knowledge_flow.Common.Text.{Text}
use knowledge_flow.Common.Result.{decode_error, Result, ok, err}

abbrev pub Bytes : Type 0
Bytes = List ℕ

-- What the decoder waits for: the first byte of a character, or the last one, two or three bytes.
-- After E0, ED, F0 and F4 the next byte is restricted. The number is the code so far.
pub data DecodeState : Type 0 where
  start : DecodeState
  last_one last_two last_three : ℕ → DecodeState
  after_e0 after_ed after_f0 after_f4 : DecodeState

-- The next state, with the character that is complete.
pub data Fed : Type 0 where
  invalid : Fed
  goes_on : DecodeState → Fed
  emits : ℕ → Fed

abbrev within : ℕ → ℕ → ℕ → Bool
within lo hi b = leb lo b && leb b hi

unfoldable pub feed : DecodeState → ℕ → Fed
feed start b =
    if ltb b 0x80
    then emits b
    else if within 0xc2 0xdf b
    then goes_on (last_one (b - 0xc0))
    else if b == 0xe0
    then goes_on after_e0
    else if b == 0xed
    then goes_on after_ed
    else if within 0xe1 0xef b
    then goes_on (last_two (b - 0xe0))
    else if b == 0xf0
    then goes_on after_f0
    else if b == 0xf4
    then goes_on after_f4
    else if within 0xf1 0xf3 b
    then goes_on (last_three (b - 0xf0))
    else invalid
feed (last_one acc) b = if within 0x80 0xbf b then emits (acc * 64 + (b - 0x80)) else invalid
feed (last_two acc) b =
    if within 0x80 0xbf b then goes_on (last_one (acc * 64 + (b - 0x80))) else invalid
feed (last_three acc) b =
    if within 0x80 0xbf b then goes_on (last_two (acc * 64 + (b - 0x80))) else invalid
feed after_e0 b = if within 0xa0 0xbf b then goes_on (last_one (b - 0x80)) else invalid
feed after_ed b = if within 0x80 0x9f b then goes_on (last_one (13 * 64 + (b - 0x80))) else invalid
feed after_f0 b = if within 0x90 0xbf b then goes_on (last_two (b - 0x80)) else invalid
feed after_f4 b = if within 0x80 0x8f b then goes_on (last_two (4 * 64 + (b - 0x80))) else invalid

unfoldable pub emit_before : ℕ → Option Text → Option Text
emit_before c none = none
emit_before c (some s) = some (c ∷ s)

unfoldable pub at_end : DecodeState → Option Text
at_end start = some []
at_end _ = none

unfoldable pub decode_from : DecodeState → Bytes → Option Text
unfolding feed emit_before at_end
decode_from state [] = at_end state
decode_from state (b ∷ bs) = elim (feed state b) [
  | invalid ↦ none
  | goes_on state' ↦ decode_from state' bs
  | emits c ↦ emit_before c (decode_from start bs)
]

-- `source.decode("utf-8", errors="strict")`
unfoldable pub decode : Bytes → Result Text
unfolding decode_from
decode source = elim (decode_from start source) [ none ↦ err decode_error | some s ↦ ok s ]

-- `source[offset] & 0xC0 == 0x80`
unfoldable pub is_continuation : ℕ → Bool
is_continuation b = bit_and b 0xc0 == 0x80

-- `source[offset] & 0xC0 != 0x80`. Past the end Python raises; no caller looks there.
starts_character : Option ℕ → Bool
starts_character none = false
starts_character (some b) = not (is_continuation b)

-- `_is_utf8_boundary`
unfoldable pub is_utf8_boundary : Bytes → ℕ → Bool
unfolding starts_character
is_utf8_boundary source offset =
    offset == 0 || offset == length source || starts_character (get_elem? source offset)
