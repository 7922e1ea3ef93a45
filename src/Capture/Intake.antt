-- ===== src/Capture/Intake.antt =====
-- The binary branch of `_iter_utf8_source_chunks` of src/knowledgeflow_capture/durability.py: the
-- text of a capture is taken in chunks, each checked before it is passed on. What `read` returns is
-- a list of chunks, which ends at an empty one. A source of another type is refused before.
pub mod Laws
pub mod Rounds
pub mod Taken
mod Tests
use knowledge_flow.Common.{ℕ, ◌+◌, ◌-◌, min, Bool, true, false, not, Option}
use knowledge_flow.Common.{none, some, List, [], ◌∷◌, ◌++◌, ltb, ◌==◌, if◌then◌else◌}
use knowledge_flow.Common.{length}
use knowledge_flow.Common.Text.{Text}
use knowledge_flow.Common.Result.{
  Error, value_error, type_error, Result, ok, err, ◌>>=◌, ◌>>◌, raise_if,
}
use knowledge_flow.Segmentation.Utf8.{Bytes, DecodeState, start, invalid, goes_on, emits, feed}
use knowledge_flow.Capture.Commit.Append.{◌then◌}

with_character : ℕ → Option (Text × DecodeState) → Option (Text × DecodeState)
with_character c none = none
with_character c (some (s, state)) = some (c ∷ s, state)

-- `decoder.decode(chunk, final=False)`: the characters that are complete, and what it waits for
unfoldable pub decode_chunk : DecodeState → Bytes → Option (Text × DecodeState)
unfolding feed with_character
decode_chunk state [] = some ([], state)
decode_chunk state (b ∷ bs) = elim (feed state b) [
  | invalid ↦ none
  | goes_on state' ↦ decode_chunk state' bs
  | emits c ↦ with_character c (decode_chunk start bs)
]

unfoldable pub starts_with_bom : Text → Bool
starts_with_bom [] = false
starts_with_bom (c ∷ s) = c == 0xfeff

-- The variables of the loop
pub record Intake : Type 0 where
  pub decoder : DecodeState
  pub buffered_prefix : Bytes
  pub byte_size : ℕ
  pub saw_character : Bool

unfoldable pub first_intake : Intake
first_intake = record {
  decoder = start;
  buffered_prefix = [];
  byte_size = 0;
  saw_character = false;
}

unfoldable pub invalid_text : Error
invalid_text = value_error "InvalidTextInputError"

unfoldable pub is_complete : DecodeState → Bool
is_complete start = true
is_complete _ = false

-- After the loop: the final decoding gives no character, it raises or it is empty.
unfoldable pub finish_intake : Intake → Result (List Bytes)
unfolding invalid_text is_complete
finish_intake s = do
  raise_if (not (is_complete s.decoder)) invalid_text
  raise_if (s.byte_size == 0) invalid_text
  raise_if (not s.saw_character) invalid_text
  ok []

unfoldable pub decoded_chunk : Option (Text × DecodeState) → Result (Text × DecodeState)
unfolding invalid_text
decoded_chunk none = err invalid_text
decoded_chunk (some p) = ok p

-- What a chunk passes on, and the variables after it, once it is decoded
unfoldable pub pass_on : Intake → Bytes → Text → DecodeState → Result (List Bytes × Intake)
unfolding invalid_text starts_with_bom
pass_on s chunk decoded state =
    let size = s.byte_size + length chunk in
    let buffered = s.buffered_prefix ++ chunk in
    if s.saw_character
    then ok (chunk ∷ [], record s { decoder = state; byte_size = size })
    else if length decoded == 0
    then ok ([], record s { decoder = state; byte_size = size; buffered_prefix = buffered })
    else if starts_with_bom decoded
    then err invalid_text
    else ok (
      buffered ∷ [],
      record { decoder = state; buffered_prefix = []; byte_size = size; saw_character = true },
    )

-- One round of the loop
unfoldable pub take_chunk : ℕ → ℕ → Intake → Bytes → Result (List Bytes × Intake)
unfolding decoded_chunk decode_chunk pass_on
take_chunk maximum_bytes chunk_size s chunk = do
  raise_if (ltb (min chunk_size ((maximum_bytes - s.byte_size) + 1)) (length chunk))
      (type_error "binary source returned more bytes than requested")
  raise_if (ltb maximum_bytes (s.byte_size + length chunk)) (value_error "ByteLimitExceeded")
  (decoded, state) ← decoded_chunk (decode_chunk s.decoder chunk)
  pass_on s chunk decoded state

unfoldable pub intake_loop : ℕ → ℕ → Intake → List Bytes → Result (List Bytes)
unfolding finish_intake take_chunk
intake_loop maximum_bytes chunk_size s [] = finish_intake s
intake_loop maximum_bytes chunk_size s ([] ∷ rest) = finish_intake s
intake_loop maximum_bytes chunk_size s ((b ∷ bs) ∷ rest) = do
  (passed, s') ← take_chunk maximum_bytes chunk_size s (b ∷ bs)
  later ← intake_loop maximum_bytes chunk_size s' rest
  ok (passed ++ later)

-- `_iter_utf8_source_chunks` of a binary source
unfoldable pub iter_utf8_source_chunks : ℕ → ℕ → List Bytes → Result (List Bytes)
unfolding intake_loop first_intake
iter_utf8_source_chunks maximum_bytes chunk_size chunks =
    intake_loop maximum_bytes chunk_size first_intake chunks

-- What `read` returned before its first empty chunk
unfoldable pub bytes_read : List Bytes → Bytes
bytes_read [] = []
bytes_read ([] ∷ rest) = []
bytes_read ((b ∷ bs) ∷ rest) = (b ∷ bs) ++ bytes_read rest

unfoldable pub joined : List Bytes → Bytes
joined [] = []
joined (c ∷ cs) = c ++ joined cs
