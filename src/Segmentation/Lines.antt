-- ===== src/Segmentation/Lines.antt =====
-- `_line_spans`, `_line_text` and the line numbers of segmentation.py.
pub mod Laws
pub mod Decodes
use knowledge_flow.Common.{ℕ, zero, suc, ◌+◌, ◌-◌, Bool, true, false, ◌||◌}
use knowledge_flow.Common.{Option, none, some, List, [], ◌∷◌, ltb, leb, ◌==◌}
use knowledge_flow.Common.{if◌then◌else◌, length, take, drop}
use knowledge_flow.Common.Text.{Text, drop_end_while}
use knowledge_flow.Common.Result.{value_error, Result, ok, ◌>>=◌, ◌>>◌, raise_if}
use knowledge_flow.Segmentation.Utf8.{Bytes, decode}

-- `source[start:end]`
unfoldable pub slice : Bytes → ℕ → ℕ → Bytes
slice source start_at end_at = take (end_at - start_at) (drop start_at source)

-- The offset of the first newline, the list beginning at `offset`.
first_newline : ℕ → Bytes → Option ℕ
first_newline offset [] = none
first_newline offset (b ∷ bs) =
    let rest = first_newline (suc offset) bs in if b == b'\n' then some offset else rest

-- `source.find(b"\n", start)`, where -1 is `none`
find_newline : Bytes → ℕ → Option ℕ
unfolding first_newline
find_newline source start_at = first_newline start_at (drop start_at source)

-- `len(source) if newline < 0 else newline + 1`
line_end : Bytes → Option ℕ → ℕ
line_end source none = length source
line_end source (some newline) = newline + 1

-- The `while` loop. Each round moves `start` on, so the length of the source is fuel enough.
spans_loop : ℕ → Bytes → ℕ → List (ℕ × ℕ)
unfolding find_newline line_end
spans_loop zero source start_at = []
spans_loop (suc fuel) source start_at = elim (ltb start_at (length source)) [
  | false ↦ []
  | true ↦
      let end_at = line_end source (find_newline source start_at) in
      (start_at, end_at) ∷ spans_loop fuel source end_at
]

unfoldable pub line_spans : Bytes → List (ℕ × ℕ)
unfolding spans_loop
line_spans source = spans_loop (length source) source 0

is_line_break : ℕ → Bool
is_line_break c = c == b'\r' || c == b'\n'

-- `source[start:end].decode("utf-8", errors="strict").rstrip("\r\n")`
unfoldable pub line_text : Bytes → ℕ → ℕ → Result Text
unfolding slice decode drop_end_while is_line_break
line_text source start_at end_at = do
  s ← decode (slice source start_at end_at)
  ok (drop_end_while is_line_break s)

-- `source.count(b"\n", 0, offset)`, over the bytes before the offset
unfoldable pub count_newlines : Bytes → ℕ
count_newlines [] = 0
count_newlines (b ∷ bs) = (if b == b'\n' then 1 else 0) + count_newlines bs

unfoldable pub line_number_at_start : Bytes → ℕ → ℕ
unfolding count_newlines
line_number_at_start source offset = count_newlines (take offset source) + 1

unfoldable pub line_number_at_end : Bytes → ℕ → ℕ → Result ℕ
unfolding count_newlines
line_number_at_end source start_at end_at = do
  raise_if (leb end_at start_at) (value_error "segment must not be empty")
  ok (count_newlines (take (end_at - 1) source) + 1)
