-- ===== src/Segmentation/Choose.antt =====
-- `_bounded_character_boundary`, `_choose_end` and `_validate_scope_bytes` of segmentation.py. A
-- frozenset of offsets is a list of them: only its members matter.
use knowledge_flow.Contracts.ByteRange.{ByteRange}
pub mod Laws
use knowledge_flow.Common.{ℕ, zero, suc, ◌+◌, ◌-◌, min, max, not, ◌&&◌}
use knowledge_flow.Common.{◌||◌, List, [], ◌∷◌, ltb, leb, if◌then◌else◌, length}
use knowledge_flow.Common.Result.{value_error, Result, ok, ◌>>=◌, ◌>>◌, raise_if}
use knowledge_flow.Segmentation.Utf8.{Bytes, is_utf8_boundary}

-- The `while` loop, with `candidate` going down.
boundary_loop : Bytes → ℕ → ℕ → ℕ
boundary_loop source start_at zero = zero
boundary_loop source start_at (suc candidate) =
    let lower = boundary_loop source start_at candidate in
    if ltb start_at (suc candidate) && not (is_utf8_boundary source (suc candidate))
    then lower
    else suc candidate

unfoldable pub bounded_character_boundary : Bytes → ℕ → ℕ → Result ℕ
unfolding boundary_loop is_utf8_boundary
bounded_character_boundary source start_at maximum = do
  let candidate = boundary_loop source start_at maximum
  raise_if (leb candidate start_at)
      (value_error "no UTF-8 character boundary fits the segment limit")
  ok candidate

-- `[value for value in values if low < value <= high]`
between : ℕ → ℕ → List ℕ → List ℕ
between low high [] = []
between low high (v ∷ vs) =
    let rest = between low high vs in if ltb low v && leb v high then v ∷ rest else rest

-- `max` and `min` of a list with a first element
largest : ℕ → List ℕ → ℕ
largest v [] = v
largest v (w ∷ ws) = max v (largest w ws)

smallest : ℕ → List ℕ → ℕ
smallest v [] = v
smallest v (w ∷ ws) = min v (smallest w ws)

-- `if values: return max(values)`, or `min`, and the code that follows
pick : List ℕ → (ℕ → List ℕ → ℕ) → Result ℕ → Result ℕ
pick [] best otherwise = otherwise
pick (v ∷ vs) best otherwise = ok (best v vs)

unfoldable pub choose_end : Bytes → ℕ → ℕ → ℕ → ℕ → List ℕ → List ℕ → Result ℕ
unfolding bounded_character_boundary between largest smallest pick
choose_end source start_at scope_end target_bytes maximum_bytes preferred line_ends =
    let target = min scope_end (start_at + target_bytes) in
    let maximum = min scope_end (start_at + maximum_bytes) in
    if leb (scope_end - start_at) target_bytes
    then ok scope_end
    else pick (between start_at target preferred) largest (
        pick (between target maximum preferred) smallest (
          pick (between start_at maximum line_ends) largest
            (bounded_character_boundary source start_at maximum)))

unfoldable pub validate_scope_bytes : Bytes → ByteRange → Result (Unit {0})
unfolding is_utf8_boundary
validate_scope_bytes source byte_range = do
  raise_if (ltb (length source) byte_range.end_byte)
      (value_error "declared scope exceeds source bytes")
  raise_if
      (not (is_utf8_boundary source byte_range.start_byte)
        || not (is_utf8_boundary source byte_range.end_byte))
      (value_error "declared scope must use UTF-8 character boundaries")
