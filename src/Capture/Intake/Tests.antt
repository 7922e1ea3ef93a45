-- ===== src/Capture/Intake/Tests.antt =====
-- A character over two chunks.
use knowledge_flow.Common.{◌≤◌, ◌≡◌, refl, false, [], ◌∷◌, length}
use knowledge_flow.Common.Text.{Text}
use knowledge_flow.Common.Result.{ok}
use knowledge_flow.Segmentation.Utf8.{Bytes, decode}
use knowledge_flow.Capture.Intake.{starts_with_bom, iter_utf8_source_chunks, bytes_read, joined}
use knowledge_flow.Capture.Intake.Taken.{iter_utf8_source_chunks-joined}

abbrev accented : Bytes
accented = 97 ∷ 0xc3 ∷ 0xa9 ∷ []

sample_run :
    iter_utf8_source_chunks 8 4 ((97 ∷ 0xc3 ∷ []) ∷ (0xa9 ∷ []) ∷ [])
    ≡ ok ((97 ∷ 0xc3 ∷ []) ∷ (0xa9 ∷ []) ∷ [])
unfolding iter_utf8_source_chunks
sample_run = refl

iter_utf8_source_chunks-joined_example :
    (t : Text) × (decode accented ≡ ok t)
    × (joined ((97 ∷ 0xc3 ∷ []) ∷ (0xa9 ∷ []) ∷ []) ≡ accented)
    × (length accented ≤ 8)
    × (1 ≤ length t)
    × (starts_with_bom t ≡ false)
unfolding bytes_read
iter_utf8_source_chunks-joined_example =
    iter_utf8_source_chunks-joined 8 4 ((97 ∷ 0xc3 ∷ []) ∷ (0xa9 ∷ []) ∷ [])
      ((97 ∷ 0xc3 ∷ []) ∷ (0xa9 ∷ []) ∷ []) sample_run
