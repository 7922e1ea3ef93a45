-- ===== src/Capture/Intake/Taken.antt =====
use mathlib.Core.Path.{subst}
use knowledge_flow.Common.{ℕ, ◌+◌, ◌-◌, ◌≤◌, min, ◌≡◌, refl, sym, ap}
use knowledge_flow.Common.{◌∙◌, ◌⊎◌, inl, inr, true, false, some, List, []}
use knowledge_flow.Common.{◌∷◌, ◌++◌, arith, ltb, length}
use knowledge_flow.Common.Text.{Text}
use knowledge_flow.Common.Result.{ok, raise_if, >>=-eq-ok, ok_injective}
use knowledge_flow.Segmentation.Utf8.{Bytes, DecodeState, start, decode_from, decode}
use knowledge_flow.Capture.Intake.{
  decode_chunk, starts_with_bom, Intake, first_intake, take_chunk, intake_loop,
  iter_utf8_source_chunks, bytes_read, joined,
}
use knowledge_flow.Capture.Intake.{decoded_chunk}
use knowledge_flow.Capture.Intake.Laws.{decode_from-append, in_front}
use knowledge_flow.Capture.Intake.Rounds.{
  Passed, Facts, append_assoc, length-append, joined-append, at_end-Passed, pass_on-Facts,
}

-- What `_iter_utf8_source_chunks` of src/knowledgeflow_capture/durability.py passes on is what it
-- has read, and is a text.

starts_with_bom-append :
    (d t : Text) → 1 ≤ length d → starts_with_bom d ≡ false → starts_with_bom (d ++ t) ≡ false
unfolding starts_with_bom
starts_with_bom-append [] t h k = ground arith
starts_with_bom-append (c ∷ d) t h k = k

step-Passed :
    (maximum_bytes : ℕ) (s s' : Intake) (chunk : Bytes) (rest later passed : List Bytes) (d : Text)
    (state : DecodeState)
    → decode_chunk s.decoder chunk ≡ some (d, state)
    → bytes_read (chunk ∷ rest) ≡ chunk ++ bytes_read rest
    → Facts s chunk d state (passed, s')
    → Passed maximum_bytes s' rest later
    → Passed maximum_bytes s (chunk ∷ rest) (passed ++ later)
unfolding Facts Passed in_front
step-Passed maximum_bytes s s' chunk rest later passed d state decoded whole
      (at_state, sized, in_order, empty, texts) (t, joined_later, bounded, decodes, text_later) =
    let read = bytes_read rest in
    (
      d ++ t,
      joined-append passed later
          ∙ ap (λ xs. joined passed ++ xs) joined_later
          ∙ sym (append_assoc (joined passed) s'.buffered_prefix read)
          ∙ ap (λ xs. xs ++ read) in_order
          ∙ append_assoc s.buffered_prefix chunk read
          ∙ ap (λ xs. s.buffered_prefix ++ xs) (sym whole),
      ground (arith, ap length whole, length-append chunk read),
      ap (decode_from s.decoder) whole
          ∙ decode_from-append s.decoder state chunk read d decoded
          ∙ ap (λ st. in_front d (decode_from st read)) (sym at_state)
          ∙ ap (in_front d) decodes,
      λ unseen. is_text (texts unseen),
    )
  where
    is_text :
        (s'.saw_character ≡ false) × (length d ≡ 0) ⊎ (1 ≤ length d) × (starts_with_bom d ≡ false)
        → (1 ≤ length (d ++ t)) × (starts_with_bom (d ++ t) ≡ false)
    is_text (inl (unseen, nothing)) =
        let (long, plain) = text_later unseen in
        (
          ground (arith, length-append d t),
          subst (λ xs. starts_with_bom (xs ++ t) ≡ false) (is_empty d nothing) plain,
        )
      where
        is_empty : (xs : Text) → length xs ≡ 0 → [] ≡ xs
        is_empty [] h = refl
        is_empty (x ∷ xs) h = ground arith
    is_text (inr (long, plain)) =
        (ground (arith, length-append d t), starts_with_bom-append d t long plain)

intake_loop-Passed :
    (maximum_bytes chunk_size : ℕ) (s : Intake) (chunks passed : List Bytes)
    → s.byte_size ≤ maximum_bytes
    → (s.saw_character ≡ true → s.buffered_prefix ≡ [])
    → intake_loop maximum_bytes chunk_size s chunks ≡ ok passed
    → Passed maximum_bytes s chunks passed
unfolding intake_loop take_chunk Facts bytes_read Passed
intake_loop-Passed maximum_bytes chunk_size s [] passed b empty h =
    at_end-Passed maximum_bytes s passed b empty h
intake_loop-Passed maximum_bytes chunk_size s ([] ∷ rest) passed b empty h =
    at_end-Passed maximum_bytes s passed b empty h
intake_loop-Passed maximum_bytes chunk_size s ((c ∷ cs) ∷ rest) passed b empty h =
    let ((out, s'), taken, h1) = >>=-eq-ok (take_chunk maximum_bytes chunk_size s (c ∷ cs)) _ h in
    let (later, looped, h2) = >>=-eq-ok (intake_loop maximum_bytes chunk_size s' rest) _ h1 in
    let (p1, sized, h3) =
      >>=-eq-ok
        (raise_if (ltb (min chunk_size ((maximum_bytes - s.byte_size) + 1)) (length (c ∷ cs))) _) _
        taken in
    let (p2, bounded, h4) =
      >>=-eq-ok (raise_if (ltb maximum_bytes (s.byte_size + length (c ∷ cs))) _) _ h3 in
    let ((d, state), decoded, h5) =
      >>=-eq-ok (decoded_chunk (decode_chunk s.decoder (c ∷ cs))) _ h4 in
    let facts = (pass_on-Facts s (c ∷ cs) d state empty).at (out, s') h5 in
    let (at_state, grown, in_order, empty', texts) = facts in
    subst (Passed maximum_bytes s ((c ∷ cs) ∷ rest)) (ok_injective (out ++ later) passed h2) (
      step-Passed maximum_bytes s s' (c ∷ cs) rest later out d state (ground arith) refl facts (
        intake_loop-Passed maximum_bytes chunk_size s' rest later (ground (arith, grown)) empty'
          looped))

decode-ok : (source : Bytes) (t : Text) → decode_from start source ≡ some t → decode source ≡ ok t
unfolding decode
decode-ok source t h = rw (h, decode) refl

-- Where `_iter_utf8_source_chunks` of a binary source ends without an exception, what was read
-- decodes as strict UTF-8 as a whole, to a text that is not empty and does not start with a byte
-- order mark; it has at most `maximum_bytes` bytes, and the chunks passed on, put together, are
-- exactly what was read, however the reads cut it.
pub iter_utf8_source_chunks-joined :
    (maximum_bytes chunk_size : ℕ) (chunks passed : List Bytes)
    → iter_utf8_source_chunks maximum_bytes chunk_size chunks ≡ ok passed
    → (t : Text) × (decode (bytes_read chunks) ≡ ok t)
      × (joined passed ≡ bytes_read chunks)
      × (length (bytes_read chunks) ≤ maximum_bytes)
      × (1 ≤ length t)
      × (starts_with_bom t ≡ false)
unfolding iter_utf8_source_chunks Passed first_intake
iter_utf8_source_chunks-joined maximum_bytes chunk_size chunks passed h =
    let (t, same, bounded, decodes, text_of) =
      intake_loop-Passed maximum_bytes chunk_size first_intake chunks passed (ground arith)
        (λ seen. refl) h in
    let (long, plain) = text_of refl in
    (t, decode-ok (bytes_read chunks) t decodes, same, ground (arith, bounded), long, plain)
