-- ===== src/Segmentation/Markdown/Laws.antt =====
-- The preferred offsets of a source that decodes.
use knowledge_flow.Common.{ℕ, ◌≡◌, refl, inl, inr, true, not, ◌&&◌, Option}
use knowledge_flow.Common.{none, some, List, [], ◌∷◌, map, arith, leb, ◌==◌}
use knowledge_flow.Common.{Option-cases, if-both, length, drop, All}
use knowledge_flow.Common.Text.{Text, strip, utf8_size}
use knowledge_flow.Common.Result.{ok}
use knowledge_flow.Segmentation.Utf8.{Bytes, decode, is_utf8_boundary}
use knowledge_flow.Segmentation.Lines.{line_spans}
use knowledge_flow.Segmentation.Markdown.{
  max_heading_bytes, match_fence, match_heading, MarkdownState, markdown_boundaries,
  boundaries_loop, on_line, on_heading, on_blank,
}
use knowledge_flow.Segmentation.Markdown.{outside_fence, inside_fence, add_heading, closes_fence}
use knowledge_flow.Segmentation.Utf8.Laws.{is_utf8_boundary_after_newline}
use knowledge_flow.Segmentation.Lines.Laws.{
  LineEnd, at_end_of_source, after_newline, Tiles, done, line, line_spans-Tiles,
}
use knowledge_flow.Segmentation.Lines.Decodes.{line_text-ok, rest-Decodes, Decodes}

module _ {ℓ} (P : ℕ → Type ℓ) where
  abbrev Keeps : MarkdownState → Type ℓ
  Keeps st = All P st.preferred

  on_heading-Keeps :
      (start_at : ℕ) (found : Option (ℕ × Text)) (st : MarkdownState)
      → P start_at
      → Keeps st
      → Keeps (on_heading start_at found st)
  unfolding on_heading add_heading
  on_heading-Keeps start_at none st p h = h
  on_heading-Keeps start_at (some (level, group)) st p h = (
    p,
    if-both Keeps
        (not (length (strip group) == 0) && leb (utf8_size (strip group)) max_heading_bytes)
        (add_heading start_at level (strip group) st) st (λ e. h) (λ e. h),
  )

  on_blank-Keeps :
      (end_at : ℕ) (s : Text) (st : MarkdownState)
      → P end_at
      → Keeps st
      → Keeps (on_blank end_at s st)
  unfolding on_blank
  on_blank-Keeps end_at s st p h =
      if-both Keeps (length (strip s) == 0) (record st { preferred = end_at ∷ st.preferred }) st
        (λ e. (p, h)) (λ e. h)

  on_line-Keeps :
      (start_at end_at : ℕ) (s : Text) (fence : Option (ℕ × ℕ)) (st : MarkdownState)
      → P start_at
      → P end_at
      → Keeps st
      → Keeps (on_line start_at end_at s fence st)
  unfolding on_line outside_fence inside_fence
  on_line-Keeps start_at end_at s (some (character, count)) st p q h =
      if-both Keeps (closes_fence character count s)
        (record st { fence = none; preferred = end_at ∷ st.preferred }) st (λ e. (q, h)) (λ e. h)
  on_line-Keeps start_at end_at s none st p q h = elim (Option-cases (match_fence s)) [
    | inl e ↦
        rw e (on_blank-Keeps end_at s _ q (on_heading-Keeps start_at (match_heading s) st p h))
    | inr (marker, e) ↦ rw e (p, h)
  ]

abbrev pub Boundaries : Bytes → List ℕ → Type 0
Boundaries source = All (λ v. is_utf8_boundary source v ≡ true)

LineEnd-boundary :
    (source : Bytes) (t : Text) (stop : ℕ)
    → decode source ≡ ok t
    → LineEnd source stop
    → is_utf8_boundary source stop ≡ true
unfolding is_utf8_boundary
LineEnd-boundary source t stop h (at_end_of_source e) = ground arith
LineEnd-boundary source t stop h (after_newline i e there) =
    rw e (unfold is_utf8_boundary in is_utf8_boundary_after_newline source t i h there)

boundaries_loop-Boundaries :
    (source : Bytes) (t : Text) (at : ℕ) (spans : List (ℕ × ℕ)) (st : MarkdownState)
    → decode source ≡ ok t
    → Tiles source at spans
    → Decodes (drop at source)
    → is_utf8_boundary source at ≡ true
    → Boundaries source st.preferred
    → (st' : MarkdownState) × (boundaries_loop source spans st ≡ ok st')
      × Boundaries source st'.preferred
unfolding boundaries_loop
boundaries_loop-Boundaries source t at [] st h (done _ e) d b keeps = (st, refl, keeps)
boundaries_loop-Boundaries source t at (span ∷ rest) st h (line _ stop _ more inside ends tiles) d b
      keeps =
    let (s, hs) = line_text-ok source at stop d more ends in
    let b' = LineEnd-boundary source t stop h ends in
    rw hs (
      boundaries_loop-Boundaries source t stop rest (on_line at stop s st.fence st) h tiles
        (rest-Decodes source stop (t, h) ends) b'
        (on_line-Keeps (λ v. is_utf8_boundary source v ≡ true) at stop s st.fence st b b' keeps))

-- For a source that decodes, `_markdown_boundaries` over the lines of the source returns, and
-- every preferred offset is a character boundary.
pub markdown_boundaries-Boundaries :
    (source : Bytes) (t : Text)
    → decode source ≡ ok t
    → (st : MarkdownState) × (markdown_boundaries source (line_spans source) ≡ ok st)
      × Boundaries source st.preferred
unfolding markdown_boundaries is_utf8_boundary
markdown_boundaries-Boundaries source t h =
    unfold is_utf8_boundary in
    boundaries_loop-Boundaries source t 0 (line_spans source) _ h (line_spans-Tiles source) (t, h)
      refl (refl, (ground arith, tt))

Tiles-Boundaries :
    (source : Bytes) (t : Text) (at : ℕ) (spans : List (ℕ × ℕ))
    → decode source ≡ ok t
    → Tiles source at spans
    → Boundaries source (map (λ span. span.1) spans)
Tiles-Boundaries source t at [] h (done _ e) = tt
Tiles-Boundaries source t at (span ∷ rest) h (line _ stop _ more inside ends tiles) =
    (LineEnd-boundary source t stop h ends, Tiles-Boundaries source t stop rest h tiles)

-- The ends of the lines of a source that decodes are character boundaries.
pub line_spans-Boundaries :
    (source : Bytes) (t : Text)
    → decode source ≡ ok t
    → Boundaries source (map (λ span. span.1) (line_spans source))
line_spans-Boundaries source t h =
    Tiles-Boundaries source t 0 (line_spans source) h (line_spans-Tiles source)
