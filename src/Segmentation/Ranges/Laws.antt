-- ===== src/Segmentation/Ranges/Laws.antt =====
-- The division of a declared scope.
use knowledge_flow.Contracts.ByteRange
use knowledge_flow.Contracts.ByteRange.{ByteRange}
use knowledge_flow.Contracts.SegmentationProfile
use knowledge_flow.Contracts.SegmentationProfile.{SegmentationProfile}
use knowledge_flow.Common.{ℕ, zero, suc, ◌+◌, ◌-◌, ◌≤◌, ◌<◌, ◌≡◌, refl}
use knowledge_flow.Common.{sym, ap, inl, inr, true, false, List, [], ◌∷◌}
use knowledge_flow.Common.{map, arith, ltb, ltb→lt, Bool-cases, length, All}
use knowledge_flow.Common.Text.{Text}
use knowledge_flow.Common.Result.{ok, >>=-eq-ok, ok_injective}
use knowledge_flow.Common.Int.{pos}
use knowledge_flow.Common.Value.{num}
use knowledge_flow.Contracts.Cover.{Chain, Covers}
use knowledge_flow.Segmentation.Utf8.{Bytes, decode, is_utf8_boundary}
use knowledge_flow.Segmentation.Lines.{line_spans}
use knowledge_flow.Segmentation.Markdown.{MarkdownState, markdown_boundaries}
use knowledge_flow.Segmentation.Choose.{validate_scope_bytes}
use knowledge_flow.Segmentation.Choose.Laws.{choose_end-Chosen, Chosen}
use knowledge_flow.Segmentation.Markdown.Laws.{
  markdown_boundaries-Boundaries, line_spans-Boundaries, Boundaries,
}
use knowledge_flow.Segmentation.Ranges.{Cutter, cut, ranges_loop, Division, divide}

-- A range that is not empty, no longer than the profile allows, between character boundaries.
pub record Fits (source : Bytes) (maximum : ℕ) (r : ByteRange) : Type 0 where
  pub valid : ByteRange.IsValid r
  pub short : r.end_byte ≤ r.start_byte + maximum
  pub starts : is_utf8_boundary source r.start_byte ≡ true
  pub ends : is_utf8_boundary source r.end_byte ≡ true

record Ready (c : Cutter) : Type 0 where
  decoded : (t : Text) × (decode c.source ≡ ok t)
  inside : c.scope_end ≤ length c.source
  closed : is_utf8_boundary c.source c.scope_end ≡ true
  profile_valid : SegmentationProfile.IsValid c.profile
  preferred_ok : Boundaries c.source c.preferred
  lines_ok : Boundaries c.source c.line_ends

range_of :
    (a b : ℕ)
    → a < b
    → ByteRange.init (num (pos a)) (num (pos b)) ≡ ok (record { start_byte = a; end_byte = b })
unfolding ByteRange.init
range_of a b h = ground arith

cut-Chosen :
    (c : Cutter) (cursor : ℕ)
    → Ready c
    → cursor < c.scope_end
    → (stop : ℕ) × (cut c cursor ≡ ok stop)
      × Chosen c.source cursor c.scope_end c.profile.maximum_bytes stop
unfolding cut
cut-Chosen c cursor ready more =
    choose_end-Chosen c.source ready.decoded.0 cursor c.scope_end c.profile.target_bytes
      c.profile.maximum_bytes c.preferred c.line_ends ready.decoded.1 more ready.inside ready.closed
      (rw ready.profile_valid.target (omega arith))
      (rw (ready.profile_valid.target, ready.profile_valid.maximum) (omega arith))
      ready.preferred_ok ready.lines_ok

ranges_loop-Chain :
    (fuel : ℕ) (c : Cutter) (cursor : ℕ)
    → Ready c
    → cursor ≤ c.scope_end
    → c.scope_end ≤ cursor + fuel
    → is_utf8_boundary c.source cursor ≡ true
    → (rs : List ByteRange) × (ranges_loop fuel c cursor ≡ ok rs)
      × Chain cursor c.scope_end rs
      × All (Fits c.source c.profile.maximum_bytes) rs
unfolding ranges_loop
ranges_loop-Chain zero c cursor ready below enough b =
    let last : ltb cursor c.scope_end ≡ false = ground arith in
    rw (last, ranges_loop) ([], refl, omega arith, tt)
ranges_loop-Chain (suc fuel) c cursor ready below enough b =
    elim (Bool-cases (ltb cursor c.scope_end)) [
      | inr e ↦ rw (e, ranges_loop) ([], refl, ground arith, tt)
      | inl e ↦
          let (stop, chosen, (later, inside, short, boundary)) =
            cut-Chosen c cursor ready (ltb→lt _ _ e) in
          let (rs, made, chain, fits) =
            ranges_loop-Chain fuel c stop ready inside (omega arith) boundary in
          rw (e, ranges_loop, chosen, range_of cursor stop later, made)
            (
              _,
              refl,
              (refl, chain),
              (record { valid = later; short = short; starts = b; ends = boundary }, fits),
            )
    ]

Chain-some : (a b : ℕ) (rs : List ByteRange) → a < b → Chain a b rs → 1 ≤ length rs
Chain-some a b [] h chain = omega arith
Chain-some a b (r ∷ rs) h chain = omega arith

validate_scope_bytes-eq-ok :
    (source : Bytes) (declared : ByteRange)
    → validate_scope_bytes source declared ≡ ok tt
    → (declared.end_byte ≤ length source)
      × (is_utf8_boundary source declared.start_byte ≡ true)
      × (is_utf8_boundary source declared.end_byte ≡ true)
unfolding validate_scope_bytes
validate_scope_bytes-eq-ok source declared h = ground arith

-- For a source that decodes, a valid scope that passes `validate_scope_bytes` and a valid profile,
-- the division exists: its ranges cover the declared scope without gap or overlap, and each is
-- non-empty, at most `maximum_bytes` long, and begins and ends at character boundaries.
pub divide-Covers :
    (source : Bytes) (t : Text) (declared : ByteRange) (profile : SegmentationProfile)
    → decode source ≡ ok t
    → ByteRange.IsValid declared
    → SegmentationProfile.IsValid profile
    → validate_scope_bytes source declared ≡ ok tt
    → (d : Division) × (divide source declared profile ≡ ok d)
      × Covers declared d.ranges
      × All (Fits source profile.maximum_bytes) d.ranges
unfolding divide
divide-Covers source t declared profile h valid profile_valid accepted =
    let (inside, starts, ends) = validate_scope_bytes-eq-ok source declared accepted in
    let (marks, marked, preferred_ok) = markdown_boundaries-Boundaries source t h in
    let cutter : Cutter = record {
      source = source;
      scope_end = declared.end_byte;
      profile = profile;
      preferred = marks.preferred;
      line_ends = map (λ span. span.1) (line_spans source);
    } in
    let ready : Ready cutter = record {
      decoded = (t, h);
      inside = inside;
      closed = ends;
      profile_valid = profile_valid;
      preferred_ok = preferred_ok;
      lines_ok = line_spans-Boundaries source t h;
    } in
    let (rs, made, chain, fits) =
      ranges_loop-Chain (declared.end_byte - declared.start_byte) cutter declared.start_byte ready
        (omega arith) (omega arith) starts in
    rw (accepted, marked, made)
      (_, refl, (Chain-some declared.start_byte declared.end_byte rs valid chain, chain), fits)

-- The headings of a division are those of the whole source.
pub divide-marks :
    (source : Bytes) (declared : ByteRange) (profile : SegmentationProfile) (d : Division)
    → divide source declared profile ≡ ok d
    → (marks : MarkdownState) × (markdown_boundaries source (line_spans source) ≡ ok marks)
      × (d.heading_events ≡ marks.heading_events)
unfolding divide
divide-marks source declared profile d h =
    let (u, e0, h0) = >>=-eq-ok (validate_scope_bytes source declared) _ h in
    let (marks, e1, h1) = >>=-eq-ok (markdown_boundaries source (line_spans source)) _ h0 in
    let cutter : Cutter = record {
      source = source;
      scope_end = declared.end_byte;
      profile = profile;
      preferred = marks.preferred;
      line_ends = map (λ span. span.1) (line_spans source);
    } in
    let (ranges, e2, h2) =
      >>=-eq-ok (ranges_loop (declared.end_byte - declared.start_byte) cutter declared.start_byte) _
        h1 in
    (marks, e1, sym (ap Division.heading_events (ok_injective _ d h2)))
