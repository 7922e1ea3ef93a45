-- ===== src/Segmentation/Build/Describes.antt =====
-- What the record that `build_evidence_record` of segmentation.py returns says of the source.
use knowledge_flow.Contracts.SourceBinding.{SourceBinding}
use knowledge_flow.Contracts.ByteRange
use knowledge_flow.Contracts.ByteRange.{ByteRange}
use knowledge_flow.Contracts.SegmentationProfile
use knowledge_flow.Contracts.SegmentationProfile.{SegmentationProfile}
use knowledge_flow.Contracts.ScopeRecord
use knowledge_flow.Contracts.ScopeRecord.{ScopeRecord}
use knowledge_flow.Contracts.CurationRunManifest
use knowledge_flow.Contracts.CurationRunManifest.{CurationRunManifest}
use knowledge_flow.Contracts.CurationEvidenceRecord
use knowledge_flow.Contracts.CurationEvidenceRecord.{CurationEvidenceRecord}
use mathlib.Core.Path.{subst}
use knowledge_flow.Common.{ℕ, suc, ◌≤◌, ◌<◌, ◌≡◌, refl, sym, ap, ◌∙◌}
use knowledge_flow.Common.{Option, none, some, List, [], ◌∷◌, ◌++◌, map, arith}
use knowledge_flow.Common.{◌==◌, length, All}
use knowledge_flow.Common.Text.{Text, text, text_eq→eq}
use knowledge_flow.Common.Result.{value_error, ok, raise_if, >>=-eq-ok, ok_injective}
use knowledge_flow.Contracts.Cover.{Chain, Covers}
use knowledge_flow.Segmentation.Utf8.{Bytes, decode}
use knowledge_flow.Segmentation.Lines.{line_spans}
use knowledge_flow.Segmentation.Markdown.{MarkdownState, markdown_boundaries}
use knowledge_flow.Segmentation.Choose.{validate_scope_bytes}
use knowledge_flow.Segmentation.Ranges.{Division, divide}
use knowledge_flow.Segmentation.Ranges.Laws.{Fits, divide-Covers, divide-marks}
use knowledge_flow.Hashing.{hash_bytes}
use knowledge_flow.Contracts.Against.{About, validate_against_run-About}
use knowledge_flow.Segmentation.Build.{
  Headings, Services, digest_of, selected_scope, check_source, build_evidence_record,
}
use knowledge_flow.Segmentation.Build.Laws.{
  expected_items, items_loop-eq-ok, Built, build_evidence_record-Built,
}
use knowledge_flow.Segmentation.Build.Reads.{Reads, expected_items-Reads}

-- The scope that was asked for, or the declared scope as processed.
unfoldable pub ScopeOf : ByteRange → Option (List ScopeRecord) → List ScopeRecord → Type 0
ScopeOf declared (some asked) made = made ≡ asked
ScopeOf declared none made =
    made ≡ record { byte_range = declared; status = text "processed"; reason = none } ∷ []

-- The source is that of the run; the segments cover the declared scope and each one fits the
-- profile; each segment, with its locator, reads its own bytes, lines and heading of the source.
pub record Describes (services : Services) (source : Bytes) (run : CurationRunManifest)
    (scope : Option (List ScopeRecord)) (e : CurationEvidenceRecord) : Type 0 where
  pub about : About e run
  pub decoded : (t : Text) × (decode source ≡ ok t)
  pub sized : run.source.byte_size ≡ length source
  pub digest : run.source.payload_sha256 ≡ text "sha256:" ++ services.hexdigest source
  pub covered : Covers run.declared_scope (CurationEvidenceRecord.segment_ranges e.segments)
  pub fitting :
      All
        (Fits source run.segmentation_profile.maximum_bytes)
        (CurationEvidenceRecord.segment_ranges e.segments)
  pub marks : MarkdownState
  pub marked : markdown_boundaries source (line_spans source) ≡ ok marks
  pub reads :
      Reads services source run.source run.segmentation_profile marks.heading_events 0 e.segments
        e.locators
  pub scoped : ScopeOf run.declared_scope scope e.scope

pub check_source-eq-ok :
    (services : Services) (source : Bytes) (binding : SourceBinding)
    → check_source services source binding ≡ ok tt
    → (t : Text) × (decode source ≡ ok t)
      × (binding.byte_size ≡ length source)
      × (binding.payload_sha256 ≡ text "sha256:" ++ services.hexdigest source)
unfolding check_source digest_of hash_bytes
check_source-eq-ok services source binding h =
    let (u, e0, h0) =
      >>=-eq-ok (raise_if (length source == 0) (value_error "source must be non-empty bytes")) _
        h in
    let (t, e1, h1) = >>=-eq-ok (decode source) _ h0 in
    (
      t,
      e1,
      ground arith,
      ground
          (arith, text_eq→eq (text "sha256:" ++ services.hexdigest source) binding.payload_sha256),
    )

-- What the division of a declared scope is made of.
pub record Divided (source : Bytes) (declared : ByteRange) (maximum : ℕ) (d : Division)
    : Type 0 where
  pub covers : Covers declared d.ranges
  pub fits : All (Fits source maximum) d.ranges
  pub marks : MarkdownState
  pub marked : markdown_boundaries source (line_spans source) ≡ ok marks
  pub headings : d.heading_events ≡ marks.heading_events

pub divide-Divided :
    (source : Bytes) (t : Text) (declared : ByteRange) (profile : SegmentationProfile)
    (d : Division)
    → decode source ≡ ok t
    → ByteRange.IsValid declared
    → SegmentationProfile.IsValid profile
    → divide source declared profile ≡ ok d
    → Divided source declared profile.maximum_bytes d
unfolding divide
divide-Divided source t declared profile d h valid profile_valid made =
    let (u, accepted, _) = >>=-eq-ok (validate_scope_bytes source declared) _ made in
    let (d', made', covers, fits) =
      divide-Covers source t declared profile h valid profile_valid accepted in
    let same : d' ≡ d = ok_injective d' d (sym made' ∙ made) in
    let (marks, marked, headings) = divide-marks source declared profile d made in
    record {
      covers = subst (λ z. Covers declared (Division.ranges z)) same covers;
      fits = subst (λ z. All (Fits source profile.maximum_bytes) (Division.ranges z)) same fits;
      marks = marks;
      marked = marked;
      headings = headings;
    }

Chain-le :
    (source : Bytes) (m a b : ℕ) (rs : List ByteRange)
    → Chain a b rs
    → All (Fits source m) rs
    → a ≤ b
Chain-le source m a b [] chain h = omega arith
Chain-le source m a b (r ∷ rs) (same, chain) (f, h) =
    let more : r.start_byte < r.end_byte = f.valid in
    let below = Chain-le source m r.end_byte b rs chain h in omega arith

Chain-inside :
    (source : Bytes) (m a b : ℕ) (rs : List ByteRange)
    → Chain a b rs
    → All (Fits source m) rs
    → b ≤ length source
    → All (λ r. (r.start_byte < r.end_byte) × (r.end_byte ≤ length source)) rs
Chain-inside source m a b [] chain h inside = tt
Chain-inside source m a b (r ∷ rs) (same, chain) (f, h) inside =
    let below = Chain-le source m r.end_byte b rs chain h in
    ((f.valid, omega arith), Chain-inside source m r.end_byte b rs chain h inside)

ranges-expected_items :
    (services : Services) (source : Bytes) (binding : SourceBinding) (profile : SegmentationProfile)
    (events : Headings) (n : ℕ) (rs : List ByteRange)
    → CurationEvidenceRecord.segment_ranges
        (map (λ x. x.0) (expected_items services source binding profile events n rs))
      ≡ rs
unfolding expected_items
ranges-expected_items services source binding profile events n [] = refl
ranges-expected_items services source binding profile events n (r ∷ rs) =
    ap (λ rest. r ∷ rest) (ranges-expected_items services source binding profile events (suc n) rs)

selected_scope-ScopeOf :
    (declared : ByteRange) (scope : Option (List ScopeRecord)) (selected : List ScopeRecord)
    → selected_scope declared scope ≡ ok selected
    → ScopeOf declared scope selected
unfolding selected_scope ScopeOf ScopeRecord.init
selected_scope-ScopeOf declared (some asked) selected h = sym (ok_injective asked selected h)
selected_scope-ScopeOf declared none selected h = ground arith

init_parts :
    (services : Services) (source : Bytes) (run : CurationRunManifest)
    (scope : Option (List ScopeRecord)) (e : CurationEvidenceRecord)
    (b : Built services source run scope e)
    → (e.segments ≡ map (λ x. x.0) b.items)
      × (e.locators ≡ map (λ x. x.1) b.items)
      × (e.scope ≡ b.selected)
      × (run.declared_scope.end_byte ≤ run.source.byte_size)
init_parts services source run scope e b =
    let (own, bound, declared, _, segments, selected, locators) =
      CurationEvidenceRecord.init-FieldsValid _ _ _ _ _ _ _ e b.made in
    (segments, locators, selected, rw (← bound) (rw (← declared) own.inside))

-- A record that `build_evidence_record` returns for a valid run agrees with the run, whose byte
-- size and digest are those of the source. Its segments cover the declared scope without gap or
-- overlap, each non-empty, at most `maximum_bytes` long and between character boundaries. Each
-- segment, numbered in order from zero, has the digest of exactly its own bytes, the line numbers
-- of its first and its last byte, the profile of the run, and the path of the last heading at or
-- before its start. Each has one locator, at the same place of the same source and with the same
-- lines and digest. The scope is the one given, or the declared scope as processed.
pub build_evidence_record-Describes :
    (services : Services) (source : Bytes) (run : CurationRunManifest)
    (scope : Option (List ScopeRecord)) (e : CurationEvidenceRecord)
    → CurationRunManifest.IsValid run
    → build_evidence_record services source run scope ≡ ok e
    → Describes services source run scope e
build_evidence_record-Describes services source run scope e valid h =
    let b = build_evidence_record-Built services source run scope e h in
    let (t, decoded, sized, digest) = check_source-eq-ok services source run.source b.checked in
    let d =
      divide-Divided source t run.declared_scope run.segmentation_profile b.division decoded
        valid.valid_declared_scope valid.valid_segmentation_profile b.divided in
    let (segments, locators, selected, inside) = init_parts services source run scope e b in
    let items =
      items_loop-eq-ok services source run.source run.segmentation_profile b.division.heading_events
        0 b.division.ranges b.items b.items_made in
    let inside_all =
      Chain-inside source run.segmentation_profile.maximum_bytes run.declared_scope.start_byte
        run.declared_scope.end_byte b.division.ranges d.covers.1 d.fits (omega arith) in
    let expected =
      expected_items-Reads services source run.source run.segmentation_profile
        b.division.heading_events 0 b.division.ranges inside_all in
    let reads =
      subst
        (λ z. Reads services source run.source run.segmentation_profile z 0 e.segments e.locators)
        d.headings (rw (segments, locators, items) expected) in
    let ranges =
      ap CurationEvidenceRecord.segment_ranges segments
      ∙ ap (λ z. CurationEvidenceRecord.segment_ranges (map (λ x. x.0) z)) items
      ∙ ranges-expected_items services source run.source run.segmentation_profile
          b.division.heading_events 0 b.division.ranges in
    record {
      about = validate_against_run-About e run b.accepted;
      decoded = (t, decoded);
      sized = sized;
      digest = digest;
      covered = rw ranges d.covers;
      fitting = rw ranges d.fits;
      marks = d.marks;
      marked = d.marked;
      reads = reads;
      scoped =
          rw selected (selected_scope-ScopeOf run.declared_scope scope b.selected b.scope_made);
    }
