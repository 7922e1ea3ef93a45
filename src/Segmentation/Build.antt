-- ===== src/Segmentation/Build.antt =====
-- `build_evidence_record` and `deterministic_segment_fingerprint` of segmentation.py. The digest
-- of hashlib and the identifiers that `id_factory` gives, numbered by its calls, are arguments.
use knowledge_flow.Contracts.SourceBinding.{SourceBinding}
use knowledge_flow.Contracts.ByteRange.{ByteRange}
use knowledge_flow.Contracts.SegmentationProfile.{SegmentationProfile}
use knowledge_flow.Contracts.SegmentRecord
use knowledge_flow.Contracts.SegmentRecord.{SegmentRecord}
use knowledge_flow.Contracts.ScopeRecord
use knowledge_flow.Contracts.ScopeRecord.{ScopeRecord}
use knowledge_flow.Contracts.EvidenceLocator
use knowledge_flow.Contracts.EvidenceLocator.{EvidenceLocator}
use knowledge_flow.Contracts.CurationRunManifest.{CurationRunManifest}
use knowledge_flow.Contracts.CurationEvidenceRecord
use knowledge_flow.Contracts.CurationEvidenceRecord.{CurationEvidenceRecord}
pub mod Laws
pub mod Deterministic
pub mod Validity
pub mod Pieces
pub mod Reads
pub mod Describes
use knowledge_flow.Common.{ℕ, suc, ◌+◌, ◌*◌, String, not, Option, none, some}
use knowledge_flow.Common.{List, [], ◌∷◌, map, ltb, ◌==◌, if◌then◌else◌, length}
use knowledge_flow.Common.Text.{Text, text, text_eq}
use knowledge_flow.Common.Result.{value_error, Result, ok, ◌>>=◌, ◌>>◌, raise_if}
use knowledge_flow.Common.Int.{pos}
use knowledge_flow.Common.Value.{null, num, str, strs}
use knowledge_flow.Contracts.Require.{item}
use knowledge_flow.Segmentation.Utf8.{Bytes, decode}
use knowledge_flow.Segmentation.Lines.{slice, line_number_at_start, line_number_at_end}
use knowledge_flow.Segmentation.Ranges.{divide}
use knowledge_flow.Hashing.{hash_bytes}
use knowledge_flow.Contracts.Against.{validate_against_run}

abbrev pub Headings : Type 0
Headings = List (ℕ × List Text)

-- `_heading_at`, with `selected` so far
heading_loop : List Text → Headings → ℕ → List Text
heading_loop selected [] offset = selected
heading_loop selected ((position, path) ∷ events) offset =
    let later = heading_loop path events offset in if ltb offset position then selected else later

unfoldable pub heading_at : Headings → ℕ → List Text
unfolding heading_loop
heading_at events offset = heading_loop [] events offset

-- What the code outside the repository gives: `hashlib.sha256(value).hexdigest()`, and the n-th
-- call of `id_factory`.
pub record Services : Type 0 where
  pub hexdigest : Bytes → Text
  pub new_id : ℕ → String → Text

digest_of : Services → Bytes → Text
digest_of services bytes = (hash_bytes services.hexdigest bytes).sha256

-- The segment of a range, and the locator of a range.
make_segment :
    Services → Bytes → SegmentationProfile → Headings → ℕ → ByteRange → ℕ → Result SegmentRecord
unfolding digest_of slice line_number_at_start heading_at SegmentRecord.init
make_segment services source profile events ordinal r end_line =
    SegmentRecord.init (str (services.new_id (2 * ordinal) "seg_")) (num (pos ordinal)) r
      (num (pos (line_number_at_start source r.start_byte))) (num (pos end_line))
      (strs (heading_at events r.start_byte))
      (str (digest_of services (slice source r.start_byte r.end_byte))) (str profile.profile_id)
      (num (pos profile.revision))

make_locator : Services → Bytes → SourceBinding → ℕ → ByteRange → ℕ → Result EvidenceLocator
unfolding digest_of slice line_number_at_start EvidenceLocator.init
make_locator services source binding ordinal r end_line =
    EvidenceLocator.init (str (services.new_id (2 * ordinal + 1) "loc_")) binding r
      (num (pos (line_number_at_start source r.start_byte))) (num (pos end_line))
      (str (digest_of services (slice source r.start_byte r.end_byte)))

-- One round of the `for` loop over the ranges. It calls `id_factory` twice.
make_item :
    Services
    → Bytes
    → SourceBinding
    → SegmentationProfile
    → Headings
    → ℕ
    → ByteRange
    → Result (SegmentRecord × EvidenceLocator)
unfolding line_number_at_end make_segment make_locator
make_item services source binding profile events ordinal r = do
  end_line ← line_number_at_end source r.start_byte r.end_byte
  segment ← make_segment services source profile events ordinal r end_line
  locator ← make_locator services source binding ordinal r end_line
  ok (segment, locator)

-- The `for` loop
pub items_loop :
    Services
    → Bytes
    → SourceBinding
    → SegmentationProfile
    → Headings
    → ℕ
    → List ByteRange
    → Result (List (SegmentRecord × EvidenceLocator))
unfolding make_item
items_loop services source binding profile events ordinal [] = ok []
items_loop services source binding profile events ordinal (r ∷ rs) = do
  made ← make_item services source binding profile events ordinal r
  rest ← items_loop services source binding profile events (suc ordinal) rs
  ok (made ∷ rest)

-- `scope`, or the declared scope as processed
pub selected_scope : ByteRange → Option (List ScopeRecord) → Result (List ScopeRecord)
unfolding ScopeRecord.init
selected_scope declared (some scope) = ok scope
selected_scope declared none = do
  unbroken ← ScopeRecord.init declared (str (text "processed")) null
  ok (unbroken ∷ [])

-- The digest of the source is that of the run.
pub check_source : Services → Bytes → SourceBinding → Result (Unit {0})
unfolding digest_of decode
check_source services source binding = do
  raise_if (length source == 0) (value_error "source must be non-empty bytes")
  decoded ← decode source
  raise_if (not (length source == binding.byte_size))
      (value_error "source byte size does not match the run")
  raise_if (not (text_eq (digest_of services source) binding.payload_sha256))
      (value_error "source digest does not match the run")

unfoldable pub build_evidence_record :
    Services
    → Bytes
    → CurationRunManifest
    → Option (List ScopeRecord)
    → Result CurationEvidenceRecord
unfolding check_source divide items_loop selected_scope CurationEvidenceRecord.init
    validate_against_run
build_evidence_record services source run scope = do
  check_source services source run.source
  division ← divide source run.declared_scope run.segmentation_profile
  items ←
      items_loop services source run.source run.segmentation_profile division.heading_events 0
        division.ranges
  selected ← selected_scope run.declared_scope scope
  evidence ←
      CurationEvidenceRecord.init (str run.curation_run_id) run.source run.declared_scope
        run.segmentation_profile (map (λ item. item.0) items) selected (map (λ item. item.1) items)
  validate_against_run evidence run
  ok evidence

-- The facts of a segment that are not its identifier.
pub record Fact : Type 0 where
  pub ordinal : ℕ
  pub start_byte : ℕ
  pub end_byte : ℕ
  pub start_line : ℕ
  pub end_line : ℕ
  pub heading_path : List Text
  pub body_sha256 : Text
  pub profile_id : Text
  pub profile_revision : ℕ

unfoldable pub fact : SegmentRecord → Fact
fact s = record {
  ordinal = s.ordinal;
  start_byte = s.byte_range.start_byte;
  end_byte = s.byte_range.end_byte;
  start_line = s.start_line;
  end_line = s.end_line;
  heading_path = s.heading_path;
  body_sha256 = s.body_sha256;
  profile_id = s.profile_id;
  profile_revision = s.profile_revision;
}

unfoldable pub deterministic_segment_fingerprint : CurationEvidenceRecord → List Fact
unfolding fact
deterministic_segment_fingerprint evidence = map fact evidence.segments
