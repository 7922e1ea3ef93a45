-- ===== src/Contracts/Against.antt =====
-- The methods of contracts.py that compare an object with the object it refers to.
use knowledge_flow.Contracts.SourceBinding
use knowledge_flow.Contracts.SourceBinding.{SourceBinding}
use knowledge_flow.Contracts.ByteRange
use knowledge_flow.Contracts.ByteRange.{ByteRange}
use knowledge_flow.Contracts.SegmentationProfile
use knowledge_flow.Contracts.SegmentationProfile.{SegmentationProfile}
use knowledge_flow.Contracts.SourceFileMapping.{SourceFileMapping}
use knowledge_flow.Contracts.CurationRunManifest.{CurationRunManifest}
use knowledge_flow.Contracts.CurationEvidenceRecord.{CurationEvidenceRecord}
use knowledge_flow.Common.{◌≡◌, refl, true, not, arith}
use knowledge_flow.Common.Text.{text_eq, text_eq_refl, text_eq→eq}
use knowledge_flow.Common.Result.{value_error, Result, ok, ◌>>◌, raise_if}

-- `CurationEvidenceRecord.validate_against_run`
unfoldable pub validate_against_run :
    CurationEvidenceRecord → CurationRunManifest → Result (Unit {0})
validate_against_run e run = do
  raise_if (not (text_eq e.curation_run_id run.curation_run_id))
      (value_error "evidence and run use different curation_run_id values")
  raise_if (not (SourceBinding.eq e.source run.source))
      (value_error "evidence and run use different sources")
  raise_if (not (ByteRange.eq e.declared_scope run.declared_scope))
      (value_error "evidence and run use different declared_scope values")
  raise_if (not (SegmentationProfile.eq e.segmentation_profile run.segmentation_profile))
      (value_error "evidence and run use different segmentation profiles")

-- `CurationRunManifest.validate_source_mapping`
unfoldable pub validate_source_mapping : CurationRunManifest → SourceFileMapping → Result (Unit {0})
validate_source_mapping run mapping = do
  raise_if (not (text_eq run.source_mapping_id mapping.source_mapping_id))
      (value_error "curation run binds a different source mapping")
  raise_if (not (SourceBinding.eq run.source mapping.capture))
      (value_error "curation run and source mapping use different Captures")

source_eq→eq : (a b : SourceBinding) → SourceBinding.eq a b ≡ true → a ≡ b
unfolding SourceBinding.eq
source_eq→eq a b h = ground (
  arith,
  text_eq→eq a.capture_id b.capture_id,
  text_eq→eq a.envelope_sha256 b.envelope_sha256,
  text_eq→eq a.payload_sha256 b.payload_sha256,
)

pub source_eq_refl : (a : SourceBinding) → SourceBinding.eq a a ≡ true
unfolding SourceBinding.eq
source_eq_refl a = ground (
  arith,
  text_eq_refl a.capture_id,
  text_eq_refl a.envelope_sha256,
  text_eq_refl a.payload_sha256,
)

profile_eq→eq : (a b : SegmentationProfile) → SegmentationProfile.eq a b ≡ true → a ≡ b
unfolding SegmentationProfile.eq
profile_eq→eq a b h = ground (arith, text_eq→eq a.profile_id b.profile_id)

profile_eq_refl : (a : SegmentationProfile) → SegmentationProfile.eq a a ≡ true
unfolding SegmentationProfile.eq
profile_eq_refl a = ground (arith, text_eq_refl a.profile_id)

range_eq_refl : (a : ByteRange) → ByteRange.eq a a ≡ true
unfolding ByteRange.eq
range_eq_refl a = ground arith

-- The evidence is about the run.
abbrev pub About : CurationEvidenceRecord → CurationRunManifest → Type 0
About e run =
    (e.curation_run_id ≡ run.curation_run_id)
    × (e.source ≡ run.source)
    × (e.declared_scope ≡ run.declared_scope)
    × (e.segmentation_profile ≡ run.segmentation_profile)

pub validate_against_run-About :
    (e : CurationEvidenceRecord) (run : CurationRunManifest)
    → validate_against_run e run ≡ ok tt
    → About e run
unfolding validate_against_run
validate_against_run-About e run h = ground (
  arith,
  text_eq→eq e.curation_run_id run.curation_run_id,
  source_eq→eq e.source run.source,
  ByteRange.eq→eq e.declared_scope run.declared_scope,
  profile_eq→eq e.segmentation_profile run.segmentation_profile,
)

pub validate_against_run_of_About :
    (e : CurationEvidenceRecord) (run : CurationRunManifest)
    → About e run
    → validate_against_run e run ≡ ok tt
unfolding validate_against_run
validate_against_run_of_About e run (same_id, same_source, same_scope, same_profile) =
    rw
      (
        same_id,
        same_source,
        same_scope,
        same_profile,
        text_eq_refl run.curation_run_id,
        source_eq_refl run.source,
        range_eq_refl run.declared_scope,
        profile_eq_refl run.segmentation_profile,
      )
      refl
