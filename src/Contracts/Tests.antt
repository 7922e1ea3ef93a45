-- ===== src/Contracts/Tests.antt =====
-- Tests of the contracts.
use knowledge_flow.Contracts.SourceBinding
use knowledge_flow.Contracts.ByteRange
use knowledge_flow.Contracts.SourceFileMapping
use knowledge_flow.Contracts.ProcessingAuthorization
use knowledge_flow.Contracts.SegmentationProfile
use knowledge_flow.Contracts.ProcessorProfile
use knowledge_flow.Contracts.CurationRunManifest
use knowledge_flow.Contracts.MapCandidate
use knowledge_flow.Contracts.CandidateDecision
use knowledge_flow.Contracts.MapDecision
use knowledge_flow.Contracts.SourceFileMapping.{SourceFileMapping}
use knowledge_flow.Contracts.ByteRange.{ByteRange}
use knowledge_flow.Common.{◌≡◌, refl, List, [], ◌∷◌, arith}
use knowledge_flow.Common.Text.{
  text, text_eq, is_one_of, all_distinct, strip, utf8_size, has_char, after_prefix,
}
use knowledge_flow.Common.Result.{ok}
use knowledge_flow.Common.Value.{of_list}
use knowledge_flow.Ids.{validate_typed_id, uuid_text, uuid_parse, hex_text}
use knowledge_flow.Contracts.Require.{
  require_exact_keys, item, is_safe_token, is_markdown_anchor, require_version_one, is_uuid7_id,
  require_sequence, is_sha256, require_text,
}
use knowledge_flow.Contracts.Timestamp.{require_canonical_utc_milliseconds, parse_pattern, is_real}
use knowledge_flow.Contracts.Cover.{
  require_exact_range_cover, covering, covering-require_exact_range_cover,
}
use knowledge_flow.Contracts.RoundTrip.{
  source_mapping-read_back, run-read_back, candidate-read_back, map_decision-read_back,
}
use knowledge_flow.Contracts.Examples.{
  sample_scope, sample_mapping, sample_run, sample_candidate, sample_decision,
}

source_mapping_reads :
    SourceFileMapping.from_mapping (SourceFileMapping.as_mapping sample_mapping) ≡ ok sample_mapping
unfolding SourceFileMapping.from_mapping SourceFileMapping.as_mapping SourceFileMapping.init
    SourceBinding.from_mapping SourceBinding.as_mapping SourceBinding.init require_exact_keys item
    require_text text_eq text require_version_one validate_typed_id after_prefix uuid_parse
    uuid_text hex_text is_sha256 is_uuid7_id is_safe_token require_canonical_utc_milliseconds
    parse_pattern is_real
source_mapping_reads = refl

source_mapping-read_back_example :
    SourceFileMapping.IsValid sample_mapping
    × (SourceFileMapping.from_mapping (SourceFileMapping.as_mapping sample_mapping)
        ≡ ok sample_mapping)
source_mapping-read_back_example =
    source_mapping-read_back (SourceFileMapping.as_mapping sample_mapping) sample_mapping
      source_mapping_reads

pub run_reads :
    CurationRunManifest.from_mapping (CurationRunManifest.as_mapping sample_run) ≡ ok sample_run
unfolding CurationRunManifest.from_mapping CurationRunManifest.as_mapping CurationRunManifest.init
    SourceBinding.from_mapping SourceBinding.as_mapping SourceBinding.init ByteRange.from_mapping
    ByteRange.as_mapping ByteRange.init ProcessingAuthorization.from_mapping
    ProcessingAuthorization.as_mapping ProcessingAuthorization.init SegmentationProfile.from_mapping
    SegmentationProfile.as_mapping SegmentationProfile.init ProcessorProfile.from_mapping
    ProcessorProfile.as_mapping ProcessorProfile.init require_exact_keys item require_text text_eq
    text require_version_one validate_typed_id after_prefix uuid_parse uuid_text hex_text is_sha256
    is_uuid7_id is_safe_token require_canonical_utc_milliseconds parse_pattern is_real
    require_sequence of_list ProcessingAuthorization.require_tasks all_distinct
run_reads = refl

run-read_back_example :
    CurationRunManifest.IsValid sample_run
    × (CurationRunManifest.from_mapping (CurationRunManifest.as_mapping sample_run) ≡ ok sample_run)
run-read_back_example =
    run-read_back (CurationRunManifest.as_mapping sample_run) sample_run run_reads

candidate_reads :
    MapCandidate.from_mapping (MapCandidate.as_mapping sample_candidate) ≡ ok sample_candidate
unfolding MapCandidate.from_mapping MapCandidate.as_mapping MapCandidate.init require_exact_keys
    item require_text text_eq text require_version_one validate_typed_id after_prefix uuid_parse
    uuid_text hex_text is_sha256 is_uuid7_id is_safe_token require_canonical_utc_milliseconds
    parse_pattern is_real require_sequence of_list is_one_of strip has_char utf8_size
    MapCandidate.require_locator_ids MapCandidate.evidence_missing all_distinct is_markdown_anchor
candidate_reads = refl

candidate-read_back_example :
    MapCandidate.IsValid sample_candidate
    × (MapCandidate.from_mapping (MapCandidate.as_mapping sample_candidate) ≡ ok sample_candidate)
candidate-read_back_example =
    candidate-read_back (MapCandidate.as_mapping sample_candidate) sample_candidate candidate_reads

map_decision_reads :
    MapDecision.from_mapping (MapDecision.as_mapping sample_decision) ≡ ok sample_decision
unfolding MapDecision.from_mapping MapDecision.as_mapping MapDecision.init
    CandidateDecision.from_mapping CandidateDecision.as_mapping CandidateDecision.init
    require_exact_keys item require_text text_eq text require_version_one validate_typed_id
    after_prefix uuid_parse uuid_text hex_text is_sha256 is_uuid7_id is_safe_token
    require_canonical_utc_milliseconds parse_pattern is_real require_sequence of_list is_one_of
    CandidateDecision.is_modify all_distinct
map_decision_reads = refl

map_decision-read_back_example :
    MapDecision.IsValid sample_decision
    × (MapDecision.from_mapping (MapDecision.as_mapping sample_decision) ≡ ok sample_decision)
map_decision-read_back_example =
    map_decision-read_back (MapDecision.as_mapping sample_decision) sample_decision
      map_decision_reads

abbrev halves : List ByteRange
halves = record { start_byte = 0; end_byte = 5 } ∷ record { start_byte = 5; end_byte = 11 } ∷ []

halves_cover : require_exact_range_cover sample_scope halves "segments" ≡ ok tt
unfolding require_exact_range_cover
halves_cover = refl

covering-require_exact_range_cover_example : covering 5 halves ≡ 1
covering-require_exact_range_cover_example =
    covering-require_exact_range_cover sample_scope halves "segments" 5
      (omega arith, (omega arith, tt)) halves_cover
