-- ===== src/Contracts/CurationMap/Tests.antt =====
-- Tests of the map.
use knowledge_flow.Contracts.ScopeRecord
use knowledge_flow.Contracts.ScopeRecord.{ScopeRecord}
use knowledge_flow.Contracts.ByteRange
use knowledge_flow.Contracts.SourceBinding
use knowledge_flow.Contracts.MapDecision
use knowledge_flow.Contracts.MapCandidate.{MapCandidate}
use knowledge_flow.Contracts.ProcessorUsage.{ProcessorUsage}
use knowledge_flow.Contracts.EvidenceLocator.{EvidenceLocator}
use knowledge_flow.Contracts.CurationMap
use knowledge_flow.Common.{◌≤◌, ◌≡◌, refl, true, none, some, List, [], ◌∷◌}
use knowledge_flow.Common.{map, All}
use knowledge_flow.Common.Text.{
  Text, text, text_eq, is_one_of, all_distinct, is_digit, after_prefix,
}
use knowledge_flow.Common.Result.{ok}
use knowledge_flow.Common.Int.{pos}
use knowledge_flow.Common.Value.{num, str}
use knowledge_flow.Ids.{is_uuid7, uuid_text, uuid_parse, hex_text}
use knowledge_flow.Contracts.Require.{
  require_positive, is_uuid7_id, require_uuid7_id, is_sha256, require_sha256,
}
use knowledge_flow.Contracts.Timestamp.{require_canonical_utc_milliseconds, parse_pattern, is_real}
use knowledge_flow.Contracts.Collections.{require_items}
use knowledge_flow.Contracts.Cover.{require_exact_range_cover, Chain}
use knowledge_flow.Contracts.Examples.{
  sample_digest, sample_moment, sample_source, sample_scope, sample_run, sample_candidate,
  sample_decision,
}
use knowledge_flow.Contracts.CurationMap.{
  CurationMap, short_reading_profile, short_reading_max_bytes, short_reading_max_units,
  locator_ranges,
}
use knowledge_flow.Contracts.CurationMap.Compare.{decision_against_map}
use knowledge_flow.Contracts.CurationMap.Laws.{
  init-Chain, decision_against_map-closed, BoundedRange,
}

abbrev whole_scope : List ScopeRecord
whole_scope = record { byte_range = sample_scope; status = text "processed"; reason = none } ∷ []

abbrev whole_locator : List EvidenceLocator
whole_locator =
    record {
      locator_id = text "loc_018f0000-0000-7000-8000-000000000006";
      source = sample_source;
      byte_range = sample_scope;
      start_line = 1;
      end_line = 3;
      excerpt_sha256 = text sample_digest;
    }
    ∷ []

abbrev no_usage : ProcessorUsage
no_usage = record {
  call_count = 0;
  input_tokens = 0;
  output_tokens = 0;
  elapsed_ms = 0;
  cost_currency = none;
  cost_minor_units = none;
}

abbrev sample_map : CurationMap
sample_map = record {
  map_id = text "map_018f0000-0000-7000-8000-000000000008";
  map_version = 1;
  curation_run_id = text "run_018f0000-0000-7000-8000-000000000003";
  created_at = text sample_moment;
  source = sample_source;
  declared_scope = sample_scope;
  scope = whole_scope;
  processor_profile = sample_run.processor_profile;
  processor_usage = no_usage;
  target_binding = none;
  candidates = sample_candidate ∷ [];
  reading_profile = some short_reading_profile;
  review_locators = whole_locator;
}

sample_map_made :
    CurationMap.init
      (str sample_map.map_id)
      (num (pos 1))
      (str sample_map.curation_run_id)
      (str (text sample_moment))
      sample_source
      sample_scope
      whole_scope
      sample_map.processor_profile
      no_usage
      none
      (sample_candidate ∷ [])
      (str short_reading_profile)
      whole_locator
    ≡ ok sample_map
unfolding CurationMap.init is_uuid7_id text text_eq after_prefix uuid_parse uuid_text hex_text
    require_canonical_utc_milliseconds parse_pattern is_real require_items require_exact_range_cover
    all_distinct is_one_of ScopeRecord.is_processed ByteRange.eq SourceBinding.eq require_uuid7_id
    is_uuid7 require_positive is_digit
sample_map_made = refl

init-Chain_example :
    (11 ≤ short_reading_max_bytes)
    × (1 ≤ short_reading_max_units)
    × All (BoundedRange sample_scope) whole_locator
    × (1 ≤ 1)
    × Chain 0 11 (locator_ranges whole_locator)
init-Chain_example =
    init-Chain (str sample_map.map_id) (num (pos 1)) (str sample_map.curation_run_id)
      (str (text sample_moment)) sample_source sample_scope whole_scope sample_map.processor_profile
      no_usage none (sample_candidate ∷ []) (str short_reading_profile) whole_locator sample_map
      short_reading_profile sample_map_made refl

sample_decision_accepted :
    decision_against_map sample_decision sample_map (str (text sample_digest)) ≡ ok tt
unfolding decision_against_map is_sha256 after_prefix text text_eq is_one_of require_sha256
sample_decision_accepted = refl

decision_against_map-closed_example :
    (str (text sample_digest) ≡ str sample_decision.map_sha256)
    × ((x : Text)
        → is_one_of x (MapDecision.decided_ids sample_decision.decisions) ≡ true
        → is_one_of x (map MapCandidate.candidate_id sample_map.candidates) ≡ true)
    × (text_eq sample_decision.outcome (text "map-closed") ≡ true
        → (x : Text)
        → is_one_of x (MapDecision.decided_ids sample_decision.decisions)
          ≡ is_one_of x (map MapCandidate.candidate_id sample_map.candidates))
decision_against_map-closed_example =
    decision_against_map-closed sample_decision sample_map (str (text sample_digest))
      sample_decision_accepted
