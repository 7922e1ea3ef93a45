-- ===== src/Contracts/Examples.antt =====
-- Objects that the tests use.
use knowledge_flow.Contracts.SourceBinding.{SourceBinding}
use knowledge_flow.Contracts.ByteRange.{ByteRange}
use knowledge_flow.Contracts.SourceFileMapping.{SourceFileMapping}
use knowledge_flow.Contracts.SegmentationProfile.{SegmentationProfile, profile_name}
use knowledge_flow.Contracts.CurationRunManifest.{CurationRunManifest}
use knowledge_flow.Contracts.MapCandidate.{MapCandidate}
use knowledge_flow.Contracts.MapDecision.{MapDecision}
use knowledge_flow.Common.{String, true, false, none, [], ◌∷◌}
use knowledge_flow.Common.Text.{text}

-- A digest that no file has.
abbrev pub sample_digest : String
sample_digest = "sha256:aaaaaaaaaaaaaaaaaaaaaaaaaaaaaaaaaaaaaaaaaaaaaaaaaaaaaaaaaaaaaaaa"

abbrev pub sample_moment : String
sample_moment = "2024-02-29T12:34:56.789Z"

abbrev pub sample_source : SourceBinding
sample_source = record {
  capture_id = text "cap_018f0000-0000-7000-8000-000000000001";
  capture_version = 1;
  envelope_sha256 = text sample_digest;
  payload_sha256 = text sample_digest;
  byte_size = 11;
}

abbrev pub sample_scope : ByteRange
sample_scope = record { start_byte = 0; end_byte = 11 }

abbrev pub sample_profile : SegmentationProfile
sample_profile = record {
  profile_id = profile_name;
  revision = 1;
  target_bytes = 16384;
  maximum_bytes = 32768;
  overlap_bytes = 0;
}

abbrev pub sample_mapping : SourceFileMapping
sample_mapping = record {
  source_mapping_id = text "smap_018f0000-0000-7000-8000-000000000002";
  source_reference = text "notes-1";
  source_sha256 = text sample_digest;
  source_byte_size = 11;
  capture = sample_source;
  mapped_at = text sample_moment;
  strict_utf8 = true;
}

abbrev pub sample_run : CurationRunManifest
sample_run = record {
  curation_run_id = text "run_018f0000-0000-7000-8000-000000000003";
  source_mapping_id = text "smap_018f0000-0000-7000-8000-000000000002";
  source = sample_source;
  processing_authorization = record {
    authorization_id = text "auth_018f0000-0000-7000-8000-000000000004";
    authorized_by = text "owner";
    authorized_at = text sample_moment;
    allowed_range = sample_scope;
    task_ids = text "segment" ∷ [];
    budget_id = none;
  };
  declared_scope = sample_scope;
  target_decision = none;
  segmentation_profile = sample_profile;
  processor_profile = record {
    kind = text "mechanical";
    processor_id = text "splitter";
    revision = 1;
    model_id = none;
    network_allowed = false;
  };
  state = text "authorized";
}

abbrev pub sample_candidate : MapCandidate
sample_candidate = record {
  candidate_id = text "cand_018f0000-0000-7000-8000-000000000005";
  kind = text "claim";
  summary = text "A fact.";
  evidence_locator_ids = text "loc_018f0000-0000-7000-8000-000000000006" ∷ [];
  provenance = text "source-claim";
  uncertainty = text "none";
  markdown_anchor = text "a-fact";
  supersedes = none;
}

abbrev pub sample_decision : MapDecision
sample_decision = record {
  decision_set_id = text "dset_018f0000-0000-7000-8000-000000000007";
  version = 1;
  map_sha256 = text sample_digest;
  outcome = text "map-closed";
  decided_by = text "owner";
  decided_at = text sample_moment;
  decisions =
      record {
        candidate_id = text "cand_018f0000-0000-7000-8000-000000000005";
        action = text "accept";
        replacement_text = none;
      }
      ∷ [];
}
