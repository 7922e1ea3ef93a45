-- ===== src/Segmentation/Tests.antt =====
-- Tests of the segmentation.
use knowledge_flow.Contracts.ByteRange
use knowledge_flow.Contracts.ByteRange.{ByteRange}
use knowledge_flow.Contracts.SourceBinding
use knowledge_flow.Contracts.SegmentationProfile
use knowledge_flow.Contracts.SegmentRecord
use knowledge_flow.Contracts.SegmentRecord.{SegmentRecord}
use knowledge_flow.Contracts.ScopeRecord
use knowledge_flow.Contracts.CurationRunManifest
use knowledge_flow.Contracts.Tests.{run_reads}
use knowledge_flow.Contracts.ScopeRecord.{ScopeRecord}
use knowledge_flow.Contracts.CurationEvidenceRecord
use knowledge_flow.Contracts.CurationEvidenceRecord.{CurationEvidenceRecord}
use knowledge_flow.Common.{ℕ, ◌+◌, String, ◌≡◌, refl, none, [], ◌∷◌, ◌++◌}
use knowledge_flow.Common.{arith, All}
use knowledge_flow.Common.Text.{
  Text, text, text_eq, is_one_of, all_distinct, has_char, after_prefix,
}
use knowledge_flow.Common.Result.{ok}
use knowledge_flow.Common.Value.{of_list}
use knowledge_flow.Ids.{is_uuid7, uuid_text, uuid_parse, hex_text}
use knowledge_flow.Contracts.Require.{is_uuid7_id, require_sequence, is_sha256}
use knowledge_flow.Contracts.Cover.{require_exact_range_cover, Covers}
use knowledge_flow.Segmentation.Utf8.{Bytes, decode, is_continuation, is_utf8_boundary}
use knowledge_flow.Segmentation.Lines.{line_spans}
use knowledge_flow.Segmentation.Markdown.{MarkdownState, markdown_boundaries}
use knowledge_flow.Segmentation.Choose.{choose_end, validate_scope_bytes}
use knowledge_flow.Segmentation.Lines.Laws.{Tiles, line_spans-Tiles}
use knowledge_flow.Segmentation.Choose.Laws.{choose_end-Chosen, Chosen}
use knowledge_flow.Segmentation.Markdown.Laws.{markdown_boundaries-Boundaries, Boundaries}
use knowledge_flow.Segmentation.Ranges.{Division, divide}
use knowledge_flow.Segmentation.Ranges.Laws.{Fits, divide-Covers}
use knowledge_flow.Hashing.{hash_bytes}
use knowledge_flow.Segmentation.Build.{
  Services, build_evidence_record, deterministic_segment_fingerprint,
}
use knowledge_flow.Segmentation.Build.Deterministic.{build_evidence_record-deterministic}
use knowledge_flow.Segmentation.Build.Validity.{
  build_evidence_record-IsValid, build_evidence_record-read_back,
}
use knowledge_flow.Contracts.RoundTrip.{evidence-read_back}
use knowledge_flow.Contracts.Examples.{
  sample_digest, sample_source, sample_scope, sample_profile, sample_run,
}
use knowledge_flow.Segmentation.Build.Describes.{Describes, build_evidence_record-Describes}

-- A heading, a blank line and a line of text.
abbrev note : Bytes
note = text "# a\n\nb c d\n"

note_decodes : decode note ≡ ok note
unfolding decode text
note_decodes = refl

note_scope_accepted : validate_scope_bytes note sample_scope ≡ ok tt
unfolding validate_scope_bytes text
note_scope_accepted = refl

sample_profile-IsValid : SegmentationProfile.IsValid sample_profile
sample_profile-IsValid = record {
  id = refl;
  revision_one = refl;
  target = refl;
  maximum = refl;
  no_overlap = refl;
}

divide-Covers_example :
    (d : Division) × (divide note sample_scope sample_profile ≡ ok d)
    × Covers sample_scope d.ranges
    × All (Fits note 32768) d.ranges
divide-Covers_example =
    divide-Covers note note sample_scope sample_profile note_decodes (omega arith)
      sample_profile-IsValid note_scope_accepted

line_spans-Tiles_example : Tiles note 0 (line_spans note)
line_spans-Tiles_example = line_spans-Tiles note

-- A target of four bytes: the fence of the scope is far, and the blank line ends the range.
choose_end-Chosen_example :
    (stop : ℕ) × (choose_end note 0 11 5 8 (0 ∷ 5 ∷ 11 ∷ []) (4 ∷ 5 ∷ 11 ∷ []) ≡ ok stop)
    × Chosen note 0 11 8 stop
unfolding is_utf8_boundary text is_continuation
choose_end-Chosen_example =
    choose_end-Chosen note note 0 11 5 8 (0 ∷ 5 ∷ 11 ∷ []) (4 ∷ 5 ∷ 11 ∷ []) note_decodes
      (omega arith) (omega arith) refl (omega arith) (omega arith) (refl, (refl, (refl, tt)))
      (refl, (refl, (refl, tt)))

markdown_boundaries-Boundaries_example :
    (st : MarkdownState) × (markdown_boundaries note (line_spans note) ≡ ok st)
    × Boundaries note st.preferred
markdown_boundaries-Boundaries_example = markdown_boundaries-Boundaries note note note_decodes

abbrev digit_string : Bytes → Text
digit_string b = text "aaaaaaaaaaaaaaaaaaaaaaaaaaaaaaaaaaaaaaaaaaaaaaaaaaaaaaaaaaaaaaaa"

abbrev first_ids : ℕ → String → Text
first_ids n prefix = text prefix ++ text "018f0000-0000-7000-8000-00000000000" ++ ((b'0' + n) ∷ [])

abbrev second_ids : ℕ → String → Text
second_ids n prefix = text prefix ++ text "018f0000-0000-7000-8000-00000000001" ++ ((b'0' + n) ∷ [])

abbrev services : (ℕ → String → Text) → Services
services ids = record { hexdigest = digit_string; new_id = ids }

abbrev note_evidence : (ℕ → String → Text) → CurationEvidenceRecord
note_evidence ids = record {
  curation_run_id = text "run_018f0000-0000-7000-8000-000000000003";
  source = sample_source;
  declared_scope = sample_scope;
  segmentation_profile = sample_profile;
  segments =
      record {
        segment_id = ids 0 "seg_";
        ordinal = 0;
        byte_range = sample_scope;
        start_line = 1;
        end_line = 3;
        heading_path = text "a" ∷ [];
        body_sha256 = text sample_digest;
        profile_id = text "experiment-markdown-blocks";
        profile_revision = 1;
      }
      ∷ [];
  scope = record { byte_range = sample_scope; status = text "processed"; reason = none } ∷ [];
  locators =
      record {
        locator_id = ids 1 "loc_";
        source = sample_source;
        byte_range = sample_scope;
        start_line = 1;
        end_line = 3;
        excerpt_sha256 = text sample_digest;
      }
      ∷ [];
}

note_built :
    build_evidence_record (services first_ids) note sample_run none ≡ ok (note_evidence first_ids)
unfolding hash_bytes build_evidence_record text is_uuid7_id after_prefix text_eq is_sha256
    SourceBinding.eq ByteRange.eq SegmentationProfile.eq is_one_of all_distinct uuid_parse uuid_text
    hex_text is_uuid7 SegmentRecord.require_headings require_sequence of_list has_char
    ScopeRecord.is_processed CurationEvidenceRecord.ordinals_from CurationEvidenceRecord.too_long
    require_exact_range_cover CurationEvidenceRecord.check_locators
note_built = refl

note_built_again :
    build_evidence_record (services second_ids) note sample_run none ≡ ok (note_evidence second_ids)
unfolding hash_bytes build_evidence_record text is_uuid7_id after_prefix text_eq is_sha256
    SourceBinding.eq ByteRange.eq SegmentationProfile.eq is_one_of all_distinct uuid_parse uuid_text
    hex_text is_uuid7 SegmentRecord.require_headings require_sequence of_list has_char
    ScopeRecord.is_processed CurationEvidenceRecord.ordinals_from CurationEvidenceRecord.too_long
    require_exact_range_cover CurationEvidenceRecord.check_locators
note_built_again = refl

sample_run-IsValid : CurationRunManifest.IsValid sample_run
sample_run-IsValid =
    CurationRunManifest.from_mapping-IsValid (CurationRunManifest.as_mapping sample_run) sample_run
      run_reads

build_evidence_record-read_back_example :
    CurationEvidenceRecord.from_mapping
      (CurationEvidenceRecord.as_mapping (note_evidence first_ids))
    ≡ ok (note_evidence first_ids)
build_evidence_record-read_back_example =
    build_evidence_record-read_back (services first_ids) note sample_run none
      (note_evidence first_ids) sample_run-IsValid tt note_built

build_evidence_record-Describes_example :
    Describes (services first_ids) note sample_run none (note_evidence first_ids)
build_evidence_record-Describes_example =
    build_evidence_record-Describes (services first_ids) note sample_run none
      (note_evidence first_ids) sample_run-IsValid note_built

build_evidence_record-deterministic_example :
    deterministic_segment_fingerprint (note_evidence first_ids)
    ≡ deterministic_segment_fingerprint (note_evidence second_ids)
build_evidence_record-deterministic_example =
    build_evidence_record-deterministic digit_string first_ids second_ids note sample_run none none
      (note_evidence first_ids) (note_evidence second_ids) note_built note_built_again

evidence-read_back_example :
    CurationEvidenceRecord.IsValid (note_evidence first_ids)
    × (CurationEvidenceRecord.from_mapping
          (CurationEvidenceRecord.as_mapping (note_evidence first_ids))
        ≡ ok (note_evidence first_ids))
evidence-read_back_example =
    evidence-read_back (CurationEvidenceRecord.as_mapping (note_evidence first_ids))
      (note_evidence first_ids)
      (CurationEvidenceRecord.from_mapping-as_mapping (note_evidence first_ids) (
        build_evidence_record-IsValid (services first_ids) note sample_run none
          (note_evidence first_ids) sample_run-IsValid tt note_built))
