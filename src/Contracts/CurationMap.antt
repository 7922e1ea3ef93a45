-- ===== src/Contracts/CurationMap.antt =====
-- `CurationMap` of contracts.py: the map of candidates over one source, with its reading profile.
use knowledge_flow.Contracts.SourceBinding
use knowledge_flow.Contracts.SourceBinding.{SourceBinding}
use knowledge_flow.Contracts.ByteRange
use knowledge_flow.Contracts.ByteRange.{ByteRange}
use knowledge_flow.Contracts.ScopeRecord
use knowledge_flow.Contracts.ScopeRecord.{ScopeRecord}
use knowledge_flow.Contracts.ProcessorProfile
use knowledge_flow.Contracts.ProcessorProfile.{ProcessorProfile}
use knowledge_flow.Contracts.ProcessorUsage
use knowledge_flow.Contracts.ProcessorUsage.{ProcessorUsage}
use knowledge_flow.Contracts.TargetBinding
use knowledge_flow.Contracts.TargetBinding.{TargetBinding}
use knowledge_flow.Contracts.MapCandidate
use knowledge_flow.Contracts.MapCandidate.{MapCandidate}
use knowledge_flow.Contracts.EvidenceLocator
use knowledge_flow.Contracts.EvidenceLocator.{EvidenceLocator}
pub mod Laws
pub mod Read
pub mod Compare
pub mod Tests
use knowledge_flow.Common.{ℕ, ◌-◌, ◌*◌, Bool, false, not, ◌||◌, Option, none}
use knowledge_flow.Common.{some, List, [], ◌∷◌, map, ltb, ◌==◌, length}
use knowledge_flow.Common.Text.{Text, text, text_eq, all_distinct}
use knowledge_flow.Common.Result.{value_error, Result, ok, err, ◌>>=◌, ◌>>◌, raise_if}
use knowledge_flow.Common.Int.{pos}
use knowledge_flow.Common.Value.{Value, null, num, str, seq, dict, Entries, end, entry}
use knowledge_flow.Common.Value.{of_list}
use knowledge_flow.Contracts.Require.{require_positive, require_uuid7_id}
use knowledge_flow.Contracts.Timestamp.{require_canonical_utc_milliseconds}
use knowledge_flow.Contracts.Collections.{require_items}
use knowledge_flow.Contracts.Cover.{require_exact_range_cover}

pub record CurationMap : Type 0 where
  pub map_id : Text
  pub map_version : ℕ
  pub curation_run_id : Text
  pub created_at : Text
  pub source : SourceBinding
  pub declared_scope : ByteRange
  pub scope : List ScopeRecord
  pub processor_profile : ProcessorProfile
  pub processor_usage : ProcessorUsage
  pub target_binding : Option TargetBinding
  pub candidates : List MapCandidate
  pub reading_profile : Option Text
  pub review_locators : List EvidenceLocator

abbrev pub short_reading_profile : Text
short_reading_profile = text "short-ten-section-v1"

abbrev pub short_reading_max_bytes : ℕ
short_reading_max_bytes = 8 * 1024

abbrev pub short_reading_max_units : ℕ
short_reading_max_units = 128

abbrev pub short_reading_max_range_bytes : ℕ
short_reading_max_range_bytes = 1024

-- `self.scope[0].status != "processed"`, of the one scope record
not_processed : List ScopeRecord → Bool
unfolding ScopeRecord.is_processed
not_processed [] = false
not_processed (s ∷ ss) = not (ScopeRecord.is_processed s.status)

outside_short_profile : SourceBinding → ByteRange → List ScopeRecord → List EvidenceLocator → Bool
unfolding not_processed ByteRange.eq
outside_short_profile source declared scope locators =
    ltb short_reading_max_bytes source.byte_size
    || not (ByteRange.eq declared (record { start_byte = 0; end_byte = source.byte_size }))
    || not (length scope == 1)
    || not_processed scope
    || ltb short_reading_max_units (length locators)

-- The checks of `reading_profile` against the review locators.
check_profile :
    Value
    → SourceBinding
    → ByteRange
    → List ScopeRecord
    → List EvidenceLocator
    → Result (Option Text)
unfolding outside_short_profile
check_profile null source declared scope locators = do
  raise_if (not (length locators == 0)) (value_error "legacy maps cannot contain review locators")
  ok none
check_profile (str profile) source declared scope locators = do
  raise_if (not (text_eq profile short_reading_profile))
      (value_error "map reading profile is not supported")
  raise_if (length locators == 0) (value_error "short reading maps require exact review locators")
  raise_if (outside_short_profile source declared scope locators)
      (value_error "short reading map exceeds its complete-source profile")
  ok (some profile)
check_profile _ source declared scope locators =
    err (value_error "map reading profile is not supported")

-- The loop over the review locators.
check_review : SourceBinding → ByteRange → List EvidenceLocator → Result (Unit {0})
unfolding SourceBinding.eq
check_review source declared [] = ok tt
check_review source declared (l ∷ ls) = do
  raise_if
      (not (SourceBinding.eq l.source source)
        || ltb l.byte_range.start_byte declared.start_byte
        || ltb declared.end_byte l.byte_range.end_byte)
      (value_error "review locator escapes the map source or scope")
  raise_if (ltb short_reading_max_range_bytes (l.byte_range.end_byte - l.byte_range.start_byte))
      (value_error "short reading locator exceeds its byte bound")
  check_review source declared ls

abbrev pub locator_ranges : List EvidenceLocator → List ByteRange
locator_ranges = map EvidenceLocator.byte_range

-- The cover that a short reading has.
check_review_cover : Option Text → ByteRange → List EvidenceLocator → Result (Unit {0})
unfolding require_exact_range_cover
check_review_cover none declared locators = ok tt
check_review_cover (some profile) declared locators =
    require_exact_range_cover declared (locator_ranges locators) "review locators"

unfoldable pub init :
    Value
    → Value
    → Value
    → Value
    → SourceBinding
    → ByteRange
    → List ScopeRecord
    → ProcessorProfile
    → ProcessorUsage
    → Option TargetBinding
    → List MapCandidate
    → Value
    → List EvidenceLocator
    → Result CurationMap
unfolding check_profile check_review check_review_cover
init map_id_given map_version_given curation_run_id_given created_at_given source declared_scope
      scope processor_profile processor_usage target_binding candidates reading_profile_given
      review_locators =
    do
      map_id ← require_uuid7_id map_id_given "map_" "map_id"
      map_version ← require_positive map_version_given "map_version"
      curation_run_id ← require_uuid7_id curation_run_id_given "run_" "curation_run_id"
      created_at ← require_canonical_utc_milliseconds created_at_given "created_at"
      raise_if (ltb source.byte_size declared_scope.end_byte)
          (value_error "declared_scope exceeds source bytes")
      require_items scope "scope" false
      require_exact_range_cover declared_scope (map ScopeRecord.byte_range scope) "scope"
      require_items candidates "candidates" false
      raise_if (not (all_distinct (map MapCandidate.candidate_id candidates)))
          (value_error "candidate IDs must be unique")
      raise_if (not (all_distinct (map MapCandidate.markdown_anchor candidates)))
          (value_error "candidate markdown anchors must be unique")
      reading_profile ←
          check_profile reading_profile_given source declared_scope scope review_locators
      raise_if (not (all_distinct (map EvidenceLocator.locator_id review_locators)))
          (value_error "review locator IDs must be unique")
      check_review source declared_scope review_locators
      check_review_cover reading_profile declared_scope review_locators
      ok (record {
        map_id = map_id;
        map_version = map_version;
        curation_run_id = curation_run_id;
        created_at = created_at;
        source = source;
        declared_scope = declared_scope;
        scope = scope;
        processor_profile = processor_profile;
        processor_usage = processor_usage;
        target_binding = target_binding;
        candidates = candidates;
        reading_profile = reading_profile;
        review_locators = review_locators;
      })

abbrev optional_binding : Option TargetBinding → Value
optional_binding none = null
optional_binding (some b) = TargetBinding.as_mapping b

abbrev pub schema_version_of : Option Text → ℕ
schema_version_of none = 1
schema_version_of (some profile) = 2

-- The two fields of version 2.
abbrev reading_fields : CurationMap → Entries
reading_fields r = elim r.reading_profile [
  | none ↦ end
  | some profile ↦ entry "reading_profile" (str profile) (
      entry "review_locators" (seq (of_list (map EvidenceLocator.as_mapping r.review_locators)))
        end)
]

unfoldable pub as_mapping : CurationMap → Value
as_mapping r = dict (
    entry "schema" (str (text "knowledgeflow.curation-map")) (
      entry "schema_version" (num (pos (schema_version_of r.reading_profile))) (
        entry "map_id" (str r.map_id) (
          entry "map_version" (num (pos r.map_version)) (
            entry "curation_run_id" (str r.curation_run_id) (
              entry "created_at" (str r.created_at) (
                entry "source" (SourceBinding.as_mapping r.source) (
                  entry "declared_scope" (ByteRange.as_mapping r.declared_scope) (
                    entry "scope" (seq (of_list (map ScopeRecord.as_mapping r.scope))) (
                      entry "processor_profile" (ProcessorProfile.as_mapping r.processor_profile) (
                        entry "processor_usage" (ProcessorUsage.as_mapping r.processor_usage) (
                          entry "target_binding" (optional_binding r.target_binding) (
                            entry "candidates"
                              (seq (of_list (map MapCandidate.as_mapping r.candidates)))
                              (reading_fields r))))))))))))))
