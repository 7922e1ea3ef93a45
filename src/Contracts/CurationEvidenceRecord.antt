-- ===== src/Contracts/CurationEvidenceRecord.antt =====
-- `CurationEvidenceRecord` of contracts.py: the segments, the scope and the locators of a run.
use knowledge_flow.Contracts.SourceBinding
use knowledge_flow.Contracts.SourceBinding.{SourceBinding}
use knowledge_flow.Contracts.ByteRange
use knowledge_flow.Contracts.ByteRange.{ByteRange}
use knowledge_flow.Contracts.SegmentationProfile
use knowledge_flow.Contracts.SegmentationProfile.{SegmentationProfile}
use knowledge_flow.Contracts.SegmentRecord
use knowledge_flow.Contracts.SegmentRecord.{SegmentRecord}
use knowledge_flow.Contracts.ScopeRecord
use knowledge_flow.Contracts.ScopeRecord.{ScopeRecord}
use knowledge_flow.Contracts.EvidenceLocator
use knowledge_flow.Contracts.EvidenceLocator.{EvidenceLocator}
use mathlib.Core.Path.{subst}
use knowledge_flow.Common.{ℕ, suc, ◌-◌, ◌≤◌, String, ◌≡◌, refl, sym, Bool}
use knowledge_flow.Common.{true, false, not, ◌&&◌, ◌||◌, List, [], ◌∷◌, map}
use knowledge_flow.Common.{arith, ltb, ◌==◌, length, any, All, length-map}
use knowledge_flow.Common.Text.{Text, text, text_eq_refl, all_distinct}
use knowledge_flow.Common.Result.{
  value_error, Result, ok, ◌>>=◌, ◌>>◌, raise_if, map_result, Ensures, bind-Ensures,
}
use knowledge_flow.Common.Int.{pos}
use knowledge_flow.Common.Value.{Value, num, str, seq, dict, end, entry, of_list}
use knowledge_flow.Contracts.Require.{
  max_collection_items, require_exact_keys, item, require_token, require_nonnegative,
  require_positive, require_version_one, is_uuid7_id, require_uuid7_id,
}
use knowledge_flow.Contracts.Require.{
  require_sequence, require_sha256, require_one_of, require_text, require_bool,
}
use knowledge_flow.Contracts.Collections.{map_result-All, require_items, items_read_back}
use knowledge_flow.Contracts.Cover.{
  require_exact_range_cover, Covers, require_exact_range_cover-Covers,
  require_exact_range_cover_of_Covers,
}

pub record CurationEvidenceRecord : Type 0 where
  pub curation_run_id : Text
  pub source : SourceBinding
  pub declared_scope : ByteRange
  pub segmentation_profile : SegmentationProfile
  pub segments : List SegmentRecord
  pub scope : List ScopeRecord
  pub locators : List EvidenceLocator

-- `[item.ordinal for item in segments] == list(range(len(segments)))`
unfoldable pub ordinals_from : ℕ → List SegmentRecord → Bool
ordinals_from n [] = true
ordinals_from n (s ∷ ss) = s.ordinal == n && ordinals_from (suc n) ss

abbrev pub segment_ids : List SegmentRecord → List Text
segment_ids = map SegmentRecord.segment_id

abbrev pub segment_ranges : List SegmentRecord → List ByteRange
segment_ranges = map SegmentRecord.byte_range

abbrev pub scope_ranges : List ScopeRecord → List ByteRange
scope_ranges = map ScopeRecord.byte_range

abbrev pub locator_ids : List EvidenceLocator → List Text
locator_ids = map EvidenceLocator.locator_id

unfoldable pub too_long : ℕ → List SegmentRecord → Bool
too_long maximum ss = any (λ s. ltb maximum (s.byte_range.end_byte - s.byte_range.start_byte)) ss

-- The loop over the locators.
unfoldable pub check_locators : SourceBinding → ByteRange → List EvidenceLocator → Result (Unit {0})
check_locators source scope [] = ok tt
check_locators source scope (l ∷ ls) = do
  raise_if (not (SourceBinding.eq l.source source))
      (value_error "locator source must match evidence source")
  raise_if
      (ltb l.byte_range.start_byte scope.start_byte || ltb scope.end_byte l.byte_range.end_byte)
      (value_error "locator must stay inside declared_scope")
  check_locators source scope ls

abbrev pub Inside : SourceBinding → ByteRange → EvidenceLocator → Type 0
Inside source scope l =
    (SourceBinding.eq l.source source ≡ true)
    × (scope.start_byte ≤ l.byte_range.start_byte)
    × (l.byte_range.end_byte ≤ scope.end_byte)

check_locators-Inside :
    (source : SourceBinding) (scope : ByteRange) (ls : List EvidenceLocator)
    → check_locators source scope ls ≡ ok tt
    → All (Inside source scope) ls
unfolding check_locators
check_locators-Inside source scope [] h = tt
check_locators-Inside source scope (l ∷ ls) h =
    ground (arith, check_locators-Inside source scope ls)

pub check_locators_of_Inside :
    (source : SourceBinding) (scope : ByteRange) (ls : List EvidenceLocator)
    → All (Inside source scope) ls
    → check_locators source scope ls ≡ ok tt
unfolding check_locators
check_locators_of_Inside source scope [] h = refl
check_locators_of_Inside source scope (l ∷ ls) h =
    ground (arith, check_locators_of_Inside source scope ls h.1)

unfoldable pub init :
    Value
    → SourceBinding
    → ByteRange
    → SegmentationProfile
    → List SegmentRecord
    → List ScopeRecord
    → List EvidenceLocator
    → Result CurationEvidenceRecord
unfolding require_token require_uuid7_id require_sha256 require_positive require_nonnegative
    require_one_of require_text require_bool require_items
init curation_run_id_given source declared_scope segmentation_profile segments scope locators = do
  curation_run_id ← require_uuid7_id curation_run_id_given "run_" "curation_run_id"
  raise_if (ltb source.byte_size declared_scope.end_byte)
      (value_error "declared_scope exceeds source bytes")
  require_items segments "segments" false
  raise_if (not (ordinals_from 0 segments))
      (value_error "segment ordinals must start at zero and be contiguous")
  raise_if (not (all_distinct (segment_ids segments))) (value_error "segment IDs must be unique")
  raise_if (too_long segmentation_profile.maximum_bytes segments)
      (value_error "segment exceeds the segmentation profile maximum")
  require_exact_range_cover declared_scope (segment_ranges segments) "segments"
  require_items scope "scope" false
  require_exact_range_cover declared_scope (scope_ranges scope) "scope"
  require_items locators "locators" true
  raise_if (not (all_distinct (locator_ids locators))) (value_error "locator IDs must be unique")
  check_locators source declared_scope locators
  ok (record {
    curation_run_id = curation_run_id;
    source = source;
    declared_scope = declared_scope;
    segmentation_profile = segmentation_profile;
    segments = segments;
    scope = scope;
    locators = locators;
  })

unfoldable pub as_mapping : CurationEvidenceRecord → Value
as_mapping r = dict (
    entry "schema" (str (text "knowledgeflow.curation-experiment-record")) (
      entry "schema_version" (num (pos 1)) (
        entry "curation_run_id" (str r.curation_run_id) (
          entry "source" (SourceBinding.as_mapping r.source) (
            entry "declared_scope" (ByteRange.as_mapping r.declared_scope) (
              entry "segmentation_profile" (SegmentationProfile.as_mapping r.segmentation_profile) (
                entry "segments" (seq (of_list (map SegmentRecord.as_mapping r.segments))) (
                  entry "scope" (seq (of_list (map ScopeRecord.as_mapping r.scope))) (
                    entry "locators" (seq (of_list (map EvidenceLocator.as_mapping r.locators)))
                      end)))))))))

abbrev fields : List String
fields =
    "schema" ∷ "schema_version" ∷ "curation_run_id" ∷ "source" ∷ "declared_scope"
    ∷ "segmentation_profile" ∷ "segments" ∷ "scope" ∷ "locators" ∷ []

unfoldable pub from_mapping : Value → Result CurationEvidenceRecord
from_mapping value = do
  raw ← require_exact_keys value fields "curation experiment record"
  schema ← item raw "schema"
  schema_checked ←
      require_text schema (text "knowledgeflow.curation-experiment-record")
        (value_error "curation experiment record schema is not supported")
  schema_version ← item raw "schema_version"
  require_version_one schema_version "curation experiment record schema_version"
  curation_run_id_given ← item raw "curation_run_id"
  source_given ← item raw "source"
  declared_scope_given ← item raw "declared_scope"
  segmentation_profile_given ← item raw "segmentation_profile"
  segments_given ← item raw "segments"
  scope_given ← item raw "scope"
  locators_given ← item raw "locators"
  segments_values ← require_sequence segments_given "segments" false
  scope_values ← require_sequence scope_given "scope" false
  locators_values ← require_sequence locators_given "locators" true
  source ← SourceBinding.from_mapping source_given
  declared_scope ← ByteRange.from_mapping declared_scope_given "declared_scope"
  segmentation_profile ← SegmentationProfile.from_mapping segmentation_profile_given
  segments ← map_result SegmentRecord.from_mapping segments_values
  scope ← map_result ScopeRecord.from_mapping scope_values
  locators ← map_result EvidenceLocator.from_mapping locators_values
  init curation_run_id_given source declared_scope segmentation_profile segments scope locators

-- What the checks of the class itself establish.
pub record FieldsValid (r : CurationEvidenceRecord) : Type 0 where
  pub id : is_uuid7_id "run_" r.curation_run_id ≡ true
  pub inside : r.declared_scope.end_byte ≤ r.source.byte_size
  pub segment_count : length r.segments ≤ max_collection_items
  pub ordinals : ordinals_from 0 r.segments ≡ true
  pub distinct_segments : all_distinct (segment_ids r.segments) ≡ true
  pub bounded : too_long r.segmentation_profile.maximum_bytes r.segments ≡ false
  pub segments_cover : Covers r.declared_scope (segment_ranges r.segments)
  pub scope_count : length r.scope ≤ max_collection_items
  pub scope_covers : Covers r.declared_scope (scope_ranges r.scope)
  pub locator_count : length r.locators ≤ max_collection_items
  pub distinct_locators : all_distinct (locator_ids r.locators) ≡ true
  pub locators_inside : All (Inside r.source r.declared_scope) r.locators

pub record IsValid (r : CurationEvidenceRecord) : Type 0 where
  pub own : FieldsValid r
  pub valid_source : SourceBinding.IsValid r.source
  pub valid_declared_scope : ByteRange.IsValid r.declared_scope
  pub valid_segmentation_profile : SegmentationProfile.IsValid r.segmentation_profile
  pub valid_segments : All SegmentRecord.IsValid r.segments
  pub valid_scope : All ScopeRecord.IsValid r.scope
  pub valid_locators : All EvidenceLocator.IsValid r.locators

pub init-FieldsValid :
    (curation_run_id_given : Value) (source : SourceBinding) (declared_scope : ByteRange)
    (segmentation_profile : SegmentationProfile) (segments : List SegmentRecord)
    (scope : List ScopeRecord) (locators : List EvidenceLocator) (r : CurationEvidenceRecord)
    → init curation_run_id_given source declared_scope segmentation_profile segments scope locators
      ≡ ok r
    → FieldsValid r
      × (r.source ≡ source)
      × (r.declared_scope ≡ declared_scope)
      × (r.segmentation_profile ≡ segmentation_profile)
      × (r.segments ≡ segments)
      × (r.scope ≡ scope)
      × (r.locators ≡ locators)
unfolding init
init-FieldsValid curation_run_id_given source declared_scope segmentation_profile segments scope
      locators r h =
    ground (
      arith,
      require_exact_range_cover-Covers declared_scope (segment_ranges segments) "segments",
      require_exact_range_cover-Covers declared_scope (scope_ranges scope) "scope",
      check_locators-Inside source declared_scope locators,
    )

pub init-IsValid :
    (curation_run_id_given : Value) (source : SourceBinding) (declared_scope : ByteRange)
    (segmentation_profile : SegmentationProfile) (segments : List SegmentRecord)
    (scope : List ScopeRecord) (locators : List EvidenceLocator) (r : CurationEvidenceRecord)
    → SourceBinding.IsValid source
    → ByteRange.IsValid declared_scope
    → SegmentationProfile.IsValid segmentation_profile
    → All SegmentRecord.IsValid segments
    → All ScopeRecord.IsValid scope
    → All EvidenceLocator.IsValid locators
    → init curation_run_id_given source declared_scope segmentation_profile segments scope locators
      ≡ ok r
    → IsValid r
init-IsValid curation_run_id_given source declared_scope segmentation_profile segments scope
      locators r valid_source valid_declared_scope valid_segmentation_profile valid_segments
      valid_scope valid_locators h =
    let (
      own, same_source, same_declared_scope, same_segmentation_profile, same_segments, same_scope,
      same_locators,
    ) =
      init-FieldsValid curation_run_id_given source declared_scope segmentation_profile segments
        scope locators r h in
    record {
      own = own;
      valid_source = subst SourceBinding.IsValid (sym same_source) valid_source;
      valid_declared_scope = subst ByteRange.IsValid (sym same_declared_scope) valid_declared_scope;
      valid_segmentation_profile =
          subst SegmentationProfile.IsValid (sym same_segmentation_profile)
            valid_segmentation_profile;
      valid_segments = subst (All SegmentRecord.IsValid) (sym same_segments) valid_segments;
      valid_scope = subst (All ScopeRecord.IsValid) (sym same_scope) valid_scope;
      valid_locators = subst (All EvidenceLocator.IsValid) (sym same_locators) valid_locators;
    }

pub init-values :
    (r : CurationEvidenceRecord)
    → FieldsValid r
    → init
        (str r.curation_run_id)
        r.source
        r.declared_scope
        r.segmentation_profile
        r.segments
        r.scope
        r.locators
      ≡ ok r
unfolding init
init-values r h = ground (
  arith,
  require_exact_range_cover_of_Covers r.declared_scope (segment_ranges r.segments) "segments"
      h.segments_cover,
  require_exact_range_cover_of_Covers r.declared_scope (scope_ranges r.scope) "scope"
      h.scope_covers,
  check_locators_of_Inside r.source r.declared_scope r.locators h.locators_inside,
  length-map SegmentRecord.byte_range r.segments,
  length-map ScopeRecord.byte_range r.scope,
)

-- What a document is read as is valid.
pub from_mapping-IsValid :
    (v : Value) (r : CurationEvidenceRecord) → from_mapping v ≡ ok r → IsValid r
unfolding from_mapping
from_mapping-IsValid v r h =
    let valid : Ensures IsValid (from_mapping v) =
      (bind-Ensures (require_exact_keys v fields "curation experiment record") λ raw e_raw.
        (bind-Ensures (item raw "schema") λ schema e_schema.
          (bind-Ensures
            (require_text schema (text "knowledgeflow.curation-experiment-record")
              (value_error "curation experiment record schema is not supported"))
            λ schema_checked e_schema_checked.
              (bind-Ensures (item raw "schema_version") λ schema_version e_schema_version.
                (bind-Ensures
                  (require_version_one schema_version "curation experiment record schema_version")
                  λ u4 e_u4.
                    (bind-Ensures (item raw "curation_run_id")
                      λ curation_run_id_given e_curation_run_id_given.
                        (bind-Ensures (item raw "source") λ source_given e_source_given.
                          (bind-Ensures (item raw "declared_scope")
                            λ declared_scope_given e_declared_scope_given.
                              (bind-Ensures (item raw "segmentation_profile")
                                λ segmentation_profile_given e_segmentation_profile_given.
                                  (bind-Ensures (item raw "segments")
                                    λ segments_given e_segments_given.
                                      (bind-Ensures (item raw "scope") λ scope_given e_scope_given.
                                        (bind-Ensures (item raw "locators")
                                          λ locators_given e_locators_given.
                                            (bind-Ensures
                                              (require_sequence segments_given "segments" false)
                                              λ segments_values e_segments_values.
                                                (bind-Ensures
                                                  (require_sequence scope_given "scope" false)
                                                  λ scope_values e_scope_values.
                                                    (bind-Ensures
                                                      (require_sequence locators_given "locators"
                                                        true)
                                                      λ locators_values e_locators_values.
                                                        (bind-Ensures
                                                          (SourceBinding.from_mapping source_given)
                                                          λ source e_source.
                                                            (bind-Ensures
                                                            (ByteRange.from_mapping
                                                            declared_scope_given "declared_scope")
                                                            λ declared_scope e_declared_scope.
                                                            (bind-Ensures
                                                            (SegmentationProfile.from_mapping
                                                            segmentation_profile_given)
                                                            λ segmentation_profile
                                                            e_segmentation_profile.
                                                            (bind-Ensures
                                                            (map_result SegmentRecord.from_mapping
                                                            segments_values)
                                                            λ segments e_segments.
                                                            (bind-Ensures
                                                            (map_result ScopeRecord.from_mapping
                                                            scope_values)
                                                            λ scope e_scope.
                                                            (bind-Ensures
                                                            (map_result EvidenceLocator.from_mapping
                                                            locators_values)
                                                            λ locators e_locators. record {
                                                            at = λ a made.
                                                            init-IsValid curation_run_id_given
                                                            source declared_scope
                                                            segmentation_profile segments scope
                                                            locators a
                                                            (SourceBinding.from_mapping-IsValid
                                                            source_given source e_source)
                                                            (ByteRange.from_mapping-IsValid
                                                            declared_scope_given "declared_scope"
                                                            declared_scope e_declared_scope)
                                                            (SegmentationProfile.from_mapping-IsValid
                                                            segmentation_profile_given
                                                            segmentation_profile
                                                            e_segmentation_profile)
                                                            (map_result-All
                                                            SegmentRecord.from_mapping
                                                            SegmentRecord.IsValid
                                                            SegmentRecord.from_mapping-IsValid
                                                            segments_values segments e_segments)
                                                            (map_result-All ScopeRecord.from_mapping
                                                            ScopeRecord.IsValid
                                                            ScopeRecord.from_mapping-IsValid
                                                            scope_values scope e_scope)
                                                            (map_result-All
                                                            EvidenceLocator.from_mapping
                                                            EvidenceLocator.IsValid
                                                            EvidenceLocator.from_mapping-IsValid
                                                            locators_values locators e_locators)
                                                            made;
                                                            }))))))))))))))))))))) in
    valid.at r h

some_segments :
    (r : CurationEvidenceRecord) → FieldsValid r → (not false && length r.segments == 0) ≡ false
some_segments r h = ground (arith, length-map SegmentRecord.byte_range r.segments)

some_scope :
    (r : CurationEvidenceRecord) → FieldsValid r → (not false && length r.scope == 0) ≡ false
some_scope r h = ground (arith, length-map ScopeRecord.byte_range r.scope)

-- A valid object is read back from its own mapping.
pub from_mapping-as_mapping :
    (r : CurationEvidenceRecord) → IsValid r → from_mapping (as_mapping r) ≡ ok r
unfolding from_mapping as_mapping require_exact_keys item require_text require_version_one
from_mapping-as_mapping r h =
    rw
      (
        text_eq_refl (text "knowledgeflow.curation-experiment-record"),
        (items_read_back SegmentRecord.from_mapping SegmentRecord.as_mapping SegmentRecord.IsValid
            "segments" false r.segments SegmentRecord.from_mapping-as_mapping h.valid_segments
            h.own.segment_count (some_segments r h.own)).0,
        (items_read_back SegmentRecord.from_mapping SegmentRecord.as_mapping SegmentRecord.IsValid
            "segments" false r.segments SegmentRecord.from_mapping-as_mapping h.valid_segments
            h.own.segment_count (some_segments r h.own)).1,
        (items_read_back ScopeRecord.from_mapping ScopeRecord.as_mapping ScopeRecord.IsValid "scope"
            false r.scope ScopeRecord.from_mapping-as_mapping h.valid_scope h.own.scope_count
            (some_scope r h.own)).0,
        (items_read_back ScopeRecord.from_mapping ScopeRecord.as_mapping ScopeRecord.IsValid "scope"
            false r.scope ScopeRecord.from_mapping-as_mapping h.valid_scope h.own.scope_count
            (some_scope r h.own)).1,
        (items_read_back EvidenceLocator.from_mapping EvidenceLocator.as_mapping
            EvidenceLocator.IsValid "locators" true r.locators
            EvidenceLocator.from_mapping-as_mapping h.valid_locators h.own.locator_count refl).0,
        (items_read_back EvidenceLocator.from_mapping EvidenceLocator.as_mapping
            EvidenceLocator.IsValid "locators" true r.locators
            EvidenceLocator.from_mapping-as_mapping h.valid_locators h.own.locator_count refl).1,
        SourceBinding.from_mapping-as_mapping r.source h.valid_source,
        ByteRange.from_mapping-as_mapping r.declared_scope "declared_scope" h.valid_declared_scope,
        SegmentationProfile.from_mapping-as_mapping r.segmentation_profile
            h.valid_segmentation_profile,
      )
      (init-values r h.own)
