-- ===== src/Contracts/CurationRunManifest.antt =====
-- `CurationRunManifest` of contracts.py: one authorised curation run over one source.
use knowledge_flow.Contracts.SourceBinding
use knowledge_flow.Contracts.SourceBinding.{SourceBinding}
use knowledge_flow.Contracts.ProcessingAuthorization
use knowledge_flow.Contracts.ProcessingAuthorization.{ProcessingAuthorization}
use knowledge_flow.Contracts.ByteRange
use knowledge_flow.Contracts.ByteRange.{ByteRange}
use knowledge_flow.Contracts.TargetDecision
use knowledge_flow.Contracts.TargetDecision.{TargetDecision}
use knowledge_flow.Contracts.SegmentationProfile
use knowledge_flow.Contracts.SegmentationProfile.{SegmentationProfile}
use knowledge_flow.Contracts.ProcessorProfile
use knowledge_flow.Contracts.ProcessorProfile.{ProcessorProfile}
use mathlib.Core.Path.{subst}
use knowledge_flow.Common.{◌≤◌, String, ◌≡◌, refl, sym, ap, true, ◌||◌, Option}
use knowledge_flow.Common.{none, some, List, [], ◌∷◌, arith, ltb, AllOption}
use knowledge_flow.Common.Text.{Text, text, text_eq_refl, is_one_of}
use knowledge_flow.Common.Result.{
  value_error, Result, ok, ◌>>=◌, ◌>>◌, raise_if, >>=-eq-ok, ok_injective, Ensures,
}
use knowledge_flow.Common.Result.{bind-Ensures}
use knowledge_flow.Common.Int.{pos}
use knowledge_flow.Common.Value.{Value, null, num, str, dict, end, entry}
use knowledge_flow.Contracts.Require.{
  require_exact_keys, item, require_token, require_nonnegative, require_positive,
  require_version_one, is_uuid7_id, require_uuid7_id, require_sha256,
}
use knowledge_flow.Contracts.Require.{require_one_of, require_text, require_bool}

pub record CurationRunManifest : Type 0 where
  pub curation_run_id : Text
  pub source_mapping_id : Text
  pub source : SourceBinding
  pub processing_authorization : ProcessingAuthorization
  pub declared_scope : ByteRange
  pub target_decision : Option TargetDecision
  pub segmentation_profile : SegmentationProfile
  pub processor_profile : ProcessorProfile
  pub state : Text

abbrev pub run_states : List Text
run_states =
    text "authorized"
    ∷ text "processing"
    ∷ text "map-ready"
    ∷ text "map-closed"
    ∷ text "change-requested"
    ∷ text "deferred"
    ∷ text "failed"
    ∷ text "cancelled"
    ∷ []

unfoldable pub init :
    Value
    → Value
    → SourceBinding
    → ProcessingAuthorization
    → ByteRange
    → Option TargetDecision
    → SegmentationProfile
    → ProcessorProfile
    → Value
    → Result CurationRunManifest
unfolding require_token require_uuid7_id require_sha256 require_positive require_nonnegative
    require_one_of require_text require_bool
init curation_run_id_given source_mapping_id_given source processing_authorization declared_scope
      target_decision segmentation_profile processor_profile state_given =
    do
      curation_run_id ← require_uuid7_id curation_run_id_given "run_" "curation_run_id"
      source_mapping_id ← require_uuid7_id source_mapping_id_given "smap_" "source_mapping_id"
      raise_if (ltb source.byte_size processing_authorization.allowed_range.end_byte)
          (value_error "processing authorization exceeds source bytes")
      raise_if
          (ltb declared_scope.start_byte processing_authorization.allowed_range.start_byte
            || ltb processing_authorization.allowed_range.end_byte declared_scope.end_byte)
          (value_error "declared_scope exceeds processing authorization")
      state ←
          require_one_of state_given run_states
            (value_error "state is not a supported CUR1 run state")
      ok (record {
        curation_run_id = curation_run_id;
        source_mapping_id = source_mapping_id;
        source = source;
        processing_authorization = processing_authorization;
        declared_scope = declared_scope;
        target_decision = target_decision;
        segmentation_profile = segmentation_profile;
        processor_profile = processor_profile;
        state = state;
      })

abbrev optional_target_decision : Option TargetDecision → Value
optional_target_decision none = null
optional_target_decision (some x) = TargetDecision.as_mapping x

abbrev read_optional_target_decision : Value → Result (Option TargetDecision)
read_optional_target_decision null = ok none
read_optional_target_decision v = TargetDecision.from_mapping v >>= λ x. ok (some x)

unfoldable pub as_mapping : CurationRunManifest → Value
as_mapping r = dict (
    entry "schema" (str (text "knowledgeflow.curation-experiment-run")) (
      entry "schema_version" (num (pos 1)) (
        entry "curation_run_id" (str r.curation_run_id) (
          entry "source_mapping_id" (str r.source_mapping_id) (
            entry "source" (SourceBinding.as_mapping r.source) (
              entry "processing_authorization"
                (ProcessingAuthorization.as_mapping r.processing_authorization)
                (entry "declared_scope" (ByteRange.as_mapping r.declared_scope) (
                  entry "target_decision" (optional_target_decision r.target_decision) (
                    entry "segmentation_profile"
                      (SegmentationProfile.as_mapping r.segmentation_profile)
                      (entry "processor_profile" (ProcessorProfile.as_mapping r.processor_profile)
                        (entry "state" (str r.state) end)))))))))))

abbrev fields : List String
fields =
    "schema" ∷ "schema_version" ∷ "curation_run_id" ∷ "source_mapping_id" ∷ "source"
    ∷ "processing_authorization" ∷ "declared_scope" ∷ "target_decision" ∷ "segmentation_profile"
    ∷ "processor_profile" ∷ "state" ∷ []

unfoldable pub from_mapping : Value → Result CurationRunManifest
from_mapping value = do
  raw ← require_exact_keys value fields "curation run"
  schema ← item raw "schema"
  schema_checked ←
      require_text schema (text "knowledgeflow.curation-experiment-run")
        (value_error "curation run schema is not supported")
  schema_version ← item raw "schema_version"
  require_version_one schema_version "curation run schema_version"
  curation_run_id_given ← item raw "curation_run_id"
  source_mapping_id_given ← item raw "source_mapping_id"
  source_given ← item raw "source"
  processing_authorization_given ← item raw "processing_authorization"
  declared_scope_given ← item raw "declared_scope"
  target_decision_given ← item raw "target_decision"
  segmentation_profile_given ← item raw "segmentation_profile"
  processor_profile_given ← item raw "processor_profile"
  state_given ← item raw "state"
  source ← SourceBinding.from_mapping source_given
  processing_authorization ← ProcessingAuthorization.from_mapping processing_authorization_given
  declared_scope ← ByteRange.from_mapping declared_scope_given "declared_scope"
  target_decision ← read_optional_target_decision target_decision_given
  segmentation_profile ← SegmentationProfile.from_mapping segmentation_profile_given
  processor_profile ← ProcessorProfile.from_mapping processor_profile_given
  init curation_run_id_given source_mapping_id_given source processing_authorization declared_scope
      target_decision segmentation_profile processor_profile state_given

read_back_decision :
    (d : Option TargetDecision)
    → AllOption TargetDecision.IsValid d
    → read_optional_target_decision (optional_target_decision d) ≡ ok d
unfolding TargetDecision.as_mapping
read_back_decision none h = refl
read_back_decision (some d) h =
    ap (λ m. m >>= λ x. ok (some x))
      (unfold TargetDecision.as_mapping in TargetDecision.from_mapping-as_mapping d h)

optional_IsValid :
    (v : Value) (d : Option TargetDecision)
    → read_optional_target_decision v ≡ ok d
    → AllOption TargetDecision.IsValid d
optional_IsValid null d h = subst (AllOption TargetDecision.IsValid) (ok_injective none d h) tt
optional_IsValid v d h =
    let (x, e, h') = >>=-eq-ok (TargetDecision.from_mapping v) _ h in
    subst (AllOption TargetDecision.IsValid) (ok_injective (some x) d h')
      (TargetDecision.from_mapping-IsValid v x e)

-- What the checks of the class itself establish.
pub record FieldsValid (r : CurationRunManifest) : Type 0 where
  pub id : is_uuid7_id "run_" r.curation_run_id ≡ true
  pub mapping_id : is_uuid7_id "smap_" r.source_mapping_id ≡ true
  pub authorized : r.processing_authorization.allowed_range.end_byte ≤ r.source.byte_size
  pub scope_start :
      r.processing_authorization.allowed_range.start_byte ≤ r.declared_scope.start_byte
  pub scope_end : r.declared_scope.end_byte ≤ r.processing_authorization.allowed_range.end_byte
  pub state_known : is_one_of r.state run_states ≡ true

pub record IsValid (r : CurationRunManifest) : Type 0 where
  pub own : FieldsValid r
  pub valid_source : SourceBinding.IsValid r.source
  pub valid_processing_authorization : ProcessingAuthorization.IsValid r.processing_authorization
  pub valid_declared_scope : ByteRange.IsValid r.declared_scope
  pub valid_target_decision : AllOption TargetDecision.IsValid r.target_decision
  pub valid_segmentation_profile : SegmentationProfile.IsValid r.segmentation_profile
  pub valid_processor_profile : ProcessorProfile.IsValid r.processor_profile

init-FieldsValid :
    (curation_run_id_given : Value) (source_mapping_id_given : Value) (source : SourceBinding)
    (processing_authorization : ProcessingAuthorization) (declared_scope : ByteRange)
    (target_decision : Option TargetDecision) (segmentation_profile : SegmentationProfile)
    (processor_profile : ProcessorProfile) (state_given : Value) (r : CurationRunManifest)
    → init curation_run_id_given source_mapping_id_given source processing_authorization
        declared_scope target_decision segmentation_profile processor_profile state_given
      ≡ ok r
    → FieldsValid r
      × (r.source ≡ source)
      × (r.processing_authorization ≡ processing_authorization)
      × (r.declared_scope ≡ declared_scope)
      × (r.target_decision ≡ target_decision)
      × (r.segmentation_profile ≡ segmentation_profile)
      × (r.processor_profile ≡ processor_profile)
unfolding init
init-FieldsValid curation_run_id_given source_mapping_id_given source processing_authorization
      declared_scope target_decision segmentation_profile processor_profile state_given r h =
    ground (arith)

pub init-IsValid :
    (curation_run_id_given : Value) (source_mapping_id_given : Value) (source : SourceBinding)
    (processing_authorization : ProcessingAuthorization) (declared_scope : ByteRange)
    (target_decision : Option TargetDecision) (segmentation_profile : SegmentationProfile)
    (processor_profile : ProcessorProfile) (state_given : Value) (r : CurationRunManifest)
    → SourceBinding.IsValid source
    → ProcessingAuthorization.IsValid processing_authorization
    → ByteRange.IsValid declared_scope
    → AllOption TargetDecision.IsValid target_decision
    → SegmentationProfile.IsValid segmentation_profile
    → ProcessorProfile.IsValid processor_profile
    → init curation_run_id_given source_mapping_id_given source processing_authorization
        declared_scope target_decision segmentation_profile processor_profile state_given
      ≡ ok r
    → IsValid r
init-IsValid curation_run_id_given source_mapping_id_given source processing_authorization
      declared_scope target_decision segmentation_profile processor_profile state_given r
      valid_source valid_processing_authorization valid_declared_scope valid_target_decision
      valid_segmentation_profile valid_processor_profile h =
    let (
      own, same_source, same_processing_authorization, same_declared_scope, same_target_decision,
      same_segmentation_profile, same_processor_profile,
    ) =
      init-FieldsValid curation_run_id_given source_mapping_id_given source processing_authorization
        declared_scope target_decision segmentation_profile processor_profile state_given r h in
    record {
      own = own;
      valid_source = subst SourceBinding.IsValid (sym same_source) valid_source;
      valid_processing_authorization =
          subst ProcessingAuthorization.IsValid (sym same_processing_authorization)
            valid_processing_authorization;
      valid_declared_scope = subst ByteRange.IsValid (sym same_declared_scope) valid_declared_scope;
      valid_target_decision =
          subst (AllOption TargetDecision.IsValid) (sym same_target_decision) valid_target_decision;
      valid_segmentation_profile =
          subst SegmentationProfile.IsValid (sym same_segmentation_profile)
            valid_segmentation_profile;
      valid_processor_profile =
          subst ProcessorProfile.IsValid (sym same_processor_profile) valid_processor_profile;
    }

pub init-values :
    (r : CurationRunManifest)
    → FieldsValid r
    → init
        (str r.curation_run_id)
        (str r.source_mapping_id)
        r.source
        r.processing_authorization
        r.declared_scope
        r.target_decision
        r.segmentation_profile
        r.processor_profile
        (str r.state)
      ≡ ok r
unfolding init
init-values r h = ground (arith)

-- What a document is read as is valid.
pub from_mapping-IsValid : (v : Value) (r : CurationRunManifest) → from_mapping v ≡ ok r → IsValid r
unfolding from_mapping
from_mapping-IsValid v r h =
    let valid : Ensures IsValid (from_mapping v) =
      (bind-Ensures (require_exact_keys v fields "curation run") λ raw e_raw.
        (bind-Ensures (item raw "schema") λ schema e_schema.
          (bind-Ensures
            (require_text schema (text "knowledgeflow.curation-experiment-run")
              (value_error "curation run schema is not supported"))
            λ schema_checked e_schema_checked.
              (bind-Ensures (item raw "schema_version") λ schema_version e_schema_version.
                (bind-Ensures (require_version_one schema_version "curation run schema_version")
                  λ u4 e_u4.
                    (bind-Ensures (item raw "curation_run_id")
                      λ curation_run_id_given e_curation_run_id_given.
                        (bind-Ensures (item raw "source_mapping_id")
                          λ source_mapping_id_given e_source_mapping_id_given.
                            (bind-Ensures (item raw "source") λ source_given e_source_given.
                              (bind-Ensures (item raw "processing_authorization")
                                λ processing_authorization_given e_processing_authorization_given.
                                  (bind-Ensures (item raw "declared_scope")
                                    λ declared_scope_given e_declared_scope_given.
                                      (bind-Ensures (item raw "target_decision")
                                        λ target_decision_given e_target_decision_given.
                                          (bind-Ensures (item raw "segmentation_profile")
                                            λ segmentation_profile_given
                                                e_segmentation_profile_given.
                                              (bind-Ensures (item raw "processor_profile")
                                                λ processor_profile_given e_processor_profile_given.
                                                  (bind-Ensures (item raw "state")
                                                    λ state_given e_state_given.
                                                      (bind-Ensures
                                                        (SourceBinding.from_mapping source_given)
                                                        λ source e_source.
                                                          (bind-Ensures
                                                            (ProcessingAuthorization.from_mapping
                                                            processing_authorization_given)
                                                            λ processing_authorization
                                                            e_processing_authorization.
                                                            (bind-Ensures
                                                            (ByteRange.from_mapping
                                                            declared_scope_given "declared_scope")
                                                            λ declared_scope e_declared_scope.
                                                            (bind-Ensures
                                                            (read_optional_target_decision
                                                            target_decision_given)
                                                            λ target_decision e_target_decision.
                                                            (bind-Ensures
                                                            (SegmentationProfile.from_mapping
                                                            segmentation_profile_given)
                                                            λ segmentation_profile
                                                            e_segmentation_profile.
                                                            (bind-Ensures
                                                            (ProcessorProfile.from_mapping
                                                            processor_profile_given)
                                                            λ processor_profile e_processor_profile.
                                                            record {
                                                            at = λ a made.
                                                            init-IsValid curation_run_id_given
                                                            source_mapping_id_given source
                                                            processing_authorization declared_scope
                                                            target_decision segmentation_profile
                                                            processor_profile state_given a
                                                            (SourceBinding.from_mapping-IsValid
                                                            source_given source e_source)
                                                            (ProcessingAuthorization.from_mapping-IsValid
                                                            processing_authorization_given
                                                            processing_authorization
                                                            e_processing_authorization)
                                                            (ByteRange.from_mapping-IsValid
                                                            declared_scope_given "declared_scope"
                                                            declared_scope e_declared_scope)
                                                            (optional_IsValid target_decision_given
                                                            target_decision e_target_decision)
                                                            (SegmentationProfile.from_mapping-IsValid
                                                            segmentation_profile_given
                                                            segmentation_profile
                                                            e_segmentation_profile)
                                                            (ProcessorProfile.from_mapping-IsValid
                                                            processor_profile_given
                                                            processor_profile e_processor_profile)
                                                            made;
                                                            })))))))))))))))))))) in
    valid.at r h

-- A valid object is read back from its own mapping.
pub from_mapping-as_mapping :
    (r : CurationRunManifest) → IsValid r → from_mapping (as_mapping r) ≡ ok r
unfolding from_mapping as_mapping require_exact_keys item require_text require_version_one
from_mapping-as_mapping r h =
    rw
      (
        text_eq_refl (text "knowledgeflow.curation-experiment-run"),
        SourceBinding.from_mapping-as_mapping r.source h.valid_source,
        ProcessingAuthorization.from_mapping-as_mapping r.processing_authorization
            h.valid_processing_authorization,
        ByteRange.from_mapping-as_mapping r.declared_scope "declared_scope" h.valid_declared_scope,
        read_back_decision r.target_decision h.valid_target_decision,
        SegmentationProfile.from_mapping-as_mapping r.segmentation_profile
            h.valid_segmentation_profile,
        ProcessorProfile.from_mapping-as_mapping r.processor_profile h.valid_processor_profile,
      )
      (init-values r h.own)
