-- ===== src/Segmentation/Build/Deterministic.antt =====
-- Two runs over the same source give the same segments but for their identifiers.
use knowledge_flow.Contracts.SourceBinding.{SourceBinding}
use knowledge_flow.Contracts.ByteRange.{ByteRange}
use knowledge_flow.Contracts.SegmentationProfile.{SegmentationProfile}
use knowledge_flow.Contracts.SegmentRecord.{SegmentRecord}
use knowledge_flow.Contracts.ScopeRecord.{ScopeRecord}
use knowledge_flow.Contracts.EvidenceLocator.{EvidenceLocator}
use knowledge_flow.Contracts.CurationRunManifest.{CurationRunManifest}
use knowledge_flow.Contracts.CurationEvidenceRecord
use knowledge_flow.Contracts.CurationEvidenceRecord.{CurationEvidenceRecord}
use knowledge_flow.Common.{ℕ, suc, String, ◌≡◌, refl, sym, ap, ◌∙◌, Option}
use knowledge_flow.Common.{List, [], ◌∷◌, map}
use knowledge_flow.Common.Text.{Text}
use knowledge_flow.Common.Result.{ok, ok_injective}
use knowledge_flow.Common.Value.{Value}
use knowledge_flow.Segmentation.Utf8.{Bytes}
use knowledge_flow.Segmentation.Ranges.{Division}
use knowledge_flow.Segmentation.Build.{
  Headings, Services, build_evidence_record, fact, deterministic_segment_fingerprint,
}
use knowledge_flow.Segmentation.Build.Laws.{
  expected_segment, expected_items, items_loop-eq-ok, Built, build_evidence_record-Built,
}

abbrev with_ids : (Bytes → Text) → (ℕ → String → Text) → Services
with_ids hexdigest new_id = record { hexdigest = hexdigest; new_id = new_id }

facts_same :
    (hexdigest : Bytes → Text) (ids ids' : ℕ → String → Text) (source : Bytes)
    (binding : SourceBinding) (profile : SegmentationProfile) (events : Headings) (n : ℕ)
    (rs : List ByteRange)
    → map fact (
        map (λ x. x.0) (expected_items (with_ids hexdigest ids) source binding profile events n rs))
      ≡ map fact (
          map
            (λ x. x.0)
            (expected_items (with_ids hexdigest ids') source binding profile events n rs))
unfolding expected_items fact
facts_same hexdigest ids ids' source binding profile events n [] = refl
facts_same hexdigest ids ids' source binding profile events n (r ∷ rs) =
    ap (λ z. fact (expected_segment (with_ids hexdigest ids) source profile events n r) ∷ z)
      (facts_same hexdigest ids ids' source binding profile events (suc n) rs)

init_segments :
    (u : Value) (source : SourceBinding) (declared : ByteRange) (profile : SegmentationProfile)
    (segments : List SegmentRecord) (scope : List ScopeRecord) (locators : List EvidenceLocator)
    (e : CurationEvidenceRecord)
    → CurationEvidenceRecord.init u source declared profile segments scope locators ≡ ok e
    → e.segments ≡ segments
init_segments u source declared profile segments scope locators e h =
    let (own, _, _, _, same, _, _) =
      CurationEvidenceRecord.init-FieldsValid u source declared profile segments scope locators e
        h in
    same

fingerprint_of :
    (services : Services) (source : Bytes) (run : CurationRunManifest)
    (scope : Option (List ScopeRecord)) (e : CurationEvidenceRecord)
    (b : Built services source run scope e)
    → deterministic_segment_fingerprint e
      ≡ map fact (
          map
            (λ x. x.0)
            (expected_items services source run.source run.segmentation_profile
              b.division.heading_events 0 b.division.ranges))
unfolding deterministic_segment_fingerprint
fingerprint_of services source run scope e b =
    ap (map fact) (init_segments _ _ _ _ _ _ _ e b.made)
    ∙ ap (λ items. map fact (map (λ x. x.0) items))
        (items_loop-eq-ok services source run.source run.segmentation_profile
          b.division.heading_events 0 b.division.ranges b.items b.items_made)

-- Two calls of `build_evidence_record` with the same source bytes and the same run, whatever the
-- two `id_factory` and the two scopes, have the same fingerprint where both return a record.
pub build_evidence_record-deterministic :
    (hexdigest : Bytes → Text) (ids ids' : ℕ → String → Text) (source : Bytes)
    (run : CurationRunManifest) (scope scope' : Option (List ScopeRecord))
    (e e' : CurationEvidenceRecord)
    → build_evidence_record (with_ids hexdigest ids) source run scope ≡ ok e
    → build_evidence_record (with_ids hexdigest ids') source run scope' ≡ ok e'
    → deterministic_segment_fingerprint e ≡ deterministic_segment_fingerprint e'
build_evidence_record-deterministic hexdigest ids ids' source run scope scope' e e' h h' =
    let b = build_evidence_record-Built (with_ids hexdigest ids) source run scope e h in
    let b' = build_evidence_record-Built (with_ids hexdigest ids') source run scope' e' h' in
    let same = ok_injective b.division b'.division (sym b.divided ∙ b'.divided) in
    fingerprint_of (with_ids hexdigest ids) source run scope e b
    ∙ facts_same hexdigest ids ids' source run.source run.segmentation_profile
        b.division.heading_events 0 b.division.ranges
    ∙ ap
        (λ d. map fact (
          map (λ x. x.0)
            (expected_items (with_ids hexdigest ids') source run.source run.segmentation_profile
              (Division.heading_events d) 0 (Division.ranges d))))
        same
    ∙ sym (fingerprint_of (with_ids hexdigest ids') source run scope' e' b')
