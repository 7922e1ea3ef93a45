-- ===== src/Segmentation/Build/Validity.antt =====
-- The record that `build_evidence_record` of segmentation.py returns, and its mapping.
use knowledge_flow.Contracts.SourceBinding
use knowledge_flow.Contracts.SourceBinding.{SourceBinding}
use knowledge_flow.Contracts.ByteRange
use knowledge_flow.Contracts.ByteRange.{ByteRange}
use knowledge_flow.Contracts.SegmentationProfile.{SegmentationProfile}
use knowledge_flow.Contracts.SegmentRecord
use knowledge_flow.Contracts.SegmentRecord.{SegmentRecord}
use knowledge_flow.Contracts.ScopeRecord
use knowledge_flow.Contracts.ScopeRecord.{ScopeRecord}
use knowledge_flow.Contracts.EvidenceLocator
use knowledge_flow.Contracts.EvidenceLocator.{EvidenceLocator}
use knowledge_flow.Contracts.CurationRunManifest
use knowledge_flow.Contracts.CurationRunManifest.{CurationRunManifest}
use knowledge_flow.Contracts.CurationEvidenceRecord
use knowledge_flow.Contracts.CurationEvidenceRecord.{CurationEvidenceRecord}
use mathlib.Core.Path.{subst}
use knowledge_flow.Common.{ℕ, suc, ◌+◌, ◌*◌, ◌≡◌, Option, none, some, List}
use knowledge_flow.Common.{[], ◌∷◌, map, All, AllOption}
use knowledge_flow.Common.Text.{text}
use knowledge_flow.Common.Result.{ok, >>=-eq-ok, ok_injective, Ensures, bind-Ensures}
use knowledge_flow.Common.Int.{pos}
use knowledge_flow.Common.Value.{null, num, str, strs}
use knowledge_flow.Contracts.Require.{item}
use knowledge_flow.Segmentation.Utf8.{Bytes}
use knowledge_flow.Segmentation.Lines.{slice, line_number_at_start, line_number_at_end}
use knowledge_flow.Segmentation.Ranges.Laws.{Fits}
use knowledge_flow.Segmentation.Build.{
  Headings, heading_at, Services, digest_of, items_loop, selected_scope, build_evidence_record,
  make_segment, make_locator,
}
use knowledge_flow.Segmentation.Build.{make_item}
use knowledge_flow.Segmentation.Build.Laws.{build_evidence_record-Built}
use knowledge_flow.Segmentation.Build.Describes.{check_source-eq-ok, divide-Divided}

module _ (services : Services) (source : Bytes) (binding : SourceBinding)
    (profile : SegmentationProfile) (events : Headings)
    (binding_valid : SourceBinding.IsValid binding) where
  abbrev ItemValid : SegmentRecord × EvidenceLocator → Type 0
  ItemValid item = SegmentRecord.IsValid item.0 × EvidenceLocator.IsValid item.1

  make_item-ItemValid :
      (n : ℕ) (r : ByteRange) (made : SegmentRecord × EvidenceLocator)
      → ByteRange.IsValid r
      → make_item services source binding profile events n r ≡ ok made
      → ItemValid made
  unfolding make_item make_segment make_locator
  make_item-ItemValid n r made valid h =
      let found : Ensures ItemValid (make_item services source binding profile events n r) =
        bind-Ensures (line_number_at_end source r.start_byte r.end_byte) λ stop e1.
          (bind-Ensures (make_segment services source profile events n r stop) λ s e2.
            (bind-Ensures (make_locator services source binding n r stop) λ l e3. record {
              at = λ x e4. subst ItemValid (ok_injective (s, l) x e4) (
                SegmentRecord.init-IsValid (str (services.new_id (2 * n) "seg_")) (num (pos n)) r
                    (num (pos (line_number_at_start source r.start_byte))) (num (pos stop))
                    (strs (heading_at events r.start_byte))
                    (str (digest_of services (slice source r.start_byte r.end_byte)))
                    (str profile.profile_id) (num (pos profile.revision)) s valid e2,
                EvidenceLocator.init-IsValid (str (services.new_id (2 * n + 1) "loc_")) binding r
                    (num (pos (line_number_at_start source r.start_byte))) (num (pos stop))
                    (str (digest_of services (slice source r.start_byte r.end_byte))) l
                    binding_valid valid e3,
              );
            })) in
      found.at made h

  items_loop-IsValid :
      (n : ℕ) (rs : List ByteRange) (items : List (SegmentRecord × EvidenceLocator))
      → All ByteRange.IsValid rs
      → items_loop services source binding profile events n rs ≡ ok items
      → All SegmentRecord.IsValid (map (λ x. x.0) items)
        × All EvidenceLocator.IsValid (map (λ x. x.1) items)
  unfolding items_loop
  items_loop-IsValid n [] items valid h =
      subst
        (λ z.
          All SegmentRecord.IsValid (map (λ x. x.0) z)
          × All EvidenceLocator.IsValid (map (λ x. x.1) z))
        (ok_injective [] items h) (tt, tt)
  items_loop-IsValid n (r ∷ rs) items (r_valid, valid) h =
      let (made, e1, h1) = >>=-eq-ok (make_item services source binding profile events n r) _ h in
      let (rest, e2, h2) =
        >>=-eq-ok (items_loop services source binding profile events (suc n) rs) _ h1 in
      let (s, l) = make_item-ItemValid n r made r_valid e1 in
      let (ss, ls) = items_loop-IsValid (suc n) rs rest valid e2 in
      subst
        (λ z.
          All SegmentRecord.IsValid (map (λ x. x.0) z)
          × All EvidenceLocator.IsValid (map (λ x. x.1) z))
        (ok_injective (made ∷ rest) items h2) ((s, ss), (l, ls))

selected_scope-IsValid :
    (declared : ByteRange) (scope : Option (List ScopeRecord)) (selected : List ScopeRecord)
    → ByteRange.IsValid declared
    → AllOption (All ScopeRecord.IsValid) scope
    → selected_scope declared scope ≡ ok selected
    → All ScopeRecord.IsValid selected
unfolding selected_scope
selected_scope-IsValid declared (some scope) selected v valid h =
    subst (All ScopeRecord.IsValid) (ok_injective scope selected h) valid
selected_scope-IsValid declared none selected v valid h =
    let (r, e, h') = >>=-eq-ok (ScopeRecord.init declared (str (text "processed")) null) _ h in
    subst (All ScopeRecord.IsValid) (ok_injective (r ∷ []) selected h')
      (ScopeRecord.init-IsValid declared (str (text "processed")) null r v e, tt)

Fits-IsValid :
    (source : Bytes) (m : ℕ) (rs : List ByteRange)
    → All (Fits source m) rs
    → All ByteRange.IsValid rs
Fits-IsValid source m [] h = tt
Fits-IsValid source m (r ∷ rs) (f, h) = (f.valid, Fits-IsValid source m rs h)

-- A record that is returned for a valid run and valid scope records is valid.
pub build_evidence_record-IsValid :
    (services : Services) (source : Bytes) (run : CurationRunManifest)
    (scope : Option (List ScopeRecord)) (e : CurationEvidenceRecord)
    → CurationRunManifest.IsValid run
    → AllOption (All ScopeRecord.IsValid) scope
    → build_evidence_record services source run scope ≡ ok e
    → CurationEvidenceRecord.IsValid e
build_evidence_record-IsValid services source run scope e valid scope_valid h =
    let b = build_evidence_record-Built services source run scope e h in
    let (t, decoded, _, _) = check_source-eq-ok services source run.source b.checked in
    let divided =
      divide-Divided source t run.declared_scope run.segmentation_profile b.division decoded
        valid.valid_declared_scope valid.valid_segmentation_profile b.divided in
    let (segments, locators) =
      items_loop-IsValid services source run.source run.segmentation_profile
        b.division.heading_events valid.valid_source 0 b.division.ranges b.items
        (Fits-IsValid source _ b.division.ranges divided.fits) b.items_made in
    CurationEvidenceRecord.init-IsValid _ run.source run.declared_scope run.segmentation_profile _ _
      _ e valid.valid_source valid.valid_declared_scope valid.valid_segmentation_profile segments
      (selected_scope-IsValid run.declared_scope scope b.selected valid.valid_declared_scope
        scope_valid b.scope_made)
      locators b.made

-- A record that `build_evidence_record` returns for a valid run and valid scope records is read
-- back by `from_mapping` from the mapping that `as_mapping` writes of it, as the same record.
pub build_evidence_record-read_back :
    (services : Services) (source : Bytes) (run : CurationRunManifest)
    (scope : Option (List ScopeRecord)) (e : CurationEvidenceRecord)
    → CurationRunManifest.IsValid run
    → AllOption (All ScopeRecord.IsValid) scope
    → build_evidence_record services source run scope ≡ ok e
    → CurationEvidenceRecord.from_mapping (CurationEvidenceRecord.as_mapping e) ≡ ok e
build_evidence_record-read_back services source run scope e valid scope_valid h =
    CurationEvidenceRecord.from_mapping-as_mapping e
      (build_evidence_record-IsValid services source run scope e valid scope_valid h)
