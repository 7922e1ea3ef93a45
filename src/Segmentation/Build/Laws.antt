-- ===== src/Segmentation/Build/Laws.antt =====
-- What the built record says of the source.
use knowledge_flow.Contracts.ScopeRecord.{ScopeRecord}
use knowledge_flow.Contracts.CurationRunManifest.{CurationRunManifest}
use knowledge_flow.Contracts.CurationEvidenceRecord
use knowledge_flow.Contracts.CurationEvidenceRecord.{CurationEvidenceRecord}
use mathlib.Core.Path.{subst}
use knowledge_flow.Contracts.SourceBinding.{SourceBinding}
use knowledge_flow.Contracts.ByteRange.{ByteRange}
use knowledge_flow.Contracts.SegmentationProfile.{SegmentationProfile}
use knowledge_flow.Contracts.SegmentRecord
use knowledge_flow.Contracts.SegmentRecord.{SegmentRecord}
use knowledge_flow.Contracts.EvidenceLocator
use knowledge_flow.Contracts.EvidenceLocator.{EvidenceLocator}
use knowledge_flow.Contracts.CurationEvidenceRecord
use knowledge_flow.Common.{ℕ, suc, ◌+◌, ◌-◌, ◌*◌, ◌≡◌, sym, ap, ◌∙◌}
use knowledge_flow.Common.{Option, List, [], ◌∷◌, map, arith, take}
use knowledge_flow.Common.Result.{ok, >>=-eq-ok, ok_injective, Ensures, bind-Ensures}
use knowledge_flow.Common.Value.{str}
use knowledge_flow.Segmentation.Utf8.{Bytes}
use knowledge_flow.Segmentation.Lines.{
  slice, count_newlines, line_number_at_start, line_number_at_end,
}
use knowledge_flow.Segmentation.Ranges.{Division, divide}
use knowledge_flow.Hashing.{hash_bytes}
use knowledge_flow.Contracts.Against.{validate_against_run}
use knowledge_flow.Segmentation.Build.{
  Headings, heading_at, Services, digest_of, items_loop, selected_scope, check_source,
  build_evidence_record, make_segment,
}
use knowledge_flow.Segmentation.Build.{make_locator, make_item}

-- The segment and the locator of one range.
abbrev pub expected_segment :
    Services → Bytes → SegmentationProfile → Headings → ℕ → ByteRange → SegmentRecord
expected_segment services source profile events n r = record {
  segment_id = services.new_id (2 * n) "seg_";
  ordinal = n;
  byte_range = r;
  start_line = count_newlines (take r.start_byte source) + 1;
  end_line = count_newlines (take (r.end_byte - 1) source) + 1;
  heading_path = heading_at events r.start_byte;
  body_sha256 = (hash_bytes services.hexdigest (slice source r.start_byte r.end_byte)).sha256;
  profile_id = profile.profile_id;
  profile_revision = profile.revision;
}

abbrev pub expected_locator : Services → Bytes → SourceBinding → ℕ → ByteRange → EvidenceLocator
expected_locator services source binding n r = record {
  locator_id = services.new_id (2 * n + 1) "loc_";
  source = binding;
  byte_range = r;
  start_line = count_newlines (take r.start_byte source) + 1;
  end_line = count_newlines (take (r.end_byte - 1) source) + 1;
  excerpt_sha256 = (hash_bytes services.hexdigest (slice source r.start_byte r.end_byte)).sha256;
}

unfoldable pub expected_items :
    Services
    → Bytes
    → SourceBinding
    → SegmentationProfile
    → Headings
    → ℕ
    → List ByteRange
    → List (SegmentRecord × EvidenceLocator)
expected_items services source binding profile events n [] = []
expected_items services source binding profile events n (r ∷ rs) =
    (
      expected_segment services source profile events n r,
      expected_locator services source binding n r,
    )
    ∷ expected_items services source binding profile events (suc n) rs

line_number_at_end-eq-ok :
    (source : Bytes) (a b n : ℕ)
    → line_number_at_end source a b ≡ ok n
    → n ≡ count_newlines (take (b - 1) source) + 1
unfolding line_number_at_end
line_number_at_end-eq-ok source a b n h = ground arith

module _ (services : Services) (source : Bytes) (binding : SourceBinding)
    (profile : SegmentationProfile) (events : Headings) where
  make_segment-eq-ok :
      (n : ℕ) (r : ByteRange) (stop : ℕ) (s : SegmentRecord)
      → make_segment services source profile events n r stop ≡ ok s
      → stop ≡ count_newlines (take (r.end_byte - 1) source) + 1
      → s ≡ expected_segment services source profile events n r
  unfolding make_segment digest_of line_number_at_start
  make_segment-eq-ok n r stop s h e =
      let same =
        SegmentRecord.init-eq-ok (services.new_id (2 * n) "seg_") n r
          (line_number_at_start source r.start_byte) stop (heading_at events r.start_byte)
          (digest_of services (slice source r.start_byte r.end_byte)) profile.profile_id
          profile.revision s h in
      rw (← e) same

  make_locator-eq-ok :
      (n : ℕ) (r : ByteRange) (stop : ℕ) (l : EvidenceLocator)
      → make_locator services source binding n r stop ≡ ok l
      → stop ≡ count_newlines (take (r.end_byte - 1) source) + 1
      → l ≡ expected_locator services source binding n r
  unfolding make_locator digest_of line_number_at_start
  make_locator-eq-ok n r stop l h e =
      let same =
        EvidenceLocator.init-eq-ok (services.new_id (2 * n + 1) "loc_") binding r
          (line_number_at_start source r.start_byte) stop
          (digest_of services (slice source r.start_byte r.end_byte)) l h in
      rw (← e) same

  make_item-eq-ok :
      (n : ℕ) (r : ByteRange) (made : SegmentRecord × EvidenceLocator)
      → make_item services source binding profile events n r ≡ ok made
      → made ≡ (
        expected_segment services source profile events n r,
        expected_locator services source binding n r,
      )
  unfolding make_item
  make_item-eq-ok n r made h =
      let found : Ensures
          (λ x. x ≡ (
            expected_segment services source profile events n r,
            expected_locator services source binding n r,
          ))
          (make_item services source binding profile events n r) =
        bind-Ensures (line_number_at_end source r.start_byte r.end_byte) λ stop e1.
          (bind-Ensures (make_segment services source profile events n r stop) λ s e2.
            (bind-Ensures (make_locator services source binding n r stop) λ l e3. record {
              at = λ x e4.
                  let stop_is = line_number_at_end-eq-ok source r.start_byte r.end_byte stop e1 in
                  let s_is = make_segment-eq-ok n r stop s e2 stop_is in
                  let l_is = make_locator-eq-ok n r stop l e3 stop_is in
                  let same = ok_injective (s, l) x e4 in cc;
            })) in
      found.at made h

  pub items_loop-eq-ok :
      (n : ℕ) (rs : List ByteRange) (items : List (SegmentRecord × EvidenceLocator))
      → items_loop services source binding profile events n rs ≡ ok items
      → items ≡ expected_items services source binding profile events n rs
  unfolding items_loop expected_items
  items_loop-eq-ok n [] items h = sym (ok_injective [] items h)
  items_loop-eq-ok n (r ∷ rs) items h =
      let (made, e1, h1) = >>=-eq-ok (make_item services source binding profile events n r) _ h in
      let (rest, e2, h2) =
        >>=-eq-ok (items_loop services source binding profile events (suc n) rs) _ h1 in
      let first = make_item-eq-ok n r made e1 in
      let others = items_loop-eq-ok (suc n) rs rest e2 in
      let same = ok_injective (made ∷ rest) items h2 in cc

-- How a record that was built came about.
pub record Built (services : Services) (source : Bytes) (run : CurationRunManifest)
    (scope : Option (List ScopeRecord)) (e : CurationEvidenceRecord) : Type 0 where
  pub checked : check_source services source run.source ≡ ok tt
  pub division : Division
  pub divided : divide source run.declared_scope run.segmentation_profile ≡ ok division
  pub items : List (SegmentRecord × EvidenceLocator)
  pub items_made :
      items_loop services source run.source run.segmentation_profile division.heading_events 0
        division.ranges
      ≡ ok items
  pub selected : List ScopeRecord
  pub scope_made : selected_scope run.declared_scope scope ≡ ok selected
  pub made :
      CurationEvidenceRecord.init
        (str run.curation_run_id)
        run.source
        run.declared_scope
        run.segmentation_profile
        (map (λ item. item.0) items)
        selected
        (map (λ item. item.1) items)
      ≡ ok e
  pub accepted : validate_against_run e run ≡ ok tt

pub build_evidence_record-Built :
    (services : Services) (source : Bytes) (run : CurationRunManifest)
    (scope : Option (List ScopeRecord)) (e : CurationEvidenceRecord)
    → build_evidence_record services source run scope ≡ ok e
    → Built services source run scope e
unfolding build_evidence_record
build_evidence_record-Built services source run scope e h =
    let found : Ensures (Built services source run scope)
        (build_evidence_record services source run scope) =
      bind-Ensures (check_source services source run.source) λ u e1.
        (bind-Ensures (divide source run.declared_scope run.segmentation_profile) λ division e2.
          (bind-Ensures
            (items_loop services source run.source run.segmentation_profile division.heading_events
              0 division.ranges)
            λ items e3.
              (bind-Ensures (selected_scope run.declared_scope scope) λ selected e4.
                (bind-Ensures
                  (CurationEvidenceRecord.init (str run.curation_run_id) run.source
                    run.declared_scope run.segmentation_profile (map (λ item. item.0) items)
                    selected (map (λ item. item.1) items))
                  λ evidence e5.
                    (bind-Ensures (validate_against_run evidence run) λ u' e6. record {
                      at = λ x e7.
                          let same = ok_injective evidence x e7 in
                          record {
                            checked = e1;
                            division = division;
                            divided = e2;
                            items = items;
                            items_made = e3;
                            selected = selected;
                            scope_made = e4;
                            made = e5 ∙ ap ok same;
                            accepted = subst (λ z. validate_against_run z run ≡ ok tt) same e6;
                          };
                    }))))) in
    found.at e h
