-- ===== src/Contracts/CurationMap/Laws.antt =====
-- What an accepted map and an accepted closing decision satisfy.
use knowledge_flow.Contracts.SourceBinding.{SourceBinding}
use knowledge_flow.Contracts.ByteRange
use knowledge_flow.Contracts.ByteRange.{ByteRange}
use knowledge_flow.Contracts.ScopeRecord.{ScopeRecord}
use knowledge_flow.Contracts.ProcessorProfile.{ProcessorProfile}
use knowledge_flow.Contracts.ProcessorUsage.{ProcessorUsage}
use knowledge_flow.Contracts.TargetBinding.{TargetBinding}
use knowledge_flow.Contracts.MapCandidate.{MapCandidate}
use knowledge_flow.Contracts.EvidenceLocator.{EvidenceLocator}
use mathlib.Core.Path.{subst}
use knowledge_flow.Contracts.MapDecision
use knowledge_flow.Contracts.MapDecision.{MapDecision}
use knowledge_flow.Contracts.CurationMap
use knowledge_flow.Common.{◌-◌, ◌≤◌, String, ◌≡◌, sym, ap, ◌∙◌, inl, inr}
use knowledge_flow.Common.{true, false, Option, some, List, [], ◌∷◌, map, arith}
use knowledge_flow.Common.{Bool-cases, length, All}
use knowledge_flow.Common.Text.{Text, text, text_eq, text_eq→eq, is_one_of}
use knowledge_flow.Common.Result.{ok, >>=-eq-ok}
use knowledge_flow.Common.Value.{Value, null, bool, num, str, seq, dict}
use knowledge_flow.Contracts.Require.{require_sha256}
use knowledge_flow.Contracts.Cover.{
  require_exact_range_cover, Chain, require_exact_range_cover-Covers,
}
use knowledge_flow.Contracts.CurationMap.{
  CurationMap, short_reading_max_bytes, short_reading_max_units, short_reading_max_range_bytes,
  outside_short_profile, check_profile, check_review, check_review_cover, locator_ranges,
}
use knowledge_flow.Contracts.CurationMap.Compare.{is_subset, decision_against_map}

check_profile-some :
    (v : Value) (source : SourceBinding) (declared : ByteRange) (scope : List ScopeRecord)
    (locators : List EvidenceLocator) (p : Text)
    → check_profile v source declared scope locators ≡ ok (some p)
    → outside_short_profile source declared scope locators ≡ false
unfolding check_profile
check_profile-some null source declared scope locators p h = ground arith
check_profile-some (str profile) source declared scope locators p h = ground arith
check_profile-some (bool b) source declared scope locators p h = cc
check_profile-some (num z) source declared scope locators p h = cc
check_profile-some (seq vs) source declared scope locators p h = cc
check_profile-some (dict fs) source declared scope locators p h = cc

-- What the profile of a short reading bounds.
short_profile_bounds :
    (source : SourceBinding) (declared : ByteRange) (scope : List ScopeRecord)
    (locators : List EvidenceLocator)
    → outside_short_profile source declared scope locators ≡ false
    → (source.byte_size ≤ short_reading_max_bytes)
      × (declared.start_byte ≡ 0)
      × (declared.end_byte ≡ source.byte_size)
      × (length locators ≤ short_reading_max_units)
unfolding outside_short_profile ByteRange.eq
short_profile_bounds source declared scope locators h = ground arith

abbrev pub BoundedRange : ByteRange → EvidenceLocator → Type 0
BoundedRange declared l =
    l.byte_range.end_byte - l.byte_range.start_byte ≤ short_reading_max_range_bytes

check_review-BoundedRange :
    (source : SourceBinding) (declared : ByteRange) (ls : List EvidenceLocator)
    → check_review source declared ls ≡ ok tt
    → All (BoundedRange declared) ls
unfolding check_review
check_review-BoundedRange source declared [] h = tt
check_review-BoundedRange source declared (l ∷ ls) h =
    ground (arith, check_review-BoundedRange source declared ls)

-- What the constructor has checked of the review locators.
init-checked :
    (map_id map_version run_id created_at : Value) (source : SourceBinding) (declared : ByteRange)
    (scope : List ScopeRecord) (profile : ProcessorProfile) (usage : ProcessorUsage)
    (binding : Option TargetBinding) (candidates : List MapCandidate) (reading : Value)
    (locators : List EvidenceLocator) (m : CurationMap)
    → CurationMap.init map_id map_version run_id created_at source declared scope profile usage
        binding candidates reading locators
      ≡ ok m
    → (m.source ≡ source)
      × (m.declared_scope ≡ declared)
      × (m.review_locators ≡ locators)
      × (check_profile reading source declared scope locators ≡ ok m.reading_profile)
      × (check_review source declared locators ≡ ok tt)
      × (check_review_cover m.reading_profile declared locators ≡ ok tt)
unfolding CurationMap.init
init-checked map_id map_version run_id created_at source declared scope profile usage binding
      candidates reading locators m h =
    ground arith

-- A map with a reading profile that `CurationMap` accepts is of a source of at most 8192 bytes,
-- and has at most 128 review locators, each of at most 1024 bytes; they cover the whole source,
-- from its first byte to its last, without gap or overlap.
pub init-Chain :
    (map_id map_version run_id created_at : Value) (source : SourceBinding) (declared : ByteRange)
    (scope : List ScopeRecord) (profile : ProcessorProfile) (usage : ProcessorUsage)
    (binding : Option TargetBinding) (candidates : List MapCandidate) (reading : Value)
    (locators : List EvidenceLocator) (m : CurationMap) (p : Text)
    → CurationMap.init map_id map_version run_id created_at source declared scope profile usage
        binding candidates reading locators
      ≡ ok m
    → m.reading_profile ≡ some p
    → (m.source.byte_size ≤ short_reading_max_bytes)
      × (length m.review_locators ≤ short_reading_max_units)
      × All (BoundedRange m.declared_scope) m.review_locators
      × (1 ≤ length (locator_ranges m.review_locators))
      × Chain 0 m.source.byte_size (locator_ranges m.review_locators)
unfolding check_review_cover
init-Chain map_id map_version run_id created_at source declared scope profile usage binding
      candidates reading locators m p h e =
    let (same_source, same_scope, same_locators, profiled, reviewed, covered) =
      init-checked map_id map_version run_id created_at source declared scope profile usage binding
        candidates reading locators m h in
    let (small, first, last, few) =
      short_profile_bounds source declared scope locators
        (check_profile-some reading source declared scope locators p (profiled ∙ ap ok e)) in
    let cover : require_exact_range_cover declared (locator_ranges locators) "review locators"
        ≡ ok tt =
      subst (λ z. check_review_cover z declared locators ≡ ok tt) e covered in
    let (some_locator, chain) =
      require_exact_range_cover-Covers declared (locator_ranges locators) "review locators" cover in
    rw (same_source, same_scope, same_locators)
      (
        small,
        few,
        check_review-BoundedRange source declared locators reviewed,
        some_locator,
        subst (λ z. Chain z source.byte_size (locator_ranges locators)) first
            (subst (λ z. Chain declared.start_byte z (locator_ranges locators)) last chain),
      )

is_subset-keeps :
    (ss ts : List Text) (x : Text)
    → is_subset ss ts ≡ true
    → is_one_of x ss ≡ true
    → is_one_of x ts ≡ true
unfolding is_subset is_one_of
is_subset-keeps [] ts x h e = absurd (ground arith)
is_subset-keeps (s ∷ ss) ts x h e = elim (Bool-cases (text_eq x s)) [
  | inl same ↦
      let eq = text_eq→eq x s same in subst (λ z. is_one_of z ts ≡ true) (sym eq) (ground arith)
  | inr other ↦ is_subset-keeps ss ts x (ground arith) (ground arith)
]

both_subsets :
    (ss ts : List Text)
    → is_subset ss ts ≡ true
    → is_subset ts ss ≡ true
    → (x : Text) → is_one_of x ss ≡ is_one_of x ts
both_subsets ss ts h h' x = ground (arith, is_subset-keeps ss ts x, is_subset-keeps ts ss x)

require_sha256-eq-str : (v : Value) (f : String) (s : Text) → require_sha256 v f ≡ ok s → v ≡ str s
unfolding require_sha256
require_sha256-eq-str v f s h = ground arith

-- A decision that `MapDecision.validate_against` accepts with a digest holds that digest and
-- refers to candidates of the map only, and one whose outcome is `map-closed` decides exactly the
-- candidates of the map.
pub decision_against_map-closed :
    (d : MapDecision) (m : CurationMap) (digest : Value)
    → decision_against_map d m digest ≡ ok tt
    → (digest ≡ str d.map_sha256)
      × ((x : Text)
          → is_one_of x (MapDecision.decided_ids d.decisions) ≡ true
          → is_one_of x (map MapCandidate.candidate_id m.candidates) ≡ true)
      × (text_eq d.outcome (text "map-closed") ≡ true
          → (x : Text)
          → is_one_of x (MapDecision.decided_ids d.decisions)
            ≡ is_one_of x (map MapCandidate.candidate_id m.candidates))
unfolding decision_against_map
decision_against_map-closed d m digest h =
    let ss = MapDecision.decided_ids d.decisions in
    let ts = map MapCandidate.candidate_id m.candidates in
    let inside : is_subset ss ts ≡ true = ground arith in
    let (given, given_digest, rest) = >>=-eq-ok (require_sha256 digest "map_sha256") _ h in
    (
      require_sha256-eq-str digest "map_sha256" given given_digest
          ∙ ap str (sym (text_eq→eq d.map_sha256 given (ground arith))),
      (λ x e. is_subset-keeps ss ts x inside e),
      (λ closed. both_subsets ss ts inside (ground arith)),
    )
