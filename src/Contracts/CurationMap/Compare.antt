-- ===== src/Contracts/CurationMap/Compare.antt =====
-- `CurationMap.validate_against`, `CurationMap.validate_against_run` and
-- `MapDecision.validate_against` of contracts.py.
use knowledge_flow.Contracts.SourceBinding
use knowledge_flow.Contracts.ByteRange
use knowledge_flow.Contracts.ScopeRecord
use knowledge_flow.Contracts.ScopeRecord.{ScopeRecord}
use knowledge_flow.Contracts.ProcessorProfile
use knowledge_flow.Contracts.EvidenceLocator.{EvidenceLocator}
use knowledge_flow.Contracts.MapCandidate.{MapCandidate}
use knowledge_flow.Contracts.TargetDecision.{TargetDecision}
use knowledge_flow.Contracts.TargetBinding.{TargetBinding}
use knowledge_flow.Contracts.CurationRunManifest.{CurationRunManifest}
use knowledge_flow.Contracts.CurationEvidenceRecord.{CurationEvidenceRecord}
use knowledge_flow.Contracts.MapDecision
use knowledge_flow.Contracts.MapDecision.{MapDecision}
use knowledge_flow.Common.{Bool, true, false, not, ◌&&◌, ◌||◌, Option, none, some}
use knowledge_flow.Common.{List, [], ◌∷◌, ◌++◌, map, all, any, is_some}
use knowledge_flow.Common.Text.{Text, text, text_eq, is_one_of}
use knowledge_flow.Common.Result.{value_error, Result, err, ◌>>=◌, ◌>>◌, raise_if}
use knowledge_flow.Common.Value.{Value}
use knowledge_flow.Contracts.Require.{require_sha256}
use knowledge_flow.Contracts.CurationMap.{CurationMap}

-- `==` of two tuples of scope records
same_scope : List ScopeRecord → List ScopeRecord → Bool
unfolding ScopeRecord.eq
same_scope [] [] = true
same_scope (a ∷ as') (b ∷ bs) = ScopeRecord.eq a b && same_scope as' bs
same_scope _ _ = false

-- `first.issubset(second)`
unfoldable pub is_subset : List Text → List Text → Bool
unfolding is_one_of
is_subset first second = all (λ s. is_one_of s second) first

-- `first & second`, as a truth value
meet : List Text → List Text → Bool
unfolding is_one_of
meet first second = any (λ s. is_one_of s second) first

-- The locators that the candidates refer to.
referenced : List MapCandidate → List Text
referenced [] = []
referenced (c ∷ cs) = c.evidence_locator_ids ++ referenced cs

unfoldable pub validate_against : CurationMap → CurationEvidenceRecord → Result (Unit {0})
unfolding same_scope meet is_subset referenced
validate_against m evidence = do
  raise_if (not (text_eq m.curation_run_id evidence.curation_run_id))
      (value_error "map and evidence use different curation runs")
  raise_if (not (SourceBinding.eq m.source evidence.source))
      (value_error "map and evidence use different sources")
  raise_if
      (not (ByteRange.eq m.declared_scope evidence.declared_scope)
        || not (same_scope m.scope evidence.scope))
      (value_error "map and evidence use different scope records")
  let available = map EvidenceLocator.locator_id evidence.locators
  let review_ids = map EvidenceLocator.locator_id m.review_locators
  raise_if (meet available review_ids) (value_error "map review locator duplicates source evidence")
  raise_if (not (is_subset (referenced m.candidates) (available ++ review_ids)))
      (value_error "map references an unknown Evidence locator")

-- The target decision against the binding.
check_target : Option TargetDecision → Option TargetBinding → Result (Unit {0})
check_target none binding = err (value_error "map requires a recorded target decision")
check_target (some decision) binding = do
  raise_if (text_eq decision.choice (text "no-target") && is_some binding)
      (value_error "no-target run cannot produce a target-bound map")
  raise_if (text_eq decision.choice (text "new-kb") && not (is_some binding))
      (value_error "new-kb run requires a target-bound map")

unfoldable pub map_against_run : CurationMap → CurationRunManifest → Result (Unit {0})
unfolding check_target
map_against_run m run = do
  raise_if
      (not (text_eq m.curation_run_id run.curation_run_id)
        || not (SourceBinding.eq m.source run.source))
      (value_error "map and run use different identities")
  raise_if (not (ByteRange.eq m.declared_scope run.declared_scope))
      (value_error "map and run use different declared_scope values")
  raise_if (not (ProcessorProfile.eq m.processor_profile run.processor_profile))
      (value_error "map and run use different processor profiles")
  check_target run.target_decision m.target_binding

-- `MapDecision.validate_against`
unfoldable pub decision_against_map : MapDecision → CurationMap → Value → Result (Unit {0})
unfolding is_subset
decision_against_map decision m map_sha256 = do
  digest ← require_sha256 map_sha256 "map_sha256"
  raise_if (not (text_eq decision.map_sha256 digest))
      (value_error "decision record binds a different map artifact")
  let available = map MapCandidate.candidate_id m.candidates
  let decided = MapDecision.decided_ids decision.decisions
  raise_if (not (is_subset decided available))
      (value_error "decision record references an unknown map candidate")
  raise_if
      (text_eq decision.outcome (text "map-closed")
        && not (is_subset decided available && is_subset available decided))
      (value_error "map-closed must decide every candidate")
