-- ===== src/Contracts/MapDecision.antt =====
-- `MapDecision` of contracts.py: the decisions on one exact map.
use knowledge_flow.Contracts.CandidateDecision
use knowledge_flow.Contracts.CandidateDecision.{CandidateDecision}
use mathlib.Core.Path.{subst}
use knowledge_flow.Common.{ℕ, ◌≤◌, String, ◌≡◌, sym, true, false, not, ◌&&◌}
use knowledge_flow.Common.{List, [], ◌∷◌, map, arith, ◌==◌, length, All}
use knowledge_flow.Common.Text.{Text, text, text_eq_refl, is_one_of, all_distinct}
use knowledge_flow.Common.Result.{
  value_error, Result, ok, ◌>>=◌, ◌>>◌, raise_if, map_result, Ensures, bind-Ensures,
}
use knowledge_flow.Common.Int.{pos}
use knowledge_flow.Common.Value.{Value, num, str, seq, dict, end, entry, of_list}
use knowledge_flow.Contracts.Require.{
  max_collection_items, require_exact_keys, item, is_safe_token, require_token, require_nonnegative,
  require_positive, require_version_one, is_uuid7_id,
}
use knowledge_flow.Contracts.Require.{
  require_uuid7_id, require_sequence, is_sha256, require_sha256, require_one_of, require_text,
  require_bool,
}
use knowledge_flow.Contracts.Timestamp.{
  is_utc_milliseconds, require_canonical_utc_milliseconds, require_canonical_utc_milliseconds-eq-ok,
  require_canonical_utc_milliseconds-str,
}
use knowledge_flow.Contracts.Collections.{map_result-All, require_items, items_read_back}

pub record MapDecision : Type 0 where
  pub decision_set_id : Text
  pub version : ℕ
  pub map_sha256 : Text
  pub outcome : Text
  pub decided_by : Text
  pub decided_at : Text
  pub decisions : List CandidateDecision

abbrev pub decision_outcomes : List Text
decision_outcomes =
    text "map-closed" ∷ text "revision-requested" ∷ text "change-requested" ∷ text "deferred" ∷ []

abbrev pub decided_ids : List CandidateDecision → List Text
decided_ids = map CandidateDecision.candidate_id

unfoldable pub init :
    Value → Value → Value → Value → Value → Value → List CandidateDecision → Result MapDecision
unfolding require_token require_uuid7_id require_sha256 require_positive require_nonnegative
    require_one_of require_text require_bool require_items
init decision_set_id_given version_given map_sha256_given outcome_given decided_by_given
      decided_at_given decisions =
    do
      decision_set_id ← require_uuid7_id decision_set_id_given "dset_" "decision_set_id"
      version ← require_positive version_given "decision version"
      map_sha256 ← require_sha256 map_sha256_given "map_sha256"
      outcome ←
          require_one_of outcome_given decision_outcomes
            (value_error "decision outcome is not supported")
      decided_by ← require_token decided_by_given "decided_by"
      decided_at ← require_canonical_utc_milliseconds decided_at_given "decided_at"
      require_items decisions "decisions" false
      raise_if (not (all_distinct (decided_ids decisions)))
          (value_error "candidate decisions must be unique")
      ok (record {
        decision_set_id = decision_set_id;
        version = version;
        map_sha256 = map_sha256;
        outcome = outcome;
        decided_by = decided_by;
        decided_at = decided_at;
        decisions = decisions;
      })

unfoldable pub as_mapping : MapDecision → Value
as_mapping r = dict (
    entry "schema" (str (text "knowledgeflow.curation-map-decision")) (
      entry "schema_version" (num (pos 1)) (
        entry "decision_set_id" (str r.decision_set_id) (
          entry "version" (num (pos r.version)) (
            entry "map_sha256" (str r.map_sha256) (
              entry "outcome" (str r.outcome) (
                entry "decided_by" (str r.decided_by) (
                  entry "decided_at" (str r.decided_at) (
                    entry "decisions" (seq (of_list (map CandidateDecision.as_mapping r.decisions)))
                      end)))))))))

abbrev fields : List String
fields =
    "schema" ∷ "schema_version" ∷ "decision_set_id" ∷ "version" ∷ "map_sha256" ∷ "outcome"
    ∷ "decided_by" ∷ "decided_at" ∷ "decisions" ∷ []

unfoldable pub from_mapping : Value → Result MapDecision
from_mapping value = do
  raw ← require_exact_keys value fields "map decision"
  schema ← item raw "schema"
  schema_checked ←
      require_text schema (text "knowledgeflow.curation-map-decision")
        (value_error "map decision schema is not supported")
  schema_version ← item raw "schema_version"
  require_version_one schema_version "map decision schema_version"
  decision_set_id_given ← item raw "decision_set_id"
  version_given ← item raw "version"
  map_sha256_given ← item raw "map_sha256"
  outcome_given ← item raw "outcome"
  decided_by_given ← item raw "decided_by"
  decided_at_given ← item raw "decided_at"
  decisions_given ← item raw "decisions"
  decisions_values ← require_sequence decisions_given "decisions" false
  decisions ← map_result CandidateDecision.from_mapping decisions_values
  init decision_set_id_given version_given map_sha256_given outcome_given decided_by_given
      decided_at_given decisions

-- What the checks of the class itself establish.
pub record FieldsValid (r : MapDecision) : Type 0 where
  pub id : is_uuid7_id "dset_" r.decision_set_id ≡ true
  pub version_pos : 1 ≤ r.version
  pub hash : is_sha256 r.map_sha256 ≡ true
  pub outcome_known : is_one_of r.outcome decision_outcomes ≡ true
  pub by : is_safe_token r.decided_by ≡ true
  pub at : is_utc_milliseconds r.decided_at ≡ true
  pub some_decision : 1 ≤ length r.decisions
  pub few : length r.decisions ≤ max_collection_items
  pub distinct : all_distinct (decided_ids r.decisions) ≡ true

pub record IsValid (r : MapDecision) : Type 0 where
  pub own : FieldsValid r
  pub valid_decisions : All CandidateDecision.IsValid r.decisions

init-FieldsValid :
    (decision_set_id_given : Value) (version_given : Value) (map_sha256_given : Value)
    (outcome_given : Value) (decided_by_given : Value) (decided_at_given : Value)
    (decisions : List CandidateDecision) (r : MapDecision)
    → init decision_set_id_given version_given map_sha256_given outcome_given decided_by_given
        decided_at_given decisions
      ≡ ok r
    → FieldsValid r × (r.decisions ≡ decisions)
unfolding init
init-FieldsValid decision_set_id_given version_given map_sha256_given outcome_given decided_by_given
      decided_at_given decisions r h =
    ground
      (arith, require_canonical_utc_milliseconds-eq-ok decided_at_given "decided_at" r.decided_at)

pub init-IsValid :
    (decision_set_id_given : Value) (version_given : Value) (map_sha256_given : Value)
    (outcome_given : Value) (decided_by_given : Value) (decided_at_given : Value)
    (decisions : List CandidateDecision) (r : MapDecision)
    → All CandidateDecision.IsValid decisions
    → init decision_set_id_given version_given map_sha256_given outcome_given decided_by_given
        decided_at_given decisions
      ≡ ok r
    → IsValid r
init-IsValid decision_set_id_given version_given map_sha256_given outcome_given decided_by_given
      decided_at_given decisions r valid_decisions h =
    let (own, same_decisions) =
      init-FieldsValid decision_set_id_given version_given map_sha256_given outcome_given
        decided_by_given decided_at_given decisions r h in
    record {
      own = own;
      valid_decisions = subst (All CandidateDecision.IsValid) (sym same_decisions) valid_decisions;
    }

pub init-values :
    (r : MapDecision)
    → FieldsValid r
    → init
        (str r.decision_set_id)
        (num (pos r.version))
        (str r.map_sha256)
        (str r.outcome)
        (str r.decided_by)
        (str r.decided_at)
        r.decisions
      ≡ ok r
unfolding init
init-values r h =
    ground (arith, require_canonical_utc_milliseconds-str "decided_at" r.decided_at h.at)

-- What a document is read as is valid.
pub from_mapping-IsValid : (v : Value) (r : MapDecision) → from_mapping v ≡ ok r → IsValid r
unfolding from_mapping
from_mapping-IsValid v r h =
    let valid : Ensures IsValid (from_mapping v) =
      (bind-Ensures (require_exact_keys v fields "map decision") λ raw e_raw.
        (bind-Ensures (item raw "schema") λ schema e_schema.
          (bind-Ensures
            (require_text schema (text "knowledgeflow.curation-map-decision")
              (value_error "map decision schema is not supported"))
            λ schema_checked e_schema_checked.
              (bind-Ensures (item raw "schema_version") λ schema_version e_schema_version.
                (bind-Ensures (require_version_one schema_version "map decision schema_version")
                  λ u4 e_u4.
                    (bind-Ensures (item raw "decision_set_id")
                      λ decision_set_id_given e_decision_set_id_given.
                        (bind-Ensures (item raw "version") λ version_given e_version_given.
                          (bind-Ensures (item raw "map_sha256")
                            λ map_sha256_given e_map_sha256_given.
                              (bind-Ensures (item raw "outcome") λ outcome_given e_outcome_given.
                                (bind-Ensures (item raw "decided_by")
                                  λ decided_by_given e_decided_by_given.
                                    (bind-Ensures (item raw "decided_at")
                                      λ decided_at_given e_decided_at_given.
                                        (bind-Ensures (item raw "decisions")
                                          λ decisions_given e_decisions_given.
                                            (bind-Ensures
                                              (require_sequence decisions_given "decisions" false)
                                              λ decisions_values e_decisions_values.
                                                (bind-Ensures
                                                  (map_result CandidateDecision.from_mapping
                                                    decisions_values)
                                                  λ decisions e_decisions. record {
                                                    at = λ a made.
                                                        init-IsValid decision_set_id_given
                                                          version_given map_sha256_given
                                                          outcome_given decided_by_given
                                                          decided_at_given decisions a
                                                          (map_result-All
                                                            CandidateDecision.from_mapping
                                                            CandidateDecision.IsValid
                                                            CandidateDecision.from_mapping-IsValid
                                                            decisions_values decisions e_decisions)
                                                          made;
                                                  })))))))))))))) in
    valid.at r h

not_empty : (r : MapDecision) → FieldsValid r → (not false && length r.decisions == 0) ≡ false
not_empty r h = ground arith

-- A valid object is read back from its own mapping.
pub from_mapping-as_mapping : (r : MapDecision) → IsValid r → from_mapping (as_mapping r) ≡ ok r
unfolding from_mapping as_mapping require_exact_keys item require_text require_version_one
from_mapping-as_mapping r h =
    rw
      (
        text_eq_refl (text "knowledgeflow.curation-map-decision"),
        (items_read_back CandidateDecision.from_mapping CandidateDecision.as_mapping
            CandidateDecision.IsValid "decisions" false r.decisions
            CandidateDecision.from_mapping-as_mapping h.valid_decisions h.own.few
            (not_empty r h.own)).0,
        (items_read_back CandidateDecision.from_mapping CandidateDecision.as_mapping
            CandidateDecision.IsValid "decisions" false r.decisions
            CandidateDecision.from_mapping-as_mapping h.valid_decisions h.own.few
            (not_empty r h.own)).1,
      )
      (init-values r h.own)
