-- ===== src/Contracts/MapCandidate.antt =====
-- `MapCandidate` of contracts.py: one candidate of a curation map.
use knowledge_flow.Common.{ℕ, String, ◌≡◌, Bool, true, false, not, ◌&&◌, Option}
use knowledge_flow.Common.{none, some, List, [], ◌∷◌, arith, ◌==◌, AllOption}
use knowledge_flow.Common.Text.{Text, text, text_eq, is_one_of, all_distinct}
use knowledge_flow.Common.Result.{
  Error, value_error, Result, ok, err, ◌>>=◌, ◌>>◌, raise_if, Ensures,
}
use knowledge_flow.Common.Result.{bind-Ensures}
use knowledge_flow.Common.Value.{Value, str, dict, end, entry, strs, opt_str}
use knowledge_flow.Contracts.Require.{
  max_text_bytes, require_exact_keys, item, is_plain_text, require_string, is_markdown_anchor,
  require_token, require_nonnegative, require_positive,
}
use knowledge_flow.Contracts.Require.{
  is_uuid7_id, require_uuid7_id, require_sequence, require_sha256, require_optional, require_one_of,
  require_text, require_bool, require_uuid7_id-str,
}
use knowledge_flow.Contracts.Require.{require_uuid7_id-eq-ok}
use knowledge_flow.Contracts.Collections.{
  text_items, TextsValid, text_items-TextsValid, sequence-strs, text_items-strs,
}

pub record MapCandidate : Type 0 where
  pub candidate_id : Text
  pub kind : Text
  pub summary : Text
  pub evidence_locator_ids : List Text
  pub provenance : Text
  pub uncertainty : Text
  pub markdown_anchor : Text
  pub supersedes : Option Text

abbrev pub candidate_kinds : List Text
candidate_kinds =
    text "overview"
    ∷ text "structure"
    ∷ text "claim"
    ∷ text "concept"
    ∷ text "relationship"
    ∷ text "dispute"
    ∷ text "limitation"
    ∷ text "gap"
    ∷ text "organization"
    ∷ []

abbrev pub evidence_optional_kinds : List Text
evidence_optional_kinds = text "gap" ∷ text "organization" ∷ []

abbrev pub provenance_values : List Text
provenance_values =
    text "source-claim"
    ∷ text "quoted-claim"
    ∷ text "processor-inference"
    ∷ text "user-revision"
    ∷ text "unverified"
    ∷ []

abbrev pub uncertainty_values : List Text
uncertainty_values = text "none" ∷ text "low" ∷ text "medium" ∷ text "high" ∷ text "unknown" ∷ []

unfoldable pub evidence_missing : Text → ℕ → Bool
evidence_missing kind count = count == 0 && not (is_one_of kind evidence_optional_kinds)

abbrev no_evidence : Error
no_evidence = value_error "this candidate kind requires evidence"

abbrev check_locator_id : Value → Result Text
check_locator_id v = require_uuid7_id v "loc_" "evidence locator ID"

unfoldable pub require_locator_ids : Text → Value → Result (List Text)
unfolding text_items
require_locator_ids kind v =
    text_items v "evidence_locator_ids" true (evidence_missing kind) no_evidence check_locator_id

abbrev pub LocatorsValid : Text → List Text → Type 0
LocatorsValid kind =
    TextsValid "evidence_locator_ids" true (evidence_missing kind) no_evidence check_locator_id
      (λ s. is_uuid7_id "loc_" s ≡ true)

require_locator_ids-LocatorsValid :
    (kind : Text) (v : Value) (ids : List Text)
    → require_locator_ids kind v ≡ ok ids
    → LocatorsValid kind ids
unfolding require_locator_ids
require_locator_ids-LocatorsValid kind v ids h =
    text_items-TextsValid "evidence_locator_ids" true (evidence_missing kind) no_evidence
      check_locator_id (λ s. is_uuid7_id "loc_" s ≡ true)
      (require_uuid7_id-eq-ok "loc_" "evidence locator ID") v ids h

require_locator_ids-strs :
    (kind : Text) (ids : List Text)
    → LocatorsValid kind ids
    → require_locator_ids kind (strs ids) ≡ ok ids
unfolding require_locator_ids
require_locator_ids-strs kind ids h =
    text_items-strs "evidence_locator_ids" true (evidence_missing kind) no_evidence check_locator_id
      (λ s. is_uuid7_id "loc_" s ≡ true) (λ s. require_uuid7_id-str s "loc_" "evidence locator ID")
      ids h

unfoldable pub require_anchor : Value → Result Text
require_anchor (str s) = do
  raise_if (not (is_markdown_anchor s))
      (value_error "markdown_anchor must be a safe lowercase anchor")
  ok s
require_anchor _ = err (value_error "markdown_anchor must be a safe lowercase anchor")

abbrev same_candidate : Text → Option Text → Bool
same_candidate id none = false
same_candidate id (some other) = text_eq other id

unfoldable pub init :
    Value → Value → Value → Value → Value → Value → Value → Value → Result MapCandidate
unfolding require_token require_uuid7_id require_sha256 require_positive require_nonnegative
    require_one_of require_text require_bool require_string is_plain_text require_anchor
init candidate_id_given kind_given summary_given evidence_locator_ids_given provenance_given
      uncertainty_given markdown_anchor_given supersedes_given =
    do
      candidate_id ← require_uuid7_id candidate_id_given "cand_" "candidate_id"
      kind ←
          require_one_of kind_given candidate_kinds (value_error "candidate kind is not supported")
      summary ← require_string summary_given "candidate summary" max_text_bytes
      evidence_locator_ids ← require_locator_ids kind evidence_locator_ids_given
      raise_if (not (all_distinct evidence_locator_ids))
          (value_error "evidence locator IDs must be unique")
      provenance ←
          require_one_of provenance_given provenance_values
            (value_error "candidate provenance is not supported")
      uncertainty ←
          require_one_of uncertainty_given uncertainty_values
            (value_error "candidate uncertainty is not supported")
      markdown_anchor ← require_anchor markdown_anchor_given
      supersedes ← require_optional (λ v. require_uuid7_id v "cand_" "supersedes") supersedes_given
      raise_if (same_candidate candidate_id supersedes)
          (value_error "candidate cannot supersede itself")
      ok (record {
        candidate_id = candidate_id;
        kind = kind;
        summary = summary;
        evidence_locator_ids = evidence_locator_ids;
        provenance = provenance;
        uncertainty = uncertainty;
        markdown_anchor = markdown_anchor;
        supersedes = supersedes;
      })

unfoldable pub as_mapping : MapCandidate → Value
as_mapping r = dict (
    entry "candidate_id" (str r.candidate_id) (
      entry "kind" (str r.kind) (
        entry "summary" (str r.summary) (
          entry "evidence_locator_ids" (strs r.evidence_locator_ids) (
            entry "provenance" (str r.provenance) (
              entry "uncertainty" (str r.uncertainty) (
                entry "markdown_anchor" (str r.markdown_anchor)
                  (entry "supersedes" (opt_str r.supersedes) end))))))))

abbrev fields : List String
fields =
    "candidate_id" ∷ "kind" ∷ "summary" ∷ "evidence_locator_ids" ∷ "provenance" ∷ "uncertainty"
    ∷ "markdown_anchor" ∷ "supersedes" ∷ []

unfoldable pub from_mapping : Value → Result MapCandidate
from_mapping value = do
  raw ← require_exact_keys value fields "map candidate"
  candidate_id_given ← item raw "candidate_id"
  kind_given ← item raw "kind"
  summary_given ← item raw "summary"
  evidence_locator_ids_given ← item raw "evidence_locator_ids"
  provenance_given ← item raw "provenance"
  uncertainty_given ← item raw "uncertainty"
  markdown_anchor_given ← item raw "markdown_anchor"
  supersedes_given ← item raw "supersedes"
  locator_ids ← require_sequence evidence_locator_ids_given "evidence_locator_ids" true
  init candidate_id_given kind_given summary_given evidence_locator_ids_given provenance_given
      uncertainty_given markdown_anchor_given supersedes_given

pub record IsValid (r : MapCandidate) : Type 0 where
  pub id : is_uuid7_id "cand_" r.candidate_id ≡ true
  pub kind_known : is_one_of r.kind candidate_kinds ≡ true
  pub summary_plain : is_plain_text max_text_bytes r.summary ≡ true
  pub evidence : LocatorsValid r.kind r.evidence_locator_ids
  pub distinct : all_distinct r.evidence_locator_ids ≡ true
  pub provenance_known : is_one_of r.provenance provenance_values ≡ true
  pub uncertainty_known : is_one_of r.uncertainty uncertainty_values ≡ true
  pub anchor : is_markdown_anchor r.markdown_anchor ≡ true
  pub superseded : AllOption (λ s. is_uuid7_id "cand_" s ≡ true) r.supersedes
  pub other : same_candidate r.candidate_id r.supersedes ≡ false

pub init-IsValid :
    (candidate_id_given : Value) (kind_given : Value) (summary_given : Value)
    (evidence_locator_ids_given : Value) (provenance_given : Value) (uncertainty_given : Value)
    (markdown_anchor_given : Value) (supersedes_given : Value) (r : MapCandidate)
    → init candidate_id_given kind_given summary_given evidence_locator_ids_given provenance_given
        uncertainty_given markdown_anchor_given supersedes_given
      ≡ ok r
    → IsValid r
unfolding init
init-IsValid candidate_id_given kind_given summary_given evidence_locator_ids_given provenance_given
      uncertainty_given markdown_anchor_given supersedes_given r h =
    ground (
      arith,
      require_locator_ids-LocatorsValid r.kind evidence_locator_ids_given r.evidence_locator_ids,
    )

pub init-values :
    (r : MapCandidate)
    → IsValid r
    → init
        (str r.candidate_id)
        (str r.kind)
        (str r.summary)
        (strs r.evidence_locator_ids)
        (str r.provenance)
        (str r.uncertainty)
        (str r.markdown_anchor)
        (opt_str r.supersedes)
      ≡ ok r
unfolding init
init-values r h = ground (arith, require_locator_ids-strs r.kind r.evidence_locator_ids h.evidence)

-- What a document is read as is valid.
pub from_mapping-IsValid : (v : Value) (r : MapCandidate) → from_mapping v ≡ ok r → IsValid r
unfolding from_mapping
from_mapping-IsValid v r h =
    let valid : Ensures IsValid (from_mapping v) =
      (bind-Ensures (require_exact_keys v fields "map candidate") λ raw e_raw.
        (bind-Ensures (item raw "candidate_id") λ candidate_id_given e_candidate_id_given.
          (bind-Ensures (item raw "kind") λ kind_given e_kind_given.
            (bind-Ensures (item raw "summary") λ summary_given e_summary_given.
              (bind-Ensures (item raw "evidence_locator_ids")
                λ evidence_locator_ids_given e_evidence_locator_ids_given.
                  (bind-Ensures (item raw "provenance") λ provenance_given e_provenance_given.
                    (bind-Ensures (item raw "uncertainty") λ uncertainty_given e_uncertainty_given.
                      (bind-Ensures (item raw "markdown_anchor")
                        λ markdown_anchor_given e_markdown_anchor_given.
                          (bind-Ensures (item raw "supersedes")
                            λ supersedes_given e_supersedes_given.
                              (bind-Ensures
                                (require_sequence evidence_locator_ids_given "evidence_locator_ids"
                                  true)
                                λ locator_ids e_locator_ids. record {
                                  at = λ a made.
                                      init-IsValid candidate_id_given kind_given summary_given
                                        evidence_locator_ids_given provenance_given
                                        uncertainty_given markdown_anchor_given supersedes_given a
                                        made;
                                })))))))))) in
    valid.at r h

-- A valid object is read back from its own mapping.
pub from_mapping-as_mapping : (r : MapCandidate) → IsValid r → from_mapping (as_mapping r) ≡ ok r
unfolding from_mapping as_mapping require_exact_keys item
from_mapping-as_mapping r h =
    rw
      (sequence-strs "evidence_locator_ids" true (evidence_missing r.kind) no_evidence
        check_locator_id (λ s. is_uuid7_id "loc_" s ≡ true) r.evidence_locator_ids h.evidence)
      (init-values r h)
