-- ===== src/Contracts/TargetDecision.antt =====
-- `TargetDecision` of contracts.py: a new knowledge base, or none.
use knowledge_flow.Common.{String, ◌≡◌, true, false, ◌&&◌, ◌||◌, Option, List, []}
use knowledge_flow.Common.{◌∷◌, arith, AllOption, is_some}
use knowledge_flow.Common.Text.{Text, text, text_eq, is_one_of}
use knowledge_flow.Common.Result.{
  value_error, Result, ok, ◌>>=◌, ◌>>◌, raise_if, Ensures, bind-Ensures,
}
use knowledge_flow.Common.Value.{Value, str, dict, end, entry, opt_str}
use knowledge_flow.Contracts.Require.{
  max_short_text_bytes, require_exact_keys, item, is_plain_text, require_string, is_safe_token,
  require_token, require_single_line_string, require_nonnegative,
}
use knowledge_flow.Contracts.Require.{
  require_positive, is_uuid7_id, require_uuid7_id, require_sha256, is_single_line, require_optional,
  require_one_of, require_text, require_bool,
}
use knowledge_flow.Contracts.Timestamp.{
  is_utc_milliseconds, require_canonical_utc_milliseconds, require_canonical_utc_milliseconds-eq-ok,
  require_canonical_utc_milliseconds-str,
}

pub record TargetDecision : Type 0 where
  pub target_decision_id : Text
  pub choice : Text
  pub requested_display_name : Option Text
  pub target_kb_id : Option Text
  pub decided_by : Text
  pub decided_at : Text

abbrev pub choices : List Text
choices = text "new-kb" ∷ text "no-target" ∷ []

unfoldable pub init : Value → Value → Value → Value → Value → Value → Result TargetDecision
unfolding require_token require_uuid7_id require_sha256 require_positive require_nonnegative
    require_one_of require_text require_bool require_single_line_string require_string
    is_single_line is_plain_text
init target_decision_id_given choice_given requested_display_name_given target_kb_id_given
      decided_by_given decided_at_given =
    do
      target_decision_id ← require_uuid7_id target_decision_id_given "target_" "target_decision_id"
      choice ←
          require_one_of choice_given choices (value_error "choice must be new-kb or no-target")
      requested_display_name ←
          require_optional
            (λ v. require_single_line_string v "requested_display_name" max_short_text_bytes)
            requested_display_name_given
      target_kb_id ←
          require_optional (λ v. require_uuid7_id v "kb_" "target_kb_id") target_kb_id_given
      raise_if (text_eq choice (text "new-kb") && is_some target_kb_id)
          (value_error "new-kb decision cannot bind an uncreated kb_id")
      raise_if
          (text_eq choice (text "no-target")
            && (is_some requested_display_name || is_some target_kb_id))
          (value_error "no-target decision cannot carry KB fields")
      decided_by ← require_token decided_by_given "decided_by"
      decided_at ← require_canonical_utc_milliseconds decided_at_given "decided_at"
      ok (record {
        target_decision_id = target_decision_id;
        choice = choice;
        requested_display_name = requested_display_name;
        target_kb_id = target_kb_id;
        decided_by = decided_by;
        decided_at = decided_at;
      })

unfoldable pub as_mapping : TargetDecision → Value
as_mapping r = dict (
    entry "target_decision_id" (str r.target_decision_id) (
      entry "choice" (str r.choice) (
        entry "requested_display_name" (opt_str r.requested_display_name) (
          entry "target_kb_id" (opt_str r.target_kb_id)
            (entry "decided_by" (str r.decided_by) (entry "decided_at" (str r.decided_at) end))))))

abbrev fields : List String
fields =
    "target_decision_id" ∷ "choice" ∷ "requested_display_name" ∷ "target_kb_id" ∷ "decided_by"
    ∷ "decided_at" ∷ []

unfoldable pub from_mapping : Value → Result TargetDecision
from_mapping value = do
  raw ← require_exact_keys value fields "target_decision"
  target_decision_id_given ← item raw "target_decision_id"
  choice_given ← item raw "choice"
  requested_display_name_given ← item raw "requested_display_name"
  target_kb_id_given ← item raw "target_kb_id"
  decided_by_given ← item raw "decided_by"
  decided_at_given ← item raw "decided_at"
  init target_decision_id_given choice_given requested_display_name_given target_kb_id_given
      decided_by_given decided_at_given

pub record IsValid (r : TargetDecision) : Type 0 where
  pub id : is_uuid7_id "target_" r.target_decision_id ≡ true
  pub choice_known : is_one_of r.choice choices ≡ true
  pub name : AllOption (λ s. is_single_line max_short_text_bytes s ≡ true) r.requested_display_name
  pub kb : AllOption (λ s. is_uuid7_id "kb_" s ≡ true) r.target_kb_id
  pub new_kb : (text_eq r.choice (text "new-kb") && is_some r.target_kb_id) ≡ false
  pub no_target :
      (text_eq r.choice (text "no-target")
        && (is_some r.requested_display_name || is_some r.target_kb_id))
      ≡ false
  pub by : is_safe_token r.decided_by ≡ true
  pub at : is_utc_milliseconds r.decided_at ≡ true

pub init-IsValid :
    (target_decision_id_given : Value) (choice_given : Value) (requested_display_name_given : Value)
    (target_kb_id_given : Value) (decided_by_given : Value) (decided_at_given : Value)
    (r : TargetDecision)
    → init target_decision_id_given choice_given requested_display_name_given target_kb_id_given
        decided_by_given decided_at_given
      ≡ ok r
    → IsValid r
unfolding init
init-IsValid target_decision_id_given choice_given requested_display_name_given target_kb_id_given
      decided_by_given decided_at_given r h =
    ground
      (arith, require_canonical_utc_milliseconds-eq-ok decided_at_given "decided_at" r.decided_at)

pub init-values :
    (r : TargetDecision)
    → IsValid r
    → init
        (str r.target_decision_id)
        (str r.choice)
        (opt_str r.requested_display_name)
        (opt_str r.target_kb_id)
        (str r.decided_by)
        (str r.decided_at)
      ≡ ok r
unfolding init
init-values r h =
    ground (arith, require_canonical_utc_milliseconds-str "decided_at" r.decided_at h.at)

-- What a document is read as is valid.
pub from_mapping-IsValid : (v : Value) (r : TargetDecision) → from_mapping v ≡ ok r → IsValid r
unfolding from_mapping
from_mapping-IsValid v r h =
    let valid : Ensures IsValid (from_mapping v) =
      (bind-Ensures (require_exact_keys v fields "target_decision") λ raw e_raw.
        (bind-Ensures (item raw "target_decision_id")
          λ target_decision_id_given e_target_decision_id_given.
            (bind-Ensures (item raw "choice") λ choice_given e_choice_given.
              (bind-Ensures (item raw "requested_display_name")
                λ requested_display_name_given e_requested_display_name_given.
                  (bind-Ensures (item raw "target_kb_id") λ target_kb_id_given e_target_kb_id_given.
                    (bind-Ensures (item raw "decided_by") λ decided_by_given e_decided_by_given.
                      (bind-Ensures (item raw "decided_at") λ decided_at_given e_decided_at_given.
                        record {
                          at = λ a made.
                              init-IsValid target_decision_id_given choice_given
                                requested_display_name_given target_kb_id_given decided_by_given
                                decided_at_given a made;
                        }))))))) in
    valid.at r h

-- A valid object is read back from its own mapping.
pub from_mapping-as_mapping : (r : TargetDecision) → IsValid r → from_mapping (as_mapping r) ≡ ok r
unfolding from_mapping as_mapping require_exact_keys item
from_mapping-as_mapping r h = ground (arith, init-values r h)
