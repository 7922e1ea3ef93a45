-- ===== src/Contracts/CandidateDecision.antt =====
-- `CandidateDecision` of contracts.py: what a person decided on one candidate.
use knowledge_flow.Common.{String, ◌≡◌, Bool, true, false, not, Option, none, some}
use knowledge_flow.Common.{List, [], ◌∷◌, arith, if◌then◌else◌}
use knowledge_flow.Common.Text.{Text, text, text_eq, is_one_of}
use knowledge_flow.Common.Result.{
  value_error, Result, ok, ◌>>=◌, ◌>>◌, raise_if, Ensures, bind-Ensures,
}
use knowledge_flow.Common.Value.{Value, str, dict, end, entry, opt_str, is_null}
use knowledge_flow.Contracts.Require.{
  max_text_bytes, require_exact_keys, item, is_plain_text, require_string, require_token,
  require_nonnegative, require_positive, is_uuid7_id,
}
use knowledge_flow.Contracts.Require.{
  require_uuid7_id, require_sha256, require_one_of, require_text, require_bool,
}

pub record CandidateDecision : Type 0 where
  pub candidate_id : Text
  pub action : Text
  pub replacement_text : Option Text

abbrev pub decision_actions : List Text
decision_actions = text "accept" ∷ text "reject" ∷ text "defer" ∷ text "modify" ∷ []

unfoldable pub is_modify : Text → Bool
unfolding text_eq text
is_modify action = text_eq action (text "modify")

-- A replacement text stands with `modify`, and with nothing else.
unfoldable pub require_replacement : Text → Value → Result (Option Text)
require_replacement action v =
    if is_modify action
    then (do
      replacement ← require_string v "replacement_text" max_text_bytes
      ok (some replacement))
    else (do
      raise_if (not (is_null v)) (value_error "replacement_text is allowed only for modify")
      ok none)

abbrev pub ReplacementValid : Text → Option Text → Type 0
ReplacementValid action none = is_modify action ≡ false
ReplacementValid action (some t) =
    (is_modify action ≡ true) × (is_plain_text max_text_bytes t ≡ true)

unfoldable pub init : Value → Value → Value → Result CandidateDecision
unfolding require_token require_uuid7_id require_sha256 require_positive require_nonnegative
    require_one_of require_text require_bool require_replacement require_string is_plain_text
init candidate_id_given action_given replacement_text_given = do
  candidate_id ← require_uuid7_id candidate_id_given "cand_" "candidate_id"
  action ←
      require_one_of action_given decision_actions (value_error "decision action is not supported")
  replacement_text ← require_replacement action replacement_text_given
  ok (record { candidate_id = candidate_id; action = action; replacement_text = replacement_text })

unfoldable pub as_mapping : CandidateDecision → Value
as_mapping r = dict (
    entry "candidate_id" (str r.candidate_id)
      (entry "action" (str r.action) (entry "replacement_text" (opt_str r.replacement_text) end)))

abbrev fields : List String
fields = "candidate_id" ∷ "action" ∷ "replacement_text" ∷ []

unfoldable pub from_mapping : Value → Result CandidateDecision
from_mapping value = do
  raw ← require_exact_keys value fields "candidate decision"
  candidate_id_given ← item raw "candidate_id"
  action_given ← item raw "action"
  replacement_text_given ← item raw "replacement_text"
  init candidate_id_given action_given replacement_text_given

pub record IsValid (r : CandidateDecision) : Type 0 where
  pub id : is_uuid7_id "cand_" r.candidate_id ≡ true
  pub action_known : is_one_of r.action decision_actions ≡ true
  pub replacement : ReplacementValid r.action r.replacement_text

pub init-IsValid :
    (candidate_id_given : Value) (action_given : Value) (replacement_text_given : Value)
    (r : CandidateDecision)
    → init candidate_id_given action_given replacement_text_given ≡ ok r
    → IsValid r
unfolding init
init-IsValid candidate_id_given action_given replacement_text_given r h = ground (arith)

pub init-values :
    (r : CandidateDecision)
    → IsValid r
    → init (str r.candidate_id) (str r.action) (opt_str r.replacement_text) ≡ ok r
unfolding init
init-values r h = ground (arith)

-- What a document is read as is valid.
pub from_mapping-IsValid : (v : Value) (r : CandidateDecision) → from_mapping v ≡ ok r → IsValid r
unfolding from_mapping
from_mapping-IsValid v r h =
    let valid : Ensures IsValid (from_mapping v) =
      (bind-Ensures (require_exact_keys v fields "candidate decision") λ raw e_raw.
        (bind-Ensures (item raw "candidate_id") λ candidate_id_given e_candidate_id_given.
          (bind-Ensures (item raw "action") λ action_given e_action_given.
            (bind-Ensures (item raw "replacement_text")
              λ replacement_text_given e_replacement_text_given. record {
                at = λ a made.
                    init-IsValid candidate_id_given action_given replacement_text_given a made;
              })))) in
    valid.at r h

-- A valid object is read back from its own mapping.
pub from_mapping-as_mapping :
    (r : CandidateDecision) → IsValid r → from_mapping (as_mapping r) ≡ ok r
unfolding from_mapping as_mapping require_exact_keys item
from_mapping-as_mapping r h = ground (arith, init-values r h)
