-- ===== src/Contracts/ProcessorProfile.antt =====
-- `ProcessorProfile` of contracts.py: what may process a source, and whether it may use the network.
use knowledge_flow.Common.{ℕ, ◌≤◌, String, ◌≡◌, Bool, true, false, not, ◌&&◌}
use knowledge_flow.Common.{◌||◌, Option, none, some, List, [], ◌∷◌, arith, ◌==◌}
use knowledge_flow.Common.{AllOption, is_some}
use knowledge_flow.Common.Text.{Text, text, text_eq, is_one_of}
use knowledge_flow.Common.Result.{
  value_error, Result, ok, ◌>>=◌, ◌>>◌, raise_if, Ensures, bind-Ensures,
}
use knowledge_flow.Common.Int.{pos}
use knowledge_flow.Common.Value.{Value, bool, num, str, dict, end, entry, opt_str}
use knowledge_flow.Contracts.Require.{
  max_short_text_bytes, require_exact_keys, item, is_plain_text, require_string, is_safe_token,
  require_token, require_single_line_string, require_nonnegative,
}
use knowledge_flow.Contracts.Require.{
  require_positive, require_uuid7_id, require_sha256, is_single_line, require_optional,
  require_one_of, require_text, require_bool,
}

pub record ProcessorProfile : Type 0 where
  pub kind : Text
  pub processor_id : Text
  pub revision : ℕ
  pub model_id : Option Text
  pub network_allowed : Bool

abbrev pub kinds : List Text
kinds = text "mechanical" ∷ text "test-fixture" ∷ text "file-exchange" ∷ text "remote-api" ∷ []

abbrev pub offline_kinds : List Text
offline_kinds = text "mechanical" ∷ text "test-fixture" ∷ []

unfoldable pub init : Value → Value → Value → Value → Value → Result ProcessorProfile
unfolding require_token require_uuid7_id require_sha256 require_positive require_nonnegative
    require_one_of require_text require_bool require_single_line_string require_string
    is_single_line is_plain_text
init kind_given processor_id_given revision_given model_id_given network_allowed_given = do
  kind ← require_one_of kind_given kinds (value_error "kind is not a supported CUR1 processor kind")
  processor_id ← require_token processor_id_given "processor_id"
  revision ← require_positive revision_given "processor revision"
  model_id ←
      require_optional (λ v. require_single_line_string v "model_id" max_short_text_bytes)
        model_id_given
  network_allowed ←
      require_bool network_allowed_given (value_error "network_allowed must be boolean")
  raise_if (is_one_of kind offline_kinds && (is_some model_id || network_allowed))
      (value_error "mechanical and test processors must be offline and model-free")
  raise_if (text_eq kind (text "remote-api") && (not (is_some model_id) || not network_allowed))
      (value_error "remote API processors require a model and network")
  ok (record {
    kind = kind;
    processor_id = processor_id;
    revision = revision;
    model_id = model_id;
    network_allowed = network_allowed;
  })

unfoldable pub as_mapping : ProcessorProfile → Value
as_mapping r = dict (
    entry "kind" (str r.kind) (
      entry "processor_id" (str r.processor_id) (
        entry "revision" (num (pos r.revision)) (
          entry "model_id" (opt_str r.model_id)
            (entry "network_allowed" (bool r.network_allowed) end)))))

abbrev fields : List String
fields = "kind" ∷ "processor_id" ∷ "revision" ∷ "model_id" ∷ "network_allowed" ∷ []

unfoldable pub from_mapping : Value → Result ProcessorProfile
from_mapping value = do
  raw ← require_exact_keys value fields "processor_profile"
  kind_given ← item raw "kind"
  processor_id_given ← item raw "processor_id"
  revision_given ← item raw "revision"
  model_id_given ← item raw "model_id"
  network_allowed_given ← item raw "network_allowed"
  init kind_given processor_id_given revision_given model_id_given network_allowed_given

abbrev same_option : Option Text → Option Text → Bool
same_option none none = true
same_option (some a) (some b) = text_eq a b
same_option _ _ = false

abbrev same_bool : Bool → Bool → Bool
same_bool true b = b
same_bool false b = not b

-- `==` of the dataclass
unfoldable pub eq : ProcessorProfile → ProcessorProfile → Bool
eq a b =
    text_eq a.kind b.kind
    && text_eq a.processor_id b.processor_id
    && a.revision == b.revision
    && same_option a.model_id b.model_id
    && same_bool a.network_allowed b.network_allowed

pub record IsValid (r : ProcessorProfile) : Type 0 where
  pub kind_known : is_one_of r.kind kinds ≡ true
  pub id : is_safe_token r.processor_id ≡ true
  pub revision_pos : 1 ≤ r.revision
  pub model : AllOption (λ s. is_single_line max_short_text_bytes s ≡ true) r.model_id
  pub offline :
      (is_one_of r.kind offline_kinds && (is_some r.model_id || r.network_allowed)) ≡ false
  pub remote :
      (text_eq r.kind (text "remote-api") && (not (is_some r.model_id) || not r.network_allowed))
      ≡ false

pub init-IsValid :
    (kind_given : Value) (processor_id_given : Value) (revision_given : Value)
    (model_id_given : Value) (network_allowed_given : Value) (r : ProcessorProfile)
    → init kind_given processor_id_given revision_given model_id_given network_allowed_given ≡ ok r
    → IsValid r
unfolding init
init-IsValid kind_given processor_id_given revision_given model_id_given network_allowed_given r h =
    ground (arith)

pub init-values :
    (r : ProcessorProfile)
    → IsValid r
    → init
        (str r.kind)
        (str r.processor_id)
        (num (pos r.revision))
        (opt_str r.model_id)
        (bool r.network_allowed)
      ≡ ok r
unfolding init
init-values r h = ground (arith)

-- What a document is read as is valid.
pub from_mapping-IsValid : (v : Value) (r : ProcessorProfile) → from_mapping v ≡ ok r → IsValid r
unfolding from_mapping
from_mapping-IsValid v r h =
    let valid : Ensures IsValid (from_mapping v) =
      (bind-Ensures (require_exact_keys v fields "processor_profile") λ raw e_raw.
        (bind-Ensures (item raw "kind") λ kind_given e_kind_given.
          (bind-Ensures (item raw "processor_id") λ processor_id_given e_processor_id_given.
            (bind-Ensures (item raw "revision") λ revision_given e_revision_given.
              (bind-Ensures (item raw "model_id") λ model_id_given e_model_id_given.
                (bind-Ensures (item raw "network_allowed")
                  λ network_allowed_given e_network_allowed_given. record {
                    at = λ a made.
                        init-IsValid kind_given processor_id_given revision_given model_id_given
                          network_allowed_given a made;
                  })))))) in
    valid.at r h

-- A valid object is read back from its own mapping.
pub from_mapping-as_mapping :
    (r : ProcessorProfile) → IsValid r → from_mapping (as_mapping r) ≡ ok r
unfolding from_mapping as_mapping require_exact_keys item
from_mapping-as_mapping r h = ground (arith, init-values r h)
