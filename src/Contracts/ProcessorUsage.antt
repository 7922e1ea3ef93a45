-- ===== src/Contracts/ProcessorUsage.antt =====
-- `ProcessorUsage` of contracts.py: calls, tokens, time and cost of a processor.
use knowledge_flow.Common.{ℕ, String, ◌≡◌, Bool, true, not, ◌&&◌, ◌||◌, Option}
use knowledge_flow.Common.{List, [], ◌∷◌, arith, leb, ◌==◌, length, all, AllOption}
use knowledge_flow.Common.{is_some}
use knowledge_flow.Common.Text.{Text}
use knowledge_flow.Common.Result.{
  value_error, Result, ok, err, ◌>>=◌, ◌>>◌, raise_if, Ensures, bind-Ensures,
}
use knowledge_flow.Common.Int.{pos}
use knowledge_flow.Common.Value.{Value, num, str, dict, end, entry, opt_str, opt_num, is_null}
use knowledge_flow.Contracts.Require.{
  require_exact_keys, item, require_token, require_nonnegative, require_positive, require_uuid7_id,
  require_sha256, require_optional, require_one_of,
}
use knowledge_flow.Contracts.Require.{require_text, require_bool}

pub record ProcessorUsage : Type 0 where
  pub call_count : ℕ
  pub input_tokens : ℕ
  pub output_tokens : ℕ
  pub elapsed_ms : ℕ
  pub cost_currency : Option Text
  pub cost_minor_units : Option ℕ

-- `[A-Z]{3}`
unfoldable pub is_currency : Text → Bool
is_currency s = length s == 3 && all (λ c. leb b'A' c && leb c b'Z') s

unfoldable pub require_currency : Value → Result Text
require_currency (str s) = do
  raise_if (not (is_currency s)) (value_error "cost_currency must be a three-letter uppercase code")
  ok s
require_currency _ = err (value_error "cost_currency must be a three-letter uppercase code")

unfoldable pub init : Value → Value → Value → Value → Value → Value → Result ProcessorUsage
unfolding require_token require_uuid7_id require_sha256 require_positive require_nonnegative
    require_one_of require_text require_bool require_currency
init call_count_given input_tokens_given output_tokens_given elapsed_ms_given cost_currency_given
      cost_minor_units_given =
    do
      call_count ← require_nonnegative call_count_given "call_count"
      input_tokens ← require_nonnegative input_tokens_given "input_tokens"
      output_tokens ← require_nonnegative output_tokens_given "output_tokens"
      elapsed_ms ← require_nonnegative elapsed_ms_given "elapsed_ms"
      raise_if
          (is_null cost_currency_given && not (is_null cost_minor_units_given)
            || not (is_null cost_currency_given) && is_null cost_minor_units_given)
          (value_error "cost currency and units must both be null or both be present")
      cost_currency ← require_optional require_currency cost_currency_given
      cost_minor_units ←
          require_optional (λ v. require_nonnegative v "cost_minor_units") cost_minor_units_given
      ok (record {
        call_count = call_count;
        input_tokens = input_tokens;
        output_tokens = output_tokens;
        elapsed_ms = elapsed_ms;
        cost_currency = cost_currency;
        cost_minor_units = cost_minor_units;
      })

unfoldable pub as_mapping : ProcessorUsage → Value
as_mapping r = dict (
    entry "call_count" (num (pos r.call_count)) (
      entry "input_tokens" (num (pos r.input_tokens)) (
        entry "output_tokens" (num (pos r.output_tokens)) (
          entry "elapsed_ms" (num (pos r.elapsed_ms)) (
            entry "cost_currency" (opt_str r.cost_currency)
              (entry "cost_minor_units" (opt_num r.cost_minor_units) end))))))

abbrev fields : List String
fields =
    "call_count" ∷ "input_tokens" ∷ "output_tokens" ∷ "elapsed_ms" ∷ "cost_currency"
    ∷ "cost_minor_units" ∷ []

unfoldable pub from_mapping : Value → Result ProcessorUsage
from_mapping value = do
  raw ← require_exact_keys value fields "processor_usage"
  call_count_given ← item raw "call_count"
  input_tokens_given ← item raw "input_tokens"
  output_tokens_given ← item raw "output_tokens"
  elapsed_ms_given ← item raw "elapsed_ms"
  cost_currency_given ← item raw "cost_currency"
  cost_minor_units_given ← item raw "cost_minor_units"
  init call_count_given input_tokens_given output_tokens_given elapsed_ms_given cost_currency_given
      cost_minor_units_given

pub record IsValid (r : ProcessorUsage) : Type 0 where
  pub currency : AllOption (λ s. is_currency s ≡ true) r.cost_currency
  pub both : is_some r.cost_currency ≡ is_some r.cost_minor_units

pub init-IsValid :
    (call_count_given : Value) (input_tokens_given : Value) (output_tokens_given : Value)
    (elapsed_ms_given : Value) (cost_currency_given : Value) (cost_minor_units_given : Value)
    (r : ProcessorUsage)
    → init call_count_given input_tokens_given output_tokens_given elapsed_ms_given
        cost_currency_given cost_minor_units_given
      ≡ ok r
    → IsValid r
unfolding init
init-IsValid call_count_given input_tokens_given output_tokens_given elapsed_ms_given
      cost_currency_given cost_minor_units_given r h =
    ground (arith)

pub init-values :
    (r : ProcessorUsage)
    → IsValid r
    → init
        (num (pos r.call_count))
        (num (pos r.input_tokens))
        (num (pos r.output_tokens))
        (num (pos r.elapsed_ms))
        (opt_str r.cost_currency)
        (opt_num r.cost_minor_units)
      ≡ ok r
unfolding init
init-values r h = ground (arith)

-- What a document is read as is valid.
pub from_mapping-IsValid : (v : Value) (r : ProcessorUsage) → from_mapping v ≡ ok r → IsValid r
unfolding from_mapping
from_mapping-IsValid v r h =
    let valid : Ensures IsValid (from_mapping v) =
      (bind-Ensures (require_exact_keys v fields "processor_usage") λ raw e_raw.
        (bind-Ensures (item raw "call_count") λ call_count_given e_call_count_given.
          (bind-Ensures (item raw "input_tokens") λ input_tokens_given e_input_tokens_given.
            (bind-Ensures (item raw "output_tokens") λ output_tokens_given e_output_tokens_given.
              (bind-Ensures (item raw "elapsed_ms") λ elapsed_ms_given e_elapsed_ms_given.
                (bind-Ensures (item raw "cost_currency")
                  λ cost_currency_given e_cost_currency_given.
                    (bind-Ensures (item raw "cost_minor_units")
                      λ cost_minor_units_given e_cost_minor_units_given. record {
                        at = λ a made.
                            init-IsValid call_count_given input_tokens_given output_tokens_given
                              elapsed_ms_given cost_currency_given cost_minor_units_given a made;
                      }))))))) in
    valid.at r h

-- A valid object is read back from its own mapping.
pub from_mapping-as_mapping : (r : ProcessorUsage) → IsValid r → from_mapping (as_mapping r) ≡ ok r
unfolding from_mapping as_mapping require_exact_keys item
from_mapping-as_mapping r h = ground (arith, init-values r h)
