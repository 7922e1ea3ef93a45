-- ===== src/Contracts/ScopeRecord.antt =====
-- `ScopeRecord` of contracts.py: what became of one part of the declared scope.
use knowledge_flow.Contracts.ByteRange
use knowledge_flow.Contracts.ByteRange.{ByteRange}
use knowledge_flow.Common.{String, ◌≡◌, Bool, true, false, not, ◌&&◌, Option, none}
use knowledge_flow.Common.{some, List, [], ◌∷◌, arith, if◌then◌else◌}
use knowledge_flow.Common.Text.{Text, text, text_eq, is_one_of}
use knowledge_flow.Common.Result.{
  value_error, Result, ok, ◌>>=◌, ◌>>◌, raise_if, Ensures, bind-Ensures,
}
use knowledge_flow.Common.Value.{Value, str, dict, end, entry, opt_str, is_null}
use knowledge_flow.Contracts.Require.{
  max_short_text_bytes, require_exact_keys, item, is_plain_text, require_string, require_token,
  require_single_line_string, require_nonnegative, require_positive,
}
use knowledge_flow.Contracts.Require.{
  require_uuid7_id, require_sha256, is_single_line, require_one_of, require_text, require_bool,
}

pub record ScopeRecord : Type 0 where
  pub byte_range : ByteRange
  pub status : Text
  pub reason : Option Text

abbrev pub scope_statuses : List Text
scope_statuses = text "processed" ∷ text "deferred" ∷ text "failed" ∷ text "excluded-by-user" ∷ []

unfoldable pub is_processed : Text → Bool
unfolding text_eq text
is_processed status = text_eq status (text "processed")

-- A processed part has no reason; every other part has one.
unfoldable pub require_reason : Text → Value → Result (Option Text)
require_reason status v =
    if is_processed status
    then (do
      raise_if (not (is_null v)) (value_error "processed scope must not carry a reason")
      ok none)
    else (do
      reason ← require_single_line_string v "scope reason" max_short_text_bytes
      ok (some reason))

abbrev pub ReasonValid : Text → Option Text → Type 0
ReasonValid status none = is_processed status ≡ true
ReasonValid status (some reason) =
    (is_processed status ≡ false) × (is_single_line max_short_text_bytes reason ≡ true)

unfoldable pub init : ByteRange → Value → Value → Result ScopeRecord
unfolding require_token require_uuid7_id require_sha256 require_positive require_nonnegative
    require_one_of require_text require_bool require_reason require_single_line_string
    require_string is_single_line is_plain_text
init byte_range status_given reason_given = do
  status ← require_one_of status_given scope_statuses (value_error "scope status is not supported")
  reason ← require_reason status reason_given
  ok (record { byte_range = byte_range; status = status; reason = reason })

unfoldable pub as_mapping : ScopeRecord → Value
as_mapping r = dict (
    entry "range" (ByteRange.as_mapping r.byte_range)
      (entry "status" (str r.status) (entry "reason" (opt_str r.reason) end)))

abbrev fields : List String
fields = "range" ∷ "status" ∷ "reason" ∷ []

unfoldable pub from_mapping : Value → Result ScopeRecord
from_mapping value = do
  raw ← require_exact_keys value fields "scope item"
  byte_range_given ← item raw "range"
  status_given ← item raw "status"
  reason_given ← item raw "reason"
  byte_range ← ByteRange.from_mapping byte_range_given "scope item.range"
  init byte_range status_given reason_given

abbrev same_reason : Option Text → Option Text → Bool
same_reason none none = true
same_reason (some a) (some b) = text_eq a b
same_reason _ _ = false

-- `==` of the dataclass
unfoldable pub eq : ScopeRecord → ScopeRecord → Bool
eq a b =
    ByteRange.eq a.byte_range b.byte_range
    && text_eq a.status b.status
    && same_reason a.reason b.reason

pub record IsValid (r : ScopeRecord) : Type 0 where
  pub range_valid : ByteRange.IsValid r.byte_range
  pub status_known : is_one_of r.status scope_statuses ≡ true
  pub reason_valid : ReasonValid r.status r.reason

pub init-IsValid :
    (byte_range : ByteRange) (status_given : Value) (reason_given : Value) (r : ScopeRecord)
    → ByteRange.IsValid byte_range
    → init byte_range status_given reason_given ≡ ok r
    → IsValid r
unfolding init
init-IsValid byte_range status_given reason_given r valid_byte_range h = ground (arith)

pub init-values :
    (r : ScopeRecord) → IsValid r → init r.byte_range (str r.status) (opt_str r.reason) ≡ ok r
unfolding init
init-values r h = ground (arith)

-- What a document is read as is valid.
pub from_mapping-IsValid : (v : Value) (r : ScopeRecord) → from_mapping v ≡ ok r → IsValid r
unfolding from_mapping
from_mapping-IsValid v r h =
    let valid : Ensures IsValid (from_mapping v) =
      (bind-Ensures (require_exact_keys v fields "scope item") λ raw e_raw.
        (bind-Ensures (item raw "range") λ byte_range_given e_byte_range_given.
          (bind-Ensures (item raw "status") λ status_given e_status_given.
            (bind-Ensures (item raw "reason") λ reason_given e_reason_given.
              (bind-Ensures (ByteRange.from_mapping byte_range_given "scope item.range")
                λ byte_range e_byte_range. record {
                  at = λ a made.
                      init-IsValid byte_range status_given reason_given a
                        (ByteRange.from_mapping-IsValid byte_range_given "scope item.range"
                          byte_range e_byte_range)
                        made;
                }))))) in
    valid.at r h

-- A valid object is read back from its own mapping.
pub from_mapping-as_mapping : (r : ScopeRecord) → IsValid r → from_mapping (as_mapping r) ≡ ok r
unfolding from_mapping as_mapping require_exact_keys item
from_mapping-as_mapping r h = ground (
  arith,
  init-values r h,
  ByteRange.from_mapping-as_mapping r.byte_range "scope item.range" h.range_valid,
)
