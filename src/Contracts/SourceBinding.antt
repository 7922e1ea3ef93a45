-- ===== src/Contracts/SourceBinding.antt =====
-- `SourceBinding` of contracts.py: one exact version of a Capture.
use knowledge_flow.Common.{ℕ, ◌≤◌, String, ◌≡◌, Bool, true, not, ◌&&◌, List}
use knowledge_flow.Common.{[], ◌∷◌, arith, leb, ◌==◌}
use knowledge_flow.Common.Text.{Text, text_eq}
use knowledge_flow.Common.Result.{value_error, Result, ok, err, ◌>>=◌, ◌>>◌, raise_if, is_ok}
use knowledge_flow.Common.Int.{pos}
use knowledge_flow.Common.Value.{Value, num, str, dict, end, entry}
use knowledge_flow.Ids.{capture, validate_typed_id}
use knowledge_flow.Contracts.Require.{
  require_exact_keys, item, require_positive, is_sha256, require_sha256,
}

pub record SourceBinding : Type 0 where
  pub capture_id : Text
  pub capture_version : ℕ
  pub envelope_sha256 : Text
  pub payload_sha256 : Text
  pub byte_size : ℕ

abbrev max_capture_version : ℕ
max_capture_version = 999999

require_capture_id : Value → Result Text
require_capture_id (str s) = do uuid ← validate_typed_id (str s) capture; ok s
require_capture_id _ = err (value_error "typed ID must be a lowercase string")

require_capture_version : Value → Result ℕ
require_capture_version (num (pos n)) = do
  raise_if (not (leb 1 n && leb n max_capture_version))
      (value_error "capture_version must be from 1 through 999999")
  ok n
require_capture_version _ = err (value_error "capture_version must be from 1 through 999999")

unfoldable pub init : Value → Value → Value → Value → Value → Result SourceBinding
unfolding require_capture_id require_capture_version require_sha256 require_positive
init capture_id capture_version envelope_sha256 payload_sha256 byte_size = do
  id ← require_capture_id capture_id
  version ← require_capture_version capture_version
  envelope ← require_sha256 envelope_sha256 "envelope_sha256"
  payload ← require_sha256 payload_sha256 "payload_sha256"
  size ← require_positive byte_size "byte_size"
  ok (record {
    capture_id = id;
    capture_version = version;
    envelope_sha256 = envelope;
    payload_sha256 = payload;
    byte_size = size;
  })

unfoldable pub as_mapping : SourceBinding → Value
as_mapping r = dict (
    entry "capture_id" (str r.capture_id) (
      entry "capture_version" (num (pos r.capture_version)) (
        entry "envelope_sha256" (str r.envelope_sha256) (
          entry "payload_sha256" (str r.payload_sha256)
            (entry "byte_size" (num (pos r.byte_size)) end)))))

abbrev fields : List String
fields = "capture_id" ∷ "capture_version" ∷ "envelope_sha256" ∷ "payload_sha256" ∷ "byte_size" ∷ []

unfoldable pub from_mapping : Value → Result SourceBinding
unfolding init
from_mapping value = do
  raw ← require_exact_keys value fields "source"
  a ← item raw "capture_id"
  b ← item raw "capture_version"
  c ← item raw "envelope_sha256"
  d ← item raw "payload_sha256"
  e ← item raw "byte_size"
  init a b c d e

-- `==` of the dataclass
unfoldable pub eq : SourceBinding → SourceBinding → Bool
unfolding text_eq
eq a b =
    text_eq a.capture_id b.capture_id
    && a.capture_version == b.capture_version
    && text_eq a.envelope_sha256 b.envelope_sha256
    && text_eq a.payload_sha256 b.payload_sha256
    && a.byte_size == b.byte_size

pub record IsValid (r : SourceBinding) : Type 0 where
  pub capture_kind : is_ok (validate_typed_id (str r.capture_id) capture) ≡ true
  pub version_pos : 1 ≤ r.capture_version
  pub version_bound : r.capture_version ≤ max_capture_version
  pub envelope : is_sha256 r.envelope_sha256 ≡ true
  pub payload : is_sha256 r.payload_sha256 ≡ true
  pub size_pos : 1 ≤ r.byte_size

pub from_mapping-IsValid : (v : Value) (r : SourceBinding) → from_mapping v ≡ ok r → IsValid r
unfolding from_mapping
from_mapping-IsValid v r h = ground arith

pub from_mapping-as_mapping : (r : SourceBinding) → IsValid r → from_mapping (as_mapping r) ≡ ok r
unfolding from_mapping as_mapping require_exact_keys item
from_mapping-as_mapping r h = ground arith
