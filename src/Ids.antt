-- ===== src/Ids.antt =====
-- The UUIDv7 identifiers of src/knowledgeflow_capture/ids.py. The clock and the random bytes of
-- the operating system are arguments.
mod Hex
pub mod Laws
pub mod Tests
unfoldable pub use Hex.{uuid_text, uuid_parse, hex_text}
pub use Hex.{uuid_parse-uuid_text, no_upper-hex_text}
use knowledge_flow.Common.{ℕ, ◌+◌, ◌*◌, ◌/◌, ◌%◌, ◌^◌, String, ◌<>◌, Bool}
use knowledge_flow.Common.{not, ◌&&◌, Option, none, some, List, [], ◌∷◌, ◌++◌}
use knowledge_flow.Common.{ltb, leb, ◌==◌, if◌then◌else◌, length, any}
use knowledge_flow.Common.Text.{Text, text, text_eq, after_prefix}
use knowledge_flow.Common.Result.{Error, value_error, Result, ok, err, ◌>>=◌, ◌>>◌, raise_if}
use knowledge_flow.Common.Int.{ℤ, pos, negsuc}
use knowledge_flow.Common.Value.{Value, str}

pub data IdKind : Type 0 where
  capture event store job : IdKind

unfoldable pub prefix_name : IdKind → String
prefix_name capture = "cap_"
prefix_name event = "evt_"
prefix_name store = "store_"
prefix_name job = "job_"

unfoldable pub prefix_of : IdKind → Text
unfolding prefix_name text
prefix_of kind = text (prefix_name kind)

-- `int.from_bytes(value, "big")`
from_bytes : ℕ → List ℕ → ℕ
from_bytes acc [] = acc
from_bytes acc (b ∷ bs) = from_bytes (acc * 256 + b) bs

-- The fields stand at disjoint bits, so `|` is `+`, and `& (2 ** k - 1)` is `% 2 ^ k`.
assemble : ℕ → ℕ → ℕ
assemble unix_ts_ms material =
    let random_74 = material % 2 ^ 74 in
    let rand_a = random_74 / 2 ^ 62 in
    let rand_b = random_74 % 2 ^ 62 in
    unix_ts_ms * 2 ^ 80 + 7 * 2 ^ 76 + rand_a * 2 ^ 64 + 2 * 2 ^ 62 + rand_b

-- What the operating system gives where an argument is left out.
pub record Environment : Type 0 where
  pub time_ns : ℕ
  pub token_bytes : List ℕ

abbrev timestamp_error : Error
timestamp_error = value_error "unix_ts_ms must be an unsigned 48-bit integer"

abbrev random_error : Error
random_error = value_error "random_bytes must contain exactly 10 bytes"

timestamp : Environment → Option ℤ → Result ℕ
timestamp e none =
    let now = e.time_ns / 1000000 in if ltb now (2 ^ 48) then ok now else err timestamp_error
timestamp e (some (pos n)) = if ltb n (2 ^ 48) then ok n else err timestamp_error
timestamp e (some (negsuc n)) = err timestamp_error

random_material : Environment → Option (List ℕ) → Result ℕ
unfolding from_bytes
random_material e none = ok (from_bytes 0 e.token_bytes)
random_material e (some bytes) =
    if length bytes == 10 then ok (from_bytes 0 bytes) else err random_error

unfoldable pub generate_uuid7 : Environment → Option ℤ → Option (List ℕ) → Result ℕ
unfolding timestamp random_material assemble
generate_uuid7 e unix_ts_ms random_bytes = do
  ts ← timestamp e unix_ts_ms
  material ← random_material e random_bytes
  ok (assemble ts material)

-- `uuid.variant == RFC_4122`, and `uuid.version`, which has a value for that variant only
unfoldable pub is_uuid7 : ℕ → Bool
is_uuid7 uuid = uuid / 2 ^ 62 % 4 == 2 && uuid / 2 ^ 76 % 16 == 7

unfoldable pub extract_unix_ts_ms : ℕ → Result ℕ
unfolding is_uuid7
extract_unix_ts_ms uuid = do
  raise_if (not (is_uuid7 uuid)) (value_error "value is not an RFC UUIDv7")
  ok (uuid / 2 ^ 80 % 2 ^ 48)

unfoldable pub generate_typed_id : IdKind → Environment → Option ℤ → Option (List ℕ) → Result Text
unfolding generate_uuid7 prefix_of
generate_typed_id kind e unix_ts_ms random_bytes = do
  uuid ← generate_uuid7 e unix_ts_ms random_bytes
  ok (prefix_of kind ++ uuid_text uuid)

-- `value != value.lower()`, for the letters that a typed ID can have
unfoldable pub has_upper : Text → Bool
has_upper s = any (λ c. leb b'A' c && leb c b'Z') s

from_option : {A : Type 0} → Option A → Error → Result A
from_option none e = err e
from_option (some a) e = ok a

unfoldable pub validate_uuid : Text → Result ℕ
unfolding from_option is_uuid7
validate_uuid uuid_text_given = do
  parsed ←
      from_option (uuid_parse uuid_text_given) (value_error "typed ID contains an invalid UUID")
  raise_if (not (text_eq (uuid_text parsed) uuid_text_given))
      (value_error "typed ID UUID must use canonical hyphenated form")
  raise_if (not (is_uuid7 parsed)) (value_error "typed ID must contain an RFC UUIDv7")
  ok parsed

without_prefix : IdKind → Text → Result Text
unfolding from_option
without_prefix kind value =
    from_option (after_prefix (prefix_of kind) value)
      (value_error ("typed ID must use the " <> prefix_name kind <> " prefix"))

unfoldable pub validate_typed_id : Value → IdKind → Result ℕ
unfolding has_upper without_prefix validate_uuid prefix_of
validate_typed_id (str value) kind = do
  raise_if (has_upper value) (value_error "typed ID must be a lowercase string")
  rest ← without_prefix kind value
  validate_uuid rest
validate_typed_id _ kind = err (value_error "typed ID must be a lowercase string")
