-- ===== src/Capture/Requests.antt =====
-- The write requests of src/knowledgeflow_capture/models.py and their checks. The text of a
-- request is a `str` here; the inbox never passes a stream.
use knowledge_flow.Ids
pub mod Laws
use knowledge_flow.Common.{ℕ, String, ◌<>◌, Bool, true, false, not, ◌&&◌, ◌||◌}
use knowledge_flow.Common.{Option, none, some, List, [], ◌∷◌, ◌++◌, ltb, leb}
use knowledge_flow.Common.{◌==◌, length, all}
use knowledge_flow.Common.Text.{
  Text, text, text_eq, is_one_of, utf8_size, can_encode, is_digit, is_lower, after_prefix,
}
use knowledge_flow.Common.Result.{
  value_error, type_error, encode_error, Result, ok, err, ◌>>=◌, ◌>>◌, raise_if,
}
use knowledge_flow.Common.Int.{pos}
use knowledge_flow.Common.Value.{Value, null, num, str}
use knowledge_flow.Ids.{is_uuid7, uuid_text, uuid_parse, has_upper}
use knowledge_flow.Contracts.Require.{require_optional}
use knowledge_flow.Contracts.Timestamp.{require_canonical_utc_milliseconds}

abbrev max_external_ref_bytes : ℕ
max_external_ref_bytes = 2048

abbrev max_idempotency_key_bytes : ℕ
max_idempotency_key_bytes = 512

abbrev pub max_capture_version : ℕ
max_capture_version = 999999

is_channel_char : ℕ → Bool
unfolding is_lower is_digit
is_channel_char c = is_lower c || is_digit c || c == b'.' || c == b'_' || c == b'-'

-- `[a-z0-9._-]{1,64}\Z`
unfoldable pub is_channel_token : Text → Bool
unfolding is_channel_char
is_channel_token s = leb 1 (length s) && leb (length s) 64 && all is_channel_char s

require_channel_token : Value → String → Result Text
require_channel_token (str s) field_name = do
  raise_if (not (is_channel_token s))
      (value_error (field_name <> " must be a 1-64 character lowercase ASCII token"))
  ok s
require_channel_token _ field_name =
    err (value_error (field_name <> " must be a 1-64 character lowercase ASCII token"))

-- `_require_string` with `nullable=True`
require_nullable_string : Value → String → Result (Option Text)
require_nullable_string null field_name = ok none
require_nullable_string (str s) field_name = do
  raise_if (length s == 0) (value_error (field_name <> " must be a non-empty string or null"))
  ok (some s)
require_nullable_string _ field_name =
    err (value_error (field_name <> " must be a non-empty string or null"))

within_bytes : ℕ → Option Text → Bool
unfolding utf8_size
within_bytes maximum none = true
within_bytes maximum (some s) = leb (utf8_size s) maximum

encodes : Option Text → Bool
encodes none = true
encodes (some s) = can_encode s

-- `_require_optional_bounded_utf8`
require_optional_bounded_utf8 : Value → String → ℕ → Result (Option Text)
unfolding require_nullable_string within_bytes encodes
require_optional_bounded_utf8 value field_name maximum_bytes = do
  normalized ← require_nullable_string value field_name
  raise_if (not (encodes normalized)) encode_error
  raise_if (not (within_bytes maximum_bytes normalized))
      (value_error (field_name <> " exceeds its UTF-8 byte limit"))
  ok normalized

pub record ChannelMetadata : Type 0 where
  pub channel_type : Text
  pub instance_id : Text
  pub external_ref : Option Text
  pub source_created_at : Option Text

unfoldable pub make_channel : Value → Value → Value → Value → Result ChannelMetadata
unfolding require_channel_token require_optional_bounded_utf8
make_channel channel_type instance_id external_ref source_created_at = do
  kind ← require_channel_token channel_type "channel.type"
  instance_ ← require_channel_token instance_id "channel.instance_id"
  ref ← require_optional_bounded_utf8 external_ref "channel.external_ref" max_external_ref_bytes
  created ←
      require_optional (λ v. require_canonical_utc_milliseconds v "channel.source_created_at")
        source_created_at
  ok (record {
    channel_type = kind;
    instance_id = instance_;
    external_ref = ref;
    source_created_at = created;
  })

abbrev processing_modes : List Text
processing_modes = text "capture-only" ∷ text "raw-source" ∷ text "deep-curation" ∷ []

pub record UserIntent : Type 0 where
  pub target_kb_id : Option Text
  pub processing_mode : Option Text
  pub requested_new_kb_name : Option Text

unknown_mode : Option Text → Bool
unfolding is_one_of
unknown_mode none = false
unknown_mode (some mode) = not (is_one_of mode processing_modes)

unfoldable pub make_intent : Value → Value → Value → Result UserIntent
unfolding require_nullable_string unknown_mode
make_intent target_kb_id processing_mode requested_new_kb_name = do
  target ← require_nullable_string target_kb_id "target_kb_id"
  mode ← require_nullable_string processing_mode "processing_mode"
  name ← require_nullable_string requested_new_kb_name "requested_new_kb_name"
  raise_if (unknown_mode mode) (value_error "processing_mode is not a supported v1 value")
  ok (record { target_kb_id = target; processing_mode = mode; requested_new_kb_name = name })

-- `require_idempotency_key`
require_idempotency_key : Value → Result Text
unfolding utf8_size
require_idempotency_key (str s) = do
  raise_if (length s == 0) (value_error "idempotency_key must be a non-empty string")
  raise_if (not (can_encode s)) encode_error
  raise_if (ltb max_idempotency_key_bytes (utf8_size s))
      (value_error "idempotency_key exceeds its UTF-8 byte limit")
  ok s
require_idempotency_key _ = err (type_error "idempotency_key must be a string")

begins_with_mark : Text → Bool
begins_with_mark [] = false
begins_with_mark (c ∷ s) = c == 0xfeff

require_body : Text → Result (Unit {0})
unfolding begins_with_mark
require_body s = do
  raise_if (length s == 0) (value_error "text must not be empty")
  raise_if (begins_with_mark s) (value_error "text must not begin with a byte order mark")

-- `_require_append_expected_version`
require_expected_version : Value → Result ℕ
require_expected_version (num (pos n)) = do
  raise_if (not (leb 1 n && ltb n max_capture_version))
      (value_error "expected_current_version must be an integer from 1 through 999998")
  ok n
require_expected_version _ =
    err (value_error "expected_current_version must be an integer from 1 through 999998")

require_capture_uuid : Option Text → Result (Unit {0})
unfolding Ids.uuid_parse Ids.uuid_text Ids.is_uuid7 text_eq
require_capture_uuid none = err (value_error "capture_id must use the cap_ UUIDv7 form")
require_capture_uuid (some rest) = elim (Ids.uuid_parse rest) [
  | none ↦ err (value_error "capture_id must use the cap_ UUIDv7 form")
  | some parsed ↦
      raise_if (not (text_eq (Ids.uuid_text parsed) rest) || not (Ids.is_uuid7 parsed))
        (value_error "capture_id must use the cap_ UUIDv7 form")
]

-- `_require_capture_id`. `value != value.lower()` is read over the letters of ASCII.
require_capture_id : Value → Result Text
unfolding require_capture_uuid Ids.has_upper after_prefix
require_capture_id (str s) = do
  raise_if (Ids.has_upper s) (value_error "capture_id must use the cap_ UUIDv7 form")
  require_capture_uuid (after_prefix (text "cap_") s)
  ok s
require_capture_id _ = err (value_error "capture_id must use the cap_ UUIDv7 form")

pub data Operation : Type 0 where
  capture_text append_capture_version : Operation

unfoldable pub operation_name : Operation → Text
operation_name capture_text = text "capture_text"
operation_name append_capture_version = text "append_capture_version"

pub record CaptureTextRequest : Type 0 where
  pub body : Text
  pub channel : ChannelMetadata
  pub idempotency_key : Option Text
  pub user_intent : UserIntent

unfoldable pub make_capture_request :
    Text → ChannelMetadata → Value → UserIntent → Result CaptureTextRequest
unfolding require_body require_idempotency_key
make_capture_request body channel idempotency_key user_intent = do
  require_body body
  key ← require_optional require_idempotency_key idempotency_key
  ok (record { body = body; channel = channel; idempotency_key = key; user_intent = user_intent })

pub record AppendRequest : Type 0 where
  pub capture_id : Text
  pub expected_current_version : ℕ
  pub body : Text
  pub channel : ChannelMetadata
  pub idempotency_key : Text
  pub user_intent : UserIntent

unfoldable pub make_append_request :
    Value → Value → Text → ChannelMetadata → Value → UserIntent → Result AppendRequest
unfolding require_capture_id require_expected_version require_body require_idempotency_key
make_append_request capture_id expected_current_version body channel idempotency_key user_intent =
    do
      id ← require_capture_id capture_id
      expected ← require_expected_version expected_current_version
      require_body body
      key ← require_idempotency_key idempotency_key
      ok (record {
        capture_id = id;
        expected_current_version = expected;
        body = body;
        channel = channel;
        idempotency_key = key;
        user_intent = user_intent;
      })

-- `canonical_idempotency_scope`
unfoldable pub canonical_idempotency_scope : ChannelMetadata → Operation → Text
unfolding operation_name
canonical_idempotency_scope channel operation =
    channel.channel_type ++ (b':' ∷ channel.instance_id ++ (b':' ∷ operation_name operation))
