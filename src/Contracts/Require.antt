-- ===== src/Contracts/Require.antt =====
-- The checks that every contract shares: the `_require_…` helpers of contracts.py, and
-- `require_sha256` and `require_canonical_utc_milliseconds` of knowledgeflow_capture/models.py.
-- A check takes a dynamic value and gives the checked value back.
use knowledge_flow.Common.{ℕ, ◌*◌, String, ◌<>◌, ◌≡◌, Bool, true, false, not}
use knowledge_flow.Common.{◌&&◌, ◌||◌, Option, none, some, List, [], ◌∷◌, arith}
use knowledge_flow.Common.{ltb, leb, ◌==◌, if◌then◌else◌, length, all, any, same_key}
use knowledge_flow.Common.Text.{
  Text, text, text_eq, is_one_of, strip, utf8_size, can_encode, has_char, is_digit, is_lower,
}
use knowledge_flow.Common.Text.{is_hex, after_prefix}
use knowledge_flow.Common.Result.{
  Error, value_error, type_error, key_error, encode_error, Result, ok, err, ◌>>=◌, ◌>>◌,
}
use knowledge_flow.Common.Result.{raise_if}
use knowledge_flow.Common.Int.{pos}
use knowledge_flow.Common.Value.{Value, null, bool, num, str, seq, dict, Entries, end}
use knowledge_flow.Common.Value.{entry, to_list}
use knowledge_flow.Ids.{is_uuid7, uuid_text, uuid_parse}

abbrev pub max_text_bytes : ℕ
max_text_bytes = 16 * 1024

abbrev pub max_short_text_bytes : ℕ
max_short_text_bytes = 512

abbrev pub max_collection_items : ℕ
max_collection_items = 100000

keys : Entries → List String
keys end = []
keys (entry k v fs) = k ∷ keys fs

contains : List String → String → Bool
contains ks k = any (λ j. same_key j k) ks

-- `set(value) == expected`
same_keys : List String → List String → Bool
unfolding contains
same_keys ks expected = all (contains expected) ks && all (contains ks) expected

unfoldable pub require_exact_keys : Value → List String → String → Result Entries
unfolding keys same_keys
require_exact_keys (dict fs) expected field_name = do
  raise_if (not (same_keys (keys fs) expected))
      (value_error (field_name <> " must contain the exact v1 fields"))
  ok fs
require_exact_keys _ expected field_name =
    err (value_error (field_name <> " must be a string-keyed mapping"))

-- `raw[key]`
unfoldable pub item : Entries → String → Result Value
item end key = err (key_error key)
item (entry k v fs) key = if same_key k key then ok v else item fs key

-- A string that `_require_string` accepts, at a limit of bytes.
unfoldable pub is_plain_text : ℕ → Text → Bool
is_plain_text maximum_bytes s =
    not (length s == 0)
    && text_eq s (strip s)
    && not (has_char 0 s || has_char b'\r' s)
    && can_encode s
    && leb (utf8_size s) maximum_bytes

-- `_require_string` with `nullable=False`, which is how this package calls it.
unfoldable pub require_string : Value → String → ℕ → Result Text
require_string (str s) field_name maximum_bytes = do
  raise_if (length s == 0 || not (text_eq s (strip s)))
      (value_error (field_name <> " must be a non-empty trimmed string"))
  raise_if (has_char 0 s || has_char b'\r' s)
      (value_error (field_name <> " contains unsupported control characters"))
  raise_if (not (can_encode s)) encode_error
  raise_if (not (leb (utf8_size s) maximum_bytes))
      (value_error (field_name <> " exceeds its UTF-8 byte limit"))
  ok s
require_string _ field_name maximum_bytes =
    err (value_error (field_name <> " must be a non-empty trimmed string"))

abbrev is_token_start : ℕ → Bool
is_token_start c = is_lower c || is_digit c

-- `[a-z0-9][a-z0-9._-]{0,127}\Z`
unfoldable pub is_safe_token : Text → Bool
unfolding is_lower is_digit
is_safe_token [] = false
is_safe_token (c ∷ s) =
    is_token_start c
    && all (λ d. is_token_start d || d == b'.' || d == b'_' || d == b'-') s
    && leb (length s) 127

-- `[a-z0-9][a-z0-9-]{0,127}\Z`
unfoldable pub is_markdown_anchor : Text → Bool
unfolding is_lower is_digit
is_markdown_anchor [] = false
is_markdown_anchor (c ∷ s) =
    is_token_start c && all (λ d. is_token_start d || d == b'-') s && leb (length s) 127

-- `(?:[0-9a-f]{40}|[0-9a-f]{64})\Z`
unfoldable pub is_git_object_id : Text → Bool
unfolding is_hex
is_git_object_id s = (length s == 40 || length s == 64) && all is_hex s

unfoldable pub require_token : Value → String → Result Text
require_token (str s) field_name = do
  raise_if (not (is_safe_token s)) (value_error (field_name <> " must be a safe lowercase token"))
  ok s
require_token _ field_name = err (value_error (field_name <> " must be a safe lowercase token"))

unfoldable pub require_single_line_string : Value → String → ℕ → Result Text
unfolding require_string
require_single_line_string value field_name maximum_bytes = do
  checked ← require_string value field_name maximum_bytes
  raise_if (has_char b'\n' checked) (value_error (field_name <> " must be a single line"))
  ok checked

unfoldable pub require_git_object_id : Value → String → Result Text
require_git_object_id (str s) field_name = do
  raise_if (not (is_git_object_id s))
      (value_error (field_name <> " must be a lowercase Git object ID"))
  ok s
require_git_object_id _ field_name =
    err (value_error (field_name <> " must be a lowercase Git object ID"))

unfoldable pub require_nonnegative : Value → String → Result ℕ
require_nonnegative (num (pos n)) field_name = ok n
require_nonnegative _ field_name =
    err (value_error (field_name <> " must be a non-negative integer"))

unfoldable pub require_positive : Value → String → Result ℕ
require_positive (num (pos n)) field_name = do
  raise_if (ltb n 1) (value_error (field_name <> " must be a positive integer"))
  ok n
require_positive _ field_name = err (value_error (field_name <> " must be a positive integer"))

unfoldable pub require_version_one : Value → String → Result (Unit {0})
require_version_one (num (pos n)) field_name =
    raise_if (not (n == 1)) (value_error (field_name <> " must be integer 1"))
require_version_one _ field_name = err (value_error (field_name <> " must be integer 1"))

-- The tests of `_require_uuid7_id`. A text with the prefix and a canonical UUID is in lower case.
is_canonical_uuid7 : Text → Option ℕ → Bool
is_canonical_uuid7 s none = false
is_canonical_uuid7 s (some parsed) = text_eq (uuid_text parsed) s && is_uuid7 parsed

has_uuid7_after : Option Text → Bool
unfolding is_canonical_uuid7
has_uuid7_after none = false
has_uuid7_after (some rest) = is_canonical_uuid7 rest (uuid_parse rest)

unfoldable pub is_uuid7_id : String → Text → Bool
unfolding has_uuid7_after
is_uuid7_id prefix s = has_uuid7_after (after_prefix (text prefix) s)

unfoldable pub require_uuid7_id : Value → String → String → Result Text
require_uuid7_id (str s) prefix field_name = do
  raise_if (not (is_uuid7_id prefix s))
      (value_error (field_name <> " must use the " <> prefix <> " UUIDv7 form"))
  ok s
require_uuid7_id _ prefix field_name =
    err (value_error (field_name <> " must use the " <> prefix <> " UUIDv7 form"))

unfoldable pub require_sequence : Value → String → Bool → Result (List Value)
unfolding to_list
require_sequence (seq vs) field_name allow_empty = do
  let items = to_list vs
  raise_if (not allow_empty && length items == 0) (value_error (field_name <> " must not be empty"))
  raise_if (ltb max_collection_items (length items))
      (value_error (field_name <> " contains too many items"))
  ok items
require_sequence _ field_name allow_empty = err (value_error (field_name <> " must be a sequence"))

-- `sha256:[0-9a-f]{64}\Z`
unfoldable pub is_sha256 : Text → Bool
unfolding is_hex after_prefix text
is_sha256 s = elim (after_prefix (text "sha256:") s) [
  | none ↦ false
  | some digits ↦ length digits == 64 && all is_hex digits
]

unfoldable pub require_sha256 : Value → String → Result Text
require_sha256 (str s) field_name = do
  raise_if (not (is_sha256 s))
      (value_error (field_name <> " must be sha256:<64 lowercase hex digits>"))
  ok s
require_sha256 _ field_name =
    err (value_error (field_name <> " must be sha256:<64 lowercase hex digits>"))

-- `if value is not None: …`
abbrev pub require_optional : {A : Type 0} → (Value → Result A) → Value → Result (Option A)
require_optional f null = ok none
require_optional f v = f v >>= λ a. ok (some a)

-- `if value not in {…}: raise`. A list and a mapping cannot be hashed.
unfoldable pub require_one_of : Value → List Text → Error → Result Text
require_one_of (str s) allowed e = do raise_if (not (is_one_of s allowed)) e; ok s
require_one_of (seq vs) allowed e = err (type_error "unhashable type: 'list'")
require_one_of (dict fs) allowed e = err (type_error "unhashable type: 'dict'")
require_one_of _ allowed e = err e

-- `if value != constant: raise`
unfoldable pub require_text : Value → Text → Error → Result Text
require_text (str s) expected e = do raise_if (not (text_eq s expected)) e; ok s
require_text _ expected e = err e

unfoldable pub require_bool : Value → Error → Result Bool
require_bool (bool b) e = ok b
require_bool _ e = err e

pub require_token-str :
    (s : Text) (field_name : String)
    → is_safe_token s ≡ true
    → require_token (str s) field_name ≡ ok s
unfolding require_token
require_token-str s field_name h = rw h

pub require_token-eq-ok :
    (field_name : String) (v : Value) (s : Text)
    → require_token v field_name ≡ ok s
    → is_safe_token s ≡ true
unfolding require_token
require_token-eq-ok field_name v s h = ground arith

pub require_uuid7_id-str :
    (s : Text) (prefix field_name : String)
    → is_uuid7_id prefix s ≡ true
    → require_uuid7_id (str s) prefix field_name ≡ ok s
unfolding require_uuid7_id
require_uuid7_id-str s prefix field_name h = rw h

pub require_uuid7_id-eq-ok :
    (prefix field_name : String) (v : Value) (s : Text)
    → require_uuid7_id v prefix field_name ≡ ok s
    → is_uuid7_id prefix s ≡ true
unfolding require_uuid7_id
require_uuid7_id-eq-ok prefix field_name v s h = ground arith

-- A string on one line, as `_require_single_line_string` accepts it.
unfoldable pub is_single_line : ℕ → Text → Bool
unfolding is_plain_text
is_single_line maximum_bytes s = is_plain_text maximum_bytes s && not (has_char b'\n' s)

pub require_string-str :
    (s : Text) (field_name : String) (maximum_bytes : ℕ)
    → is_plain_text maximum_bytes s ≡ true
    → require_string (str s) field_name maximum_bytes ≡ ok s
unfolding require_string is_plain_text
require_string-str s field_name maximum_bytes h = ground arith

pub require_string-eq-ok :
    (field_name : String) (maximum_bytes : ℕ) (v : Value) (s : Text)
    → require_string v field_name maximum_bytes ≡ ok s
    → is_plain_text maximum_bytes s ≡ true
unfolding require_string is_plain_text
require_string-eq-ok field_name maximum_bytes v s h = ground arith

pub require_single_line_string-str :
    (s : Text) (field_name : String) (maximum_bytes : ℕ)
    → is_single_line maximum_bytes s ≡ true
    → require_single_line_string (str s) field_name maximum_bytes ≡ ok s
unfolding require_single_line_string is_single_line
require_single_line_string-str s field_name maximum_bytes h = ground arith

pub require_single_line_string-eq-ok :
    (field_name : String) (maximum_bytes : ℕ) (v : Value) (s : Text)
    → require_single_line_string v field_name maximum_bytes ≡ ok s
    → is_single_line maximum_bytes s ≡ true
unfolding require_single_line_string is_single_line
require_single_line_string-eq-ok field_name maximum_bytes v s h = ground arith
