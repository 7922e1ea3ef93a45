-- ===== src/Capture/Chain.antt =====
-- The version chains of src/knowledgeflow_capture/store.py, from documents that codec.py has read.
-- A version is committed by its event; the directory of one further version may be there without.
pub mod Read
pub mod Laws
mod Tests
pub mod Built
use knowledge_flow.Common.{ℕ, zero, suc, ◌+◌, String, Bool, true, false, not}
use knowledge_flow.Common.{◌&&◌, ◌||◌, Option, none, some, List, [], ◌∷◌, ◌++◌}
use knowledge_flow.Common.{leb, ◌==◌, if◌then◌else◌, any, is_some}
use knowledge_flow.Common.Text.{Text, text_eq, is_one_of}
use knowledge_flow.Common.Result.{Error, value_error, Result, ok, err, ◌>>=◌, ◌>>◌, raise_if}
use knowledge_flow.Common.Value.{Value, str}
use knowledge_flow.Contracts.Timestamp.{digits}
use knowledge_flow.Capture.Commit.Append.{◌then◌}

pub record Actor : Type 0 where
  pub actor_type : Text
  pub actor_id : Text

-- The `idempotency` of an envelope, `_AppendRequestIdentity` of operations.py
pub record RequestIdentity : Type 0 where
  pub scope : Text
  pub key_sha256 : Text
  pub request_fingerprint_sha256 : Text

-- An envelope after `validate_envelope`, in the fields that a chain reads
pub record Envelope : Type 0 where
  pub capture_id : Text
  pub version : ℕ
  pub previous_version : Option ℕ
  pub event_id : Text
  pub captured_at : Text
  pub actor : Actor
  pub idempotency : Option RequestIdentity
  pub envelope_sha256 : Text

-- What a `capture.version-appended` event has and a `capture.created` event has not.
pub record EventLink : Type 0 where
  pub previous_version : ℕ
  pub previous_envelope_sha256 : Text

-- An event after `validate_document`, in the fields that a chain reads
pub record CaptureEvent : Type 0 where
  pub event_id : Text
  pub capture_id : Text
  pub version : ℕ
  pub envelope_sha256 : Text
  pub occurred_at : Text
  pub actor : Actor
  pub appended : Option EventLink

-- What the chain takes from codec.py: the fields of documents that have the schema's form, and
-- whether an envelope has its own hash.
pub record Codec (Document : Type 0) : Type 0 where
  pub event_fields : Document → Option CaptureEvent
  pub validate_envelope : Document → Option Envelope
  pub verify_envelope : Envelope → Bool

-- `_validate_version_appended_event`, and the bounds of the version fields in both event schemas
unfoldable pub has_version_fields : CaptureEvent → Bool
has_version_fields e = elim e.appended [
  | none ↦ e.version == 1
  | some link ↦
      leb 2 e.version
      && leb 1 link.previous_version
      && leb e.version 999999
      && link.previous_version + 1 == e.version
]

chain_error : String → Error
chain_error message = value_error message

-- `validate_document(raw_event, CAPTURE_EVENT_SCHEMA_V1)`
read_event : {Document : Type 0} → Codec Document → Document → Result CaptureEvent
unfolding has_version_fields chain_error
read_event codec document = elim (codec.event_fields document) [
  | none ↦ err (chain_error "version Event schema is invalid")
  | some e ↦
      if has_version_fields e then ok e else err (chain_error "version Event schema is invalid")
]

actor_eq : Actor → Actor → Bool
unfolding text_eq
actor_eq a b = text_eq a.actor_type b.actor_type && text_eq a.actor_id b.actor_id

unfoldable pub is_number : Option ℕ → ℕ → Bool
is_number none n = false
is_number (some m) n = m == n

same_fields : CaptureEvent → Envelope → Bool
unfolding text_eq actor_eq
same_fields e v =
    text_eq e.event_id v.event_id
    && text_eq e.capture_id v.capture_id
    && e.version == v.version
    && text_eq e.envelope_sha256 v.envelope_sha256
    && actor_eq e.actor v.actor

created_refers : Envelope → Bool
created_refers v = v.version == 1 && not (is_some v.previous_version)

appended_refers : EventLink → Envelope → Envelope → Bool
unfolding text_eq is_number
appended_refers link v earlier =
    link.previous_version == earlier.version
    && text_eq link.previous_envelope_sha256 earlier.envelope_sha256
    && text_eq earlier.capture_id v.capture_id
    && is_number v.previous_version earlier.version

-- `_validate_capture_event_references`
unfoldable pub refers : CaptureEvent → Envelope → Option Envelope → Bool
unfolding same_fields created_refers appended_refers
refers e v before = same_fields e v && elim e.appended [
  | none ↦ created_refers v
  | some link ↦ elim before [ none ↦ false | some earlier ↦ appended_refers link v earlier ]
]

-- `_CommittedCaptureVersion`
pub record CommittedVersion : Type 0 where
  pub version : ℕ
  pub envelope : Envelope
  pub established_by : CaptureEvent

-- `_CaptureVersionChain`
pub record VersionChain : Type 0 where
  pub capture_id : Text
  pub versions : List CommittedVersion
  pub incomplete_version : Option ℕ

-- `_parse_capture_version_directory_name`
unfoldable pub parse_capture_version_directory_name : Value → Result ℕ
unfolding digits chain_error
parse_capture_version_directory_name (str name) = elim (digits 6 0 name) [
  | some (version, []) ↦ do
    raise_if (not (leb 1 version && leb version 999999))
        (chain_error "version directory is outside the v1 range")
    ok version
  | _ ↦ err (chain_error "version directory must use six ASCII decimal digits")
]
parse_capture_version_directory_name _ =
    err (chain_error "version directory must use six ASCII decimal digits")

insert_sorted : ℕ → List ℕ → List ℕ
insert_sorted n [] = n ∷ []
insert_sorted n (m ∷ ms) = if leb n m then n ∷ m ∷ ms else m ∷ insert_sorted n ms

-- `sorted`
unfoldable pub sorted : List ℕ → List ℕ
unfolding insert_sorted
sorted [] = []
sorted (n ∷ ns) = insert_sorted n (sorted ns)

unfoldable pub is_member : ℕ → List ℕ → Bool
is_member n ms = any (λ m. m == n) ms

unfoldable pub distinct : List ℕ → Bool
unfolding is_member
distinct [] = true
distinct (n ∷ ns) = not (is_member n ns) && distinct ns

-- `mapping.get(key)`
unfoldable pub find {ℓ} : {A : Type ℓ} → ℕ → List (ℕ × A) → Option A
find n [] = none
find n ((m, a) ∷ rest) = if m == n then some a else find n rest

unfoldable pub keys {ℓ} : {A : Type ℓ} → List (ℕ × A) → List ℕ
keys [] = []
keys ((m, a) ∷ rest) = m ∷ keys rest

-- The event documents by version: no version and no event identifier stands twice.
unfoldable pub collect_events :
    {Document : Type 0}
    → Codec Document
    → List Document
    → List (ℕ × CaptureEvent)
    → List Text
    → Result (List (ℕ × CaptureEvent))
unfolding read_event is_member keys is_one_of chain_error
collect_events codec [] found ids = ok found
collect_events codec (document ∷ rest) found ids = do
  e ← read_event codec document
  raise_if (is_member e.version (keys found) || is_one_of e.event_id ids)
      (chain_error "version Event is duplicated")
  collect_events codec rest (found ++ ((e.version, e) ∷ [])) (ids ++ (e.event_id ∷ []))

-- `range(low, low + count)`
unfoldable pub range : ℕ → ℕ → List ℕ
range low zero = []
range low (suc count) = low ∷ range (low + 1) count

unfoldable pub numbers_eq : List ℕ → List ℕ → Bool
numbers_eq [] [] = true
numbers_eq (n ∷ ns) (m ∷ ms) = n == m && numbers_eq ns ms
numbers_eq _ _ = false
