-- ===== src/Capture/Chain/Read.antt =====
-- `_build_capture_version_chain` of src/knowledgeflow_capture/store.py, and what is read off a chain.
use knowledge_flow.Common.{ℕ, zero, suc, ◌+◌, String, Bool, false, not, ◌&&◌}
use knowledge_flow.Common.{Option, none, some, List, [], ◌∷◌, ◌==◌, if◌then◌else◌, get_elem?}
use knowledge_flow.Common.{all}
use knowledge_flow.Common.Text.{Text, text, text_eq}
use knowledge_flow.Common.Result.{type_error, Result, ok, err, ◌>>=◌, ◌>>◌, raise_if, map_result}
use knowledge_flow.Common.Value.{Value, str}
use knowledge_flow.Ids.{capture, validate_typed_id}
use knowledge_flow.Capture.Commit.Append.{◌then◌}
use knowledge_flow.Capture.Chain.{
  Envelope, CaptureEvent, Codec, refers, CommittedVersion, VersionChain,
  parse_capture_version_directory_name, sorted, is_member,
}
use knowledge_flow.Capture.Chain.{
  distinct, find, collect_events, range, numbers_eq, chain_error, keys,
}

-- Envelopes stand under directories that there are.
unfoldable pub envelopes_in_directories : {Document : Type 0} → List (ℕ × Document) → List ℕ → Bool
unfolding is_member
envelopes_in_directories envelopes directories = all (λ n. is_member n directories) (keys envelopes)

unfoldable pub last_number : ℕ → List ℕ → ℕ
last_number n [] = n
last_number n (m ∷ ms) = last_number m ms

-- The committed numbers are 1, 2, ... without a gap.
unfoldable pub is_prefix_from_one : List ℕ → Bool
unfolding last_number range numbers_eq
is_prefix_from_one [] = false
is_prefix_from_one (n ∷ ns) = numbers_eq (n ∷ ns) (range 1 (last_number n ns))

-- The directories without an event
unfoldable pub uncommitted : List ℕ → List ℕ → List ℕ
unfolding is_member
uncommitted [] committed_numbers = []
uncommitted (n ∷ ns) committed_numbers =
    if is_member n committed_numbers
    then uncommitted ns committed_numbers
    else n ∷ uncommitted ns committed_numbers

unfoldable pub incomplete_tail : List ℕ → ℕ → Result (Option ℕ)
unfolding chain_error
incomplete_tail [] tail = ok none
incomplete_tail (n ∷ []) tail = do
  raise_if (not (n == tail)) (chain_error "uncommitted versions are not one immediate tail")
  ok (some tail)
incomplete_tail (n ∷ m ∷ ns) tail =
    err (chain_error "uncommitted versions are not one immediate tail")

abbrev pub from_present {ℓ} : {A : Type ℓ} → Option A → String → Result A
unfolding chain_error
from_present none message = err (chain_error message)
from_present (some a) message = ok a

-- One committed version: its envelope is of this capture and version, and its event refers to it.
unfoldable pub read_version :
    {Document : Type 0}
    → Codec Document
    → Text
    → List (ℕ × Document)
    → List (ℕ × CaptureEvent)
    → Option Envelope
    → ℕ
    → Result CommittedVersion
unfolding chain_error from_present find refers text_eq
read_version codec capture_id envelopes by_version before n = do
  document ← from_present (find n envelopes) "committed version has no readable Envelope"
  envelope ← from_present (codec.validate_envelope document) "committed Envelope schema is invalid"
  raise_if (not (codec.verify_envelope envelope)) (chain_error "committed Envelope hash is invalid")
  raise_if (not (text_eq envelope.capture_id capture_id && envelope.version == n))
      (chain_error "committed Envelope does not match its Item and version")
  e ← from_present (find n by_version) "version Event is missing"
  raise_if (not (refers e envelope before))
      (chain_error "version Event does not prove the committed Envelope")
  ok (record { version = n; envelope = envelope; established_by = e })

unfoldable pub read_versions :
    {Document : Type 0}
    → Codec Document
    → Text
    → List (ℕ × Document)
    → List (ℕ × CaptureEvent)
    → Option Envelope
    → List ℕ
    → Result (List CommittedVersion)
unfolding read_version
read_versions codec capture_id envelopes by_version before [] = ok []
read_versions codec capture_id envelopes by_version before (n ∷ ns) = do
  c ← read_version codec capture_id envelopes by_version before n
  cs ← read_versions codec capture_id envelopes by_version (some c.envelope) ns
  ok (c ∷ cs)

unfoldable pub starts_at_one : List ℕ → Bool
starts_at_one [] = false
starts_at_one (n ∷ ns) = n == 1

-- `_build_capture_version_chain`
unfoldable pub build_capture_version_chain :
    {Document : Type 0}
    → Codec Document
    → Text
    → List Value
    → List (ℕ × Document)
    → List Document
    → Result VersionChain
unfolding validate_typed_id parse_capture_version_directory_name sorted starts_at_one distinct
    envelopes_in_directories collect_events keys is_prefix_from_one last_number is_member
    uncommitted incomplete_tail read_versions chain_error
build_capture_version_chain codec capture_id names envelopes documents = do
  uuid ← validate_typed_id (str capture_id) capture
  parsed ← map_result parse_capture_version_directory_name names
  let directories = sorted parsed
  raise_if (not (starts_at_one directories)) (chain_error "version chain must begin at version 1")
  raise_if (not (distinct directories)) (chain_error "version directories must be unique")
  raise_if (not (envelopes_in_directories envelopes directories))
      (chain_error "Envelope version does not identify a version directory")
  by_version ← collect_events codec documents [] []
  let numbers = sorted (keys by_version)
  raise_if (not (is_prefix_from_one numbers))
      (chain_error "version Events must form a continuous prefix from version 1")
  raise_if (not (all (λ n. is_member n directories) numbers))
      (chain_error "version Event has no version directory")
  incomplete ← incomplete_tail (uncommitted directories numbers) (last_number 0 numbers + 1)
  versions ← read_versions codec capture_id envelopes by_version none numbers
  ok (record { capture_id = capture_id; versions = versions; incomplete_version = incomplete })

-- `_CaptureVersionChain.version`
unfoldable pub version_at : VersionChain → ℕ → Option CommittedVersion
version_at chain zero = none
version_at chain (suc n) = elim (get_elem? chain.versions n) [
  | none ↦ none
  | some c ↦ if c.version == suc n then some c else none
]

-- `_CaptureReadState`, with the two statuses that it always has
pub record ReadState : Type 0 where
  pub capture_id : Text
  pub current_version : ℕ
  pub current_envelope_sha256 : Text
  pub captured_at : Text
  pub updated_at : Text
  pub routing_status : Text
  pub trust_status : Text

unfoldable pub last_version : CommittedVersion → List CommittedVersion → CommittedVersion
last_version c [] = c
last_version c (d ∷ ds) = last_version d ds

unfoldable pub read_state_of : Text → List CommittedVersion → Result ReadState
unfolding last_version
read_state_of id [] = err (type_error "chain must be a non-empty _CaptureVersionChain")
read_state_of id (c ∷ cs) =
    let current = last_version c cs in
    ok (record {
      capture_id = id;
      current_version = current.version;
      current_envelope_sha256 = current.envelope.envelope_sha256;
      captured_at = c.envelope.captured_at;
      updated_at = current.established_by.occurred_at;
      routing_status = text "unassigned";
      trust_status = text "unreviewed-capture";
    })

-- `_rebuild_capture_read_state`
unfoldable pub rebuild_capture_read_state : VersionChain → Result ReadState
unfolding read_state_of
rebuild_capture_read_state chain = read_state_of chain.capture_id chain.versions
