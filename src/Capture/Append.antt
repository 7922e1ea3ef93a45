-- ===== src/Capture/Append.antt =====
-- `_append_while_locked` of src/knowledgeflow_capture/operations.py over a store of version chains,
-- with `_scan_append_store` before the commit of Commit/Append. Chains are read whole: a chain is
-- what Chain builds, with the envelope of its incomplete version where that file can be read.
pub mod Locked
mod Tests
use knowledge_flow.Common.{ℕ, ◌-◌, String, Bool, false, not, ◌&&◌, ◌||◌, Option}
use knowledge_flow.Common.{none, some, List, [], ◌∷◌, ◌++◌, leb, ◌==◌, if◌then◌else◌}
use knowledge_flow.Common.{length, drop, any}
use knowledge_flow.Common.Text.{Text, text, text_eq}
use knowledge_flow.Capture.Inbox.{CommitState}
use knowledge_flow.Capture.Commit.Append.{AppendFaults, ◌then◌}
use knowledge_flow.Capture.Chain.{
  Envelope, CommittedVersion, VersionChain, is_number, RequestIdentity,
}

pub record DiskChain : Type 0 where
  pub chain : VersionChain
  pub tail_envelope : Option Envelope

-- What the append of a request takes: its fields, and the scope and digests made of it
pub record Incoming : Type 0 where
  pub capture_id : Text
  pub expected_current_version : ℕ
  pub identity : RequestIdentity

-- `_attest_version_payloads`
pub data PayloadCheck : Type 0 where
  payload_attested payload_invalid payload_unreadable : PayloadCheck

-- What the calls around the commit do: the identifiers and the hash of a new envelope, the tests of
-- a tail on channel, actor, intent and payload, and the calls that may raise.
pub record AppendEnvironment : Type 0 where
  pub event_id : Text
  pub captured_at : Text
  pub occurred_at : Text
  pub envelope_sha256 : Text
  pub content_matches : Envelope → Bool
  pub scan_fails : Option String
  pub match_payload : PayloadCheck
  pub current_payload : PayloadCheck
  pub adoption_raises : Bool
  pub success_invalid : Bool
  pub faults : AppendFaults

-- A result, whose receipt is read from the envelope, or a failure with its public code
pub data AppendReply : Type 0 where
  append_receipt : Envelope → AppendReply
  append_failed : String → CommitState → AppendReply

-- A committed version or a tail with the same scope and key
unfoldable pub matches_key : RequestIdentity → RequestIdentity → Bool
unfolding text_eq
matches_key wanted given =
    text_eq given.scope wanted.scope && text_eq given.key_sha256 wanted.key_sha256

-- ... and with the same request, or with another
unfoldable pub hits : RequestIdentity → Option RequestIdentity → Bool
unfolding matches_key text_eq
hits wanted none = false
hits wanted (some given) =
    matches_key wanted given
    && text_eq given.request_fingerprint_sha256 wanted.request_fingerprint_sha256

unfoldable pub conflicts_with : RequestIdentity → Option RequestIdentity → Bool
unfolding matches_key text_eq
conflicts_with wanted none = false
conflicts_with wanted (some given) =
    matches_key wanted given
    && not (text_eq given.request_fingerprint_sha256 wanted.request_fingerprint_sha256)

-- The committed versions that hold the request, and whether one holds another under its key
unfoldable pub versions_matching : RequestIdentity → List CommittedVersion → List CommittedVersion
unfolding hits
versions_matching wanted [] = []
versions_matching wanted (c ∷ cs) =
    if hits wanted c.envelope.idempotency
    then c ∷ versions_matching wanted cs
    else versions_matching wanted cs

unfoldable pub committed_matching : RequestIdentity → List DiskChain → List CommittedVersion
unfolding versions_matching
committed_matching wanted [] = []
committed_matching wanted (d ∷ ds) =
    versions_matching wanted d.chain.versions ++ committed_matching wanted ds

unfoldable pub version_conflicts : RequestIdentity → List CommittedVersion → Bool
unfolding conflicts_with
version_conflicts wanted cs = any (λ c. conflicts_with wanted c.envelope.idempotency) cs

-- `_AppendTailObservation`
pub record TailObservation : Type 0 where
  pub capture_id : Text
  pub version : ℕ
  pub envelope : Option Envelope
  pub identity : Option RequestIdentity

append_suffix : Text
unfolding text
append_suffix = text ":append_capture_version"

ends_with : Text → Text → Bool
unfolding text_eq
ends_with suffix s =
    leb (length suffix) (length s) && text_eq (drop (length s - length suffix) s) suffix

unfoldable pub tail_identity : Option RequestIdentity → Option RequestIdentity
unfolding ends_with append_suffix
tail_identity none = none
tail_identity (some given) = if ends_with append_suffix given.scope then some given else none

-- `_decidable_append_tail_identity`
unfoldable pub decidable_append_tail_identity :
    (Envelope → Bool) → Envelope → Text → ℕ → Envelope → Option RequestIdentity
unfolding is_number text_eq tail_identity
decidable_append_tail_identity verify_envelope tail expected_capture_id expected_version earlier =
    if verify_envelope tail
      && verify_envelope earlier
      && leb 2 expected_version
      && leb expected_version 999999
      && text_eq tail.capture_id expected_capture_id
      && tail.version == expected_version
      && is_number tail.previous_version (expected_version - 1)
      && text_eq earlier.capture_id expected_capture_id
      && earlier.version == expected_version - 1
    then tail_identity tail.idempotency
    else none

unfoldable pub observe_tail :
    (Envelope → Bool) → DiskChain → Option CommittedVersion → ℕ → TailObservation
unfolding decidable_append_tail_identity
observe_tail verify_envelope d current n = record {
  capture_id = d.chain.capture_id;
  version = n;
  envelope = d.tail_envelope;
  identity = elim d.tail_envelope [
    | none ↦ none
    | some tail ↦ elim current [
      | none ↦ none
      | some c ↦ decidable_append_tail_identity verify_envelope tail d.chain.capture_id n c.envelope
    ]
  ];
}

-- `_CaptureVersionChain.current`
unfoldable pub current_of : List CommittedVersion → Option CommittedVersion
current_of [] = none
current_of (c ∷ []) = some c
current_of (c ∷ d ∷ ds) = current_of (d ∷ ds)

unfoldable pub tails_of : (Envelope → Bool) → List DiskChain → List TailObservation
unfolding observe_tail current_of
tails_of verify_envelope [] = []
tails_of verify_envelope (d ∷ ds) = elim d.chain.incomplete_version [
  | none ↦ tails_of verify_envelope ds
  | some n ↦
      observe_tail verify_envelope d (current_of d.chain.versions) n ∷ tails_of verify_envelope ds
]

tails_matching : RequestIdentity → List TailObservation → List TailObservation
unfolding hits
tails_matching wanted [] = []
tails_matching wanted (t ∷ ts) =
    if hits wanted t.identity then t ∷ tails_matching wanted ts else tails_matching wanted ts

-- A committed version or a tail holds another request under the same key.
unfoldable pub any_conflict : RequestIdentity → List DiskChain → List TailObservation → Bool
unfolding version_conflicts conflicts_with
any_conflict wanted chains tails =
    any (λ d. version_conflicts wanted d.chain.versions) chains
    || any (λ t. conflicts_with wanted t.identity) tails

-- `_AppendStoreScan`, or the exception
pub data ScanResult : Type 0 where
  idempotency_conflict scan_integrity : ScanResult
  scanned : Option CommittedVersion → Option TailObservation → List TailObservation → ScanResult

first_tail : List TailObservation → Option TailObservation
first_tail [] = none
first_tail (t ∷ ts) = some t

resolve_scan : List CommittedVersion → List TailObservation → List TailObservation → ScanResult
unfolding first_tail
resolve_scan [] [] tails = scanned none none tails
resolve_scan [] (t ∷ []) tails = scanned none (some t) tails
resolve_scan [] (t ∷ u ∷ ts) tails = scan_integrity
resolve_scan (c ∷ []) found tails = scanned (some c) (first_tail found) tails
resolve_scan (c ∷ d ∷ cs) found tails = scan_integrity

-- `_scan_append_store`
unfoldable pub scan_append_store : (Envelope → Bool) → List DiskChain → RequestIdentity → ScanResult
unfolding tails_of any_conflict committed_matching tails_matching resolve_scan
scan_append_store verify_envelope chains wanted =
    let tails = tails_of verify_envelope chains in
    if any_conflict wanted chains tails
    then idempotency_conflict
    else resolve_scan (committed_matching wanted chains) (tails_matching wanted tails) tails
