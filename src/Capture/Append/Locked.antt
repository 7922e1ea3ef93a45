-- ===== src/Capture/Append/Locked.antt =====
-- `_append_while_locked` of src/knowledgeflow_capture/operations.py after its scan. The receipt of a
-- success is read from the envelope of the committed version. Results that only differ in their
-- warnings are one.
pub mod Matches
pub mod Laws
pub mod Answers
use knowledge_flow.Common.{ℕ, ◌+◌, String, Bool, true, false, not, ◌&&◌, Option}
use knowledge_flow.Common.{none, some, List, [], ◌∷◌, ◌++◌, ◌==◌, if◌then◌else◌}
use knowledge_flow.Common.Text.{Text, text, text_eq}
use knowledge_flow.Capture.Inbox.{CommitState, not_committed, unknown}
use knowledge_flow.Capture.Commit.{
  absent, ours, CommitFailure, atomic_commit_failed, integrity_failed,
}
use knowledge_flow.Capture.Commit.Append.{
  AppendDisk, Attempt, stopped, going, ◌then◌, commit_append_candidate,
}
use knowledge_flow.Capture.Chain.{
  Actor, Envelope, CaptureEvent, CommittedVersion, is_number, RequestIdentity,
}
use knowledge_flow.Capture.Append.{
  DiskChain, Incoming, payload_attested, payload_invalid, payload_unreadable, AppendEnvironment,
  AppendReply, append_receipt, append_failed,
}
use knowledge_flow.Capture.Append.{
  hits, TailObservation, scan_append_store, ScanResult, idempotency_conflict, scan_integrity,
  scanned, current_of,
}

-- `_AppendCandidate`
pub record AppendCandidate : Type 0 where
  pub envelope : Envelope
  pub established_by : CaptureEvent

-- `_ACTOR`
abbrev pub local_actor : Actor
local_actor = record { actor_type = text "user"; actor_id = text "local-user" }

-- `_build_append_candidate`, in the fields that a chain reads. Its tests on the envelope before hold
-- for the last version of a built chain and are left out.
unfoldable pub build_append_candidate : AppendEnvironment → Incoming → Envelope → AppendCandidate
build_append_candidate env request earlier =
    let number = request.expected_current_version + 1 in
    record {
      envelope = record {
        capture_id = request.capture_id;
        version = number;
        previous_version = some request.expected_current_version;
        event_id = env.event_id;
        captured_at = env.captured_at;
        actor = local_actor;
        idempotency = some request.identity;
        envelope_sha256 = env.envelope_sha256;
      };
      established_by = record {
        event_id = env.event_id;
        capture_id = request.capture_id;
        version = number;
        envelope_sha256 = env.envelope_sha256;
        occurred_at = env.occurred_at;
        actor = local_actor;
        appended = some (record {
          previous_version = request.expected_current_version;
          previous_envelope_sha256 = earlier.envelope_sha256;
        });
      };
    }

-- The tests of a tail's envelope against the request
tail_is_request :
    (Envelope → Bool) → AppendEnvironment → Incoming → Envelope → Option RequestIdentity → Bool
unfolding text_eq is_number hits
tail_is_request verify_envelope env request tail identity =
    verify_envelope tail
    && text_eq tail.capture_id request.capture_id
    && tail.version == request.expected_current_version + 1
    && is_number tail.previous_version request.expected_current_version
    && hits request.identity identity
    && env.content_matches tail

-- `_adopt_append_tail_candidate`
adopt_append_tail_candidate :
    (Envelope → Bool)
    → AppendEnvironment
    → Incoming
    → TailObservation
    → Envelope
    → Option AppendCandidate
unfolding tail_is_request
adopt_append_tail_candidate verify_envelope env request observation earlier =
    elim observation.envelope [
      | none ↦ none
      | some tail ↦
          if tail_is_request verify_envelope env request tail observation.identity
          then some (record {
            envelope = tail;
            established_by = record {
              event_id = tail.event_id;
              capture_id = request.capture_id;
              version = request.expected_current_version + 1;
              envelope_sha256 = tail.envelope_sha256;
              occurred_at = env.occurred_at;
              actor = local_actor;
              appended = some (record {
                previous_version = request.expected_current_version;
                previous_envelope_sha256 = earlier.envelope_sha256;
              });
            };
          })
          else none
    ]

-- What the disk of a commit makes of a chain.
unfoldable pub chain_on_disk : ℕ → AppendCandidate → AppendDisk → DiskChain → DiskChain
chain_on_disk n candidate disk d = elim disk.committed_event [
  | ours ↦ record {
    chain = record {
      capture_id = d.chain.capture_id;
      versions =
          d.chain.versions
          ++ (record {
            version = n;
            envelope = candidate.envelope;
            established_by = candidate.established_by;
          }
              ∷ []);
      incomplete_version = none;
    };
    tail_envelope = none;
  }
  | _ ↦ elim disk.committed_version [
    | ours ↦ record {
      chain = record {
        capture_id = d.chain.capture_id;
        versions = d.chain.versions;
        incomplete_version = some n;
      };
      tail_envelope = some candidate.envelope;
    }
    | _ ↦ d
  ]
]

-- The first chain of the capture
unfoldable pub find_chain : Text → List DiskChain → Option DiskChain
unfolding text_eq
find_chain id [] = none
find_chain id (d ∷ ds) = if text_eq d.chain.capture_id id then some d else find_chain id ds

unfoldable pub update_chain : Text → (DiskChain → DiskChain) → List DiskChain → List DiskChain
unfolding text_eq
update_chain id change [] = []
update_chain id change (d ∷ ds) =
    let rest = update_chain id change ds in
    if text_eq d.chain.capture_id id then change d ∷ ds else d ∷ rest

unfoldable pub find_tail : Text → List TailObservation → Option TailObservation
unfolding text_eq
find_tail id [] = none
find_tail id (t ∷ ts) = if text_eq t.capture_id id then some t else find_tail id ts

is_tail_of : Text → Option TailObservation → Bool
unfolding text_eq
is_tail_of id none = false
is_tail_of id (some t) = text_eq t.capture_id id

failed_commit : CommitFailure → AppendReply
failed_commit (atomic_commit_failed state stage) = append_failed "atomic_commit_failed" state
failed_commit (integrity_failed state) = append_failed "integrity_check_failed" state

-- `_commit_append_candidate` on the chain of the capture, and the result
finish :
    AppendEnvironment
    → Incoming
    → List DiskChain
    → AppendCandidate
    → Attempt
    → List DiskChain × AppendReply
unfolding chain_on_disk update_chain failed_commit
finish env request chains candidate (stopped disk failure) = (
  update_chain request.capture_id
      (chain_on_disk (request.expected_current_version + 1) candidate disk) chains,
  failed_commit failure,
)
finish env request chains candidate (going disk) = (
  update_chain request.capture_id
      (chain_on_disk (request.expected_current_version + 1) candidate disk) chains,
  if env.success_invalid
      then append_failed "integrity_check_failed" unknown
      else append_receipt candidate.envelope,
)

unfoldable pub commit_into :
    AppendEnvironment
    → Incoming
    → List DiskChain
    → Bool
    → AppendCandidate
    → List DiskChain × AppendReply
unfolding finish commit_append_candidate
commit_into env request chains adopting candidate = finish env request chains candidate (
    commit_append_candidate adopting env.faults (record {
      staged_version = absent;
      staged_event = absent;
      committed_version = if adopting then ours else absent;
      committed_event = absent;
    }))

abbrev refused : List DiskChain → String → CommitState → List DiskChain × AppendReply
refused chains code state = (chains, append_failed code state)

adopt_or_refuse :
    AppendEnvironment
    → Incoming
    → List DiskChain
    → Option AppendCandidate
    → List DiskChain × AppendReply
unfolding commit_into
adopt_or_refuse env request chains none = refused chains "atomic_commit_failed" not_committed
adopt_or_refuse env request chains (some candidate) = commit_into env request chains true candidate

-- With the target's tail, if it has one
with_tail :
    (Envelope → Bool)
    → AppendEnvironment
    → Incoming
    → List DiskChain
    → Envelope
    → Option TailObservation
    → Option TailObservation
    → List DiskChain × AppendReply
unfolding adopt_append_tail_candidate adopt_or_refuse commit_into build_append_candidate is_tail_of
with_tail verify_envelope env request chains current tail_match (some tail) =
    if not (is_tail_of request.capture_id tail_match)
    then refused chains "atomic_commit_failed" not_committed
    else if env.adoption_raises
    then refused chains "capture_store_unavailable" not_committed
    else adopt_or_refuse env request chains
        (adopt_append_tail_candidate verify_envelope env request tail current)
with_tail verify_envelope env request chains current (some other) none =
    refused chains "integrity_check_failed" not_committed
with_tail verify_envelope env request chains current none none =
    commit_into env request chains false (build_append_candidate env request current)

with_current :
    (Envelope → Bool)
    → AppendEnvironment
    → Incoming
    → List DiskChain
    → Option CommittedVersion
    → Option TailObservation
    → List TailObservation
    → List DiskChain × AppendReply
unfolding with_tail find_tail
with_current verify_envelope env request chains none tail_match tails =
    refused chains "integrity_check_failed" not_committed
with_current verify_envelope env request chains (some current) tail_match tails =
    elim env.current_payload [
      | payload_invalid ↦ refused chains "integrity_check_failed" not_committed
      | payload_unreadable ↦ refused chains "capture_store_unavailable" not_committed
      | payload_attested ↦
          if not (current.version == request.expected_current_version)
          then refused chains "version_conflict" not_committed
          else with_tail verify_envelope env request chains current.envelope tail_match
              (find_tail request.capture_id tails)
    ]

with_target :
    (Envelope → Bool)
    → AppendEnvironment
    → Incoming
    → List DiskChain
    → Option DiskChain
    → Option TailObservation
    → List TailObservation
    → List DiskChain × AppendReply
unfolding with_current current_of
with_target verify_envelope env request chains none tail_match tails =
    refused chains "capture_not_found" not_committed
with_target verify_envelope env request chains (some d) tail_match tails =
    with_current verify_envelope env request chains (current_of d.chain.versions) tail_match tails

-- `_success_from_append_match`
replayed : AppendEnvironment → List DiskChain → CommittedVersion → List DiskChain × AppendReply
replayed env chains c = elim env.match_payload [
  | payload_attested ↦ (chains, append_receipt c.envelope)
  | payload_invalid ↦ refused chains "integrity_check_failed" unknown
  | payload_unreadable ↦ refused chains "atomic_commit_failed" unknown
]

with_scan :
    (Envelope → Bool)
    → AppendEnvironment
    → Incoming
    → List DiskChain
    → ScanResult
    → List DiskChain × AppendReply
unfolding replayed with_target find_chain
with_scan verify_envelope env request chains idempotency_conflict =
    refused chains "idempotency_conflict" not_committed
with_scan verify_envelope env request chains scan_integrity =
    refused chains "integrity_check_failed" not_committed
with_scan verify_envelope env request chains (scanned (some c) tail_match tails) =
    replayed env chains c
with_scan verify_envelope env request chains (scanned none tail_match tails) =
    with_target verify_envelope env request chains (find_chain request.capture_id chains) tail_match
      tails

-- `_append_while_locked`
unfoldable pub append_while_locked :
    (Envelope → Bool) → AppendEnvironment → Incoming → List DiskChain → List DiskChain × AppendReply
unfolding with_scan scan_append_store
append_while_locked verify_envelope env request chains = elim env.scan_fails [
  | some code ↦ refused chains code not_committed
  | none ↦
      with_scan verify_envelope env request chains
        (scan_append_store verify_envelope chains request.identity)
]
