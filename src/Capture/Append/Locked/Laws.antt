-- ===== src/Capture/Append/Locked/Laws.antt =====
-- What the result of `_append_while_locked` of src/knowledgeflow_capture/operations.py says of the
-- store, and what the same request gives again.
use mathlib.Core.Path.{subst}
use knowledge_flow.Common.{ℕ, ◌+◌, ◌≡◌, refl, sym, ◌⊎◌, inl, inr, Bool}
use knowledge_flow.Common.{true, false, some, List, [], ◌∷◌, map, arith, if◌then◌else◌}
use knowledge_flow.Common.{Bool-cases, any}
use knowledge_flow.Common.Text.{Text}
use knowledge_flow.Capture.Inbox.{not_committed, committed, unknown}
use knowledge_flow.Capture.Commit.{
  Node, absent, ours, atomic_commit_failed, integrity_failed, commit_state_of,
}
use knowledge_flow.Capture.Commit.Append.{
  AppendDisk, Attempt, stopped, going, ◌then◌, commit_append_candidate,
}
use knowledge_flow.Capture.Commit.Append.Laws.{
  Truthful, Phase, Appended, commit_append_candidate-Phase,
}
use knowledge_flow.Capture.Chain.{Envelope, CommittedVersion, RequestIdentity}
use knowledge_flow.Capture.Append.{
  DiskChain, Incoming, AppendEnvironment, AppendReply, append_receipt, append_failed,
  conflicts_with, hits, committed_matching,
}
use knowledge_flow.Capture.Append.{any_conflict, tails_of, version_conflicts}
use knowledge_flow.Capture.Append.Locked.{
  AppendCandidate, chain_on_disk, find_chain, update_chain, finish, commit_into, failed_commit,
}
use knowledge_flow.Capture.Append.Locked.Matches.{
  hits-no_conflict, extended, committed_matching-update_chain, conflicts-update_chain,
  tail_conflicts-update_chain, map-update_chain,
}

-- The chains hold the request once, in a version with this envelope, and no other under its key.
unfoldable pub Held : (Envelope → Bool) → RequestIdentity → List DiskChain → Envelope → Type 0
unfolding committed_matching any_conflict
Held verify_envelope wanted chains v =
    (c : CommittedVersion) × (c.envelope ≡ v)
    × (committed_matching wanted chains ≡ c ∷ [])
    × (any (λ d. version_conflicts wanted d.chain.versions) chains ≡ false)
    × (any_conflict wanted chains (tails_of verify_envelope chains) ≡ false)

-- The committed versions are the same.
unfoldable pub SameVersions : List DiskChain → List DiskChain → Type 0
SameVersions chains chains' =
    map (λ d. d.chain.versions) chains' ≡ map (λ d. d.chain.versions) chains

-- What a reply says.
unfoldable pub Answers :
    (Envelope → Bool) → RequestIdentity → List DiskChain → List DiskChain × AppendReply → Type 0
Answers verify_envelope wanted chains (chains', append_receipt v) =
    Held verify_envelope wanted chains' v
Answers verify_envelope wanted chains (chains', append_failed code not_committed) =
    SameVersions chains chains'
Answers verify_envelope wanted chains (chains', append_failed code unknown) =
    SameVersions chains chains' ⊎ (v : Envelope) × Held verify_envelope wanted chains' v
Answers verify_envelope wanted chains (chains', append_failed code committed) = ⊥

-- The request is not in the chains.
abbrev pub Unseen : (Envelope → Bool) → RequestIdentity → List DiskChain → Type 0
Unseen verify_envelope wanted chains =
    (committed_matching wanted chains ≡ [])
    × (any_conflict wanted chains (tails_of verify_envelope chains) ≡ false)

extended-Held :
    (verify_envelope : Envelope → Bool) (wanted : RequestIdentity) (id : Text) (d : DiskChain)
    (chains : List DiskChain) (c : CommittedVersion)
    → find_chain id chains ≡ some d
    → Unseen verify_envelope wanted chains
    → hits wanted c.envelope.idempotency ≡ true
    → Held verify_envelope wanted (update_chain id (extended c) chains) c.envelope
unfolding Held any_conflict
extended-Held verify_envelope wanted id d chains c found (none_yet, free) h =
    let other : conflicts_with wanted c.envelope.idempotency ≡ false =
      hits-no_conflict wanted c.envelope.idempotency h in
    (
      c,
      refl,
      committed_matching-update_chain wanted id c d chains found none_yet h,
      ground (arith, conflicts-update_chain wanted id c chains),
      ground (
        arith,
        conflicts-update_chain wanted id c chains,
        tail_conflicts-update_chain wanted verify_envelope id c chains,
      ),
    )

-- The version that a candidate becomes
abbrev version_of : ℕ → AppendCandidate → CommittedVersion
version_of n candidate = record {
  version = n;
  envelope = candidate.envelope;
  established_by = candidate.established_by;
}

chain_on_disk-Held :
    (verify_envelope : Envelope → Bool) (wanted : RequestIdentity) (id : Text) (d : DiskChain)
    (chains : List DiskChain) (n : ℕ) (candidate : AppendCandidate) (disk : AppendDisk)
    → find_chain id chains ≡ some d
    → Unseen verify_envelope wanted chains
    → hits wanted candidate.envelope.idempotency ≡ true
    → disk.committed_event ≡ ours
    → Held verify_envelope wanted
        (update_chain id (chain_on_disk n candidate disk) chains)
        candidate.envelope
unfolding chain_on_disk extended
chain_on_disk-Held verify_envelope wanted id d chains n candidate disk found unseen h e =
    subst
      (λ node.
        Held verify_envelope wanted
          (update_chain id (chain_on_disk n candidate (record disk { committed_event = node }))
            chains)
          candidate.envelope)
      (sym e)
      (extended-Held verify_envelope wanted id d chains (version_of n candidate) found unseen h)

chain_on_disk-versions :
    (n : ℕ) (candidate : AppendCandidate) (disk : AppendDisk) (d : DiskChain)
    → disk.committed_event ≡ absent
    → (chain_on_disk n candidate disk d).chain.versions ≡ d.chain.versions
unfolding chain_on_disk
chain_on_disk-versions n candidate disk d e = ground arith

chain_on_disk-SameVersions :
    (id : Text) (chains : List DiskChain) (n : ℕ) (candidate : AppendCandidate) (disk : AppendDisk)
    → disk.committed_event ≡ absent
    → SameVersions chains (update_chain id (chain_on_disk n candidate disk) chains)
unfolding SameVersions
chain_on_disk-SameVersions id chains n candidate disk e =
    map-update_chain id (chain_on_disk n candidate disk) chains
      (λ d. chain_on_disk-versions n candidate disk d e)

-- A commit of an unknown result left no event, or the candidate's.
either_way :
    (verify_envelope : Envelope → Bool) (wanted : RequestIdentity) (id : Text) (d : DiskChain)
    (chains : List DiskChain) (n : ℕ) (candidate : AppendCandidate) (disk : AppendDisk)
    → find_chain id chains ≡ some d
    → Unseen verify_envelope wanted chains
    → hits wanted candidate.envelope.idempotency ≡ true
    → Truthful absent disk.committed_event unknown
    → SameVersions chains (update_chain id (chain_on_disk n candidate disk) chains)
      ⊎ (v : Envelope) × Held verify_envelope wanted
          (update_chain id (chain_on_disk n candidate disk) chains)
          v
unfolding Truthful
either_way verify_envelope wanted id d chains n candidate disk found unseen h t = elim t [
  | inl e ↦ inl (chain_on_disk-SameVersions id chains n candidate disk e)
  | inr (free, e) ↦ inr (
    candidate.envelope,
    chain_on_disk-Held verify_envelope wanted id d chains n candidate disk found unseen h e,
  )
]

finish-Answers :
    (verify_envelope : Envelope → Bool) (env : AppendEnvironment) (request : Incoming)
    (chains : List DiskChain) (candidate : AppendCandidate) (d : DiskChain) (v : Node) (a : Attempt)
    → find_chain request.capture_id chains ≡ some d
    → Unseen verify_envelope request.identity chains
    → hits request.identity candidate.envelope.idempotency ≡ true
    → Phase v absent (Appended v absent) a
    → Answers verify_envelope request.identity chains (finish env request chains candidate a)
unfolding Answers finish failed_commit Phase Truthful Appended commit_state_of
finish-Answers verify_envelope env request chains candidate d v (going disk) found unseen h
      (e, placed, kept, free) =
    let n = request.expected_current_version + 1 in
    let held =
      chain_on_disk-Held verify_envelope request.identity request.capture_id d chains n candidate
        disk found unseen h e in
    elim (Bool-cases env.success_invalid) [
      | inl failed ↦ rw (failed) (inr (candidate.envelope, held))
      | inr valid ↦ rw (valid) held
    ]
finish-Answers verify_envelope env request chains candidate d v
      (stopped disk (atomic_commit_failed not_committed stage)) found unseen h (e, rest) =
    chain_on_disk-SameVersions request.capture_id chains _ candidate disk e
finish-Answers verify_envelope env request chains candidate d v
      (stopped disk (integrity_failed not_committed)) found unseen h (e, rest) =
    chain_on_disk-SameVersions request.capture_id chains _ candidate disk e
finish-Answers verify_envelope env request chains candidate d v
      (stopped disk (atomic_commit_failed unknown stage)) found unseen h (e, rest) =
    either_way verify_envelope request.identity request.capture_id d chains _ candidate disk found
      unseen h e
finish-Answers verify_envelope env request chains candidate d v
      (stopped disk (integrity_failed unknown)) found unseen h (e, rest) =
    either_way verify_envelope request.identity request.capture_id d chains _ candidate disk found
      unseen h e
finish-Answers verify_envelope env request chains candidate d v
      (stopped disk (atomic_commit_failed committed stage)) found unseen h (e, rest) =
    e
finish-Answers verify_envelope env request chains candidate d v
      (stopped disk (integrity_failed committed)) found unseen h (e, rest) =
    e

pub commit_into-Answers :
    (verify_envelope : Envelope → Bool) (env : AppendEnvironment) (request : Incoming)
    (chains : List DiskChain) (candidate : AppendCandidate) (d : DiskChain) (adopting : Bool)
    → find_chain request.capture_id chains ≡ some d
    → Unseen verify_envelope request.identity chains
    → hits request.identity candidate.envelope.idempotency ≡ true
    → Answers verify_envelope request.identity chains
        (commit_into env request chains adopting candidate)
unfolding commit_into
commit_into-Answers verify_envelope env request chains candidate d adopting found unseen h =
    let disk : AppendDisk = record {
      staged_version = absent;
      staged_event = absent;
      committed_version = if adopting then ours else absent;
      committed_event = absent;
    } in
    finish-Answers verify_envelope env request chains candidate d disk.committed_version
      (commit_append_candidate adopting env.faults disk) found unseen h
      (commit_append_candidate-Phase adopting env.faults disk)
