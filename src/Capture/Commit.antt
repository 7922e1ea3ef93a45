-- ===== src/Capture/Commit.antt =====
-- What a commit of src/knowledgeflow_capture/operations.py reads off the disk: a path is absent,
-- holds the very object that the candidate staged, or holds another one. A call of the file
-- system may raise, before or after what it does, but what it returns is true.
pub mod Append
pub mod Initial
mod Tests
use knowledge_flow.Common.{Bool, true, false, Option, none, some, if◌then◌else◌}
use knowledge_flow.Capture.Inbox.{CommitState, not_committed, unknown}

pub data Node : Type 0 where
  absent ours foreign : Node

-- `_AppendSourceEvidence`, `_AppendTargetEvidence`, `_AppendTargetAttestation` and
-- `_AppendCommitDisposition`
pub data SourceEvidence : Type 0 where
  source_original source_absent source_other source_unprovable : SourceEvidence

pub data TargetEvidence : Type 0 where
  target_absent target_present target_unprovable : TargetEvidence

pub data Attestation : Type 0 where
  not_run match attestation_invalid unprovable : Attestation

pub data Disposition : Type 0 where
  disposed_not_committed disposed_committed disposed_unknown disposed_integrity_unknown :
      Disposition

-- What a rename does besides its work: it raises before, it raises after, or neither.
pub data RenameFault : Type 0 where
  renames raises_before raises_after : RenameFault

-- A reading fails with `_StoreIoFailure`, or it tells the truth.
pub data ReadFault : Type 0 where
  reads unreadable : ReadFault

-- `_probe_append_source`: the flag says that the probe raises.
unfoldable pub probe_source : Bool → Node → SourceEvidence
probe_source true node = source_unprovable
probe_source false absent = source_absent
probe_source false ours = source_original
probe_source false foreign = source_other

-- `_probe_append_target`
unfoldable pub probe_target : Bool → Node → TargetEvidence
probe_target true node = target_unprovable
probe_target false absent = target_absent
probe_target false ours = target_present
probe_target false foreign = target_present

both_ours : Node → Node → Bool
both_ours ours ours = true
both_ours _ _ = false

-- `_attest_append_target`, which calls `_attest_append_candidate_at` for a version and an event
unfoldable pub attest_target : ReadFault → Node → Node → Attestation
unfolding both_ours
attest_target unreadable version_node event_node = unprovable
attest_target reads version_node event_node =
    if both_ours version_node event_node then match else attestation_invalid

-- `_classify_append_event_evidence`
unfoldable pub classify_append_event_evidence :
    Bool → SourceEvidence → TargetEvidence → Attestation → Disposition
classify_append_event_evidence attempted source target_present attestation_invalid =
    disposed_integrity_unknown
classify_append_event_evidence false source target_absent attestation = disposed_not_committed
classify_append_event_evidence false source _ attestation = disposed_unknown
classify_append_event_evidence true source_original target_absent attestation =
    disposed_not_committed
classify_append_event_evidence true source_absent target_present match = disposed_committed
classify_append_event_evidence true _ _ _ = disposed_unknown

pub data Stage : Type 0 where
  candidate_write version_target_conflict version_commit version_readback : Stage
  event_target_conflict event_commit final_readback item_commit : Stage

-- A `FailureResult` of a commit: `_append_atomic_failure` or `_integrity_failure`.
pub data CommitFailure : Type 0 where
  atomic_commit_failed : CommitState → Stage → CommitFailure
  integrity_failed : CommitState → CommitFailure

unfoldable pub commit_state_of : CommitFailure → CommitState
commit_state_of (atomic_commit_failed state stage) = state
commit_state_of (integrity_failed state) = state

-- `_failure_from_append_disposition`
unfoldable pub failure_from_append_disposition : Disposition → Stage → Option CommitFailure
failure_from_append_disposition disposed_committed stage = none
failure_from_append_disposition disposed_not_committed stage =
    some (atomic_commit_failed not_committed stage)
failure_from_append_disposition disposed_integrity_unknown stage = some (integrity_failed unknown)
failure_from_append_disposition disposed_unknown stage = some (atomic_commit_failed unknown stage)
