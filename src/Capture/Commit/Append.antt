-- ===== src/Capture/Commit/Append.antt =====
-- `_commit_append_candidate` of src/knowledgeflow_capture/operations.py: the version is renamed
-- into the item, and then the event, whose rename is the commit.
pub mod Laws
pub mod Recovery
use knowledge_flow.Common.{Bool, true, false, Option, none, some, if◌then◌else◌}
use knowledge_flow.Capture.Inbox.{not_committed, unknown}
use knowledge_flow.Capture.Commit.{
  Node, absent, ours, foreign, TargetEvidence, target_absent, target_present, target_unprovable,
  Attestation,
}
use knowledge_flow.Capture.Commit.{
  not_run, match, attestation_invalid, unprovable, Disposition, RenameFault, renames, raises_before,
  raises_after,
}
use knowledge_flow.Capture.Commit.{
  ReadFault, probe_source, probe_target, attest_target, classify_append_event_evidence,
  candidate_write, version_target_conflict, version_commit, version_readback,
}
use knowledge_flow.Capture.Commit.{
  event_target_conflict, event_commit, final_readback, CommitFailure, atomic_commit_failed,
  integrity_failed, failure_from_append_disposition,
}

pub record AppendDisk : Type 0 where
  pub staged_version : Node
  pub staged_event : Node
  pub committed_version : Node
  pub committed_event : Node

-- The three calls after an exception of a rename.
pub record EvidenceFaults : Type 0 where
  pub source_raises : Bool
  pub target_raises : Bool
  pub attestation : ReadFault

-- What each call of the commit does besides its work, in the order of the calls.
pub data StagingFault : Type 0 where
  stages staging_invalid staging_fails : StagingFault

pub record AppendFaults : Type 0 where
  pub staging : StagingFault
  pub staging_readback : ReadFault
  pub version_probe_raises : Bool
  pub version_rename : RenameFault
  pub version_source_raises : Bool
  pub version_evidence : EvidenceFaults
  pub version_readback_fault : ReadFault
  pub event_source_raises : Bool
  pub preflight_raises : Bool
  pub event_probe_raises : Bool
  pub event_rename : RenameFault
  pub event_evidence : EvidenceFaults
  pub final : ReadFault
  pub final_unsupported : Bool

-- The commit stops with a failure, or goes on.
pub data Attempt : Type 0 where
  stopped : AppendDisk → CommitFailure → Attempt
  going : AppendDisk → Attempt

infixl 5 ◌then◌
unfoldable pub ◌then◌ : Attempt → (AppendDisk → Attempt) → Attempt
(stopped d failure) then following = stopped d failure
(going d) then following = following d

attestation_of : TargetEvidence → ReadFault → AppendDisk → Attestation
unfolding attest_target
attestation_of target_absent fault d = not_run
attestation_of target_present fault d = attest_target fault d.committed_version d.committed_event
attestation_of target_unprovable fault d = unprovable

-- `_append_disposition_after_event_attempt`
unfoldable pub append_disposition_after_event_attempt :
    AppendDisk → EvidenceFaults → Bool → Disposition
unfolding probe_source probe_target attestation_of classify_append_event_evidence
append_disposition_after_event_attempt d faults attempted =
    let source = probe_source faults.source_raises d.staged_event in
    let target = probe_target faults.target_raises d.committed_event in
    let attestation = attestation_of target faults.attestation d in
    classify_append_event_evidence attempted source target attestation

-- What follows an exception: the failure, or the commit goes on where there is none.
stop_or_go : AppendDisk → Option CommitFailure → Attempt
stop_or_go d none = going d
stop_or_go d (some failure) = stopped d failure

-- `_attest_append_candidate_at` in the commit itself, with the failures that it becomes there.
attested : AppendDisk → Attestation → CommitFailure → CommitFailure → Attempt
attested d match invalid_as unreadable_as = going d
attested d attestation_invalid invalid_as unreadable_as = stopped d invalid_as
attested d _ invalid_as unreadable_as = stopped d unreadable_as

-- The staging of an event for a version that an earlier append left.
stage_adopted : AppendFaults → AppendDisk → Attempt
unfolding attested attest_target
stage_adopted f d =
    let conflict = atomic_commit_failed not_committed version_target_conflict in
    elim f.staging [
      | stages ↦
          let staged : AppendDisk = record d { staged_event = ours } in
          attested staged
            (attest_target f.staging_readback staged.committed_version staged.staged_event) conflict
            conflict
      | staging_invalid ↦ stopped d conflict
      | staging_fails ↦ stopped d conflict
    ]

-- The staging of a version and its event.
stage_new : AppendFaults → AppendDisk → Attempt
unfolding attested attest_target
stage_new f d = elim f.staging [
  | stages ↦
      let staged : AppendDisk = record d { staged_version = ours; staged_event = ours } in
      attested staged (attest_target f.staging_readback staged.staged_version staged.staged_event)
        (integrity_failed not_committed) (atomic_commit_failed not_committed candidate_write)
  | staging_invalid ↦ stopped d (integrity_failed not_committed)
  | staging_fails ↦ stopped d (atomic_commit_failed not_committed candidate_write)
]

check_version_target : AppendFaults → AppendDisk → Attempt
unfolding probe_target
check_version_target f d = elim (probe_target f.version_probe_raises d.committed_version) [
  | target_absent ↦ going d
  | target_present ↦ stopped d (atomic_commit_failed not_committed version_target_conflict)
  | target_unprovable ↦ stopped d (atomic_commit_failed not_committed version_target_conflict)
]

-- `_lstat_if_present` of the staged event gives a regular file.
is_regular : Bool → Node → Bool
is_regular true node = false
is_regular false absent = false
is_regular false _ = true

-- After an exception of the version's rename.
version_exception : AppendFaults → AppendDisk → Attempt
unfolding stop_or_go is_regular append_disposition_after_event_attempt
    failure_from_append_disposition
version_exception f d =
    if is_regular f.version_source_raises d.staged_event
    then stop_or_go d (
        failure_from_append_disposition
          (append_disposition_after_event_attempt d f.version_evidence false) version_commit)
    else stopped d (atomic_commit_failed unknown version_commit)

-- `commit_directory_no_replace` raises where the target exists or the source does not.
move_version : AppendDisk → AppendDisk
move_version d = record d { staged_version = absent; committed_version = d.staged_version }

rename_version : AppendFaults → AppendDisk → Attempt
unfolding version_exception move_version
rename_version f d = elim d.committed_version [
  | absent ↦ elim f.version_rename [
    | renames ↦ going (move_version d)
    | raises_before ↦ version_exception f d
    | raises_after ↦ version_exception f (move_version d)
  ]
  | ours ↦ version_exception f d
  | foreign ↦ version_exception f d
]

read_back_version : AppendFaults → AppendDisk → Attempt
unfolding attested attest_target
read_back_version f d =
    let failure = atomic_commit_failed not_committed version_readback in
    attested d (attest_target f.version_readback_fault d.committed_version d.staged_event) failure
      failure

-- Up to the version in its place and the event staged.
unfoldable pub place_version : Bool → AppendFaults → AppendDisk → Attempt
unfolding stage_adopted stage_new check_version_target rename_version read_back_version ◌then◌
place_version true f d = stage_adopted f d
place_version false f d =
    stage_new f d then check_version_target f then rename_version f then read_back_version f

check_event_source : AppendFaults → AppendDisk → Attempt
unfolding is_regular
check_event_source f d =
    if is_regular f.event_source_raises d.staged_event
    then going d
    else stopped d (atomic_commit_failed not_committed event_commit)

check_event_target : AppendFaults → AppendDisk → Attempt
unfolding probe_target
check_event_target f d =
    if f.preflight_raises
    then stopped d (atomic_commit_failed not_committed event_target_conflict)
    else elim (probe_target f.event_probe_raises d.committed_event) [
      | target_absent ↦ going d
      | target_present ↦ stopped d (atomic_commit_failed not_committed event_target_conflict)
      | target_unprovable ↦ stopped d (atomic_commit_failed unknown event_target_conflict)
    ]

event_exception : AppendFaults → AppendDisk → Attempt
unfolding stop_or_go append_disposition_after_event_attempt failure_from_append_disposition
event_exception f d = stop_or_go d (
    failure_from_append_disposition (append_disposition_after_event_attempt d f.event_evidence true)
      event_commit)

-- `commit_file_no_replace_same_volume` removes its source where the target holds the same bytes.
move_event : AppendDisk → AppendDisk
move_event d = record d { staged_event = absent; committed_event = d.staged_event }

drop_staged : AppendDisk → AppendDisk
drop_staged d = record d { staged_event = absent }

rename_event : AppendFaults → AppendDisk → Attempt
unfolding event_exception move_event drop_staged
rename_event f d = elim d.committed_event [
  | absent ↦ elim f.event_rename [
    | renames ↦ going (move_event d)
    | raises_before ↦ event_exception f d
    | raises_after ↦ event_exception f (move_event d)
  ]
  | ours ↦ elim f.event_rename [
    | renames ↦ going (drop_staged d)
    | raises_before ↦ event_exception f d
    | raises_after ↦ event_exception f (drop_staged d)
  ]
  | foreign ↦ event_exception f d
]

-- `_final_append_chain`
final_append_chain : AppendFaults → AppendDisk → Attempt
unfolding attested attest_target
final_append_chain f d =
    let failure = atomic_commit_failed unknown final_readback in
    if f.final_unsupported
    then stopped d failure
    else attested d (attest_target f.final d.committed_version d.committed_event)
        (integrity_failed unknown) failure

unfoldable pub commit_event : AppendFaults → AppendDisk → Attempt
unfolding check_event_source check_event_target rename_event final_append_chain ◌then◌
commit_event f d =
    check_event_source f d then check_event_target f then rename_event f then final_append_chain f

-- `_commit_append_candidate`: the flag is `adopting_tail`.
unfoldable pub commit_append_candidate : Bool → AppendFaults → AppendDisk → Attempt
unfolding place_version commit_event ◌then◌
commit_append_candidate adopting f d = place_version adopting f d then commit_event f
