-- ===== src/Capture/Commit/Initial.antt =====
-- `_commit_candidate` of src/knowledgeflow_capture/operations.py: the rename of a whole item is the
-- commit of a new capture.
use knowledge_flow.Common.{◌≡◌, Bool, ◌||◌, arith, if◌then◌else◌}
use knowledge_flow.Capture.Inbox.{not_committed, unknown}
use knowledge_flow.Capture.Commit.{
  Node, absent, ours, foreign, SourceEvidence, source_original, source_absent, source_unprovable,
  TargetEvidence,
}
use knowledge_flow.Capture.Commit.{
  target_absent, target_present, target_unprovable, RenameFault, renames, raises_before,
  raises_after, ReadFault, reads,
}
use knowledge_flow.Capture.Commit.{
  unreadable, probe_source, probe_target, item_commit, CommitFailure, atomic_commit_failed,
  integrity_failed, commit_state_of,
}
use knowledge_flow.Capture.Commit.Append.{◌then◌}
use knowledge_flow.Capture.Commit.Append.Laws.{Truthful}

pub record ItemDisk : Type 0 where
  pub staged_item : Node
  pub final_item : Node

pub record ItemFaults : Type 0 where
  pub path_raises : Bool
  pub stat_raises : Bool
  pub target_raises : Bool
  pub item_rename : RenameFault
  pub source_probe_raises : Bool
  pub target_probe_raises : Bool
  pub evidence_validation : ReadFault
  pub validation : ReadFault

-- `_StoreIoFailure` leaves the function, a `FailureResult` or the stored item is returned.
pub data ItemResult : Type 0 where
  store_io_failure : ItemResult
  item_failed : CommitFailure → ItemResult
  item_stored : ItemResult

-- `_validate_candidate_at`, with the failures that its exceptions become
validated : ReadFault → Node → ItemResult
validated unreadable node = item_failed (atomic_commit_failed unknown item_commit)
validated reads ours = item_stored
validated reads absent = item_failed (integrity_failed unknown)
validated reads foreign = item_failed (integrity_failed unknown)

-- `_classify_commit_exception` after its two probes
classify_probed : ReadFault → SourceEvidence → TargetEvidence → Node → ItemResult
unfolding validated
classify_probed fault source_unprovable target final =
    item_failed (atomic_commit_failed unknown item_commit)
classify_probed fault source target_unprovable final =
    item_failed (atomic_commit_failed unknown item_commit)
classify_probed fault source_original target final =
    item_failed (atomic_commit_failed not_committed item_commit)
classify_probed fault source_absent target_present final = validated fault final
classify_probed fault source target final = item_failed (atomic_commit_failed unknown item_commit)

unfoldable pub classify_commit_exception : ItemFaults → ItemDisk → ItemResult
unfolding classify_probed probe_source probe_target
classify_commit_exception f d =
    classify_probed f.evidence_validation (probe_source f.source_probe_raises d.staged_item)
      (probe_target f.target_probe_raises d.final_item) d.final_item

move_item : ItemDisk → ItemDisk
move_item d = record { staged_item = absent; final_item = d.staged_item }

rename_item : ItemFaults → ItemDisk → RenameFault → ItemDisk × ItemResult
unfolding classify_commit_exception move_item validated
rename_item f d renames = (move_item d, validated f.validation d.staged_item)
rename_item f d raises_before = (d, classify_commit_exception f d)
rename_item f d raises_after = (move_item d, classify_commit_exception f (move_item d))

commit_to : ItemFaults → ItemDisk → TargetEvidence → ItemDisk × ItemResult
unfolding rename_item
commit_to f d target_unprovable = (d, item_failed (atomic_commit_failed unknown item_commit))
commit_to f d target_present = (d, item_failed (atomic_commit_failed not_committed item_commit))
commit_to f d target_absent = rename_item f d f.item_rename

-- `_commit_candidate`, for a staged item
unfoldable pub commit_candidate : ItemFaults → ItemDisk → ItemDisk × ItemResult
unfolding commit_to probe_target
commit_candidate f d =
    if f.path_raises || f.stat_raises
    then (d, store_io_failure)
    else commit_to f d (probe_target f.target_raises d.final_item)

-- What the result says of the item: an exception and `not_committed` leave it, success makes it.
unfoldable pub Told : Node → ItemDisk × ItemResult → Type 0
unfolding Truthful commit_state_of
Told before (d, store_io_failure) = d.final_item ≡ before
Told before (d, item_failed failure) = Truthful before d.final_item (commit_state_of failure)
Told before (d, item_stored) = (before ≡ absent) × (d.final_item ≡ ours)

-- Whatever faults the calls have, `_commit_candidate` of a staged item raises and leaves the final
-- path as it was; or fails with a commit state that is true of the final path, as for an append;
-- or succeeds, and then the path was free and holds the item.
pub commit_candidate-Told :
    (f : ItemFaults) (d : ItemDisk)
    → d.staged_item ≡ ours
    → Told d.final_item (commit_candidate f d)
unfolding Told commit_candidate commit_to rename_item classify_commit_exception classify_probed
    validated move_item probe_source probe_target Truthful commit_state_of
commit_candidate-Told f d h = ground arith
