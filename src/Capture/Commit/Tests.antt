-- ===== src/Capture/Commit/Tests.antt =====
-- Runs of the commits.
use knowledge_flow.Common.{◌≡◌, refl, true, false}
use knowledge_flow.Capture.Inbox.{unknown}
use knowledge_flow.Capture.Commit.{
  absent, ours, raises_after, reads, event_target_conflict, atomic_commit_failed,
}
use knowledge_flow.Capture.Commit.Append.{
  AppendDisk, AppendFaults, stopped, going, commit_append_candidate,
}
use knowledge_flow.Capture.Commit.Append.Laws.{Phase, Appended, commit_append_candidate-Phase}
use knowledge_flow.Capture.Commit.Append.Recovery.{calm, adopts, commit_append_candidate-recovers}
use knowledge_flow.Capture.Commit.Initial.{
  ItemDisk, ItemFaults, commit_candidate, Told, commit_candidate-Told,
}

abbrev fresh_disk : AppendDisk
fresh_disk = record {
  staged_version = absent;
  staged_event = absent;
  committed_version = absent;
  committed_event = absent;
}

-- The version is renamed, and its event is never staged for good: the probe of its target raises.
abbrev event_probe_fails : AppendFaults
event_probe_fails = record calm { event_probe_raises = true }

abbrev stopped_disk : AppendDisk
stopped_disk = record {
  staged_version = absent;
  staged_event = ours;
  committed_version = ours;
  committed_event = absent;
}

stopped_run :
    commit_append_candidate false event_probe_fails fresh_disk
    ≡ stopped stopped_disk (atomic_commit_failed unknown event_target_conflict)
unfolding commit_append_candidate
stopped_run = refl

commit_append_candidate-Phase_example :
    Phase absent absent
      (Appended absent absent)
      (commit_append_candidate false event_probe_fails fresh_disk)
commit_append_candidate-Phase_example =
    commit_append_candidate-Phase false event_probe_fails fresh_disk

commit_append_candidate-recovers_example :
    (d'' : AppendDisk) × (commit_append_candidate (adopts ours) calm stopped_disk ≡ going d'')
    × (d''.committed_event ≡ ours)
commit_append_candidate-recovers_example =
    commit_append_candidate-recovers false event_probe_fails fresh_disk stopped_disk
      (atomic_commit_failed unknown event_target_conflict) refl stopped_run refl

abbrev item_disk : ItemDisk
item_disk = record { staged_item = ours; final_item = absent }

-- The rename works and raises, and the probes tell so.
abbrev item_faults : ItemFaults
item_faults = record {
  path_raises = false;
  stat_raises = false;
  target_raises = false;
  item_rename = raises_after;
  source_probe_raises = false;
  target_probe_raises = false;
  evidence_validation = reads;
  validation = reads;
}

commit_candidate-Told_example : Told absent (commit_candidate item_faults item_disk)
commit_candidate-Told_example = commit_candidate-Told item_faults item_disk refl
