-- ===== src/Capture/Commit/Append/Recovery.antt =====
use mathlib.Core.Path.{subst}
-- A second append after a failed one, in src/knowledgeflow_capture/operations.py: where the first
-- left its version in its place, the second adopts it.
use knowledge_flow.Common.{◌≡◌, refl, sym, ap, ◌∙◌, inl, inr, Bool, true}
use knowledge_flow.Common.{false}
use knowledge_flow.Capture.Commit.{
  Node, absent, ours, renames, reads, probe_target, attest_target, both_ours, CommitFailure,
}
use knowledge_flow.Capture.Commit.Append.{
  AppendDisk, EvidenceFaults, stages, AppendFaults, stopped, going, ◌then◌, place_version,
  commit_event,
}
use knowledge_flow.Capture.Commit.Append.{
  commit_append_candidate, stage_adopted, stage_new, check_version_target, rename_version,
  read_back_version, check_event_source, check_event_target, rename_event,
}
use knowledge_flow.Capture.Commit.Append.{
  final_append_chain, attested, is_regular, move_version, move_event,
}
use knowledge_flow.Capture.Commit.Append.Laws.{
  Extends, Phase, Appended, commit_append_candidate-Phase,
}

abbrev calm_evidence : EvidenceFaults
calm_evidence = record { source_raises = false; target_raises = false; attestation = reads }

-- No call does anything but its work.
abbrev pub calm : AppendFaults
calm = record {
  staging = stages;
  staging_readback = reads;
  version_probe_raises = false;
  version_rename = renames;
  version_source_raises = false;
  version_evidence = calm_evidence;
  version_readback_fault = reads;
  event_source_raises = false;
  preflight_raises = false;
  event_probe_raises = false;
  event_rename = renames;
  event_evidence = calm_evidence;
  final = reads;
  final_unsupported = false;
}

-- The next append adopts a version that is there.
unfoldable pub adopts : Node → Bool
adopts ours = true
adopts _ = false

calm-new :
    (d : AppendDisk)
    → d.committed_version ≡ absent
    → d.committed_event ≡ absent
    → (d' : AppendDisk) × (commit_append_candidate false calm d ≡ going d')
      × (d'.committed_event ≡ ours)
unfolding commit_append_candidate place_version commit_event stage_new check_version_target
    rename_version read_back_version check_event_source check_event_target rename_event
    final_append_chain attested attest_target both_ours probe_target is_regular move_version
    move_event ◌then◌
calm-new d hv he =
    let done : AppendDisk = record {
      staged_version = absent;
      staged_event = absent;
      committed_version = ours;
      committed_event = ours;
    } in
    (
      done,
      subst
          (λ e. commit_append_candidate false calm (record d { committed_event = e }) ≡ going done)
          (sym he)
          (subst
            (λ v.
              commit_append_candidate false calm
                (record d { committed_version = v; committed_event = absent })
              ≡ going done)
            (sym hv) refl),
      refl,
    )

calm-adopted :
    (d : AppendDisk)
    → d.committed_version ≡ ours
    → d.committed_event ≡ absent
    → (d' : AppendDisk) × (commit_append_candidate true calm d ≡ going d')
      × (d'.committed_event ≡ ours)
unfolding commit_append_candidate place_version commit_event stage_adopted check_event_source
    check_event_target rename_event final_append_chain attested attest_target both_ours probe_target
    is_regular move_event ◌then◌
calm-adopted d hv he =
    let done : AppendDisk = record d {
      staged_event = absent;
      committed_version = ours;
      committed_event = ours;
    } in
    (
      done,
      subst (λ e. commit_append_candidate true calm (record d { committed_event = e }) ≡ going done)
          (sym he)
          (subst
            (λ v.
              commit_append_candidate true calm
                (record d { committed_version = v; committed_event = absent })
              ≡ going done)
            (sym hv) refl),
      refl,
    )

-- An append over an absent version that stopped with a failure and left no event is followed by
-- one that commits, when it adopts the version exactly if it is there and no call of it has a
-- fault.
pub commit_append_candidate-recovers :
    (adopting : Bool) (f : AppendFaults) (d d' : AppendDisk) (failure : CommitFailure)
    → d.committed_version ≡ absent
    → commit_append_candidate adopting f d ≡ stopped d' failure
    → d'.committed_event ≡ absent
    → (d'' : AppendDisk) × (commit_append_candidate (adopts d'.committed_version) calm d'
        ≡ going d'')
      × (d''.committed_event ≡ ours)
unfolding adopts Phase Extends
commit_append_candidate-recovers adopting f d d' failure hv stop he =
    let (truthful, extends) =
      subst
        (Phase d.committed_version d.committed_event
          (Appended d.committed_version d.committed_event))
        stop (commit_append_candidate-Phase adopting f d) in
    let Recovers : Bool → Type 0 = λ b.
      (d'' : AppendDisk) × (commit_append_candidate b calm d' ≡ going d'')
      × (d''.committed_event ≡ ours) in
    elim extends [
      | inl same ↦ subst Recovers (sym (ap adopts (same ∙ hv))) (calm-new d' (same ∙ hv) he)
      | inr (free, placed) ↦ subst Recovers (sym (ap adopts placed)) (calm-adopted d' placed he)
    ]
