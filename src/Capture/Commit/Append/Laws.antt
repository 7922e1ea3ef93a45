-- ===== src/Capture/Commit/Append/Laws.antt =====
-- What `_commit_append_candidate` of src/knowledgeflow_capture/operations.py says of its result,
-- whatever the file system does.
use knowledge_flow.Common.{◌≡◌, refl, ◌⊎◌, Bool, true, false, arith}
use knowledge_flow.Capture.Inbox.{CommitState, not_committed, committed, unknown}
use knowledge_flow.Capture.Commit.{
  Node, absent, ours, probe_source, probe_target, attest_target, both_ours,
  classify_append_event_evidence, commit_state_of,
}
use knowledge_flow.Capture.Commit.{failure_from_append_disposition}
use knowledge_flow.Capture.Commit.Append.{
  AppendDisk, AppendFaults, Attempt, stopped, going, ◌then◌, append_disposition_after_event_attempt,
  place_version, commit_event,
}
use knowledge_flow.Capture.Commit.Append.{
  commit_append_candidate, stage_adopted, stage_new, check_version_target, rename_version,
  read_back_version, check_event_source, check_event_target, rename_event,
}
use knowledge_flow.Capture.Commit.Append.{
  final_append_chain, attestation_of, stop_or_go, attested, is_regular, version_exception,
  event_exception, move_version, move_event,
}
use knowledge_flow.Capture.Commit.Append.{drop_staged}

-- What a failure with this commit state says of the node that is the commit.
unfoldable pub Truthful : Node → Node → CommitState → Type 0
Truthful before after not_committed = after ≡ before
Truthful before after unknown = (after ≡ before) ⊎ (before ≡ absent) × (after ≡ ours)
Truthful before after committed = ⊥

-- A node is replaced by the candidate's, where it was absent, or stays.
unfoldable pub Extends : Node → Node → Type 0
Extends before after = (after ≡ before) ⊎ (before ≡ absent) × (after ≡ ours)

-- Where the attempt goes on, `P`; where it stops, its failure is truthful of the event, and the
-- version was not replaced. The two nodes are the version and the event before the attempt.
unfoldable pub Phase : Node → Node → (AppendDisk → Type 0) → Attempt → Type 0
unfolding Truthful Extends commit_state_of
Phase v e P (going d) = P d
Phase v e P (stopped d failure) =
    Truthful e d.committed_event (commit_state_of failure) × Extends v d.committed_version

then-Phase :
    (v e : Node) (P Q : AppendDisk → Type 0) (a : Attempt) (rest : AppendDisk → Attempt)
    → Phase v e P a
    → ((d : AppendDisk) → P d → Phase v e Q (rest d))
    → Phase v e Q (a then rest)
unfolding Phase ◌then◌
then-Phase v e P Q (going d) rest h k = k d h
then-Phase v e P Q (stopped d failure) rest h k = h

abbrev Staged : Node → Node → AppendDisk → Type 0
Staged v e d =
    (d.committed_event ≡ e)
    × (d.staged_event ≡ ours)
    × (d.staged_version ≡ ours)
    × (d.committed_version ≡ v)

abbrev Free : Node → Node → AppendDisk → Type 0
Free v e d =
    (d.committed_event ≡ e)
    × (d.staged_event ≡ ours)
    × (d.staged_version ≡ ours)
    × (d.committed_version ≡ absent)
    × (v ≡ absent)

abbrev Placed : Node → Node → AppendDisk → Type 0
Placed v e d =
    (d.committed_event ≡ e)
    × (d.staged_event ≡ ours)
    × (d.committed_version ≡ ours)
    × ((ours ≡ v) ⊎ (v ≡ absent))

abbrev Ready : Node → Node → AppendDisk → Type 0
Ready v e d =
    (d.committed_event ≡ e)
    × (d.staged_event ≡ ours)
    × (d.committed_version ≡ ours)
    × ((ours ≡ v) ⊎ (v ≡ absent))
    × (e ≡ absent)

-- The append is committed: there was no event, and the version was absent or the candidate's.
unfoldable pub Appended : Node → Node → AppendDisk → Type 0
Appended v e d =
    (d.committed_event ≡ ours)
    × (d.committed_version ≡ ours)
    × ((ours ≡ v) ⊎ (v ≡ absent))
    × (e ≡ absent)

stage_new-Phase :
    (v e : Node) (f : AppendFaults) (d : AppendDisk)
    → d.committed_version ≡ v
    → d.committed_event ≡ e
    → Phase v e (Staged v e) (stage_new f d)
unfolding Phase stage_new attested attest_target both_ours Truthful Extends commit_state_of
stage_new-Phase v e f d hv he = ground arith

stage_adopted-Phase :
    (v e : Node) (f : AppendFaults) (d : AppendDisk)
    → d.committed_version ≡ v
    → d.committed_event ≡ e
    → Phase v e (Placed v e) (stage_adopted f d)
unfolding Phase stage_adopted attested attest_target both_ours Truthful Extends commit_state_of
stage_adopted-Phase v e f d hv he = ground arith

check_version_target-Phase :
    (v e : Node) (f : AppendFaults) (d : AppendDisk)
    → Staged v e d
    → Phase v e (Free v e) (check_version_target f d)
unfolding Phase check_version_target probe_target Truthful Extends commit_state_of
check_version_target-Phase v e f d (h1, h2, h3, h4) = ground arith

-- An exception of the version's rename always stops the attempt.
version_exception-Phase :
    (v e : Node) (P : AppendDisk → Type 0) (f : AppendFaults) (d : AppendDisk)
    → d.committed_event ≡ e
    → Extends v d.committed_version
    → Phase v e P (version_exception f d)
unfolding Phase version_exception stop_or_go is_regular append_disposition_after_event_attempt
    attestation_of attest_target both_ours probe_source probe_target classify_append_event_evidence
    failure_from_append_disposition Truthful Extends commit_state_of
version_exception-Phase v e P f d he hv = ground arith

-- After the version's rename.
abbrev Renamed : Node → Node → AppendDisk → Type 0
Renamed v e d =
    (d.committed_event ≡ e) × (d.staged_event ≡ ours) × (d.committed_version ≡ ours) × (v ≡ absent)

rename_version-Phase :
    (v e : Node) (f : AppendFaults) (d : AppendDisk)
    → Free v e d
    → Phase v e (Renamed v e) (rename_version f d)
unfolding Phase rename_version move_version Extends
rename_version-Phase v e f d (h1, h2, h3, h4, h5) =
    let stops = version_exception-Phase v e (Renamed v e) f in ground (arith, stops)

read_back_version-Phase :
    (v e : Node) (f : AppendFaults) (d : AppendDisk)
    → Renamed v e d
    → Phase v e (Placed v e) (read_back_version f d)
unfolding Phase read_back_version attested attest_target both_ours Truthful Extends commit_state_of
read_back_version-Phase v e f d (h1, h2, h3, h4) = ground arith

check_event_source-Phase :
    (v e : Node) (f : AppendFaults) (d : AppendDisk)
    → Placed v e d
    → Phase v e (Placed v e) (check_event_source f d)
unfolding Phase check_event_source is_regular Truthful Extends commit_state_of
check_event_source-Phase v e f d (h1, h2, h3, h4) = ground arith

check_event_target-Phase :
    (v e : Node) (f : AppendFaults) (d : AppendDisk)
    → Placed v e d
    → Phase v e (Ready v e) (check_event_target f d)
unfolding Phase check_event_target probe_target Truthful Extends commit_state_of
check_event_target-Phase v e f d (h1, h2, h3, h4) = ground arith

rename_event-Phase :
    (v e : Node) (f : AppendFaults) (d : AppendDisk)
    → Ready v e d
    → Phase v e (Appended v e) (rename_event f d)
unfolding Phase Appended rename_event event_exception move_event drop_staged stop_or_go
    append_disposition_after_event_attempt attestation_of attest_target both_ours probe_source
    probe_target classify_append_event_evidence failure_from_append_disposition Truthful Extends
    commit_state_of
rename_event-Phase v e f d (h1, h2, h3, h4, h5) = ground arith

final_append_chain-Phase :
    (v e : Node) (f : AppendFaults) (d : AppendDisk)
    → Appended v e d
    → Phase v e (Appended v e) (final_append_chain f d)
unfolding Phase Appended final_append_chain attested attest_target both_ours Truthful Extends
    commit_state_of
final_append_chain-Phase v e f d (h1, h2, h3, h4) = ground arith

place_version-Phase :
    (adopting : Bool) (f : AppendFaults) (d : AppendDisk)
    → Phase d.committed_version d.committed_event
        (Placed d.committed_version d.committed_event)
        (place_version adopting f d)
unfolding place_version
place_version-Phase true f d =
    stage_adopted-Phase d.committed_version d.committed_event f d refl refl
place_version-Phase false f d =
    let v = d.committed_version in
    let e = d.committed_event in
    then-Phase v e (Renamed v e) (Placed v e) _ (read_back_version f)
      (then-Phase v e (Free v e) (Renamed v e) _ (rename_version f)
        (then-Phase v e (Staged v e) (Free v e) _ (check_version_target f)
          (stage_new-Phase v e f d refl refl) (check_version_target-Phase v e f))
        (rename_version-Phase v e f))
      (read_back_version-Phase v e f)

commit_event-Phase :
    (v e : Node) (f : AppendFaults) (d : AppendDisk)
    → Placed v e d
    → Phase v e (Appended v e) (commit_event f d)
unfolding commit_event
commit_event-Phase v e f d h =
    then-Phase v e (Appended v e) (Appended v e) _ (final_append_chain f)
      (then-Phase v e (Ready v e) (Appended v e) _ (rename_event f)
        (then-Phase v e (Placed v e) (Ready v e) _ (check_event_target f)
          (check_event_source-Phase v e f d h) (check_event_target-Phase v e f))
        (rename_event-Phase v e f))
      (final_append_chain-Phase v e f)

-- Whatever faults the calls have, `_commit_append_candidate` either succeeds, and then there was
-- no event before, the event and the version are the candidate's, and the version was absent or
-- already the candidate's; or it fails, and then a failure that says `not-committed` has left the
-- event as it was, one that says `unknown` has left it or has put the candidate's event where none
-- was, no failure says `committed`, and the version stays or the candidate's stands where none
-- was.
pub commit_append_candidate-Phase :
    (adopting : Bool) (f : AppendFaults) (d : AppendDisk)
    → Phase d.committed_version d.committed_event
        (Appended d.committed_version d.committed_event)
        (commit_append_candidate adopting f d)
unfolding commit_append_candidate
commit_append_candidate-Phase adopting f d =
    let v = d.committed_version in
    let e = d.committed_event in
    then-Phase v e (Placed v e) (Appended v e) _ (commit_event f) (place_version-Phase adopting f d)
      (commit_event-Phase v e f)
