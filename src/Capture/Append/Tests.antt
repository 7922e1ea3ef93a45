-- ===== src/Capture/Append/Tests.antt =====
-- An append to a capture of one version, and the same request again.
use knowledge_flow.Common.{◌≡◌, refl, true, false, none, List, [], ◌∷◌}
use knowledge_flow.Common.Text.{text}
use knowledge_flow.Capture.Commit.Append.Recovery.{calm}
use knowledge_flow.Capture.Chain.{Envelope, CaptureEvent}
use knowledge_flow.Capture.Append.{
  DiskChain, Incoming, payload_attested, AppendEnvironment, append_receipt,
}
use knowledge_flow.Capture.Append.Locked.{
  AppendCandidate, local_actor, build_append_candidate, append_while_locked,
}
use knowledge_flow.Capture.Append.Locked.Laws.{Answers}
use knowledge_flow.Capture.Append.Locked.Answers.{
  append_while_locked-Answers, append_while_locked-again,
}

abbrev created_envelope : Envelope
created_envelope = record {
  capture_id = text "cap_1";
  version = 1;
  previous_version = none;
  event_id = text "evt_1";
  captured_at = text "2026-07-01T00:00:00.000Z";
  actor = local_actor;
  idempotency = none;
  envelope_sha256 = text "aa";
}

abbrev created_event : CaptureEvent
created_event = record {
  event_id = text "evt_1";
  capture_id = text "cap_1";
  version = 1;
  envelope_sha256 = text "aa";
  occurred_at = text "2026-07-01T00:00:00.000Z";
  actor = local_actor;
  appended = none;
}

abbrev one_chain : List DiskChain
one_chain =
    record {
      chain = record {
        capture_id = text "cap_1";
        versions =
            record { version = 1; envelope = created_envelope; established_by = created_event }
            ∷ [];
        incomplete_version = none;
      };
      tail_envelope = none;
    }
    ∷ []

abbrev sample_request : Incoming
sample_request = record {
  capture_id = text "cap_1";
  expected_current_version = 1;
  identity = record {
    scope = text "app:inbox:append_capture_version";
    key_sha256 = text "key";
    request_fingerprint_sha256 = text "request";
  };
}

abbrev quiet : AppendEnvironment
quiet = record {
  event_id = text "evt_2";
  captured_at = text "2026-07-02T00:00:00.000Z";
  occurred_at = text "2026-07-02T00:00:00.001Z";
  envelope_sha256 = text "bb";
  content_matches = λ v. true;
  scan_fails = none;
  match_payload = payload_attested;
  current_payload = payload_attested;
  adoption_raises = false;
  success_invalid = false;
  faults = calm;
}

abbrev sample_candidate : AppendCandidate
unfolding build_append_candidate
sample_candidate = build_append_candidate quiet sample_request created_envelope

abbrev two_versions : List DiskChain
two_versions =
    record {
      chain = record {
        capture_id = text "cap_1";
        versions =
            record { version = 1; envelope = created_envelope; established_by = created_event }
            ∷ record {
              version = 2;
              envelope = sample_candidate.envelope;
              established_by = sample_candidate.established_by;
            }
            ∷ [];
        incomplete_version = none;
      };
      tail_envelope = none;
    }
    ∷ []

two_versions_run :
    append_while_locked (λ v. true) quiet sample_request one_chain
    ≡ (two_versions, append_receipt sample_candidate.envelope)
unfolding append_while_locked
two_versions_run = refl

append_while_locked-Answers_example :
    Answers
      (λ v. true)
      sample_request.identity
      one_chain
      (append_while_locked (λ v. true) quiet sample_request one_chain)
append_while_locked-Answers_example =
    append_while_locked-Answers (λ v. true) quiet sample_request one_chain

append_while_locked-again_example :
    append_while_locked (λ v. true) quiet sample_request two_versions
    ≡ (two_versions, append_receipt sample_candidate.envelope)
append_while_locked-again_example =
    append_while_locked-again (λ v. true) quiet quiet sample_request one_chain two_versions
      sample_candidate.envelope two_versions_run refl refl
