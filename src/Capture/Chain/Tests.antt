-- ===== src/Capture/Chain/Tests.antt =====
-- A chain of two versions and the beginning of a third.
use knowledge_flow.Common.{◌≡◌, refl, ◌⊎◌, inl, inr, true, none, some, []}
use knowledge_flow.Common.{◌∷◌, arith}
use knowledge_flow.Common.Text.{Text, text, is_digit, after_prefix}
use knowledge_flow.Common.Result.{ok}
use knowledge_flow.Common.Value.{str}
use knowledge_flow.Ids.{uuid_text, uuid_parse, hex_text}
use knowledge_flow.Capture.Chain.{
  Actor, Envelope, CaptureEvent, Codec, CommittedVersion, VersionChain,
}
use knowledge_flow.Capture.Chain.Read.{
  build_capture_version_chain, version_at, ReadState, rebuild_capture_read_state,
}
use knowledge_flow.Capture.Chain.Built.{
  BuiltChain, build_capture_version_chain-BuiltChain, version_at-BuiltChain,
  rebuild_capture_read_state-BuiltChain,
}

abbrev sample_id : Text
sample_id = text "cap_019073a5-7c00-7000-8000-000000000000"

abbrev local_user : Actor
local_user = record { actor_type = text "user"; actor_id = text "local-user" }

abbrev envelope_one : Envelope
envelope_one = record {
  capture_id = sample_id;
  version = 1;
  previous_version = none;
  event_id = text "evt_1";
  captured_at = text "2026-07-01T00:00:00.000Z";
  actor = local_user;
  idempotency = none;
  envelope_sha256 = text "aa";
}

abbrev envelope_two : Envelope
envelope_two = record envelope_one {
  version = 2;
  previous_version = some 1;
  event_id = text "evt_2";
  envelope_sha256 = text "bb";
}

abbrev event_one : CaptureEvent
event_one = record {
  event_id = text "evt_1";
  capture_id = sample_id;
  version = 1;
  envelope_sha256 = text "aa";
  occurred_at = text "2026-07-01T00:00:00.000Z";
  actor = local_user;
  appended = none;
}

abbrev event_two : CaptureEvent
event_two = record event_one {
  event_id = text "evt_2";
  version = 2;
  envelope_sha256 = text "bb";
  appended = some (record { previous_version = 1; previous_envelope_sha256 = text "aa" });
}

-- The documents are the envelopes and the events themselves.
abbrev sample_codec : Codec (Envelope ⊎ CaptureEvent)
sample_codec = record {
  event_fields = λ d. elim d [ inl v ↦ none | inr e ↦ some e ];
  validate_envelope = λ d. elim d [ inl v ↦ some v | inr e ↦ none ];
  verify_envelope = λ v. true;
}

abbrev sample_chain : VersionChain
sample_chain = record {
  capture_id = sample_id;
  versions =
      record { version = 1; envelope = envelope_one; established_by = event_one }
      ∷ record { version = 2; envelope = envelope_two; established_by = event_two }
      ∷ [];
  incomplete_version = some 3;
}

sample_chain-built :
    build_capture_version_chain sample_codec sample_id
      (str (text "000002") ∷ str (text "000003") ∷ str (text "000001") ∷ [])
      ((1, inl envelope_one) ∷ (2, inl envelope_two) ∷ [])
      (inr event_two ∷ inr event_one ∷ [])
    ≡ ok sample_chain
unfolding build_capture_version_chain after_prefix uuid_parse uuid_text hex_text is_digit
sample_chain-built = refl

build_capture_version_chain-BuiltChain_example : BuiltChain sample_codec sample_id sample_chain
build_capture_version_chain-BuiltChain_example =
    build_capture_version_chain-BuiltChain sample_codec sample_id
      (str (text "000002") ∷ str (text "000003") ∷ str (text "000001") ∷ [])
      ((1, inl envelope_one) ∷ (2, inl envelope_two) ∷ []) (inr event_two ∷ inr event_one ∷ [])
      sample_chain sample_chain-built

version_at-BuiltChain_example :
    (c : CommittedVersion) × (version_at sample_chain 2 ≡ some c) × (c.version ≡ 2)
version_at-BuiltChain_example =
    version_at-BuiltChain sample_codec sample_id sample_chain 2
      build_capture_version_chain-BuiltChain_example (ground arith) (ground arith)

rebuild_capture_read_state-BuiltChain_example :
    (state : ReadState) × (rebuild_capture_read_state sample_chain ≡ ok state)
    × (state.capture_id ≡ sample_id)
    × (state.current_version ≡ 2)
rebuild_capture_read_state-BuiltChain_example =
    rebuild_capture_read_state-BuiltChain sample_codec sample_id sample_chain
      build_capture_version_chain-BuiltChain_example
