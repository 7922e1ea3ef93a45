-- ===== src/Capture/Tests.antt =====
-- Inputs of the theorems on src/knowledgeflow_capture.
use knowledge_flow.Common.{◌≡◌, refl, true, false, Option, none, some, []}
use knowledge_flow.Common.{◌∷◌}
use knowledge_flow.Common.Text.{Text, text}
use knowledge_flow.Common.Result.{ok}
use knowledge_flow.Capture.Requests.{is_channel_token, ChannelMetadata, capture_text}
use knowledge_flow.Capture.Inbox.{
  unknown, InboxEntry, PendingWrite, Session, opened, ListReply, listed, first, next,
}
use knowledge_flow.Capture.Inbox.{previous}
use knowledge_flow.Capture.Inbox.Write.{Draft}
use knowledge_flow.Capture.Inbox.Write.Commands.{turning, run_all}
use knowledge_flow.Capture.Inbox.Write.Pages.{Paged, Lists, run_all-opened-Paged, turn_page-back}
use knowledge_flow.Capture.Requests.Laws.{TokensValid, canonical_idempotency_scope-injective}

abbrev sample_entry : InboxEntry
sample_entry = record {
  capture_id = text "cap_1";
  current_version = 1;
  captured_at = text "2026-07-01T00:00:00.000Z";
  updated_at = text "2026-07-01T00:00:00.000Z";
  preview = text "a note";
  routing_status = text "unassigned";
  trust_status = text "user_provided";
  envelope_sha256 = text "ab";
}

abbrev sample_ask : Option Text → ListReply
sample_ask none = listed (sample_entry ∷ []) (some (text "c1")) []
sample_ask (some cursor) = listed (sample_entry ∷ []) none []

abbrev lost_write : PendingWrite
lost_write = record {
  operation = capture_text;
  body = text "a note";
  idempotency_key = text "key-1";
  capture_id = none;
  expected_current_version = none;
  commit_state = some unknown;
  reviewed_after_unknown = false;
}

abbrev other_draft : Draft
other_draft = record {
  operation = capture_text;
  body = text "another note";
  capture_id = none;
  expected_current_version = none;
}

abbrev first_shown : Session
first_shown = record {
  cursor = none;
  previous_cursors = [];
  next_cursor = some (text "c1");
  last_page = some (record {
    items = sample_entry ∷ [];
    page_number = 1;
    has_previous = false;
    has_next = true;
  });
  current_document = none;
  pending = none;
  closed = false;
}

abbrev losing : Session
losing = record first_shown { pending = some lost_write }

first_shown_run : run_all opened (turning first sample_ask ∷ []) ≡ ok first_shown
unfolding run_all opened
first_shown_run = refl

run_all-opened-Paged_example : Paged first_shown
run_all-opened-Paged_example =
    run_all-opened-Paged (turning first sample_ask ∷ []) first_shown first_shown_run

sample_ask-Lists : (cursor : Option Text) → Lists (sample_ask cursor)
unfolding Lists
sample_ask-Lists none = (sample_entry ∷ [], some (text "c1"), [], refl)
sample_ask-Lists (some cursor) = (sample_entry ∷ [], none, [], refl)

turn_page-back_example :
    (s' : Session) × (run_all first_shown
        (turning next sample_ask ∷ turning previous sample_ask ∷ [])
      ≡ ok s')
    × (s'.cursor ≡ none)
    × (s'.previous_cursors ≡ [])
turn_page-back_example =
    turn_page-back first_shown (text "c1") sample_ask refl refl
      (sample_ask-Lists (some (text "c1"))) (sample_ask-Lists none)

abbrev sample_channel : ChannelMetadata
sample_channel = record {
  channel_type = text "app";
  instance_id = text "inbox";
  external_ref = none;
  source_created_at = none;
}

sample_channel-TokensValid : TokensValid sample_channel
unfolding is_channel_token text
sample_channel-TokensValid = record { type_token = refl; instance_token = refl }

canonical_idempotency_scope-injective_example :
    (text "app" ≡ text "app") × (text "inbox" ≡ text "inbox") × (capture_text ≡ capture_text)
canonical_idempotency_scope-injective_example =
    canonical_idempotency_scope-injective sample_channel sample_channel capture_text capture_text
      sample_channel-TokensValid sample_channel-TokensValid refl
