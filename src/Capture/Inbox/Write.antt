-- ===== src/Capture/Inbox/Write.antt =====
-- The writes of `InboxSession`: `capture`, `append`, `retry_pending` and `abandon_pending`.
pub mod Commands
pub mod Pages
use knowledge_flow.Common.{ℕ, Bool, true, false, not, ◌&&◌, Option, none, some}
use knowledge_flow.Common.{List, [], ◌==◌, if◌then◌else◌}
use knowledge_flow.Common.Text.{Text, text, text_eq}
use knowledge_flow.Common.Result.{type_error, Result, ok, err, ◌>>=◌, ◌>>◌}
use knowledge_flow.Common.Int.{pos}
use knowledge_flow.Common.Value.{Value, null, num, str}
use knowledge_flow.Capture.Requests.{
  ChannelMetadata, UserIntent, Operation, capture_text, append_capture_version, CaptureTextRequest,
  make_capture_request, AppendRequest, make_append_request,
}
use knowledge_flow.Capture.Inbox.{
  CommitState, not_committed, committed, unknown, WarningCode, InboxFailure, FailureResult,
  is_unknown, failure_from_result,
}
use knowledge_flow.Capture.Inbox.{internal_failure, PendingWrite, Session, ensure_open}

-- The channel and the intent of the session.
abbrev inbox_channel : ChannelMetadata
inbox_channel = record {
  channel_type = text "app";
  instance_id = text "knowledgeflow-inbox";
  external_ref = none;
  source_created_at = none;
}

abbrev capture_only : UserIntent
capture_only = record {
  target_kb_id = none;
  processing_mode = some (text "capture-only");
  requested_new_kb_name = none;
}

pub data WriteRequest : Type 0 where
  capturing : CaptureTextRequest → WriteRequest
  appending : AppendRequest → WriteRequest

-- What a write operation does: it raises, it fails, it returns an object of another type, or it
-- returns a receipt, which may lack a field of the right type.
pub data WriteReply : Type 0 where
  write_raised : WriteReply
  write_failed : FailureResult → WriteReply
  wrong_result : WriteReply
  bad_receipt : WriteReply
  written : Text → ℕ → List WarningCode → WriteReply

pub record WriteReceipt : Type 0 where
  pub operation : Operation
  pub capture_id : Text
  pub version : ℕ
  pub commit_state : CommitState

pub record WriteOutcome : Type 0 where
  pub receipt : Option WriteReceipt
  pub notices : List WarningCode
  pub failure : Option InboxFailure

abbrev write_failure : InboxFailure → WriteOutcome
write_failure f = record { receipt = none; notices = []; failure = some f }

optional_value : Option Text → Value
optional_value none = null
optional_value (some s) = str s

append_request : PendingWrite → Option Text → Option ℕ → Result WriteRequest
unfolding make_append_request
append_request p (some id) (some version) = do
  r ←
      make_append_request (str id) (num (pos version)) p.body inbox_channel (str p.idempotency_key)
        capture_only
  ok (appending r)
append_request p _ _ = err (type_error "append pending state is incomplete")

-- The request of a pending write.
unfoldable pub request_of : PendingWrite → Operation → Result WriteRequest
unfolding append_request make_capture_request
request_of p capture_text = do
  r ← make_capture_request p.body inbox_channel (str p.idempotency_key) capture_only
  ok (capturing r)
request_of p append_capture_version = append_request p p.capture_id p.expected_current_version

invalid_request : FailureResult
invalid_request = record {
  code = text "invalid_input";
  retryable = false;
  commit_state = some not_committed;
}

-- The pending write after a result that proves nothing, and after a failure.
left_unknown : PendingWrite → PendingWrite
left_unknown p = record p { commit_state = some unknown; reviewed_after_unknown = false }

after_failure : PendingWrite → Option CommitState → PendingWrite
unfolding left_unknown
after_failure p none = left_unknown p
after_failure p (some unknown) = left_unknown p
after_failure p (some state) = record p { commit_state = some state }

keep : Session → PendingWrite → Session
keep s p = record s { pending = some p }

after_reply : Session → PendingWrite → WriteReply → Session × WriteOutcome
unfolding keep left_unknown after_failure failure_from_result internal_failure
after_reply s p write_raised = (keep s (left_unknown p), write_failure (internal_failure true))
after_reply s p (write_failed f) =
    (keep s (after_failure p f.commit_state), write_failure (failure_from_result f true))
after_reply s p wrong_result = (keep s (left_unknown p), write_failure (internal_failure true))
after_reply s p bad_receipt = (keep s (left_unknown p), write_failure (internal_failure true))
after_reply s p (written id version warnings) = (
  record s { pending = none },
  record {
    receipt = some (record {
      operation = p.operation;
      capture_id = id;
      version = version;
      commit_state = committed;
    });
    notices = warnings;
    failure = none;
  },
)

after_request :
    Session
    → PendingWrite
    → (WriteRequest → WriteReply)
    → Result WriteRequest
    → Session × WriteOutcome
unfolding after_reply keep invalid_request failure_from_result
after_request s p send (err e) = (
  keep s (record p { commit_state = some not_committed }),
  write_failure (failure_from_result invalid_request true),
)
after_request s p send (ok request) = after_reply s p (send request)

-- `_execute_pending`. The operations are a function of the request.
unfoldable pub execute_pending :
    Session → PendingWrite → (WriteRequest → WriteReply) → Session × WriteOutcome
unfolding after_request request_of
execute_pending s p send = after_request s p send (request_of p p.operation)

same_text_option : Option Text → Option Text → Bool
unfolding text_eq
same_text_option none none = true
same_text_option (some a) (some b) = text_eq a b
same_text_option _ _ = false

same_number_option : Option ℕ → Option ℕ → Bool
same_number_option none none = true
same_number_option (some a) (some b) = a == b
same_number_option _ _ = false

same_operation : Operation → Operation → Bool
same_operation capture_text capture_text = true
same_operation append_capture_version append_capture_version = true
same_operation _ _ = false

-- What the user asks to write.
pub record Draft : Type 0 where
  pub operation : Operation
  pub body : Text
  pub capture_id : Option Text
  pub expected_current_version : Option ℕ

same_request : PendingWrite → Draft → Bool
unfolding same_operation same_text_option same_number_option text_eq
same_request p d =
    same_operation p.operation d.operation
    && text_eq p.body d.body
    && same_text_option p.capture_id d.capture_id
    && same_number_option p.expected_current_version d.expected_current_version

pending_unknown : InboxFailure
pending_unknown = record {
  code = text "pending_unknown_request";
  commit_state = some unknown;
  retryable = true;
  retry_available = true;
}

identity_unavailable : InboxFailure
identity_unavailable = record {
  code = text "request_identity_unavailable";
  commit_state = some not_committed;
  retryable = false;
  retry_available = false;
}

new_pending : Draft → Text → PendingWrite
new_pending d key = record {
  operation = d.operation;
  body = d.body;
  idempotency_key = key;
  capture_id = d.capture_id;
  expected_current_version = d.expected_current_version;
  commit_state = none;
  reviewed_after_unknown = false;
}

-- A new pending write under a key of `idempotency_key_factory`, which gives `none` where it raises
-- or gives no text.
fresh_pending : Session → Draft → Option Text → (WriteRequest → WriteReply) → Session × WriteOutcome
unfolding keep new_pending execute_pending identity_unavailable
fresh_pending s d none send = (s, write_failure identity_unavailable)
fresh_pending s d (some []) send = (s, write_failure identity_unavailable)
fresh_pending s d (some key) send =
    execute_pending (keep s (new_pending d key)) (new_pending d key) send

-- `_select_pending`, then `_execute_pending`
select_pending :
    Session
    → Option PendingWrite
    → Draft
    → Option Text
    → (WriteRequest → WriteReply)
    → Session × WriteOutcome
unfolding fresh_pending same_request execute_pending pending_unknown is_unknown
select_pending s none d key send = fresh_pending s d key send
select_pending s (some p) d key send =
    if same_request p d
    then execute_pending s p send
    else if is_unknown p.commit_state
    then (s, write_failure pending_unknown)
    else fresh_pending s d key send

-- `capture` and `append`
unfoldable pub write :
    Session → Draft → Option Text → (WriteRequest → WriteReply) → Result (Session × WriteOutcome)
unfolding ensure_open select_pending
write s d key send = do ensure_open s; ok (select_pending s s.pending d key send)

nothing_pending : InboxFailure
nothing_pending = record {
  code = text "no_pending_request";
  commit_state = none;
  retryable = false;
  retry_available = false;
}

retry : Session → Option PendingWrite → (WriteRequest → WriteReply) → Session × WriteOutcome
unfolding execute_pending nothing_pending
retry s none send = (s, write_failure nothing_pending)
retry s (some p) send = execute_pending s p send

unfoldable pub retry_pending :
    Session → (WriteRequest → WriteReply) → Result (Session × WriteOutcome)
unfolding ensure_open retry
retry_pending s send = do ensure_open s; ok (retry s s.pending send)

review_required : InboxFailure
review_required = record {
  code = text "review_required";
  commit_state = some unknown;
  retryable = false;
  retry_available = true;
}

abandon : Session → Option PendingWrite → Session × Option InboxFailure
unfolding is_unknown review_required
abandon s none = (s, none)
abandon s (some p) =
    if is_unknown p.commit_state && not p.reviewed_after_unknown
    then (s, some review_required)
    else (record s { pending = none }, none)

unfoldable pub abandon_pending : Session → Result (Session × Option InboxFailure)
unfolding ensure_open abandon
abandon_pending s = do ensure_open s; ok (abandon s s.pending)
