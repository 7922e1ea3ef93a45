-- ===== src/Capture/Inbox.antt =====
-- `InboxSession` of src/knowledgeflow_capture/inbox.py: what one process remembers of its pages
-- and of a write whose result it may not know. The wording of notices and failures is left out:
-- a failure is its code, its commit state and its two flags.
pub mod Write
use knowledge_flow.Common.{ℕ, ◌+◌, Bool, true, false, ◌||◌, Option, none, some}
use knowledge_flow.Common.{List, [], ◌∷◌, ◌++◌, if◌then◌else◌, length}
use knowledge_flow.Common.Text.{Text, text}
use knowledge_flow.Common.Result.{value_error, Result, ok, err, ◌>>=◌, ◌>>◌, raise_if}
use knowledge_flow.Segmentation.Utf8.{decode}
use knowledge_flow.Capture.Requests.{Operation}

pub data CommitState : Type 0 where
  not_committed committed unknown : CommitState

-- `WarningCode` of errors.py, as far as the session shows it
pub data WarningCode : Type 0 where
  projection_needs_rebuild outbox_needs_rebuild incomplete_version_ignored : WarningCode

pub record InboxFailure : Type 0 where
  pub code : Text
  pub commit_state : Option CommitState
  pub retryable : Bool
  pub retry_available : Bool

-- `FailureResult` of errors.py
pub record FailureResult : Type 0 where
  pub code : Text
  pub retryable : Bool
  pub commit_state : Option CommitState

unfoldable pub is_unknown : Option CommitState → Bool
is_unknown (some unknown) = true
is_unknown _ = false

-- `_failure_from_result`
unfoldable pub failure_from_result : FailureResult → Bool → InboxFailure
unfolding is_unknown
failure_from_result result retry_available = record {
  code = result.code;
  commit_state = result.commit_state;
  retryable = result.retryable || is_unknown result.commit_state;
  retry_available = retry_available;
}

-- `_internal_failure`
unfoldable pub internal_failure : Bool → InboxFailure
internal_failure writing = record {
  code = text "internal_failure";
  commit_state = if writing then some unknown else none;
  retryable = writing;
  retry_available = writing;
}

-- `InboxEntry`, made of a `CaptureListItem` field by field
pub record InboxEntry : Type 0 where
  pub capture_id : Text
  pub current_version : ℕ
  pub captured_at : Text
  pub updated_at : Text
  pub preview : Text
  pub routing_status : Text
  pub trust_status : Text
  pub envelope_sha256 : Text

pub record InboxPage : Type 0 where
  pub items : List InboxEntry
  pub page_number : ℕ
  pub has_previous : Bool
  pub has_next : Bool

-- What `operations.get` says of a capture next to its bytes.
pub record CaptureMetadata : Type 0 where
  pub capture_id : Text
  pub version : ℕ
  pub current_version : ℕ
  pub captured_at : Text
  pub byte_size : ℕ
  pub primary_payload_sha256 : Text
  pub envelope_sha256 : Text
  pub routing_status : Text
  pub trust_status : Text

-- `InboxDocument`: the metadata and the text
pub record InboxDocument : Type 0 where
  pub metadata : CaptureMetadata
  pub body : Text

pub record PendingWrite : Type 0 where
  pub operation : Operation
  pub body : Text
  pub idempotency_key : Text
  pub capture_id : Option Text
  pub expected_current_version : Option ℕ
  pub commit_state : Option CommitState
  pub reviewed_after_unknown : Bool

pub record Session : Type 0 where
  pub cursor : Option Text
  pub previous_cursors : List (Option Text)
  pub next_cursor : Option Text
  pub last_page : Option InboxPage
  pub current_document : Option InboxDocument
  pub pending : Option PendingWrite
  pub closed : Bool

unfoldable pub opened : Session
opened = record {
  cursor = none;
  previous_cursors = [];
  next_cursor = none;
  last_page = none;
  current_document = none;
  pending = none;
  closed = false;
}

-- `_ensure_open` raises `RuntimeError`.
unfoldable pub ensure_open : Session → Result (Unit {0})
ensure_open s = raise_if s.closed (value_error "inbox session is closed")

unfoldable pub close : Session → Session
close s = record s { pending = none; current_document = none; last_page = none; closed = true }

-- `if pending is not None and pending.commit_state == UNKNOWN: reviewed_after_unknown = True`
unfoldable pub review : Option PendingWrite → Option PendingWrite
unfolding is_unknown
review none = none
review (some p) =
    if is_unknown p.commit_state then some (record p { reviewed_after_unknown = true }) else some p

-- What `operations.list` does: it raises, it fails, or it gives items and the next cursor.
pub data ListReply : Type 0 where
  list_raised : ListReply
  list_failed : FailureResult → ListReply
  listed : List InboxEntry → Option Text → List WarningCode → ListReply

pub record PageOutcome : Type 0 where
  pub page : Option InboxPage
  pub notices : List WarningCode
  pub failure : Option InboxFailure

abbrev page_failed : InboxFailure → PageOutcome
page_failed f = record { page = none; notices = []; failure = some f }

has_value : Option Text → Bool
has_value none = false
has_value (some c) = true

is_nonempty : List (Option Text) → Bool
is_nonempty [] = false
is_nonempty (c ∷ cs) = true

make_page : List InboxEntry → List (Option Text) → Option Text → InboxPage
unfolding has_value is_nonempty
make_page items previous next = record {
  items = items;
  page_number = length previous + 1;
  has_previous = is_nonempty previous;
  has_next = has_value next;
}

-- `_load_page`, with the reply of the operation
unfoldable pub load_page :
    Session → Option Text → List (Option Text) → ListReply → Session × PageOutcome
unfolding make_page review failure_from_result internal_failure
load_page s cursor previous list_raised = (s, page_failed (internal_failure false))
load_page s cursor previous (list_failed f) = (s, page_failed (failure_from_result f false))
load_page s cursor previous (listed items next warnings) =
    let page = make_page items previous next in
    (
      record s {
        cursor = cursor;
        previous_cursors = previous;
        next_cursor = next;
        last_page = some page;
        pending = review s.pending;
      },
      record { page = some page; notices = warnings; failure = none },
    )

-- A page method asks for a cursor, or shows the last page again.
pub data PageMove : Type 0 where
  first next previous : PageMove

last_of : List (Option Text) → Option Text
last_of [] = none
last_of (c ∷ []) = c
last_of (c ∷ d ∷ cs) = last_of (d ∷ cs)

without_last : List (Option Text) → List (Option Text)
without_last [] = []
without_last (c ∷ []) = []
without_last (c ∷ d ∷ cs) = c ∷ without_last (d ∷ cs)

shown_again : Session → Session × PageOutcome
shown_again s = (s, record { page = s.last_page; notices = []; failure = none })

-- `next_page` and `previous_page`, open
next_page : Session → Option Text → (Option Text → ListReply) → Session × PageOutcome
unfolding shown_again load_page
next_page s none ask = shown_again s
next_page s (some cursor) ask =
    load_page s (some cursor) (s.previous_cursors ++ (s.cursor ∷ [])) (ask (some cursor))

previous_page : Session → List (Option Text) → (Option Text → ListReply) → Session × PageOutcome
unfolding shown_again load_page last_of without_last
previous_page s [] ask = shown_again s
previous_page s (c ∷ cs) ask =
    load_page s (last_of (c ∷ cs)) (without_last (c ∷ cs)) (ask (last_of (c ∷ cs)))

-- `first_page`, `next_page` and `previous_page`. The operation is a function of the cursor.
unfoldable pub turn_page :
    Session → PageMove → (Option Text → ListReply) → Result (Session × PageOutcome)
unfolding ensure_open load_page next_page previous_page
turn_page s first ask = do ensure_open s; ok (load_page s none [] (ask none))
turn_page s next ask = do ensure_open s; ok (next_page s s.next_cursor ask)
turn_page s previous ask = do ensure_open s; ok (previous_page s s.previous_cursors ask)

-- What `operations.get` does: it raises, it fails, or it gives the metadata and the body's bytes.
pub data GetReply : Type 0 where
  get_raised : GetReply
  get_failed : FailureResult → GetReply
  got : CaptureMetadata → List ℕ → List WarningCode → GetReply

pub record ReadOutcome : Type 0 where
  pub document : Option InboxDocument
  pub notices : List WarningCode
  pub failure : Option InboxFailure

abbrev read_failed : InboxFailure → ReadOutcome
read_failed f = record { document = none; notices = []; failure = some f }

show_document : Session → CaptureMetadata → List WarningCode → Result Text → Session × ReadOutcome
unfolding review internal_failure
show_document s metadata warnings (err e) = (s, read_failed (internal_failure false))
show_document s metadata warnings (ok body) =
    let document : InboxDocument = record { metadata = metadata; body = body } in
    (
      record s { current_document = some document; pending = review s.pending },
      record { document = some document; notices = warnings; failure = none },
    )

open_reply : Session → GetReply → Session × ReadOutcome
unfolding show_document decode failure_from_result internal_failure
open_reply s get_raised = (s, read_failed (internal_failure false))
open_reply s (get_failed f) = (s, read_failed (failure_from_result f false))
open_reply s (got metadata bytes warnings) = show_document s metadata warnings (decode bytes)

-- `open_capture`, with the reply of the operation
unfoldable pub open_capture : Session → GetReply → Result (Session × ReadOutcome)
unfolding ensure_open open_reply
open_capture s reply = do ensure_open s; ok (open_reply s reply)
