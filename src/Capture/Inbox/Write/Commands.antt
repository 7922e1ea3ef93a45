-- ===== src/Capture/Inbox/Write/Commands.antt =====
-- `InboxSession` of src/knowledgeflow_capture/inbox.py over sequences of calls: what a
-- pending write goes through.
use mathlib.Core.Path.{subst}
use knowledge_flow.Common.{ℕ, ◌≡◌, refl, sym, ◌∙◌, ◌⊎◌, inl, inr, true}
use knowledge_flow.Common.{false, Option, none, some, List, [], ◌∷◌, ◌++◌, Bool-cases}
use knowledge_flow.Common.Text.{Text}
use knowledge_flow.Common.Result.{Error, value_error, Result, ok, err, ◌>>=◌, ok_injective}
use knowledge_flow.Segmentation.Utf8.{decode}
use knowledge_flow.Capture.Inbox.{
  CommitState, not_committed, committed, unknown, WarningCode, is_unknown, PendingWrite, Session,
  ensure_open,
}
use knowledge_flow.Capture.Inbox.{
  review, ListReply, list_raised, list_failed, listed, load_page, PageMove, first, next,
}
use knowledge_flow.Capture.Inbox.{
  previous, turn_page, GetReply, get_raised, get_failed, got, CaptureMetadata, open_capture,
  open_reply,
}
use knowledge_flow.Capture.Inbox.{
  show_document, next_page, previous_page, shown_again, last_of, without_last,
}
use knowledge_flow.Capture.Inbox.Write.{
  WriteRequest, WriteReply, write_raised, write_failed, wrong_result, bad_receipt, written,
  request_of, execute_pending,
}
use knowledge_flow.Capture.Inbox.Write.{
  Draft, write, retry_pending, abandon_pending, after_reply, after_request, keep, left_unknown,
  after_failure,
}
use knowledge_flow.Capture.Inbox.Write.{same_request, select_pending, retry, abandon}

-- A call of the session other than `close`, with what the operation it uses does.
pub data Command : Type 0 where
  turning : PageMove → (Option Text → ListReply) → Command
  opening : GetReply → Command
  writing : Draft → Option Text → (WriteRequest → WriteReply) → Command
  retrying : (WriteRequest → WriteReply) → Command
  abandoning : Command

unfoldable pub run : Session → Command → Result Session
unfolding turn_page open_capture write retry_pending abandon_pending
run s (turning move ask) = do (s', outcome) ← turn_page s move ask; ok s'
run s (opening reply) = do (s', outcome) ← open_capture s reply; ok s'
run s (writing draft key send) = do (s', outcome) ← write s draft key send; ok s'
run s (retrying send) = do (s', outcome) ← retry_pending s send; ok s'
run s abandoning = do (s', outcome) ← abandon_pending s; ok s'

unfoldable pub run_all : Session → List Command → Result Session
unfolding run
run_all s [] = ok s
run_all s (c ∷ cs) = do s' ← run s c; run_all s' cs

-- What a pending write sends: everything but its state.
unfoldable pub identity_of : PendingWrite → PendingWrite
identity_of p = record p { commit_state = none; reviewed_after_unknown = false }

unfoldable pub Kept : PendingWrite → Session → Type 0
Kept p s = (q : PendingWrite) × (s.pending ≡ some q) × (identity_of q ≡ identity_of p)

-- The reply of the command to a request, where it sends one.
unfoldable pub reply_to : Command → WriteRequest → Option WriteReply
reply_to (writing draft key send) r = some (send r)
reply_to (retrying send) r = some (send r)
reply_to _ r = none

-- The pending write was sent, and a receipt came back.
unfoldable pub Resolved : PendingWrite → Command → Session → Type 0
unfolding request_of reply_to
Resolved p c s =
    (r : WriteRequest) × (id : Text) × (version : ℕ) × (warnings : List WarningCode) × (request_of p
        p.operation
      ≡ ok r)
    × (reply_to c r ≡ some (written id version warnings))
    × (s.pending ≡ none)

-- What a sending of `p` by `c` leaves.
unfoldable pub Sent : PendingWrite → Command → Session → Type 0
unfolding Kept Resolved
Sent p c s = Kept p s ⊎ Resolved p c s

after_failure-identity_of :
    (p : PendingWrite) (state : Option CommitState)
    → identity_of (after_failure p state) ≡ identity_of p
unfolding identity_of after_failure left_unknown
after_failure-identity_of p none = refl
after_failure-identity_of p (some unknown) = refl
after_failure-identity_of p (some not_committed) = refl
after_failure-identity_of p (some committed) = refl

abbrev pub session_of {ℓ} : {A : Type ℓ} → Session × A → Session
session_of (s, a) = s

-- The execution of `p`, whatever the operation does.
after_reply-Sent :
    (s : Session) (p : PendingWrite) (c : Command) (r : WriteRequest) (reply : WriteReply)
    → request_of p p.operation ≡ ok r
    → reply_to c r ≡ some reply
    → Sent p c (session_of (after_reply s p reply))
unfolding Sent Kept Resolved after_reply keep left_unknown identity_of
after_reply-Sent s p c r write_raised e h = inl (left_unknown p, refl, refl)
after_reply-Sent s p c r (write_failed f) e h =
    inl (after_failure p f.commit_state, refl, after_failure-identity_of p f.commit_state)
after_reply-Sent s p c r wrong_result e h = inl (left_unknown p, refl, refl)
after_reply-Sent s p c r bad_receipt e h = inl (left_unknown p, refl, refl)
after_reply-Sent s p c r (written id version warnings) e h =
    inr (r, id, version, warnings, e, h, refl)

after_request-Sent :
    (s : Session) (p : PendingWrite) (c : Command) (send : WriteRequest → WriteReply)
    (m : Result WriteRequest)
    → request_of p p.operation ≡ m
    → ((r : WriteRequest) → reply_to c r ≡ some (send r))
    → Sent p c (session_of (after_request s p send m))
unfolding Sent Kept after_request keep identity_of
after_request-Sent s p c send (err e) made h =
    inl (record p { commit_state = some not_committed }, refl, refl)
after_request-Sent s p c send (ok r) made h = after_reply-Sent s p c r (send r) made (h r)

execute_pending-Sent :
    (s : Session) (p : PendingWrite) (c : Command) (send : WriteRequest → WriteReply)
    → ((r : WriteRequest) → reply_to c r ≡ some (send r))
    → Sent p c (session_of (execute_pending s p send))
unfolding execute_pending
execute_pending-Sent s p c send h = after_request-Sent s p c send (request_of p p.operation) refl h

-- While the result of `p` is unknown, no draft takes its place.
select_pending-Sent :
    (s : Session) (p : PendingWrite) (d : Draft) (key : Option Text)
    (send : WriteRequest → WriteReply)
    → s.pending ≡ some p
    → p.commit_state ≡ some unknown
    → Sent p (writing d key send) (session_of (select_pending s (some p) d key send))
unfolding Sent Kept select_pending is_unknown reply_to identity_of
select_pending-Sent s p d key send e h = elim (Bool-cases (same_request p d)) [
  | inl same ↦ rw (same) (execute_pending-Sent s p (writing d key send) send (λ r. refl))
  | inr other ↦ rw (other, h) (inl (p, e, refl))
]

review-Kept :
    (p : PendingWrite)
    → (q : PendingWrite) × (review (some p) ≡ some q) × (identity_of q ≡ identity_of p)
unfolding review identity_of is_unknown
review-Kept p = elim (Bool-cases (is_unknown p.commit_state)) [
  | inl e ↦ (record p { reviewed_after_unknown = true }, rw (e) refl, refl)
  | inr e ↦ (p, rw (e) refl, refl)
]

load_page-Kept :
    (s : Session) (p : PendingWrite) (cursor : Option Text) (before : List (Option Text))
    (reply : ListReply)
    → s.pending ≡ some p
    → Kept p (session_of (load_page s cursor before reply))
unfolding Kept load_page
load_page-Kept s p cursor before list_raised e = (p, e, refl)
load_page-Kept s p cursor before (list_failed f) e = (p, e, refl)
load_page-Kept s p cursor before (listed items following warnings) e = rw (e) (review-Kept p)

next_page-Kept :
    (s : Session) (p : PendingWrite) (cursor : Option Text) (ask : Option Text → ListReply)
    → s.pending ≡ some p
    → Kept p (session_of (next_page s cursor ask))
unfolding Kept next_page shown_again
next_page-Kept s p none ask e = (p, e, refl)
next_page-Kept s p (some cursor) ask e =
    load_page-Kept s p (some cursor) (s.previous_cursors ++ (s.cursor ∷ [])) (ask (some cursor)) e

previous_page-Kept :
    (s : Session) (p : PendingWrite) (before : List (Option Text)) (ask : Option Text → ListReply)
    → s.pending ≡ some p
    → Kept p (session_of (previous_page s before ask))
unfolding Kept previous_page shown_again
previous_page-Kept s p [] ask e = (p, e, refl)
previous_page-Kept s p (c ∷ cs) ask e =
    load_page-Kept s p (last_of (c ∷ cs)) (without_last (c ∷ cs)) (ask (last_of (c ∷ cs))) e

show_document-Kept :
    (s : Session) (p : PendingWrite) (metadata : CaptureMetadata) (warnings : List WarningCode)
    (body : Result Text)
    → s.pending ≡ some p
    → Kept p (session_of (show_document s metadata warnings body))
unfolding Kept show_document
show_document-Kept s p metadata warnings (err failed) e = (p, e, refl)
show_document-Kept s p metadata warnings (ok body) e = rw (e) (review-Kept p)

open_reply-Kept :
    (s : Session) (p : PendingWrite) (reply : GetReply)
    → s.pending ≡ some p
    → Kept p (session_of (open_reply s reply))
unfolding Kept open_reply
open_reply-Kept s p get_raised e = (p, e, refl)
open_reply-Kept s p (get_failed f) e = (p, e, refl)
open_reply-Kept s p (got metadata bytes warnings) e =
    show_document-Kept s p metadata warnings (decode bytes) e

-- The session after a command, where it is open.
unfoldable pub act : Session → Command → Session
unfolding load_page next_page previous_page open_reply select_pending retry abandon
act s (turning first ask) = session_of (load_page s none [] (ask none))
act s (turning next ask) = session_of (next_page s s.next_cursor ask)
act s (turning previous ask) = session_of (previous_page s s.previous_cursors ask)
act s (opening reply) = session_of (open_reply s reply)
act s (writing draft key send) = session_of (select_pending s s.pending draft key send)
act s (retrying send) = session_of (retry s s.pending send)
act s abandoning = session_of (abandon s s.pending)

pub run-open : (s : Session) (c : Command) → s.closed ≡ false → run s c ≡ ok (act s c)
unfolding run act turn_page open_capture write retry_pending abandon_pending ensure_open
run-open s (turning first ask) o = rw (o) refl
run-open s (turning next ask) o = rw (o) refl
run-open s (turning previous ask) o = rw (o) refl
run-open s (opening reply) o = rw (o) refl
run-open s (writing draft key send) o = rw (o) refl
run-open s (retrying send) o = rw (o) refl
run-open s abandoning o = rw (o) refl

run-closed :
    (s : Session) (c : Command)
    → s.closed ≡ true
    → run s c ≡ err (value_error "inbox session is closed")
unfolding run turn_page open_capture write retry_pending abandon_pending ensure_open
run-closed s (turning first ask) o = rw (o) refl
run-closed s (turning next ask) o = rw (o) refl
run-closed s (turning previous ask) o = rw (o) refl
run-closed s (opening reply) o = rw (o) refl
run-closed s (writing draft key send) o = rw (o) refl
run-closed s (retrying send) o = rw (o) refl
run-closed s abandoning o = rw (o) refl

pub run-eq-ok : (s s' : Session) (c : Command) → run s c ≡ ok s' → s' ≡ act s c
run-eq-ok s s' c e = elim (Bool-cases s.closed) [
  | inl o ↦ elim (err-ok (sym (run-closed s c o) ∙ e)) [ ]
  | inr o ↦ ok_injective s' (act s c) (sym e ∙ run-open s c o)
]
  where
    err-ok : {x : Error} → err x ≡ ok s' → ⊥
    err-ok h = cc

-- The commands that do not abandon.
pub data Insisting : Command → Type 0 where
  turning_insists : {move : PageMove} {ask : Option Text → ListReply} → Insisting (turning move ask)
  opening_insists : {reply : GetReply} → Insisting (opening reply)
  writing_insists :
      {draft : Draft} {key : Option Text} {send : WriteRequest → WriteReply}
      → Insisting (writing draft key send)
  retrying_insists : {send : WriteRequest → WriteReply} → Insisting (retrying send)

pub act-Sent :
    (s : Session) (p : PendingWrite) (c : Command)
    → s.pending ≡ some p
    → p.commit_state ≡ some unknown
    → Insisting c
    → Sent p c (act s c)
unfolding Sent act retry
act-Sent s p (turning first ask) e u turning_insists = inl (load_page-Kept s p none [] (ask none) e)
act-Sent s p (turning next ask) e u turning_insists = inl (next_page-Kept s p s.next_cursor ask e)
act-Sent s p (turning previous ask) e u turning_insists =
    inl (previous_page-Kept s p s.previous_cursors ask e)
act-Sent s p (opening reply) e u opening_insists = inl (open_reply-Kept s p reply e)
act-Sent s p (writing draft key send) e u writing_insists =
    subst (λ o. Sent p (writing draft key send) (session_of (select_pending s o draft key send)))
      (sym e) (select_pending-Sent s p draft key send e u)
act-Sent s p (retrying send) e u retrying_insists =
    subst (λ o. Sent p (retrying send) (session_of (retry s o send))) (sym e)
      (execute_pending-Sent s p (retrying send) send (λ r. refl))
act-Sent s p abandoning e u insists = elim insists [ ]
