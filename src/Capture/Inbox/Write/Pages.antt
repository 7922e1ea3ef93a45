-- ===== src/Capture/Inbox/Write/Pages.antt =====
use mathlib.Core.Path.{subst}
use knowledge_flow.Common.{suc, ◌≡◌, refl, sym, ap, ◌∙◌, true, false, not}
use knowledge_flow.Common.{◌&&◌, Option, none, some, List, [], ◌∷◌, ◌++◌, arith}
use knowledge_flow.Common.{if-both, length, AllOption}
use knowledge_flow.Common.Text.{Text}
use knowledge_flow.Common.Result.{Result, ok, err, >>=-eq-ok, ok_injective}
use knowledge_flow.Segmentation.Utf8.{decode}
use knowledge_flow.Capture.Inbox.{
  WarningCode, InboxFailure, is_unknown, InboxEntry, InboxPage, PendingWrite, Session, opened,
  ListReply,
}
use knowledge_flow.Capture.Inbox.{
  list_raised, list_failed, listed, load_page, first, next, previous, GetReply, get_raised,
}
use knowledge_flow.Capture.Inbox.{
  get_failed, got, CaptureMetadata, make_page, open_reply, show_document, next_page, previous_page,
  shown_again,
}
use knowledge_flow.Capture.Inbox.{last_of, without_last}
use knowledge_flow.Capture.Inbox.Write.{
  WriteRequest, WriteReply, write_raised, write_failed, wrong_result, bad_receipt, written,
  WriteOutcome, request_of,
}
use knowledge_flow.Capture.Inbox.Write.{
  execute_pending, Draft, after_reply, after_request, keep, same_request, fresh_pending,
  select_pending, retry,
}
use knowledge_flow.Capture.Inbox.Write.{abandon, new_pending}
use knowledge_flow.Capture.Inbox.Write.Commands.{
  Command, turning, opening, writing, retrying, abandoning, run, run_all, act,
}
use knowledge_flow.Capture.Inbox.Write.Commands.{run-open, session_of, run-eq-ok}

-- What `InboxSession` of src/knowledgeflow_capture/inbox.py shows of its pages.

-- A page tells that there is a previous page when cursors lie before it.
unfoldable pub TellsPrevious : List (Option Text) → InboxPage → Type 0
TellsPrevious [] page = page.has_previous ≡ false
TellsPrevious (c ∷ cs) page = page.has_previous ≡ true

-- A page tells that there is a next page when a cursor follows it.
unfoldable pub TellsNext : Option Text → InboxPage → Type 0
TellsNext none page = page.has_next ≡ false
TellsNext (some c) page = page.has_next ≡ true

-- A page stands where the cursors say: its number counts the cursors before it from one.
unfoldable pub StandsAt : List (Option Text) → Option Text → InboxPage → Type 0
StandsAt before following page =
    (page.page_number ≡ suc (length before)) × TellsPrevious before page × TellsNext following page

-- The page that the session shows again stands where its cursors say.
unfoldable pub Paged : Session → Type 0
Paged s = AllOption (StandsAt s.previous_cursors s.next_cursor) s.last_page

make_page-TellsPrevious :
    (items : List InboxEntry) (before : List (Option Text)) (following : Option Text)
    → TellsPrevious before (make_page items before following)
unfolding TellsPrevious make_page
make_page-TellsPrevious items [] following = refl
make_page-TellsPrevious items (c ∷ cs) following = refl

make_page-TellsNext :
    (items : List InboxEntry) (before : List (Option Text)) (following : Option Text)
    → TellsNext following (make_page items before following)
unfolding TellsNext make_page
make_page-TellsNext items before none = refl
make_page-TellsNext items before (some c) = refl

make_page-number :
    (items : List InboxEntry) (before : List (Option Text)) (following : Option Text)
    → InboxPage.page_number (make_page items before following) ≡ suc (length before)
unfolding make_page
make_page-number items before following = omega arith

make_page-StandsAt :
    (items : List InboxEntry) (before : List (Option Text)) (following : Option Text)
    → StandsAt before following (make_page items before following)
unfolding StandsAt
make_page-StandsAt items before following = (
  make_page-number items before following,
  make_page-TellsPrevious items before following,
  make_page-TellsNext items before following,
)

opened-Paged : Paged opened
unfolding Paged opened
opened-Paged = tt

load_page-Paged :
    (s : Session) (cursor : Option Text) (before : List (Option Text)) (reply : ListReply)
    → Paged s
    → Paged (session_of (load_page s cursor before reply))
unfolding Paged load_page
load_page-Paged s cursor before list_raised h = h
load_page-Paged s cursor before (list_failed f) h = h
load_page-Paged s cursor before (listed items following warnings) h =
    make_page-StandsAt items before following

next_page-Paged :
    (s : Session) (cursor : Option Text) (ask : Option Text → ListReply)
    → Paged s
    → Paged (session_of (next_page s cursor ask))
unfolding next_page shown_again
next_page-Paged s none ask h = h
next_page-Paged s (some cursor) ask h =
    load_page-Paged s (some cursor) (s.previous_cursors ++ (s.cursor ∷ [])) (ask (some cursor)) h

previous_page-Paged :
    (s : Session) (before : List (Option Text)) (ask : Option Text → ListReply)
    → Paged s
    → Paged (session_of (previous_page s before ask))
unfolding previous_page shown_again
previous_page-Paged s [] ask h = h
previous_page-Paged s (c ∷ cs) ask h =
    load_page-Paged s (last_of (c ∷ cs)) (without_last (c ∷ cs)) (ask (last_of (c ∷ cs))) h

show_document-Paged :
    (s : Session) (metadata : CaptureMetadata) (warnings : List WarningCode) (body : Result Text)
    → Paged s
    → Paged (session_of (show_document s metadata warnings body))
unfolding Paged show_document
show_document-Paged s metadata warnings (err e) h = h
show_document-Paged s metadata warnings (ok body) h = h

open_reply-Paged :
    (s : Session) (reply : GetReply) → Paged s → Paged (session_of (open_reply s reply))
unfolding Paged open_reply
open_reply-Paged s get_raised h = h
open_reply-Paged s (get_failed f) h = h
open_reply-Paged s (got metadata bytes warnings) h =
    show_document-Paged s metadata warnings (decode bytes) h

-- A write changes the pending write alone.
after_reply-Paged :
    (s : Session) (p : PendingWrite) (reply : WriteReply)
    → Paged s
    → Paged (session_of (after_reply s p reply))
unfolding Paged after_reply keep
after_reply-Paged s p write_raised h = h
after_reply-Paged s p (write_failed f) h = h
after_reply-Paged s p wrong_result h = h
after_reply-Paged s p bad_receipt h = h
after_reply-Paged s p (written id version warnings) h = h

after_request-Paged :
    (s : Session) (p : PendingWrite) (send : WriteRequest → WriteReply) (m : Result WriteRequest)
    → Paged s
    → Paged (session_of (after_request s p send m))
unfolding Paged after_request keep
after_request-Paged s p send (err e) h = h
after_request-Paged s p send (ok r) h = after_reply-Paged s p (send r) h

execute_pending-Paged :
    (s : Session) (p : PendingWrite) (send : WriteRequest → WriteReply)
    → Paged s
    → Paged (session_of (execute_pending s p send))
unfolding execute_pending
execute_pending-Paged s p send h = after_request-Paged s p send (request_of p p.operation) h

fresh_pending-Paged :
    (s : Session) (d : Draft) (key : Option Text) (send : WriteRequest → WriteReply)
    → Paged s
    → Paged (session_of (fresh_pending s d key send))
unfolding Paged fresh_pending keep
fresh_pending-Paged s d none send h = h
fresh_pending-Paged s d (some []) send h = h
fresh_pending-Paged s d (some (b ∷ key)) send h =
    execute_pending-Paged (keep s (new_pending d (b ∷ key))) (new_pending d (b ∷ key)) send h

select_pending-Paged :
    (s : Session) (o : Option PendingWrite) (d : Draft) (key : Option Text)
    (send : WriteRequest → WriteReply)
    → Paged s
    → Paged (session_of (select_pending s o d key send))
unfolding select_pending
select_pending-Paged s none d key send h = fresh_pending-Paged s d key send h
select_pending-Paged s (some p) d key send h =
    if-both (λ (done : Session × WriteOutcome). Paged (session_of done)) (same_request p d) _ _
      (λ same. execute_pending-Paged s p send h)
      (λ other.
        if-both (λ (done : Session × WriteOutcome). Paged (session_of done))
          (is_unknown p.commit_state) _ _ (λ lost. h) (λ known. fresh_pending-Paged s d key send h))

retry-Paged :
    (s : Session) (o : Option PendingWrite) (send : WriteRequest → WriteReply)
    → Paged s
    → Paged (session_of (retry s o send))
unfolding retry
retry-Paged s none send h = h
retry-Paged s (some p) send h = execute_pending-Paged s p send h

abandon-Paged : (s : Session) (o : Option PendingWrite) → Paged s → Paged (session_of (abandon s o))
unfolding Paged abandon
abandon-Paged s none h = h
abandon-Paged s (some p) h =
    if-both (λ (done : Session × Option InboxFailure). Paged (session_of done))
      (is_unknown p.commit_state && not p.reviewed_after_unknown) _ _ (λ lost. h) (λ known. h)

act-Paged : (s : Session) (c : Command) → Paged s → Paged (act s c)
unfolding act
act-Paged s (turning first ask) h = load_page-Paged s none [] (ask none) h
act-Paged s (turning next ask) h = next_page-Paged s s.next_cursor ask h
act-Paged s (turning previous ask) h = previous_page-Paged s s.previous_cursors ask h
act-Paged s (opening reply) h = open_reply-Paged s reply h
act-Paged s (writing draft key send) h = select_pending-Paged s s.pending draft key send h
act-Paged s (retrying send) h = retry-Paged s s.pending send h
act-Paged s abandoning h = abandon-Paged s s.pending h

run_all-Paged : (cs : List Command) (s s' : Session) → Paged s → run_all s cs ≡ ok s' → Paged s'
unfolding run_all
run_all-Paged [] s s' h e = subst Paged (ok_injective s s' e) h
run_all-Paged (c ∷ cs) s s' h e =
    let (t, ran, rest) = >>=-eq-ok (run s c) _ e in
    run_all-Paged cs t s' (subst Paged (sym (run-eq-ok s t c ran)) (act-Paged s c h)) rest

-- After any sequence of page turns, readings, writes, retries and abandonments of a new session,
-- the page that it shows again, if any, has the number of the previous cursors and one, says that
-- there is a previous page exactly when there are previous cursors, and a next one exactly when
-- there is a next cursor.
pub run_all-opened-Paged : (cs : List Command) (s : Session) → run_all opened cs ≡ ok s → Paged s
run_all-opened-Paged cs s e = run_all-Paged cs opened s opened-Paged e

last_of-snoc : (cs : List (Option Text)) (c : Option Text) → last_of (cs ++ (c ∷ [])) ≡ c
unfolding last_of
last_of-snoc [] c = refl
last_of-snoc (x ∷ []) c = refl
last_of-snoc (x ∷ y ∷ cs) c = last_of-snoc (y ∷ cs) c

without_last-snoc : (cs : List (Option Text)) (c : Option Text) → without_last (cs ++ (c ∷ [])) ≡ cs
unfolding without_last
without_last-snoc [] c = refl
without_last-snoc (x ∷ []) c = refl
without_last-snoc (x ∷ y ∷ cs) c = ap (λ rest. x ∷ rest) (without_last-snoc (y ∷ cs) c)

-- What a listing shows.
unfoldable pub Lists : ListReply → Type 0
Lists reply =
    (items : List InboxEntry) × (following : Option Text) × (warnings : List WarningCode) × (reply
      ≡ listed items following warnings)

previous_page-snoc :
    (s : Session) (cs : List (Option Text)) (c : Option Text) (ask : Option Text → ListReply)
    → previous_page s (cs ++ (c ∷ [])) ask ≡ load_page s c cs (ask c)
unfolding previous_page
previous_page-snoc s [] c ask = refl
previous_page-snoc s (x ∷ cs) c ask =
    rw (last_of-snoc (x ∷ cs) c, without_last-snoc (x ∷ cs) c) refl

run_all-two :
    (s t u : Session) (c d : Command)
    → run s c ≡ ok t
    → run t d ≡ ok u
    → run_all s (c ∷ d ∷ []) ≡ ok u
unfolding run_all
run_all-two s t u c d h k = rw (h, k) refl

-- In an open session with a next cursor, where the listings at that cursor and at the current one
-- succeed, the next page followed by the previous page leaves the cursor and the previous cursors
-- as they were.
pub turn_page-back :
    (s : Session) (cursor : Text) (ask : Option Text → ListReply)
    → s.closed ≡ false
    → s.next_cursor ≡ some cursor
    → Lists (ask (some cursor))
    → Lists (ask s.cursor)
    → (s' : Session) × (run_all s (turning next ask ∷ turning previous ask ∷ []) ≡ ok s')
      × (s'.cursor ≡ s.cursor)
      × (s'.previous_cursors ≡ s.previous_cursors)
unfolding act next_page load_page Lists
turn_page-back s cursor ask o n (items, following, warnings, e)
      (items', following', warnings', e') =
    let t : Session = session_of (
      load_page s (some cursor) (s.previous_cursors ++ (s.cursor ∷ []))
        (listed items following warnings)) in
    (
      session_of (load_page t s.cursor s.previous_cursors (listed items' following' warnings')),
      run_all-two s t _ (turning next ask) (turning previous ask)
          (run-open s (turning next ask) o
            ∙ ap (λ w. ok (session_of (next_page s w ask))) n
            ∙ ap
                (λ w. ok (
                  session_of (load_page s (some cursor) (s.previous_cursors ++ (s.cursor ∷ [])) w)))
                e)
          (run-open t (turning previous ask) o
            ∙ ap (λ w. ok (session_of w)) (previous_page-snoc t s.previous_cursors s.cursor ask)
            ∙ ap (λ w. ok (session_of (load_page t s.cursor s.previous_cursors w))) e'),
      refl,
      refl,
    )
