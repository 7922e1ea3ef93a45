-- ===== src/Capture/Chain/Laws.antt =====
use mathlib.Core.Path.{subst}
-- What a version chain of src/knowledgeflow_capture/store.py is, once it is built.
use knowledge_flow.Common.{ℕ, ◌+◌, ◌≤◌, ◌≡◌, inl, inr, true, ◌||◌, Option}
use knowledge_flow.Common.{none, some, List, [], ◌∷◌, ◌++◌, arith, ◌==◌, Bool-cases}
use knowledge_flow.Common.{Option-cases}
use knowledge_flow.Common.Text.{Text, text_eq→eq, is_one_of}
use knowledge_flow.Common.Result.{ok, raise_if, >>=-eq-ok, ok_injective}
use knowledge_flow.Capture.Chain.{
  Envelope, EventLink, CaptureEvent, Codec, has_version_fields, refers, CommittedVersion, is_member,
  find,
}
use knowledge_flow.Capture.Chain.{
  collect_events, read_event, same_fields, created_refers, appended_refers, keys, is_number,
}

-- The event of version `n` proves its envelope: the first is a creation, and each further one is
-- linked to the envelope before by its version and its hash.
unfoldable pub Proves : CaptureEvent → ℕ → Envelope → Option Envelope → Type 0
Proves e n v none = (e.appended ≡ none) × (n ≡ 1)
Proves e n v (some earlier) =
    (link : EventLink) × (e.appended ≡ some link)
    × (n ≡ earlier.version + 1)
    × (link.previous_version ≡ earlier.version)
    × (link.previous_envelope_sha256 ≡ earlier.envelope_sha256)
    × (v.previous_version ≡ some earlier.version)

pub record Committed {Document : Type 0} (codec : Codec Document) (id : Text) (n : ℕ)
    (before : Option Envelope) (c : CommittedVersion) : Type 0 where
  pub number : c.version ≡ n
  pub envelope_number : c.envelope.version ≡ n
  pub envelope_capture : c.envelope.capture_id ≡ id
  pub envelope_hash : codec.verify_envelope c.envelope ≡ true
  pub event_hash : c.established_by.envelope_sha256 ≡ c.envelope.envelope_sha256
  pub proof : Proves c.established_by n c.envelope before

-- Versions `n`, `n + 1`, ... of one capture after the envelope `before`.
pub data Linked {Document : Type 0} (codec : Codec Document) (id : Text)
    : ℕ → Option Envelope → List CommittedVersion → Type 0 where
  no_more : {n : ℕ} {before : Option Envelope} → Linked codec id n before []
  linked :
      {n : ℕ} {before : Option Envelope} {c : CommittedVersion} {cs : List CommittedVersion}
      → Committed codec id n before c
      → Linked codec id (n + 1) (some c.envelope) cs
      → Linked codec id n before (c ∷ cs)

same_fields-eq :
    (e : CaptureEvent) (v : Envelope)
    → same_fields e v ≡ true
    → (e.version ≡ v.version) × (e.envelope_sha256 ≡ v.envelope_sha256)
unfolding same_fields
same_fields-eq e v h = (ground arith, text_eq→eq e.envelope_sha256 v.envelope_sha256 (ground arith))

-- The first event.
refers-first :
    (e : CaptureEvent) (v : Envelope) (n : ℕ)
    → v.version ≡ n
    → n ≡ 1
    → has_version_fields e ≡ true
    → refers e v none ≡ true
    → Proves e n v none
unfolding Proves refers same_fields created_refers has_version_fields
refers-first e v n hv hn h r = elim (Option-cases e.appended) [
  | inl created ↦ (created, hn)
  | inr (link, a) ↦ ground arith
]

refers-next :
    (e : CaptureEvent) (v earlier : Envelope) (n : ℕ)
    → v.version ≡ n
    → n ≡ earlier.version + 1
    → 1 ≤ earlier.version
    → has_version_fields e ≡ true
    → refers e v (some earlier) ≡ true
    → Proves e n v (some earlier)
unfolding Proves refers same_fields appended_refers has_version_fields is_number
refers-next e v earlier n hv he hn h r = elim (Option-cases e.appended) [
  | inl created ↦ ground arith
  | inr (link, a) ↦ (
    link,
    a,
    he,
    ground arith,
    text_eq→eq link.previous_envelope_sha256 earlier.envelope_sha256 (ground arith),
    ground arith,
  )
]

-- The envelope before version `n`.
unfoldable pub Precedes : Option Envelope → ℕ → Type 0
Precedes none n = n ≡ 1
Precedes (some earlier) n = (n ≡ earlier.version + 1) × (1 ≤ earlier.version)

pub refers-Proves :
    (e : CaptureEvent) (v : Envelope) (before : Option Envelope) (n : ℕ)
    → v.version ≡ n
    → Precedes before n
    → has_version_fields e ≡ true
    → refers e v before ≡ true
    → Proves e n v before
unfolding Precedes
refers-Proves e v none n hv p h r = refers-first e v n hv p h r
refers-Proves e v (some earlier) n hv (p, q) h r = refers-next e v earlier n hv p q h r

pub refers-envelope_sha256 :
    (e : CaptureEvent) (v : Envelope) (before : Option Envelope)
    → refers e v before ≡ true
    → e.envelope_sha256 ≡ v.envelope_sha256
unfolding refers same_fields
refers-envelope_sha256 e v before r = text_eq→eq e.envelope_sha256 v.envelope_sha256 (ground arith)

-- The version fields of all the events agree.
unfoldable pub EventsValid : List (ℕ × CaptureEvent) → Type 0
EventsValid [] = Unit
EventsValid ((n, e) ∷ rest) = (has_version_fields e ≡ true) × EventsValid rest

pub find-EventsValid :
    (by_version : List (ℕ × CaptureEvent)) (n : ℕ) (e : CaptureEvent)
    → EventsValid by_version
    → find n by_version ≡ some e
    → has_version_fields e ≡ true
unfolding EventsValid find
find-EventsValid [] n e valid h = cc
find-EventsValid ((m, a) ∷ rest) n e (va, vs) h = elim (Bool-cases (m == n)) [
  | inl same ↦ subst (λ x. has_version_fields x ≡ true) (ground arith) va
  | inr other ↦ find-EventsValid rest n e vs (ground arith)
]

snoc-EventsValid :
    (found : List (ℕ × CaptureEvent)) (n : ℕ) (e : CaptureEvent)
    → EventsValid found
    → has_version_fields e ≡ true
    → EventsValid (found ++ ((n, e) ∷ []))
unfolding EventsValid
snoc-EventsValid [] n e valid h = (h, tt)
snoc-EventsValid ((m, a) ∷ rest) n e (va, vs) h = (va, snoc-EventsValid rest n e vs h)

read_event-has_version_fields :
    {Document : Type 0} (codec : Codec Document) (document : Document) (e : CaptureEvent)
    → read_event codec document ≡ ok e
    → has_version_fields e ≡ true
unfolding read_event
read_event-has_version_fields codec document e h = ground arith

pub collect_events-EventsValid :
    {Document : Type 0} (codec : Codec Document) (documents : List Document)
    (found by_version : List (ℕ × CaptureEvent)) (ids : List Text)
    → EventsValid found
    → collect_events codec documents found ids ≡ ok by_version
    → EventsValid by_version
unfolding collect_events
collect_events-EventsValid codec [] found by_version ids valid h =
    subst EventsValid (ok_injective found by_version h) valid
collect_events-EventsValid codec (document ∷ rest) found by_version ids valid h =
    let (e, read, h1) = >>=-eq-ok (read_event codec document) _ h in
    let (passed, checked, h2) =
      >>=-eq-ok (raise_if (is_member e.version (keys found) || is_one_of e.event_id ids) _) _ h1 in
    collect_events-EventsValid codec rest (found ++ ((e.version, e) ∷ [])) by_version
      (ids ++ (e.event_id ∷ []))
      (snoc-EventsValid found e.version e valid
        (read_event-has_version_fields codec document e read))
      h2
