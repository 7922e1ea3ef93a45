-- ===== src/Capture/Chain/Built.antt =====
use mathlib.Core.Path.{subst}
-- `_build_capture_version_chain` of src/knowledgeflow_capture/store.py: the chain that it builds.
use knowledge_flow.Common.{ℕ, zero, suc, ◌+◌, ◌≤◌, ◌<◌, ◌≡◌, refl, ap}
use knowledge_flow.Common.{◌∙◌, true, not, ◌&&◌, Option, none, some, List, []}
use knowledge_flow.Common.{◌∷◌, arith, ◌==◌, length, get_elem?, all, AllOption}
use knowledge_flow.Common.Text.{Text, text_eq, text_eq→eq}
use knowledge_flow.Common.Result.{ok, raise_if, map_result, >>=-eq-ok, ok_injective}
use knowledge_flow.Common.Value.{Value, str}
use knowledge_flow.Ids.{capture, validate_typed_id}
use knowledge_flow.Capture.Chain.{
  Envelope, CaptureEvent, Codec, refers, CommittedVersion, VersionChain,
  parse_capture_version_directory_name, sorted, is_member,
}
use knowledge_flow.Capture.Chain.{distinct, find, collect_events, range, numbers_eq, keys}
use knowledge_flow.Capture.Chain.Read.{
  is_prefix_from_one, read_versions, build_capture_version_chain, version_at, ReadState,
  rebuild_capture_read_state, read_version, from_present, incomplete_tail,
}
use knowledge_flow.Capture.Chain.Read.{
  uncommitted, last_number, starts_at_one, envelopes_in_directories, last_version, read_state_of,
}
use knowledge_flow.Capture.Chain.Laws.{
  Committed, Linked, no_more, linked, Precedes, EventsValid, find-EventsValid,
  collect_events-EventsValid, refers-Proves,
}
use knowledge_flow.Capture.Chain.Laws.{refers-envelope_sha256}

read_version-Committed :
    {Document : Type 0} (codec : Codec Document) (id : Text) (envelopes : List (ℕ × Document))
    (by_version : List (ℕ × CaptureEvent)) (before : Option Envelope) (n : ℕ) (c : CommittedVersion)
    → EventsValid by_version
    → Precedes before n
    → read_version codec id envelopes by_version before n ≡ ok c
    → Committed codec id n before c
unfolding read_version
read_version-Committed codec id envelopes by_version before n c valid p h =
    let (document, found, h1) = >>=-eq-ok (from_present (find n envelopes) _) _ h in
    let (v, read, h2) = >>=-eq-ok (from_present (codec.validate_envelope document) _) _ h1 in
    let (p1, hashed, h3) = >>=-eq-ok (raise_if (not (codec.verify_envelope v)) _) _ h2 in
    let (p2, placed, h4) =
      >>=-eq-ok (raise_if (not (text_eq v.capture_id id && v.version == n)) _) _ h3 in
    let (e, present, h5) = >>=-eq-ok (from_present (find n by_version) _) _ h4 in
    let (p3, proves, h6) = >>=-eq-ok (raise_if (not (refers e v before)) _) _ h5 in
    let made : record { version = n; envelope = v; established_by = e } ≡ c = ok_injective _ c h6 in
    let number : v.version ≡ n = ground arith in
    let refers_to : refers e v before ≡ true = ground arith in
    let event_found : find n by_version ≡ some e = ground arith in
    subst (Committed codec id n before) made (record {
      number = refl;
      envelope_number = number;
      envelope_capture = text_eq→eq v.capture_id id (ground arith);
      envelope_hash = ground arith;
      event_hash = refers-envelope_sha256 e v before refers_to;
      proof =
          refers-Proves e v before n number p (find-EventsValid by_version n e valid event_found)
            refers_to;
    })

-- The numbers are consecutive.
read_versions-Linked :
    {Document : Type 0} (codec : Codec Document) (id : Text) (envelopes : List (ℕ × Document))
    (by_version : List (ℕ × CaptureEvent)) (before : Option Envelope) (n count : ℕ)
    (cs : List CommittedVersion)
    → EventsValid by_version
    → Precedes before n
    → 1 ≤ n
    → read_versions codec id envelopes by_version before (range n count) ≡ ok cs
    → Linked codec id n before cs × (length cs ≡ count)
unfolding read_versions range Precedes
read_versions-Linked codec id envelopes by_version before n zero cs valid p b h =
    subst (λ xs. Linked codec id n before xs × (length xs ≡ 0)) (ok_injective [] cs h)
      (no_more, refl)
read_versions-Linked codec id envelopes by_version before n (suc count) cs valid p b h =
    let (c, one, h1) = >>=-eq-ok (read_version codec id envelopes by_version before n) _ h in
    let (ds, more, h2) =
      >>=-eq-ok
        (read_versions codec id envelopes by_version (some c.envelope) (range (n + 1) count)) _
        h1 in
    let first_one = read_version-Committed codec id envelopes by_version before n c valid p one in
    let (rest, size) =
      read_versions-Linked codec id envelopes by_version (some c.envelope) (n + 1) count ds valid
        (ground (arith, first_one.envelope_number), ground (arith, first_one.envelope_number))
        (ground arith) more in
    subst (λ xs. Linked codec id n before xs × (length xs ≡ suc count))
      (ok_injective (c ∷ ds) cs h2) (linked first_one rest, ap suc size)

numbers_eq→eq : (ns ms : List ℕ) → numbers_eq ns ms ≡ true → ns ≡ ms
unfolding numbers_eq
numbers_eq→eq [] [] h = refl
numbers_eq→eq [] (m ∷ ms) h = cc
numbers_eq→eq (n ∷ ns) [] h = cc
numbers_eq→eq (n ∷ ns) (m ∷ ms) h = ground (arith, numbers_eq→eq ns ms)

last_number-range : (n m count : ℕ) → last_number m (range n (suc count)) ≡ n + count
unfolding last_number range
last_number-range n m zero = ground arith
last_number-range n m (suc count) = ground (arith, last_number-range (n + 1) n count)

is_prefix_from_one-range :
    (numbers : List ℕ)
    → is_prefix_from_one numbers ≡ true
    → (count : ℕ) × (numbers ≡ range 1 (suc count))
unfolding is_prefix_from_one
is_prefix_from_one-range [] h = cc
is_prefix_from_one-range (n ∷ ns) h =
    let same : n ∷ ns ≡ range 1 (last_number n ns) =
      numbers_eq→eq (n ∷ ns) (range 1 (last_number n ns)) h in
    from_count (last_number n ns) same
  where
    from_count : (k : ℕ) → n ∷ ns ≡ range 1 k → (count : ℕ) × (n ∷ ns ≡ range 1 (suc count))
    from_count zero e = cc
    from_count (suc k) e = (k, e)

-- What a built chain is: its versions are 1, 2, ..., of its capture, each established by its event
-- and linked to the one before; a version that is not complete is the next one.
pub record BuiltChain {Document : Type 0} (codec : Codec Document) (capture_id : Text)
    (chain : VersionChain) : Type 0 where
  pub same_capture : chain.capture_id ≡ capture_id
  pub versions_linked : Linked codec capture_id 1 none chain.versions
  pub some_version : 1 ≤ length chain.versions
  pub next_is_incomplete : AllOption (λ n. n ≡ length chain.versions + 1) chain.incomplete_version

incomplete_tail-next :
    (left : List ℕ) (tail : ℕ) (incomplete : Option ℕ)
    → incomplete_tail left tail ≡ ok incomplete
    → AllOption (λ n. n ≡ tail) incomplete
unfolding incomplete_tail
incomplete_tail-next [] tail none h = tt
incomplete_tail-next [] tail (some n) h = cc
incomplete_tail-next (m ∷ []) tail none h = tt
incomplete_tail-next (m ∷ []) tail (some n) h = ground arith
incomplete_tail-next (m ∷ k ∷ ms) tail incomplete h = cc

made-BuiltChain :
    {Document : Type 0} (codec : Codec Document) (id : Text) (envelopes : List (ℕ × Document))
    (by_version : List (ℕ × CaptureEvent)) (left numbers : List ℕ) (incomplete : Option ℕ)
    (versions : List CommittedVersion)
    → EventsValid by_version
    → is_prefix_from_one numbers ≡ true
    → incomplete_tail left (last_number 0 numbers + 1) ≡ ok incomplete
    → read_versions codec id envelopes by_version none numbers ≡ ok versions
    → BuiltChain codec id
        (record { capture_id = id; versions = versions; incomplete_version = incomplete })
unfolding Precedes
made-BuiltChain codec id envelopes by_version left numbers incomplete versions valid prefixed tail
      all_read =
    let (count, same) = is_prefix_from_one-range numbers prefixed in
    let (all_linked, size) =
      read_versions-Linked codec id envelopes by_version none 1 (suc count) versions valid refl
        (ground arith)
        (subst (λ ns. read_versions codec id envelopes by_version none ns ≡ ok versions) same
          all_read) in
    let at_tail : last_number 0 numbers ≡ length versions =
      ap (last_number 0) same ∙ last_number-range 1 0 count ∙ ground (arith, size) in
    record {
      same_capture = refl;
      versions_linked = all_linked;
      some_version = ground (arith, size);
      next_is_incomplete =
          subst (λ k. AllOption (λ n. n ≡ k + 1) incomplete) at_tail
            (incomplete_tail-next left (last_number 0 numbers + 1) incomplete tail);
    }

-- Every chain that `_build_capture_version_chain` returns is of the given capture and has at least
-- one version; its versions are numbered from 1 without a gap, each with an envelope of that
-- number, of that capture and with its own hash, and an event with the hash of the envelope; the
-- first event is a creation, and every later one holds the number and the hash of the envelope
-- before; an incomplete version is the one after the last.
pub build_capture_version_chain-BuiltChain :
    {Document : Type 0} (codec : Codec Document) (capture_id : Text) (names : List Value)
    (envelopes : List (ℕ × Document)) (documents : List Document) (chain : VersionChain)
    → build_capture_version_chain codec capture_id names envelopes documents ≡ ok chain
    → BuiltChain codec capture_id chain
unfolding build_capture_version_chain EventsValid
build_capture_version_chain-BuiltChain codec capture_id names envelopes documents chain h =
    let (uuid, typed, h1) = >>=-eq-ok (validate_typed_id (str capture_id) capture) _ h in
    let (parsed, read, h2) =
      >>=-eq-ok (map_result parse_capture_version_directory_name names) _ h1 in
    let directories = sorted parsed in
    let (p1, starts, h3) = >>=-eq-ok (raise_if (not (starts_at_one directories)) _) _ h2 in
    let (p2, unique, h4) = >>=-eq-ok (raise_if (not (distinct directories)) _) _ h3 in
    let (p3, inside, h5) =
      >>=-eq-ok (raise_if (not (envelopes_in_directories envelopes directories)) _) _ h4 in
    let (by_version, collected, h6) = >>=-eq-ok (collect_events codec documents [] []) _ h5 in
    let numbers = sorted (keys by_version) in
    let (p4, prefixed, h7) = >>=-eq-ok (raise_if (not (is_prefix_from_one numbers)) _) _ h6 in
    let (p5, placed, h8) =
      >>=-eq-ok (raise_if (not (all (λ n. is_member n directories) numbers)) _) _ h7 in
    let (incomplete, tail, h9) =
      >>=-eq-ok (incomplete_tail (uncommitted directories numbers) (last_number 0 numbers + 1)) _
        h8 in
    let (versions, all_read, h10) =
      >>=-eq-ok (read_versions codec capture_id envelopes by_version none numbers) _ h9 in
    subst (BuiltChain codec capture_id) (ok_injective _ chain h10) (
      made-BuiltChain codec capture_id envelopes by_version (uncommitted directories numbers)
        numbers incomplete versions
        (collect_events-EventsValid codec documents [] by_version [] tt collected) (ground arith)
        tail all_read)

get_elem-Linked :
    {Document : Type 0} (codec : Codec Document) (id : Text) (n k : ℕ) (before : Option Envelope)
    (cs : List CommittedVersion)
    → Linked codec id n before cs
    → k < length cs
    → (c : CommittedVersion) × (get_elem? cs k ≡ some c) × (c.version ≡ n + k)
get_elem-Linked codec id n k before [] no_more h = ground arith
get_elem-Linked codec id n zero before (c ∷ cs) (linked one more) h =
    (c, refl, ground (arith, one.number))
get_elem-Linked codec id n (suc k) before (c ∷ cs) (linked one more) h =
    let (d, at_k, number) =
      get_elem-Linked codec id (n + 1) k (some c.envelope) cs more (ground arith) in
    (d, at_k, ground (arith, number))

-- For a built chain, `version` finds every number from 1 to the number of versions, and the
-- version found has that number.
pub version_at-BuiltChain :
    {Document : Type 0} (codec : Codec Document) (capture_id : Text) (chain : VersionChain) (k : ℕ)
    → BuiltChain codec capture_id chain
    → 1 ≤ k
    → k ≤ length chain.versions
    → (c : CommittedVersion) × (version_at chain k ≡ some c) × (c.version ≡ k)
unfolding version_at
version_at-BuiltChain codec capture_id chain zero built low high = ground arith
version_at-BuiltChain codec capture_id chain (suc k) built low high =
    let (c, at_k, number) =
      get_elem-Linked codec capture_id 1 k none chain.versions built.versions_linked
        (ground arith) in
    (c, rw (at_k, version_at) (ground (arith, number)), ground (arith, number))

last_version-Linked :
    {Document : Type 0} (codec : Codec Document) (id : Text) (n : ℕ) (before : Option Envelope)
    (c : CommittedVersion) (cs : List CommittedVersion)
    → Linked codec id n before (c ∷ cs)
    → (last_version c cs).version ≡ n + length cs
unfolding last_version
last_version-Linked codec id n before c [] (linked one more) = ground (arith, one.number)
last_version-Linked codec id n before c (d ∷ ds) (linked one more) =
    ground (arith, last_version-Linked codec id (n + 1) (some c.envelope) d ds more)

-- For a built chain, `_rebuild_capture_read_state` returns a state, which is of the same capture
-- and whose current version is the number of versions.
pub rebuild_capture_read_state-BuiltChain :
    {Document : Type 0} (codec : Codec Document) (capture_id : Text) (chain : VersionChain)
    → BuiltChain codec capture_id chain
    → (state : ReadState) × (rebuild_capture_read_state chain ≡ ok state)
      × (state.capture_id ≡ capture_id)
      × (state.current_version ≡ length chain.versions)
unfolding rebuild_capture_read_state read_state_of
rebuild_capture_read_state-BuiltChain codec capture_id chain built =
    of_versions chain.versions built.versions_linked built.some_version
  where
    of_versions :
        (cs : List CommittedVersion)
        → Linked codec capture_id 1 none cs
        → 1 ≤ length cs
        → (state : ReadState) × (read_state_of chain.capture_id cs ≡ ok state)
          × (state.capture_id ≡ capture_id)
          × (state.current_version ≡ length cs)
    of_versions [] chained h = ground arith
    of_versions (c ∷ cs) chained h = (
      _,
      refl,
      built.same_capture,
      ground (arith, last_version-Linked codec capture_id 1 none c cs chained),
    )
