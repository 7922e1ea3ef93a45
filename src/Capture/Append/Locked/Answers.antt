-- ===== src/Capture/Append/Locked/Answers.antt =====
-- What the result of `_append_while_locked` of src/knowledgeflow_capture/operations.py says of the
-- store, on every way through it.
use mathlib.Core.Path.{subst}
use knowledge_flow.Common.{String, ◌≡◌, refl, ap, ◌∙◌, inl, Bool, true, false}
use knowledge_flow.Common.{not, Option, none, some, List, [], ◌∷◌, arith, ◌==◌}
use knowledge_flow.Common.{if◌then◌else◌, if-both}
use knowledge_flow.Common.Text.{text_eq_refl}
use knowledge_flow.Capture.Inbox.{not_committed, unknown}
use knowledge_flow.Capture.Commit.Append.{◌then◌}
use knowledge_flow.Capture.Chain.{Envelope, CommittedVersion, RequestIdentity}
use knowledge_flow.Capture.Append.{
  DiskChain, Incoming, PayloadCheck, payload_attested, payload_invalid, payload_unreadable,
  AppendEnvironment, append_receipt, matches_key,
}
use knowledge_flow.Capture.Append.{
  hits, committed_matching, TailObservation, scan_append_store, ScanResult, scanned, any_conflict,
  current_of, tails_of,
}
use knowledge_flow.Capture.Append.{tails_matching, resolve_scan, first_tail}
use knowledge_flow.Capture.Append.Locked.{
  AppendCandidate, build_append_candidate, adopt_append_tail_candidate, find_chain, find_tail,
  append_while_locked, with_tail, with_current, with_target,
}
use knowledge_flow.Capture.Append.Locked.{
  with_scan, replayed, adopt_or_refuse, refused, is_tail_of, tail_is_request,
}
use knowledge_flow.Capture.Append.Locked.Matches.{find_tail-hits}
use knowledge_flow.Capture.Append.Locked.Laws.{
  Held, SameVersions, Answers, Unseen, commit_into-Answers,
}

refused-Answers :
    (verify_envelope : Envelope → Bool) (wanted : RequestIdentity) (chains : List DiskChain)
    (code : String)
    → Answers verify_envelope wanted chains (refused chains code not_committed)
unfolding Answers SameVersions
refused-Answers verify_envelope wanted chains code = refl

hits_refl : (wanted : RequestIdentity) → hits wanted (some wanted) ≡ true
unfolding hits matches_key
hits_refl wanted = ground (
  arith,
  text_eq_refl wanted.scope,
  text_eq_refl wanted.key_sha256,
  text_eq_refl wanted.request_fingerprint_sha256,
)

adopt_append_tail_candidate-hits :
    (verify_envelope : Envelope → Bool) (env : AppendEnvironment) (request : Incoming)
    (t : TailObservation) (earlier : Envelope) (candidate : AppendCandidate)
    → adopt_append_tail_candidate verify_envelope env request t earlier ≡ some candidate
    → (t.envelope ≡ some candidate.envelope) × (hits request.identity t.identity ≡ true)
unfolding adopt_append_tail_candidate tail_is_request
adopt_append_tail_candidate-hits verify_envelope env request t earlier candidate h =
    (ground arith, ground arith)

with_tail-Answers :
    (verify_envelope : Envelope → Bool) (env : AppendEnvironment) (request : Incoming)
    (chains : List DiskChain) (current : Envelope) (d : DiskChain)
    (tail_match target_tail : Option TailObservation)
    → find_chain request.capture_id chains ≡ some d
    → Unseen verify_envelope request.identity chains
    → find_tail request.capture_id (tails_of verify_envelope chains) ≡ target_tail
    → Answers verify_envelope request.identity chains
        (with_tail verify_envelope env request chains current tail_match target_tail)
unfolding with_tail build_append_candidate adopt_or_refuse
with_tail-Answers verify_envelope env request chains current d tail_match (some tail) found unseen
      t =
    if-both (Answers verify_envelope request.identity chains)
      (not (is_tail_of request.capture_id tail_match)) _ _
      (λ other. refused-Answers verify_envelope request.identity chains "atomic_commit_failed")
      (λ same.
        if-both (Answers verify_envelope request.identity chains) env.adoption_raises _ _
          (λ raised.
            refused-Answers verify_envelope request.identity chains "capture_store_unavailable")
          (λ quiet.
            adopted (adopt_append_tail_candidate verify_envelope env request tail current) refl))
  where
    adopted :
        (o : Option AppendCandidate)
        → adopt_append_tail_candidate verify_envelope env request tail current ≡ o
        → Answers verify_envelope request.identity chains (adopt_or_refuse env request chains o)
    adopted none e = refused-Answers verify_envelope request.identity chains "atomic_commit_failed"
    adopted (some candidate) e =
        let (held, hit) =
          adopt_append_tail_candidate-hits verify_envelope env request tail current candidate e in
        commit_into-Answers verify_envelope env request chains candidate d true found unseen (
          find_tail-hits request.identity verify_envelope request.capture_id chains tail
            candidate.envelope t held hit)
with_tail-Answers verify_envelope env request chains current d (some other) none found unseen t =
    refused-Answers verify_envelope request.identity chains "integrity_check_failed"
with_tail-Answers verify_envelope env request chains current d none none found unseen t =
    commit_into-Answers verify_envelope env request chains
      (build_append_candidate env request current) d false found unseen (hits_refl request.identity)

with_current-Answers :
    (verify_envelope : Envelope → Bool) (env : AppendEnvironment) (request : Incoming)
    (chains : List DiskChain) (current : Option CommittedVersion) (d : DiskChain)
    (tail_match : Option TailObservation)
    → find_chain request.capture_id chains ≡ some d
    → Unseen verify_envelope request.identity chains
    → Answers verify_envelope request.identity chains (
        with_current verify_envelope env request chains current tail_match
          (tails_of verify_envelope chains))
unfolding with_current
with_current-Answers verify_envelope env request chains none d tail_match found unseen =
    refused-Answers verify_envelope request.identity chains "integrity_check_failed"
with_current-Answers verify_envelope env request chains (some current) d tail_match found unseen =
    by_payload env.current_payload
  where
    by_payload :
        (check : PayloadCheck)
        → Answers verify_envelope request.identity chains (elim check [
          | payload_invalid ↦ refused chains "integrity_check_failed" not_committed
          | payload_unreadable ↦ refused chains "capture_store_unavailable" not_committed
          | payload_attested ↦
              if not (current.version == request.expected_current_version)
              then refused chains "version_conflict" not_committed
              else with_tail verify_envelope env request chains current.envelope tail_match
                  (find_tail request.capture_id (tails_of verify_envelope chains))
        ])
    by_payload payload_invalid =
        refused-Answers verify_envelope request.identity chains "integrity_check_failed"
    by_payload payload_unreadable =
        refused-Answers verify_envelope request.identity chains "capture_store_unavailable"
    by_payload payload_attested =
        if-both (Answers verify_envelope request.identity chains)
          (not (current.version == request.expected_current_version)) _ _
          (λ stale. refused-Answers verify_envelope request.identity chains "version_conflict")
          (λ up_to_date.
            with_tail-Answers verify_envelope env request chains current.envelope d tail_match
              (find_tail request.capture_id (tails_of verify_envelope chains)) found unseen refl)

with_target-Answers :
    (verify_envelope : Envelope → Bool) (env : AppendEnvironment) (request : Incoming)
    (chains : List DiskChain) (target : Option DiskChain) (tail_match : Option TailObservation)
    → find_chain request.capture_id chains ≡ target
    → Unseen verify_envelope request.identity chains
    → Answers verify_envelope request.identity chains (
        with_target verify_envelope env request chains target tail_match
          (tails_of verify_envelope chains))
unfolding with_target
with_target-Answers verify_envelope env request chains none tail_match found unseen =
    refused-Answers verify_envelope request.identity chains "capture_not_found"
with_target-Answers verify_envelope env request chains (some d) tail_match found unseen =
    with_current-Answers verify_envelope env request chains (current_of d.chain.versions) d
      tail_match found unseen

replayed-Answers :
    (verify_envelope : Envelope → Bool) (env : AppendEnvironment) (wanted : RequestIdentity)
    (chains : List DiskChain) (c : CommittedVersion)
    → committed_matching wanted chains ≡ c ∷ []
    → any_conflict wanted chains (tails_of verify_envelope chains) ≡ false
    → Answers verify_envelope wanted chains (replayed env chains c)
unfolding Answers replayed Held SameVersions any_conflict
replayed-Answers verify_envelope env wanted chains c once free = by_payload env.match_payload
  where
    by_payload :
        (check : PayloadCheck)
        → Answers verify_envelope wanted chains (elim check [
          | payload_attested ↦ (chains, append_receipt c.envelope)
          | payload_invalid ↦ refused chains "integrity_check_failed" unknown
          | payload_unreadable ↦ refused chains "atomic_commit_failed" unknown
        ])
    by_payload payload_attested = (c, refl, once, ground arith, free)
    by_payload payload_invalid = inl refl
    by_payload payload_unreadable = inl refl

resolved-Answers :
    (verify_envelope : Envelope → Bool) (env : AppendEnvironment) (request : Incoming)
    (chains : List DiskChain) (found : List CommittedVersion) (tails : List TailObservation)
    → committed_matching request.identity chains ≡ found
    → any_conflict request.identity chains (tails_of verify_envelope chains) ≡ false
    → Answers verify_envelope request.identity chains (
        with_scan verify_envelope env request chains
          (resolve_scan found tails (tails_of verify_envelope chains)))
unfolding with_scan resolve_scan
resolved-Answers verify_envelope env request chains [] [] e free =
    with_target-Answers verify_envelope env request chains (find_chain request.capture_id chains)
      none refl (e, free)
resolved-Answers verify_envelope env request chains [] (t ∷ []) e free =
    with_target-Answers verify_envelope env request chains (find_chain request.capture_id chains)
      (some t) refl (e, free)
resolved-Answers verify_envelope env request chains [] (t ∷ u ∷ ts) e free =
    refused-Answers verify_envelope request.identity chains "integrity_check_failed"
resolved-Answers verify_envelope env request chains (c ∷ []) tails e free =
    replayed-Answers verify_envelope env request.identity chains c e free
resolved-Answers verify_envelope env request chains (c ∷ d ∷ cs) tails e free =
    refused-Answers verify_envelope request.identity chains "integrity_check_failed"

-- Whatever the environment of `_append_while_locked` does: after a receipt the chains hold exactly
-- one committed version with the request's scope, key and fingerprint, which is the one of the
-- receipt, and no version or tail with another request under that key; a failure that says `not-
-- committed` leaves the committed versions of every chain; one that says `unknown` leaves them, or
-- the chains hold the request exactly once in the same sense; no failure says `committed`.
pub append_while_locked-Answers :
    (verify_envelope : Envelope → Bool) (env : AppendEnvironment) (request : Incoming)
    (chains : List DiskChain)
    → Answers verify_envelope request.identity chains
        (append_while_locked verify_envelope env request chains)
unfolding append_while_locked scan_append_store with_scan
append_while_locked-Answers verify_envelope env request chains = by_scan env.scan_fails
  where
    by_scan :
        (fails : Option String)
        → Answers verify_envelope request.identity chains (elim fails [
          | some code ↦ refused chains code not_committed
          | none ↦
              with_scan verify_envelope env request chains
                (scan_append_store verify_envelope chains request.identity)
        ])
    by_scan (some code) = refused-Answers verify_envelope request.identity chains code
    by_scan none =
        if-both
          (λ (r : ScanResult).
            Answers verify_envelope request.identity chains
              (with_scan verify_envelope env request chains r))
          (any_conflict request.identity chains (tails_of verify_envelope chains)) _ _
          (λ other. refused-Answers verify_envelope request.identity chains "idempotency_conflict")
          (λ free.
            resolved-Answers verify_envelope env request chains
              (committed_matching request.identity chains)
              (tails_matching request.identity (tails_of verify_envelope chains)) refl free)

scan_append_store-once :
    (verify_envelope : Envelope → Bool) (wanted : RequestIdentity) (chains : List DiskChain)
    (c : CommittedVersion)
    → committed_matching wanted chains ≡ c ∷ []
    → any_conflict wanted chains (tails_of verify_envelope chains) ≡ false
    → (tail_match : Option TailObservation) × (scan_append_store verify_envelope chains wanted
        ≡ scanned (some c) tail_match (tails_of verify_envelope chains))
unfolding scan_append_store resolve_scan
scan_append_store-once verify_envelope wanted chains c once free =
    (first_tail (tails_matching wanted (tails_of verify_envelope chains)), rw (free, once) refl)

again_of_Held :
    (verify_envelope : Envelope → Bool) (env : AppendEnvironment) (request : Incoming)
    (chains : List DiskChain) (v : Envelope)
    → Held verify_envelope request.identity chains v
    → env.scan_fails ≡ none
    → env.match_payload ≡ payload_attested
    → append_while_locked verify_envelope env request chains ≡ (chains, append_receipt v)
unfolding Held append_while_locked with_scan replayed
again_of_Held verify_envelope env request chains v (c, same, once, alone, free) s p =
    let (tail_match, seen) =
      scan_append_store-once verify_envelope request.identity chains c once free in
    ap
      (λ (fails : Option String). elim fails [
        | some code ↦ refused chains code not_committed
        | none ↦
            with_scan verify_envelope env request chains
              (scan_append_store verify_envelope chains request.identity)
      ])
      s
    ∙ ap (λ r. with_scan verify_envelope env request chains r) seen
    ∙ ap
        (λ (check : PayloadCheck). elim check [
          | payload_attested ↦ (chains, append_receipt c.envelope)
          | payload_invalid ↦ refused chains "integrity_check_failed" unknown
          | payload_unreadable ↦ refused chains "atomic_commit_failed" unknown
        ])
        p
    ∙ ap (λ w. (chains, append_receipt w)) same

-- After `_append_while_locked` has given a receipt, the same request over the resulting chains
-- gives the same receipt and leaves the chains, in every environment in which the scan does not
-- raise and the payload of the version found is attested.
pub append_while_locked-again :
    (verify_envelope : Envelope → Bool) (env env' : AppendEnvironment) (request : Incoming)
    (chains chains' : List DiskChain) (v : Envelope)
    → append_while_locked verify_envelope env request chains ≡ (chains', append_receipt v)
    → env'.scan_fails ≡ none
    → env'.match_payload ≡ payload_attested
    → append_while_locked verify_envelope env' request chains' ≡ (chains', append_receipt v)
unfolding Answers
append_while_locked-again verify_envelope env env' request chains chains' v e s p =
    again_of_Held verify_envelope env' request chains' v
      (subst (Answers verify_envelope request.identity chains) e
        (append_while_locked-Answers verify_envelope env request chains))
      s p
