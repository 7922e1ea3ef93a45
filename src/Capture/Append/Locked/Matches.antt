-- ===== src/Capture/Append/Locked/Matches.antt =====
use mathlib.Core.Path.{subst}
-- What a commit changes in what `_scan_append_store` of src/knowledgeflow_capture/operations.py finds.
use knowledge_flow.Common.{ℕ, ◌≡◌, refl, sym, ap, ◌∙◌, inl, inr, Bool}
use knowledge_flow.Common.{true, false, Option, none, some, List, [], ◌∷◌, ◌++◌}
use knowledge_flow.Common.{map, arith, if◌then◌else◌, Bool-cases, Option-cases, any}
use knowledge_flow.Common.Text.{Text, text_eq}
use knowledge_flow.Capture.Commit.Append.{◌then◌}
use knowledge_flow.Capture.Chain.{Envelope, CommittedVersion, RequestIdentity}
use knowledge_flow.Capture.Append.{
  DiskChain, conflicts_with, hits, versions_matching, committed_matching, TailObservation,
  decidable_append_tail_identity, current_of, tails_of,
}
use knowledge_flow.Capture.Append.{version_conflicts, observe_tail, tail_identity}
use knowledge_flow.Capture.Append.Locked.{find_chain, update_chain, find_tail}

append-nil : {A : Type 0} (xs ys : List A) → xs ++ ys ≡ [] → (xs ≡ []) × (ys ≡ [])
append-nil [] ys h = (refl, h)
append-nil (x ∷ xs) ys h = cc

pub hits-no_conflict :
    (wanted : RequestIdentity) (given : Option RequestIdentity)
    → hits wanted given ≡ true
    → conflicts_with wanted given ≡ false
unfolding hits conflicts_with
hits-no_conflict wanted none h = refl
hits-no_conflict wanted (some given) h = ground arith

versions_matching-snoc :
    (wanted : RequestIdentity) (cs : List CommittedVersion) (c : CommittedVersion)
    → versions_matching wanted cs ≡ []
    → hits wanted c.envelope.idempotency ≡ true
    → versions_matching wanted (cs ++ (c ∷ [])) ≡ c ∷ []
unfolding versions_matching
versions_matching-snoc wanted [] c e h = rw (h) refl
versions_matching-snoc wanted (d ∷ ds) c e h = ground (arith, versions_matching-snoc wanted ds c)

version_conflicts-snoc :
    (wanted : RequestIdentity) (cs : List CommittedVersion) (c : CommittedVersion)
    → version_conflicts wanted cs ≡ false
    → conflicts_with wanted c.envelope.idempotency ≡ false
    → version_conflicts wanted (cs ++ (c ∷ [])) ≡ false
unfolding version_conflicts
version_conflicts-snoc wanted [] c e h = rw (h) refl
version_conflicts-snoc wanted (d ∷ ds) c e h = ground (arith, version_conflicts-snoc wanted ds c)

-- A chain with one more committed version and no tail
unfoldable pub extended : CommittedVersion → DiskChain → DiskChain
extended c d = record {
  chain = record {
    capture_id = d.chain.capture_id;
    versions = d.chain.versions ++ (c ∷ []);
    incomplete_version = none;
  };
  tail_envelope = none;
}

-- The request is found once.
pub committed_matching-update_chain :
    (wanted : RequestIdentity) (id : Text) (c : CommittedVersion) (d : DiskChain)
    (chains : List DiskChain)
    → find_chain id chains ≡ some d
    → committed_matching wanted chains ≡ []
    → hits wanted c.envelope.idempotency ≡ true
    → committed_matching wanted (update_chain id (extended c) chains) ≡ c ∷ []
unfolding find_chain committed_matching update_chain extended
committed_matching-update_chain wanted id c d [] found e h = cc
committed_matching-update_chain wanted id c d (x ∷ xs) found e h =
    let (here, there) =
      append-nil (versions_matching wanted x.chain.versions) (committed_matching wanted xs) e in
    elim (Bool-cases (text_eq x.chain.capture_id id)) [
      | inl same ↦
          rw (same) (rw (versions_matching-snoc wanted x.chain.versions c here h, there) refl)
      | inr other ↦
          rw (other)
            (rw (here) (committed_matching-update_chain wanted id c d xs (ground arith) there h))
    ]

pub conflicts-update_chain :
    (wanted : RequestIdentity) (id : Text) (c : CommittedVersion) (chains : List DiskChain)
    → any (λ d. version_conflicts wanted d.chain.versions) chains ≡ false
    → conflicts_with wanted c.envelope.idempotency ≡ false
    → any (λ d. version_conflicts wanted d.chain.versions) (update_chain id (extended c) chains)
      ≡ false
unfolding update_chain extended
conflicts-update_chain wanted id c [] e h = refl
conflicts-update_chain wanted id c (x ∷ xs) e h =
    elim (Bool-cases (text_eq x.chain.capture_id id)) [
      | inl same ↦ rw (same) (ground (arith, version_conflicts-snoc wanted x.chain.versions c))
      | inr other ↦ rw (other) (ground (arith, conflicts-update_chain wanted id c xs))
    ]

tails_of-rest :
    (wanted : RequestIdentity) (verify_envelope : Envelope → Bool) (x : DiskChain)
    (xs : List DiskChain)
    → any (λ t. conflicts_with wanted t.identity) (tails_of verify_envelope (x ∷ xs)) ≡ false
    → any (λ t. conflicts_with wanted t.identity) (tails_of verify_envelope xs) ≡ false
unfolding tails_of
tails_of-rest wanted verify_envelope x xs e = ground arith

tails_of-cons :
    (wanted : RequestIdentity) (verify_envelope : Envelope → Bool) (x : DiskChain)
    (xs ys : List DiskChain)
    → any (λ t. conflicts_with wanted t.identity) (tails_of verify_envelope (x ∷ xs)) ≡ false
    → any (λ t. conflicts_with wanted t.identity) (tails_of verify_envelope ys) ≡ false
    → any (λ t. conflicts_with wanted t.identity) (tails_of verify_envelope (x ∷ ys)) ≡ false
unfolding tails_of
tails_of-cons wanted verify_envelope x xs ys e h = ground arith

-- No new tail comes up.
pub tail_conflicts-update_chain :
    (wanted : RequestIdentity) (verify_envelope : Envelope → Bool) (id : Text)
    (c : CommittedVersion) (chains : List DiskChain)
    → any (λ t. conflicts_with wanted t.identity) (tails_of verify_envelope chains) ≡ false
    → any
        (λ t. conflicts_with wanted t.identity)
        (tails_of verify_envelope (update_chain id (extended c) chains))
      ≡ false
unfolding update_chain extended tails_of
tail_conflicts-update_chain wanted verify_envelope id c [] e = refl
tail_conflicts-update_chain wanted verify_envelope id c (x ∷ xs) e =
    elim (Bool-cases (text_eq x.chain.capture_id id)) [
      | inl same ↦ rw (same) (tails_of-rest wanted verify_envelope x xs e)
      | inr other ↦ rw (other) (
          tails_of-cons wanted verify_envelope x xs (update_chain id (extended c) xs) e (
            tail_conflicts-update_chain wanted verify_envelope id c xs
              (tails_of-rest wanted verify_envelope x xs e)))
    ]

-- Where no event is there, no committed version changes.
pub map-update_chain :
    (id : Text) (change : DiskChain → DiskChain) (chains : List DiskChain)
    → ((d : DiskChain) → (change d).chain.versions ≡ d.chain.versions)
    → map (λ d. d.chain.versions) (update_chain id change chains)
      ≡ map (λ d. d.chain.versions) chains
unfolding update_chain
map-update_chain id change [] same = refl
map-update_chain id change (x ∷ xs) same = elim (Bool-cases (text_eq x.chain.capture_id id)) [
  | inl here ↦ rw (here) (ap (λ vs. vs ∷ map (λ d. d.chain.versions) xs) (same x))
  | inr there ↦
      rw (there) (ap (λ rest. x.chain.versions ∷ rest) (map-update_chain id change xs same))
]

no_hit : {P : Type 0} (wanted : RequestIdentity) → hits wanted none ≡ true → P
unfolding hits
no_hit wanted h = cc

tail_identity-hits :
    (wanted : RequestIdentity) (given : Option RequestIdentity)
    → hits wanted (tail_identity given) ≡ true
    → hits wanted given ≡ true
unfolding hits tail_identity
tail_identity-hits wanted none h = cc
tail_identity-hits wanted (some given) h = ground arith

decidable-hits :
    (wanted : RequestIdentity) (verify_envelope : Envelope → Bool) (tail : Envelope) (id : Text)
    (n : ℕ) (earlier : Envelope)
    → hits wanted (decidable_append_tail_identity verify_envelope tail id n earlier) ≡ true
    → hits wanted tail.idempotency ≡ true
unfolding decidable_append_tail_identity
decidable-hits wanted verify_envelope tail id n earlier h =
    tail_identity-hits wanted tail.idempotency (if_hits _ h)
  where
    if_hits :
        (b : Bool)
        → hits wanted (if b then tail_identity tail.idempotency else none) ≡ true
        → hits wanted (tail_identity tail.idempotency) ≡ true
    if_hits true k = k
    if_hits false k = no_hit wanted k

observe_tail-hits :
    (wanted : RequestIdentity) (verify_envelope : Envelope → Bool) (d : DiskChain)
    (current : Option CommittedVersion) (n : ℕ) (tail : Envelope)
    → d.tail_envelope ≡ some tail
    → hits wanted (observe_tail verify_envelope d current n).identity ≡ true
    → hits wanted tail.idempotency ≡ true
unfolding observe_tail
observe_tail-hits wanted verify_envelope d none n tail e h =
    no_hit wanted (subst (λ o. hits wanted (elim o [ none ↦ none | some x ↦ none ]) ≡ true) e h)
observe_tail-hits wanted verify_envelope d (some c) n tail e h =
    decidable-hits wanted verify_envelope tail d.chain.capture_id n c.envelope (
      subst
        (λ o.
          hits wanted (elim o [
            | none ↦ none
            | some x ↦
                decidable_append_tail_identity verify_envelope x d.chain.capture_id n c.envelope
          ])
          ≡ true)
        e h)

-- The identity of a tail that is found is the one in its envelope.
pub find_tail-hits :
    (wanted : RequestIdentity) (verify_envelope : Envelope → Bool) (id : Text)
    (chains : List DiskChain) (t : TailObservation) (tail : Envelope)
    → find_tail id (tails_of verify_envelope chains) ≡ some t
    → t.envelope ≡ some tail
    → hits wanted t.identity ≡ true
    → hits wanted tail.idempotency ≡ true
unfolding find_tail tails_of observe_tail
find_tail-hits wanted verify_envelope id [] t tail found e h = cc
find_tail-hits wanted verify_envelope id (x ∷ xs) t tail found e h =
    elim (Option-cases x.chain.incomplete_version) [
      | inl whole ↦ find_tail-hits wanted verify_envelope id xs t tail (ground arith) e h
      | inr (n, open_tail) ↦ elim (Bool-cases (text_eq x.chain.capture_id id)) [
        | inl same ↦
            let seen : observe_tail verify_envelope x (current_of x.chain.versions) n ≡ t =
              ground arith in
            observe_tail-hits wanted verify_envelope x (current_of x.chain.versions) n tail
              (ap (λ w. w.envelope) seen ∙ e)
              (subst (λ w. hits wanted w.identity ≡ true) (sym seen) h)
        | inr other ↦ find_tail-hits wanted verify_envelope id xs t tail (ground arith) e h
      ]
    ]
