-- ===== src/Capture/Listing/Sorting.antt =====
-- The order of a listing: it is strict where no two candidates are of one capture, and the filter
-- of a cursor commutes with it.
use knowledge_flow.Common.{◌≡◌, refl, inl, inr, Bool, true, false, List, []}
use knowledge_flow.Common.{◌∷◌, arith, if◌then◌else◌, Bool-cases, if-both, All}
use knowledge_flow.Common.Text.{text_eq}
use knowledge_flow.Capture.Commit.Append.{◌then◌}
use knowledge_flow.Capture.Listing.{
  SortKey, ListCandidate, sort_key, key_lt, filter_candidates, insert_candidate, sort_candidates,
}
use knowledge_flow.Capture.Listing.Order.{key_lt_trans, key_lt_irrefl, key_lt_total}

-- Each candidate stands above all that follow.
unfoldable pub Descending : List ListCandidate → Type 0
Descending [] = Unit
Descending (c ∷ cs) = All (λ d. key_lt (sort_key d) (sort_key c) ≡ true) cs × Descending cs

-- No two candidates are of one capture.
unfoldable pub OneEach : List ListCandidate → Type 0
OneEach [] = Unit
OneEach (c ∷ cs) = All (λ d. text_eq c.capture_id d.capture_id ≡ false) cs × OneEach cs

filter-All :
    (P : ListCandidate → Type 0) (p : ListCandidate → Bool) (cs : List ListCandidate)
    → All P cs
    → All P (filter_candidates p cs)
unfolding filter_candidates
filter-All P p [] h = tt
filter-All P p (c ∷ cs) (hc, hs) =
    if-both (All P) (p c) _ _ (λ kept. (hc, filter-All P p cs hs)) (λ left. filter-All P p cs hs)

pub filter-OneEach :
    (p : ListCandidate → Bool) (cs : List ListCandidate)
    → OneEach cs
    → OneEach (filter_candidates p cs)
unfolding OneEach filter_candidates
filter-OneEach p [] h = tt
filter-OneEach p (c ∷ cs) (hc, hs) =
    if-both OneEach (p c) _ _ (λ kept. (filter-All _ p cs hc, filter-OneEach p cs hs))
      (λ left. filter-OneEach p cs hs)

insert-All :
    (P : ListCandidate → Type 0) (c : ListCandidate) (cs : List ListCandidate)
    → P c
    → All P cs
    → All P (insert_candidate c cs)
unfolding insert_candidate
insert-All P c [] hc h = (hc, tt)
insert-All P c (d ∷ ds) hc (hd, hs) =
    if-both (All P) (key_lt (sort_key c) (sort_key d)) _ _ (λ below. (hd, insert-All P c ds hc hs))
      (λ above. (hc, (hd, hs)))

sort-All :
    (P : ListCandidate → Type 0) (cs : List ListCandidate) → All P cs → All P (sort_candidates cs)
unfolding sort_candidates
sort-All P [] h = tt
sort-All P (c ∷ cs) (hc, hs) = insert-All P c (sort_candidates cs) hc (sort-All P cs hs)

below-All :
    (c d : ListCandidate) (ds : List ListCandidate)
    → key_lt (sort_key d) (sort_key c) ≡ true
    → All (λ x. key_lt (sort_key x) (sort_key d) ≡ true) ds
    → All (λ x. key_lt (sort_key x) (sort_key c) ≡ true) ds
below-All c d [] h hs = tt
below-All c d (x ∷ xs) h (hx, hs) =
    (key_lt_trans (sort_key x) (sort_key d) (sort_key c) hx h, below-All c d xs h hs)

insert-Descending :
    (c : ListCandidate) (cs : List ListCandidate)
    → All (λ d. text_eq c.capture_id d.capture_id ≡ false) cs
    → Descending cs
    → Descending (insert_candidate c cs)
unfolding Descending insert_candidate
insert-Descending c [] other h = (tt, tt)
insert-Descending c (d ∷ ds) (od, os) (hd, hs) =
    elim (Bool-cases (key_lt (sort_key c) (sort_key d))) [
      | inl below ↦ rw (below) (insert-All _ c ds below hd, insert-Descending c ds os hs)
      | inr above ↦
          let higher = key_lt_total (sort_key c) (sort_key d) above od in
          rw (above) ((higher, below-All c d ds higher hd), (hd, hs))
    ]

pub sort-Descending : (cs : List ListCandidate) → OneEach cs → Descending (sort_candidates cs)
unfolding OneEach sort_candidates Descending
sort-Descending [] h = tt
sort-Descending (c ∷ cs) (hc, hs) =
    insert-Descending c (sort_candidates cs) (sort-All _ cs hc) (sort-Descending cs hs)

insert-top :
    (c : ListCandidate) (cs : List ListCandidate)
    → All (λ d. key_lt (sort_key c) (sort_key d) ≡ false) cs
    → insert_candidate c cs ≡ c ∷ cs
unfolding insert_candidate
insert-top c [] h = refl
insert-top c (d ∷ ds) (hd, hs) = rw (hd) refl

pub not_below : (a b : SortKey) → key_lt b a ≡ true → key_lt a b ≡ false
not_below a b h = ground (arith, key_lt_trans a b a, key_lt_irrefl a)

above-All :
    (c d : ListCandidate) (ds : List ListCandidate)
    → key_lt (sort_key c) (sort_key d) ≡ false
    → All (λ x. key_lt (sort_key x) (sort_key d) ≡ true) ds
    → All (λ x. key_lt (sort_key c) (sort_key x) ≡ false) ds
above-All c d [] h hs = tt
above-All c d (x ∷ xs) h (hx, hs) =
    (ground (arith, key_lt_trans (sort_key c) (sort_key x) (sort_key d)), above-All c d xs h hs)

filter-insert :
    (p : ListCandidate → Bool) (c : ListCandidate) (cs : List ListCandidate)
    → Descending cs
    → filter_candidates p (insert_candidate c cs)
      ≡ (if p c then insert_candidate c (filter_candidates p cs) else filter_candidates p cs)
unfolding Descending filter_candidates insert_candidate
filter-insert p c [] h = refl
filter-insert p c (d ∷ ds) (hd, hs) = elim (Bool-cases (key_lt (sort_key c) (sort_key d))) [
  | inl below ↦ let rest = filter-insert p c ds hs in ground (arith, rest)
  | inr above ↦
      let top = insert-top c (filter_candidates p ds) (
        filter-All (λ x. key_lt (sort_key c) (sort_key x) ≡ false) p ds
          (above-All c d ds above hd)) in
      ground (arith, top)
]

-- The filter may as well come after the sorting.
pub sort-filter :
    (p : ListCandidate → Bool) (cs : List ListCandidate)
    → OneEach cs
    → sort_candidates (filter_candidates p cs) ≡ filter_candidates p (sort_candidates cs)
unfolding OneEach sort_candidates filter_candidates
sort-filter p [] h = refl
sort-filter p (c ∷ cs) (hc, hs) =
    let commuted = filter-insert p c (sort_candidates cs) (sort-Descending cs hs) in
    let rest = sort-filter p cs hs in
    elim (Bool-cases (p c)) [
      | inl kept ↦ ground (arith, commuted, rest)
      | inr left ↦ ground (arith, commuted, rest)
    ]
