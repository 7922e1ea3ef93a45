-- ===== src/Capture/Listing/Follow.antt =====
use mathlib.Core.Path.{subst}
use knowledge_flow.Common.{ℕ, zero, suc, ◌≤◌, ◌≡◌, refl, sym, ap, ◌∙◌}
use knowledge_flow.Common.{inl, inr, true, false, Option, none, some, List, []}
use knowledge_flow.Common.{◌∷◌, ◌++◌, arith, ltb, Bool-cases, length, take, drop}
use knowledge_flow.Capture.Listing.{
  SortKey, ListCandidate, sort_key, key_lt, ListRequest, is_listed, filter_candidates,
  sort_candidates, last_key,
}
use knowledge_flow.Capture.Listing.{ListResult, page_of, follow}
use knowledge_flow.Capture.Listing.Sorting.{Descending, OneEach, filter-OneEach, sort-Descending}
use knowledge_flow.Capture.Listing.Laws.{
  filter-behind, ordered, ordered-cursor, last_key-append, last_key-take, length-drop, take-whole,
  take-drop,
}

-- Following the cursors of `_run_list_captures` of src/knowledgeflow_capture/operations.py.

shown : ListRequest → List ListCandidate → ℕ → ListResult → List ListCandidate
unfolding follow
shown request candidates fuel page =
    page.items
    ++ elim page.next_cursor [ none ↦ [] | some key ↦ follow request candidates fuel (some key) ]

shown-last :
    (request : ListRequest) (candidates rest : List ListCandidate) (fuel : ℕ)
    → ltb request.limit (length rest) ≡ false
    → shown request candidates fuel (page_of request rest) ≡ rest
unfolding shown page_of
shown-last request candidates rest fuel h = rw (h) (take-whole request.limit rest (ground arith))

shown-more :
    (request : ListRequest) (candidates rest : List ListCandidate) (fuel : ℕ) (k : SortKey)
    → ltb request.limit (length rest) ≡ true
    → last_key (take request.limit rest) ≡ some k
    → follow request candidates fuel (some k) ≡ drop request.limit rest
    → shown request candidates fuel (page_of request rest) ≡ rest
unfolding shown page_of
shown-more request candidates rest fuel k h last behind =
    rw (h, last) (ap (λ cs. take request.limit rest ++ cs) behind ∙ take-drop request.limit rest)

append_assoc : (us ts vs : List ListCandidate) → us ++ (ts ++ vs) ≡ (us ++ ts) ++ vs
append_assoc [] ts vs = refl
append_assoc (u ∷ us) ts vs = ap (λ rest. u ∷ rest) (append_assoc us ts vs)

-- The candidates behind the page
ordered-behind :
    (request : ListRequest) (candidates us rest : List ListCandidate) (k : SortKey)
    → OneEach candidates
    → ordered request candidates none ≡ us ++ rest
    → last_key (take request.limit rest) ≡ some k
    → (ordered request candidates none ≡ (us ++ take request.limit rest) ++ drop request.limit rest)
      × (ordered request candidates (some k) ≡ drop request.limit rest)
unfolding ordered
ordered-behind request candidates us rest k one whole last =
    let front = us ++ take request.limit rest in
    let back = drop request.limit rest in
    let split : ordered request candidates none ≡ front ++ back =
      whole
      ∙ ap (λ cs. us ++ cs) (sym (take-drop request.limit rest))
      ∙ append_assoc us (take request.limit rest) back in
    let descending : Descending (front ++ back) = subst Descending split (
      sort-Descending (filter_candidates (is_listed request none) candidates)
        (filter-OneEach (is_listed request none) candidates one)) in
    (
      split,
      ordered-cursor request candidates k one
          ∙ ap (filter_candidates (λ c. key_lt (sort_key c) k)) split
          ∙ filter-behind front back k descending
              (last_key-append us (take request.limit rest) k last),
    )

follow-rest :
    (request : ListRequest) (candidates us rest : List ListCandidate) (cursor : Option SortKey)
    (fuel : ℕ)
    → OneEach candidates
    → 1 ≤ request.limit
    → length rest ≤ fuel
    → ordered request candidates none ≡ us ++ rest
    → ordered request candidates cursor ≡ rest
    → follow request candidates fuel cursor ≡ rest
unfolding follow shown ordered
follow-rest request candidates us [] cursor zero one l f whole behind = refl
follow-rest request candidates us (r ∷ rs) cursor zero one l f whole behind = ground arith
follow-rest request candidates us rest cursor (suc fuel) one l f whole behind =
    ap (λ cs. shown request candidates fuel (page_of request cs)) behind
    ∙ elim (Bool-cases (ltb request.limit (length rest))) [
      | inl more ↦
          let (k, last) = last_key-take request.limit rest l (ground arith) in
          let (split, next_behind) = ordered-behind request candidates us rest k one whole last in
          shown-more request candidates rest fuel k more last (
            follow-rest request candidates (us ++ take request.limit rest) (drop request.limit rest)
              (some k) fuel one l (ground (arith, length-drop request.limit rest)) split
              next_behind)
      | inr all_shown ↦ shown-last request candidates rest fuel all_shown
    ]

-- For candidates of which no two are of one capture, a limit of at least one and fuel for a page
-- per listed candidate, the pages that follow from the first through each next cursor, put
-- together, are the candidates that the request lists, sorted, and each stands strictly above all
-- that follow it, so none is missed and none comes twice.
pub follow-ordered :
    (request : ListRequest) (candidates : List ListCandidate) (fuel : ℕ)
    → OneEach candidates
    → 1 ≤ request.limit
    → length (ordered request candidates none) ≤ fuel
    → (follow request candidates fuel none
        ≡ sort_candidates (filter_candidates (is_listed request none) candidates))
      × Descending (follow request candidates fuel none)
unfolding ordered
follow-ordered request candidates fuel one l f =
    let all_pages : follow request candidates fuel none ≡ ordered request candidates none =
      follow-rest request candidates [] (ordered request candidates none) none fuel one l f refl
        refl in
    (
      all_pages,
      subst Descending (sym all_pages) (
          sort-Descending (filter_candidates (is_listed request none) candidates)
            (filter-OneEach (is_listed request none) candidates one)),
    )
