-- ===== src/Capture/Listing/Laws.antt =====
use mathlib.Core.Path.{subst}
use knowledge_flow.Common.{ℕ, zero, suc, ◌-◌, ◌≤◌, ◌≡◌, refl, ap, ◌∙◌}
use knowledge_flow.Common.{Bool, true, ◌&&◌, Option, none, some, List, [], ◌∷◌}
use knowledge_flow.Common.{◌++◌, arith, length, take, drop, All}
use knowledge_flow.Capture.Listing.{
  SortKey, ListCandidate, sort_key, key_lt, ListRequest, allows, is_listed, filter_candidates,
  sort_candidates,
}
use knowledge_flow.Capture.Listing.{last_key}
use knowledge_flow.Capture.Listing.Order.{key_lt_irrefl}
use knowledge_flow.Capture.Listing.Sorting.{
  Descending, OneEach, filter-OneEach, sort-filter, not_below,
}

-- The pages of `_run_list_captures` of src/knowledgeflow_capture/operations.py, one after another.

filter-keeps :
    (p : ListCandidate → Bool) (cs : List ListCandidate)
    → All (λ c. p c ≡ true) cs
    → filter_candidates p cs ≡ cs
unfolding filter_candidates
filter-keeps p [] h = refl
filter-keeps p (c ∷ cs) (hc, hs) = rw (hc) (ap (λ rest. c ∷ rest) (filter-keeps p cs hs))

filter-filter :
    (p q r : ListCandidate → Bool) (cs : List ListCandidate)
    → ((c : ListCandidate) → r c ≡ (p c && q c))
    → filter_candidates r cs ≡ filter_candidates q (filter_candidates p cs)
unfolding filter_candidates
filter-filter p q r [] h = refl
filter-filter p q r (c ∷ cs) h =
    let both = h c in let rest = filter-filter p q r cs h in ground (arith, both, rest)

-- Below the last of the candidates in front stand exactly those behind.
All-append : (P : ListCandidate → Type 0) (us vs : List ListCandidate) → All P (us ++ vs) → All P vs
All-append P [] vs h = h
All-append P (u ∷ us) vs (hu, hs) = All-append P us vs hs

last_key-All :
    (P : SortKey → Type 0) (us vs : List ListCandidate) (k : SortKey)
    → All (λ d. P (sort_key d)) (us ++ vs)
    → last_key us ≡ some k
    → P k
unfolding last_key
last_key-All P [] vs k h e = cc
last_key-All P (u ∷ []) vs k (hu, hs) e = subst P (some_injective e) hu
  where
    some_injective : some (sort_key u) ≡ some k → sort_key u ≡ k
    some_injective same = cc
last_key-All P (u ∷ w ∷ us) vs k (hu, hs) e = last_key-All P (w ∷ us) vs k hs e

pub filter-behind :
    (us vs : List ListCandidate) (k : SortKey)
    → Descending (us ++ vs)
    → last_key us ≡ some k
    → filter_candidates (λ c. key_lt (sort_key c) k) (us ++ vs) ≡ vs
unfolding Descending filter_candidates last_key
filter-behind [] vs k h e = cc
filter-behind (u ∷ []) vs k (hu, hs) e =
    let same : sort_key u ≡ k = cc in
    subst (λ x. filter_candidates (λ c. key_lt (sort_key c) x) (u ∷ vs) ≡ vs) same
      (rw (key_lt_irrefl (sort_key u)) (filter-keeps (λ c. key_lt (sort_key c) (sort_key u)) vs hu))
filter-behind (u ∷ w ∷ us) vs k (hu, hs) e =
    let below : key_lt k (sort_key u) ≡ true =
      last_key-All (λ x. key_lt x (sort_key u) ≡ true) (w ∷ us) vs k hu e in
    rw (not_below (sort_key u) k below) (filter-behind (w ∷ us) vs k hs e)

unfoldable pub ordered : ListRequest → List ListCandidate → Option SortKey → List ListCandidate
ordered request candidates cursor =
    sort_candidates (filter_candidates (is_listed request cursor) candidates)

is_listed-cursor :
    (request : ListRequest) (k : SortKey) (c : ListCandidate)
    → is_listed request (some k) c ≡ (is_listed request none c && key_lt (sort_key c) k)
unfolding is_listed allows
is_listed-cursor request k c = ground arith

pub ordered-cursor :
    (request : ListRequest) (candidates : List ListCandidate) (k : SortKey)
    → OneEach candidates
    → ordered request candidates (some k)
      ≡ filter_candidates (λ c. key_lt (sort_key c) k) (ordered request candidates none)
unfolding ordered
ordered-cursor request candidates k h =
    ap sort_candidates (
      filter-filter (is_listed request none) (λ c. key_lt (sort_key c) k)
        (is_listed request (some k)) candidates (is_listed-cursor request k))
    ∙ sort-filter (λ c. key_lt (sort_key c) k)
        (filter_candidates (is_listed request none) candidates)
        (filter-OneEach (is_listed request none) candidates h)

pub take-drop : (n : ℕ) (cs : List ListCandidate) → take n cs ++ drop n cs ≡ cs
take-drop zero cs = refl
take-drop (suc n) [] = refl
take-drop (suc n) (c ∷ cs) = ap (λ rest. c ∷ rest) (take-drop n cs)

pub take-whole : (n : ℕ) (cs : List ListCandidate) → length cs ≤ n → take n cs ++ [] ≡ cs
take-whole zero [] h = refl
take-whole zero (c ∷ cs) h = ground arith
take-whole (suc n) [] h = refl
take-whole (suc n) (c ∷ cs) h = ap (λ rest. c ∷ rest) (take-whole n cs (ground arith))

pub length-drop : (n : ℕ) (cs : List ListCandidate) → length (drop n cs) ≡ length cs - n
length-drop zero cs = ground arith
length-drop (suc n) [] = ground arith
length-drop (suc n) (c ∷ cs) = ground (arith, length-drop n cs)

pub last_key-take :
    (n : ℕ) (cs : List ListCandidate)
    → 1 ≤ n
    → 1 ≤ length cs
    → (k : SortKey) × (last_key (take n cs) ≡ some k)
unfolding last_key
last_key-take zero cs h g = ground arith
last_key-take (suc n) [] h g = ground arith
last_key-take (suc zero) (c ∷ cs) h g = (sort_key c, refl)
last_key-take (suc (suc n)) (c ∷ []) h g = (sort_key c, refl)
last_key-take (suc (suc n)) (c ∷ d ∷ ds) h g =
    last_key-take (suc n) (d ∷ ds) (ground arith) (ground arith)

pub last_key-append :
    (us ts : List ListCandidate) (k : SortKey) → last_key ts ≡ some k → last_key (us ++ ts) ≡ some k
unfolding last_key
last_key-append [] ts k h = h
last_key-append (u ∷ []) [] k h = cc
last_key-append (u ∷ []) (t ∷ ts) k h = h
last_key-append (u ∷ w ∷ us) ts k h = last_key-append (w ∷ us) ts k h
