-- ===== src/Capture/Listing.antt =====
-- `_run_list_captures` of src/knowledgeflow_capture/operations.py over the candidates that it has
-- read: the filters, the order and the page, with the cursor as the sort key that it encodes.
pub mod Order
pub mod Sorting
pub mod Laws
pub mod Follow
mod Tests
use knowledge_flow.Common.{ℕ, zero, suc, Bool, true, false, ◌&&◌, ◌||◌, Option}
use knowledge_flow.Common.{none, some, List, [], ◌∷◌, ◌++◌, ltb, ◌==◌, if◌then◌else◌}
use knowledge_flow.Common.{length, take}
use knowledge_flow.Common.Text.{Text, text_eq}
use knowledge_flow.Capture.Commit.Append.{◌then◌}

pub record SortKey : Type 0 where
  pub captured_at : Text
  pub capture_id : Text

-- `_CaptureListCandidate`, in the fields that the listing reads
pub record ListCandidate : Type 0 where
  pub capture_id : Text
  pub captured_at : Text
  pub routing_status : Text

abbrev pub sort_key : ListCandidate → SortKey
sort_key c = record { captured_at = c.captured_at; capture_id = c.capture_id }

-- `s < t` on strings, by code points
unfoldable pub text_lt : Text → Text → Bool
text_lt s [] = false
text_lt [] (d ∷ t) = true
text_lt (c ∷ s) (d ∷ t) = ltb c d || c == d && text_lt s t

-- `<` on tuples
unfoldable pub key_lt : SortKey → SortKey → Bool
unfolding text_lt text_eq
key_lt a b =
    text_lt a.captured_at b.captured_at
    || text_eq a.captured_at b.captured_at && text_lt a.capture_id b.capture_id

pub record ListRequest : Type 0 where
  pub limit : ℕ
  pub routing_status : Option Text
  pub created_after : Option Text
  pub created_before : Option Text

allows : {A : Type 0} → Option A → (A → Bool) → Bool
allows none test = true
allows (some a) test = test a

-- The condition of the filter
unfoldable pub is_listed : ListRequest → Option SortKey → ListCandidate → Bool
unfolding allows text_eq text_lt key_lt
is_listed request cursor c =
    allows request.routing_status (λ s. text_eq c.routing_status s)
    && allows request.created_after (λ t. text_lt t c.captured_at)
    && allows request.created_before (λ t. text_lt c.captured_at t)
    && allows cursor (λ k. key_lt (sort_key c) k)

unfoldable pub filter_candidates : (ListCandidate → Bool) → List ListCandidate → List ListCandidate
filter_candidates p [] = []
filter_candidates p (c ∷ cs) = if p c then c ∷ filter_candidates p cs else filter_candidates p cs

-- `sorted(..., reverse=True)`, which keeps the order of equal keys
unfoldable pub insert_candidate : ListCandidate → List ListCandidate → List ListCandidate
unfolding key_lt
insert_candidate c [] = c ∷ []
insert_candidate c (d ∷ ds) =
    if key_lt (sort_key c) (sort_key d) then d ∷ insert_candidate c ds else c ∷ d ∷ ds

unfoldable pub sort_candidates : List ListCandidate → List ListCandidate
unfolding insert_candidate
sort_candidates [] = []
sort_candidates (c ∷ cs) = insert_candidate c (sort_candidates cs)

unfoldable pub last_key : List ListCandidate → Option SortKey
last_key [] = none
last_key (c ∷ []) = some (sort_key c)
last_key (c ∷ d ∷ ds) = last_key (d ∷ ds)

pub record ListResult : Type 0 where
  pub items : List ListCandidate
  pub next_cursor : Option SortKey

unfoldable pub page_of : ListRequest → List ListCandidate → ListResult
unfolding last_key
page_of request ordered = record {
  items = take request.limit ordered;
  next_cursor =
      if ltb request.limit (length ordered) then last_key (take request.limit ordered) else none;
}

-- The page after a cursor
unfoldable pub list_page : ListRequest → List ListCandidate → Option SortKey → ListResult
unfolding is_listed filter_candidates sort_candidates page_of
list_page request candidates cursor =
    page_of request (sort_candidates (filter_candidates (is_listed request cursor) candidates))

-- The pages one after another, for at most `fuel` pages
unfoldable pub follow : ListRequest → List ListCandidate → ℕ → Option SortKey → List ListCandidate
unfolding list_page
follow request candidates zero cursor = []
follow request candidates (suc fuel) cursor =
    let page = list_page request candidates cursor in
    page.items
    ++ elim page.next_cursor [ none ↦ [] | some key ↦ follow request candidates fuel (some key) ]
