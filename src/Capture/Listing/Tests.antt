-- ===== src/Capture/Listing/Tests.antt =====
-- Three captures in pages of two.
use knowledge_flow.Common.{String, ◌≡◌, refl, none, some, List, [], ◌∷◌, arith}
use knowledge_flow.Common.Text.{text, text_eq}
use knowledge_flow.Capture.Listing.{
  ListCandidate, ListRequest, is_listed, filter_candidates, sort_candidates, list_page, follow,
}
use knowledge_flow.Capture.Listing.Sorting.{Descending, OneEach}
use knowledge_flow.Capture.Listing.Laws.{ordered}
use knowledge_flow.Capture.Listing.Follow.{follow-ordered}

candidate_of : String → String → ListCandidate
unfolding text
candidate_of id at = record {
  capture_id = text id;
  captured_at = text at;
  routing_status = text "unassigned";
}

abbrev three : List ListCandidate
unfolding candidate_of
three =
    candidate_of "cap_1" "2026-07-01"
    ∷ candidate_of "cap_2" "2026-07-03"
    ∷ candidate_of "cap_3" "2026-07-01"
    ∷ []

abbrev in_pairs : ListRequest
in_pairs = record {
  limit = 2;
  routing_status = some (text "unassigned");
  created_after = none;
  created_before = none;
}

three-OneEach : OneEach three
unfolding OneEach text_eq text candidate_of
three-OneEach = ((refl, (refl, tt)), ((refl, tt), (tt, tt)))

follow-ordered_example :
    (follow in_pairs three 3 none
      ≡ sort_candidates (filter_candidates (is_listed in_pairs none) three))
    × Descending (follow in_pairs three 3 none)
unfolding ordered sort_candidates filter_candidates is_listed text candidate_of
follow-ordered_example = follow-ordered in_pairs three 3 three-OneEach (ground arith) (ground arith)

first_page_of_two :
    (list_page in_pairs three none).items
    ≡ candidate_of "cap_2" "2026-07-03" ∷ candidate_of "cap_3" "2026-07-01" ∷ []
unfolding list_page three
first_page_of_two = refl
