-- ===== src/Capture/Listing/Order.antt =====
-- The order of sort keys.
use knowledge_flow.Common.{◌≡◌, refl, true, false, [], ◌∷◌, arith}
use knowledge_flow.Common.Text.{Text, text_eq, text_eq_refl, text_eq→eq}
use knowledge_flow.Capture.Listing.{SortKey, text_lt, key_lt}

text_lt_trans : (a b c : Text) → text_lt a b ≡ true → text_lt b c ≡ true → text_lt a c ≡ true
unfolding text_lt
text_lt_trans a b [] h k = cc
text_lt_trans [] b (z ∷ c) h k = refl
text_lt_trans (x ∷ a) [] (z ∷ c) h k = cc
text_lt_trans (x ∷ a) (y ∷ b) (z ∷ c) h k = ground (arith, text_lt_trans a b c)

text_lt_irrefl : (a : Text) → text_lt a a ≡ false
unfolding text_lt
text_lt_irrefl [] = refl
text_lt_irrefl (x ∷ a) = ground (arith, text_lt_irrefl a)

text_lt_total : (a b : Text) → text_lt a b ≡ false → text_eq a b ≡ false → text_lt b a ≡ true
unfolding text_lt text_eq
text_lt_total [] [] h k = cc
text_lt_total (x ∷ a) [] h k = refl
text_lt_total [] (y ∷ b) h k = cc
text_lt_total (x ∷ a) (y ∷ b) h k = ground (arith, text_lt_total a b)

pub key_lt_trans : (a b c : SortKey) → key_lt a b ≡ true → key_lt b c ≡ true → key_lt a c ≡ true
unfolding key_lt
key_lt_trans a b c h k = ground (
  arith,
  text_lt_trans a.captured_at b.captured_at c.captured_at,
  text_lt_trans a.capture_id b.capture_id c.capture_id,
  text_eq→eq a.captured_at b.captured_at,
  text_eq→eq b.captured_at c.captured_at,
)

pub key_lt_irrefl : (a : SortKey) → key_lt a a ≡ false
unfolding key_lt
key_lt_irrefl a = ground (arith, text_lt_irrefl a.captured_at, text_lt_irrefl a.capture_id)

-- Two captures stand in an order.
pub key_lt_total :
    (a b : SortKey)
    → key_lt a b ≡ false
    → text_eq a.capture_id b.capture_id ≡ false
    → key_lt b a ≡ true
unfolding key_lt
key_lt_total a b h k = ground (
  arith,
  text_lt_total a.captured_at b.captured_at,
  text_lt_total a.capture_id b.capture_id,
  text_eq→eq a.captured_at b.captured_at,
  text_eq_refl b.captured_at,
)
