-- ===== src/Segmentation/Build/Pieces.antt =====
-- The pieces that a source falls into around a range, and the headings before an offset.
use knowledge_flow.Common.{ℕ, zero, suc, ◌+◌, ◌≤◌, ◌<◌, ◌≡◌, refl, sym}
use knowledge_flow.Common.{ap, ◌∙◌, inl, inr, List, [], ◌∷◌, ◌++◌, arith}
use knowledge_flow.Common.{ltb, ltb→lt, Bool-cases, length, take, drop, All}
use knowledge_flow.Common.Text.{Text}
use knowledge_flow.Segmentation.Utf8.{Bytes}
use knowledge_flow.Segmentation.Lines.Decodes.{length-drop_lem}
use knowledge_flow.Segmentation.Build.{Headings, heading_at, heading_loop}

-- The bytes from `a` up to `a + k + 1` of a source: what lies before them, all of them but the last,
-- the last, and what lies after.
pub record Cut (source : Bytes) (a k : ℕ) : Type 0 where
  pub last_byte : ℕ
  pub after : Bytes
  pub split : source ≡ take a source ++ (take k (drop a source) ++ (last_byte ∷ after))
  pub sized : length (take a source) ≡ a
  pub front_sized : length (take k (drop a source)) ≡ k
  pub before_last : take (a + k) source ≡ take a source ++ take k (drop a source)
  pub whole : take (suc k) (drop a source) ≡ take k (drop a source) ++ (last_byte ∷ [])

take-append_drop {ℓ} : {A : Type ℓ} (n : ℕ) (xs : List A) → take n xs ++ drop n xs ≡ xs
take-append_drop zero xs = refl
take-append_drop (suc n) [] = refl
take-append_drop (suc n) (x ∷ xs) = ap (λ rest. x ∷ rest) (take-append_drop n xs)

length-take_lem {ℓ} : {A : Type ℓ} (n : ℕ) (xs : List A) → n ≤ length xs → length (take n xs) ≡ n
length-take_lem zero xs h = refl
length-take_lem (suc n) [] h = absurd (omega arith)
length-take_lem (suc n) (x ∷ xs) h = omega (arith, length-take_lem n xs (omega arith))

take-add {ℓ} :
    {A : Type ℓ} (a k n : ℕ) (xs : List A) → n ≡ a + k → take n xs ≡ take a xs ++ take k (drop a xs)
take-add zero k n xs e = let same : n ≡ k = omega arith in rw same refl
take-add (suc a) k zero xs e = absurd (omega arith)
take-add (suc a) zero (suc n) [] e = refl
take-add (suc a) (suc k) (suc n) [] e = refl
take-add (suc a) k (suc n) (x ∷ xs) e = ap (λ rest. x ∷ rest) (take-add a k n xs (omega arith))

-- The element at `k`.
take-snoc :
    (k : ℕ) (xs : Bytes)
    → k < length xs
    → (x : ℕ) × (after : Bytes) × (xs ≡ take k xs ++ (x ∷ after))
      × (take (suc k) xs ≡ take k xs ++ (x ∷ []))
take-snoc k [] h = absurd (omega arith)
take-snoc zero (x ∷ xs) h = (x, xs, refl, refl)
take-snoc (suc k) (y ∷ xs) h =
    let (x, after, split, whole) = take-snoc k xs (omega arith) in
    (x, after, ap (λ rest. y ∷ rest) split, ap (λ rest. y ∷ rest) whole)

pub slice-Cut : (source : Bytes) (a k : ℕ) → a + k < length source → Cut source a k
slice-Cut source a k h =
    let left : k < length (drop a source) = omega (arith, length-drop_lem a source) in
    let (x, after, split, whole) = take-snoc k (drop a source) left in
    record {
      last_byte = x;
      after = after;
      split = sym (take-append_drop a source) ∙ ap (λ rest. take a source ++ rest) split;
      sized = length-take_lem a source (omega arith);
      front_sized = length-take_lem k (drop a source) (omega arith);
      before_last = take-add a k (a + k) source refl;
      whole = whole;
    }

-- The path of the last heading of a list, or `path` where it is empty.
unfoldable pub last_path : List Text → Headings → List Text
last_path path [] = path
last_path path ((at_byte, later) ∷ events) = last_path later events

unfoldable pub BeginsAfter : ℕ → Headings → Type 0
BeginsAfter offset [] = Unit
BeginsAfter offset ((at_byte, path) ∷ events) = offset < at_byte

-- The headings fall into those that begin at or before an offset and those from the first later
-- one on; the path is that of the last of the former, or empty.
pub record HeadingOf (events : Headings) (offset : ℕ) (path : List Text) : Type 0 where
  pub passed : Headings
  pub others : Headings
  pub split : events ≡ passed ++ others
  pub none_later : All (λ heading. heading.0 ≤ offset) passed
  pub later : BeginsAfter offset others
  pub path_is : path ≡ last_path [] passed

record Split (selected : List Text) (events : Headings) (offset : ℕ) : Type 0 where
  passed : Headings
  others : Headings
  split : events ≡ passed ++ others
  none_later : All (λ heading. heading.0 ≤ offset) passed
  later : BeginsAfter offset others
  path_is : heading_loop selected events offset ≡ last_path selected passed

heading_loop-Split :
    (selected : List Text) (events : Headings) (offset : ℕ) → Split selected events offset
unfolding heading_loop last_path BeginsAfter
heading_loop-Split selected [] offset = record {
  passed = [];
  others = [];
  split = refl;
  none_later = tt;
  later = tt;
  path_is = refl;
}
heading_loop-Split selected ((at_byte, path) ∷ events) offset =
    elim (Bool-cases (ltb offset at_byte)) [
      | inl e ↦ record {
        passed = [];
        others = (at_byte, path) ∷ events;
        split = refl;
        none_later = tt;
        later = ltb→lt _ _ e;
        path_is = rw e refl;
      }
      | inr e ↦
          let tail = heading_loop-Split path events offset in
          record {
            passed = (at_byte, path) ∷ tail.passed;
            others = tail.others;
            split = ap (λ rest. (at_byte, path) ∷ rest) tail.split;
            none_later = (ground arith, tail.none_later);
            later = tail.later;
            path_is = rw e tail.path_is;
          }
    ]

pub heading_at-HeadingOf :
    (events : Headings) (offset : ℕ) → HeadingOf events offset (heading_at events offset)
unfolding heading_at
heading_at-HeadingOf events offset =
    let s = heading_loop-Split [] events offset in
    record {
      passed = s.passed;
      others = s.others;
      split = s.split;
      none_later = s.none_later;
      later = s.later;
      path_is = s.path_is;
    }
