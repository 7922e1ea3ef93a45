-- ===== src/Segmentation/Lines/Decodes.antt =====
-- The lines of a source that decodes, decoded one by one.
use knowledge_flow.Common.{ℕ, zero, suc, ◌-◌, ◌≤◌, ◌<◌, ◌≡◌, refl, ap}
use knowledge_flow.Common.{◌∙◌, some, List, [], ◌∷◌, arith, length, get_elem?, take}
use knowledge_flow.Common.{drop}
use knowledge_flow.Common.Text.{Text}
use knowledge_flow.Common.Result.{ok}
use knowledge_flow.Segmentation.Utf8.{Bytes, decode}
use knowledge_flow.Segmentation.Lines.{slice, line_text}
use knowledge_flow.Segmentation.Utf8.Laws.Cuts.{decode_after_newline, decode_through_newline}
use knowledge_flow.Segmentation.Lines.Laws.{
  get_elem?-drop, LineEnd, at_end_of_source, after_newline,
}

abbrev pub Decodes : Bytes → Type 0
Decodes bs = (t : Text) × (decode bs ≡ ok t)

drop_all {ℓ} : {A : Type ℓ} (xs : List A) (n : ℕ) → n ≡ length xs → drop n xs ≡ []
drop_all [] zero h = refl
drop_all [] (suc n) h = refl
drop_all (x ∷ xs) zero h = absurd (omega arith)
drop_all (x ∷ xs) (suc n) h = drop_all xs n (omega arith)

take_all {ℓ} : {A : Type ℓ} (xs : List A) (n : ℕ) → length xs ≤ n → take n xs ≡ xs
take_all [] zero h = refl
take_all [] (suc n) h = refl
take_all (x ∷ xs) zero h = absurd (omega arith)
take_all (x ∷ xs) (suc n) h = ap (λ r. x ∷ r) (take_all xs n (omega arith))

pub length-drop_lem {ℓ} : {A : Type ℓ} (n : ℕ) (xs : List A) → length (drop n xs) ≡ length xs - n
length-drop_lem zero xs = omega arith
length-drop_lem (suc n) [] = omega arith
length-drop_lem (suc n) (x ∷ xs) = omega (arith, length-drop_lem n xs)

empty-Decodes : Decodes []
unfolding decode
empty-Decodes = ([], refl)

-- What follows the end of a line decodes.
pub rest-Decodes :
    (source : Bytes) (stop : ℕ) → Decodes source → LineEnd source stop → Decodes (drop stop source)
rest-Decodes source stop (t, h) (at_end_of_source last) =
    rw (drop_all source stop last) empty-Decodes
rest-Decodes source stop (t, h) (after_newline i same there) =
    rw same (decode_after_newline source t i h there)

slice-Decodes :
    (source : Bytes) (at stop : ℕ)
    → Decodes (drop at source)
    → at < stop
    → LineEnd source stop
    → Decodes (slice source at stop)
unfolding slice
slice-Decodes source at stop decoded more (at_end_of_source last) =
    rw (take_all (drop at source) (stop - at) (omega (arith, length-drop_lem at source))) decoded
slice-Decodes source at stop (t, h) more (after_newline i same there) =
    let there' : get_elem? (drop at source) (i - at) ≡ some 10 =
      get_elem?-drop source at (i - at) ∙ ap (get_elem? source) (omega arith) ∙ there in
    let size : stop - at ≡ suc (i - at) = omega arith in
    rw size (decode_through_newline (drop at source) t (i - at) h there')

-- The text of a line that follows the end of another is there.
pub line_text-ok :
    (source : Bytes) (at stop : ℕ)
    → Decodes (drop at source)
    → at < stop
    → LineEnd source stop
    → (s : Text) × (line_text source at stop ≡ ok s)
unfolding line_text
line_text-ok source at stop decoded more ends =
    let (t, h) = slice-Decodes source at stop decoded more ends in rw h (_, refl)
