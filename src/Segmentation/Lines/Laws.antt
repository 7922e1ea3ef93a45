-- ===== src/Segmentation/Lines/Laws.antt =====
-- The line spans tile the source, each ends after a newline or at the end, and each line of a
-- source that decodes decodes.
use knowledge_flow.Common.{ℕ, zero, suc, ◌+◌, ◌≤◌, ◌<◌, ◌≡◌, refl, sym}
use knowledge_flow.Common.{ap, ◌∙◌, inl, inr, some, List, [], ◌∷◌, arith}
use knowledge_flow.Common.{ltb, ◌==◌, ltb→lt, Bool-cases, Option-cases, length, get_elem?, drop}
use knowledge_flow.Segmentation.Utf8.{Bytes}
use knowledge_flow.Segmentation.Lines.{
  first_newline, find_newline, line_end, spans_loop, line_spans,
}

pub get_elem?-drop {ℓ} :
    {A : Type ℓ} (xs : List A) (k i : ℕ) → get_elem? (drop k xs) i ≡ get_elem? xs (k + i)
get_elem?-drop xs zero i = ap (get_elem? xs) (omega arith)
get_elem?-drop [] (suc k) i = refl
get_elem?-drop (x ∷ xs) (suc k) i =
    let e : suc k + i ≡ suc (k + i) = omega arith in rw e (get_elem?-drop xs k i)

-- An offset where a line ends: after a newline, or the end of the source.
pub data LineEnd (source : Bytes) (at : ℕ) : Type 0 where
  at_end_of_source : at ≡ length source → LineEnd source at
  after_newline : (i : ℕ) → at ≡ suc i → get_elem? source i ≡ some 10 → LineEnd source at

first_newline-eq-some :
    (offset : ℕ) (bs : Bytes) (i : ℕ)
    → first_newline offset bs ≡ some i
    → (j : ℕ) × (i ≡ offset + j) × (get_elem? bs j ≡ some 10)
unfolding first_newline
first_newline-eq-some offset [] i h = absurd (cc)
first_newline-eq-some offset (b ∷ bs) i h = elim (Bool-cases (b == 10)) [
  | inl e ↦ (0, ground arith, ground arith)
  | inr e ↦
      let (j, same, found) = first_newline-eq-some (suc offset) bs i (ground arith) in
      (suc j, omega arith, found)
]

get_elem?-lt {ℓ} :
    {A : Type ℓ} (xs : List A) (i : ℕ) (x : A) → get_elem? xs i ≡ some x → i < length xs
get_elem?-lt [] i x h = absurd (cc)
get_elem?-lt (y ∷ xs) zero x h = omega arith
get_elem?-lt (y ∷ xs) (suc i) x h = omega (arith, get_elem?-lt xs i x h)

-- The end of the line that begins at an offset inside the source.
line_end_lem :
    (source : Bytes) (start_at : ℕ)
    → start_at < length source
    → let stop = line_end source (find_newline source start_at) in
      (start_at < stop) × (stop ≤ length source) × LineEnd source stop
unfolding line_end find_newline
line_end_lem source start_at inside =
    elim (Option-cases (first_newline start_at (drop start_at source))) [
      | inl e ↦ rw e (inside, omega arith, at_end_of_source refl)
      | inr (i, e) ↦
          let (j, same, found) = first_newline-eq-some start_at (drop start_at source) i e in
          let there : get_elem? source i ≡ some 10 =
            ap (get_elem? source) same ∙ sym (get_elem?-drop source start_at j) ∙ found in
          let before = get_elem?-lt source i 10 there in
          rw e (omega arith, omega arith, after_newline i (omega arith) there)
    ]

-- Spans that follow one another, each not empty and with its end at the end of a line.
pub data Tiles (source : Bytes) : ℕ → List (ℕ × ℕ) → Type 0 where
  done : (at : ℕ) → at ≡ length source → Tiles source at []
  line :
      (at stop : ℕ) (rest : List (ℕ × ℕ))
      → at < stop
      → stop ≤ length source
      → LineEnd source stop
      → Tiles source stop rest
      → Tiles source at ((at, stop) ∷ rest)

spans_loop-Tiles :
    (fuel : ℕ) (source : Bytes) (start_at : ℕ)
    → start_at ≤ length source
    → length source ≤ start_at + fuel
    → Tiles source start_at (spans_loop fuel source start_at)
unfolding spans_loop
spans_loop-Tiles zero source start_at below fuel = done start_at (omega arith)
spans_loop-Tiles (suc fuel) source start_at below enough =
    elim (Bool-cases (ltb start_at (length source))) [
      | inl more ↦
          let (later, short, ends) = line_end_lem source start_at (ltb→lt _ _ more) in
          rw (more, spans_loop)
            (line start_at (line_end source (find_newline source start_at)) _ later short ends
              (spans_loop-Tiles fuel source _ short (omega arith)))
      | inr last ↦ rw (last, spans_loop) (done start_at (ground arith))
    ]

-- The lines tile the source: the first begins at 0, each begins where the one before ended, none
-- is empty, each ends after a newline or at the end, and the last ends at the end.
pub line_spans-Tiles : (source : Bytes) → Tiles source 0 (line_spans source)
unfolding line_spans
line_spans-Tiles source = spans_loop-Tiles (length source) source 0 (omega arith) (omega arith)
