-- ===== src/Segmentation/Choose/Laws.antt =====
-- The chosen end moves on, stays within the maximum, and is a character boundary.
use native.Mathlib.Decide.{dec_le}
use mathlib.Core.Path.{subst}
use knowledge_flow.Common.{ℕ, zero, suc, ◌+◌, ◌-◌, ◌≤◌, ◌<◌, min, max}
use knowledge_flow.Common.{◌≡◌, refl, true, not, ◌&&◌, List, [], ◌∷◌, arith}
use knowledge_flow.Common.{ltb, leb, if-both, length, All}
use knowledge_flow.Common.Text.{Text}
use knowledge_flow.Common.Result.{Result, ok}
use knowledge_flow.Segmentation.Utf8.{Bytes, decode, is_utf8_boundary}
use knowledge_flow.Segmentation.Choose.{
  boundary_loop, bounded_character_boundary, between, largest, smallest, choose_end, pick,
}
use knowledge_flow.Segmentation.Utf8.Laws.{is_utf8_boundary_near}

boundary_loop-ge :
    (source : Bytes) (start_at m c : ℕ)
    → is_utf8_boundary source c ≡ true
    → c ≤ m
    → start_at < c
    → c ≤ boundary_loop source start_at m
unfolding boundary_loop
boundary_loop-ge source start_at zero c b below above = omega arith
boundary_loop-ge source start_at (suc m) c b below above = elim (dec_le c m) [
  | yes le ↦ ground (arith, boundary_loop-ge source start_at m c b le above)
  | no gt ↦ let same : c ≡ suc m = omega arith in ground arith
]

boundary_loop-bounds :
    (source : Bytes) (start_at m : ℕ)
    → (boundary_loop source start_at m ≤ m)
      × (start_at < boundary_loop source start_at m
          → is_utf8_boundary source (boundary_loop source start_at m) ≡ true)
unfolding boundary_loop
boundary_loop-bounds source start_at zero = (omega arith, λ h. absurd (omega arith))
boundary_loop-bounds source start_at (suc m) =
    let ih = boundary_loop-bounds source start_at m in
    if-both (λ n. (n ≤ suc m) × (start_at < n → is_utf8_boundary source n ≡ true))
      (ltb start_at (suc m) && not (is_utf8_boundary source (suc m)))
      (boundary_loop source start_at m) (suc m) (λ lower. (omega arith, ih.1))
      (λ stop. (omega arith, λ h. ground arith))

module _ {ℓ} (P : ℕ → Type ℓ) where
  between-All :
      (low high : ℕ) (vs : List ℕ)
      → All P vs
      → All (λ v. P v × (low < v) × (v ≤ high)) (between low high vs)
  unfolding between
  between-All low high [] h = tt
  between-All low high (v ∷ vs) (p, h) =
      let rest = between-All low high vs h in
      if-both (All (λ v. P v × (low < v) × (v ≤ high))) (ltb low v && leb v high)
        (v ∷ between low high vs) (between low high vs)
        (λ inside. ((p, ground arith, ground arith), rest)) (λ outside. rest)

  largest-All : (v : ℕ) (vs : List ℕ) → All P (v ∷ vs) → P (largest v vs)
  unfolding largest
  largest-All v [] h = h.0
  largest-All v (w ∷ ws) h = elim (dec_le v (largest w ws)) [
    | yes le ↦
        let e : largest w ws ≡ max v (largest w ws) = omega arith in
        subst P e (largest-All w ws h.1)
    | no gt ↦ let e : v ≡ max v (largest w ws) = omega arith in subst P e h.0
  ]

  smallest-All : (v : ℕ) (vs : List ℕ) → All P (v ∷ vs) → P (smallest v vs)
  unfolding smallest
  smallest-All v [] h = h.0
  smallest-All v (w ∷ ws) h = elim (dec_le v (smallest w ws)) [
    | yes le ↦ let e : v ≡ min v (smallest w ws) = omega arith in subst P e h.0
    | no gt ↦
        let e : smallest w ws ≡ min v (smallest w ws) = omega arith in
        subst P e (smallest-All w ws h.1)
  ]

-- What a chosen end satisfies.
abbrev pub Chosen : Bytes → ℕ → ℕ → ℕ → ℕ → Type 0
Chosen source start_at scope_end maximum_bytes stop =
    (start_at < stop)
    × (stop ≤ scope_end)
    × (stop ≤ start_at + maximum_bytes)
    × (is_utf8_boundary source stop ≡ true)

fallback :
    (source : Bytes) (t : Text) (start_at maximum : ℕ)
    → decode source ≡ ok t
    → maximum ≤ length source
    → start_at + 4 ≤ maximum
    → (stop : ℕ) × (bounded_character_boundary source start_at maximum ≡ ok stop)
      × (start_at < stop)
      × (stop ≤ maximum)
      × (is_utf8_boundary source stop ≡ true)
unfolding bounded_character_boundary
fallback source t start_at maximum valid inside wide =
    let (c, below, close, boundary) = is_utf8_boundary_near source t maximum valid inside in
    let reached = boundary_loop-ge source start_at maximum c boundary below (omega arith) in
    let (short, good) = boundary_loop-bounds source start_at maximum in
    (boundary_loop source start_at maximum, ground arith, omega arith, short, good (omega arith))

abbrev Found : Bytes → ℕ → ℕ → ℕ → Result ℕ → Type 0
Found source start_at scope_end maximum_bytes r =
    (stop : ℕ) × (r ≡ ok stop) × Chosen source start_at scope_end maximum_bytes stop

pick-Found :
    (source : Bytes) (start_at scope_end maximum_bytes : ℕ) (vs : List ℕ) (best : ℕ → List ℕ → ℕ)
    (otherwise : Result ℕ)
    → ((v : ℕ) (ws : List ℕ)
        → All (Chosen source start_at scope_end maximum_bytes) (v ∷ ws)
        → Chosen source start_at scope_end maximum_bytes (best v ws))
    → All (Chosen source start_at scope_end maximum_bytes) vs
    → Found source start_at scope_end maximum_bytes otherwise
    → Found source start_at scope_end maximum_bytes (pick vs best otherwise)
unfolding pick
pick-Found source start_at scope_end maximum_bytes [] best otherwise keeps fits found = found
pick-Found source start_at scope_end maximum_bytes (v ∷ vs) best otherwise keeps fits found =
    (best v vs, refl, keeps v vs fits)

All-map {ℓ κ} :
    {A : Type 0} (P : A → Type ℓ) (Q : A → Type κ) (xs : List A)
    → ((a : A) → P a → Q a)
    → All P xs
    → All Q xs
All-map P Q [] f h = tt
All-map P Q (x ∷ xs) f (p, h) = (f x p, All-map P Q xs f h)

-- In a source that decodes, with a start before the end of a scope that ends at a character
-- boundary inside the source, a target of at least four bytes that is at most the maximum, and
-- preferred offsets and line ends that are character boundaries, `_choose_end` returns an end: it
-- lies after the start, within the scope and the maximum, and is a character boundary.
pub choose_end-Chosen :
    (source : Bytes) (t : Text) (start_at scope_end target_bytes maximum_bytes : ℕ)
    (preferred line_ends : List ℕ)
    → decode source ≡ ok t
    → start_at < scope_end
    → scope_end ≤ length source
    → is_utf8_boundary source scope_end ≡ true
    → 4 ≤ target_bytes
    → target_bytes ≤ maximum_bytes
    → All (λ v. is_utf8_boundary source v ≡ true) preferred
    → All (λ v. is_utf8_boundary source v ≡ true) line_ends
    → Found source start_at scope_end maximum_bytes
        (choose_end source start_at scope_end target_bytes maximum_bytes preferred line_ends)
unfolding choose_end
choose_end-Chosen source t start_at scope_end target_bytes maximum_bytes preferred line_ends valid
      more inside end_boundary wide ordered preferred_ok lines_ok =
    let target : ℕ = min scope_end (start_at + target_bytes) in
    let maximum : ℕ = min scope_end (start_at + maximum_bytes) in
    let B = λ (v : ℕ). is_utf8_boundary source v ≡ true in
    let C = Chosen source start_at scope_end maximum_bytes in
    let narrow =
      λ (low high : ℕ) (vs : List ℕ) (start_le : start_at ≤ low) (high_le : high ≤ maximum)
          (fits : All B vs).
        All-map (λ v. B v × (low < v) × (v ≤ high)) C (between low high vs)
          (λ v (b, above, below). (omega arith, omega arith, omega arith, b))
          (between-All B low high vs fits) in
    if-both (Found source start_at scope_end maximum_bytes)
      (leb (scope_end - start_at) target_bytes) (ok scope_end)
      (pick (between start_at target preferred) largest (
        pick (between target maximum preferred) smallest (
          pick (between start_at maximum line_ends) largest
            (bounded_character_boundary source start_at maximum))))
      (λ last. (scope_end, refl, (more, omega arith, ground arith, end_boundary)))
      (λ far.
        let (stop, found, later, below, boundary) =
          fallback source t start_at maximum valid (omega arith) (ground arith) in
        pick-Found source start_at scope_end maximum_bytes (between start_at target preferred)
          largest _ (largest-All C)
          (narrow start_at target preferred (omega arith) (omega arith) preferred_ok)
          (pick-Found source start_at scope_end maximum_bytes (between target maximum preferred)
            smallest _ (smallest-All C)
            (narrow target maximum preferred (ground arith) (omega arith) preferred_ok)
            (pick-Found source start_at scope_end maximum_bytes (between start_at maximum line_ends)
              largest _ (largest-All C)
              (narrow start_at maximum line_ends (omega arith) (omega arith) lines_ok)
              (stop, found, (later, omega arith, omega arith, boundary)))))
