-- ===== src/Segmentation/Utf8/Laws/Cuts.antt =====
-- A source that decodes may be cut after a newline: both parts decode.
use mathlib.Core.Path.{subst}
use knowledge_flow.Common.{ℕ, zero, suc, ◌≡◌, refl, sym, ap, ◌∙◌, ◌≢◌}
use knowledge_flow.Common.{none, some, [], ◌∷◌, arith, get_elem?, take, drop}
use knowledge_flow.Common.Text.{Text}
use knowledge_flow.Common.Result.{ok}
use knowledge_flow.Segmentation.Utf8.{
  Bytes, DecodeState, start, last_one, last_two, last_three, after_e0, after_ed, after_f0,
}
use knowledge_flow.Segmentation.Utf8.{
  after_f4, Fed, invalid, goes_on, emits, feed, decode_from, decode, emit_before,
}
use knowledge_flow.Segmentation.Utf8.Laws.{
  decode_step, decode_from-cons, continue_with, emit_before-eq-some, decode-eq-ok,
}

decode_after_newline_from :
    (s : DecodeState) (bs : Bytes) (t : Text) (i : ℕ)
    → decode_from s bs ≡ some t
    → get_elem? bs i ≡ some 10
    → (u : Text) × (decode_from start (drop (suc i) bs) ≡ some u)
decode_after_newline_from s [] t i h e = absurd (cc)
decode_after_newline_from s (b ∷ bs) t zero h e =
    let d = decode_step s b bs t h in
    let fresh = d.newline (ground arith) in
    (d.rest, subst (λ z. decode_from z bs ≡ some d.rest) fresh d.decoded)
decode_after_newline_from s (b ∷ bs) t (suc i) h e =
    let d = decode_step s b bs t h in decode_after_newline_from d.next bs d.rest i d.decoded e

absurd_none : {A : Type 0} {a : A} → none ≡ some a → ⊥
absurd_none h = cc

emit_some : (c : ℕ) (u : Text) → emit_before c (some u) ≡ some (c ∷ u)
unfolding emit_before
emit_some c u = refl

newline_ends :
    (s : DecodeState) → feed s 10 ≢ invalid → (u : Text) × (decode_from s (10 ∷ []) ≡ some u)
unfolding feed decode_from
newline_ends start h = (10 ∷ [], refl)
newline_ends (last_one acc) h = absurd (h refl)
newline_ends (last_two acc) h = absurd (h refl)
newline_ends (last_three acc) h = absurd (h refl)
newline_ends after_e0 h = absurd (h refl)
newline_ends after_ed h = absurd (h refl)
newline_ends after_f0 h = absurd (h refl)
newline_ends after_f4 h = absurd (h refl)

-- A byte before the cut.
step_through :
    (s : DecodeState) (b : ℕ) (bs : Bytes) (k : ℕ) (t : Text)
    → decode_from s (b ∷ bs) ≡ some t
    → ((s' : DecodeState) (t' : Text)
        → decode_from s' bs ≡ some t'
        → (u : Text) × (decode_from s' (take k bs) ≡ some u))
    → (u : Text) × (decode_from s (b ∷ take k bs) ≡ some u)
step_through s b bs k t h shorter = go (feed s b) refl (sym (decode_from-cons s b bs) ∙ h)
  where
    go :
        (f : Fed)
        → feed s b ≡ f
        → continue_with f bs ≡ some t
        → (u : Text) × (decode_from s (b ∷ take k bs) ≡ some u)
    go invalid e e' = absurd (cc)
    go (goes_on state') e e' =
        let (u, hu) = shorter state' t e' in
        (u, decode_from-cons s b (take k bs) ∙ ap (λ f. continue_with f (take k bs)) e ∙ hu)
    go (emits c) e e' =
        let (t', ht') = emit_before-eq-some c (decode_from start bs) t e' in
        let (u, hu) = shorter start t' ht' in
        (
          c ∷ u,
          decode_from-cons s b (take k bs)
              ∙ ap (λ f. continue_with f (take k bs)) e
              ∙ ap (emit_before c) hu
              ∙ emit_some c u,
        )

decode_through_newline_from :
    (s : DecodeState) (bs : Bytes) (t : Text) (i : ℕ)
    → decode_from s bs ≡ some t
    → get_elem? bs i ≡ some 10
    → (u : Text) × (decode_from s (take (suc i) bs) ≡ some u)
decode_through_newline_from s [] t i h e = absurd (cc)
decode_through_newline_from s (b ∷ bs) t zero h e =
    let b_newline : b ≡ 10 = ground arith in
    let fed : feed s 10 ≢ invalid = λ bad. absurd_none (
      ap (λ f. continue_with f bs) (sym (ap (feed s) b_newline ∙ bad))
      ∙ sym (decode_from-cons s b bs)
      ∙ h) in
    rw b_newline (newline_ends s fed)
decode_through_newline_from s (b ∷ bs) t (suc i) h e =
    let shorter : (s' : DecodeState) (t' : Text)
        → decode_from s' bs ≡ some t'
        → (u : Text) × (decode_from s' (take (suc i) bs) ≡ some u) =
      λ s' t' h'. decode_through_newline_from s' bs t' i h' e in
    step_through s b bs (suc i) t h shorter

ok_decode : (bs : Bytes) (t : Text) → decode_from start bs ≡ some t → decode bs ≡ ok t
unfolding decode
ok_decode bs t h = ground arith

-- What follows a newline decodes.
pub decode_after_newline :
    (source : Bytes) (t : Text) (i : ℕ)
    → decode source ≡ ok t
    → get_elem? source i ≡ some 10
    → (u : Text) × (decode (drop (suc i) source) ≡ ok u)
decode_after_newline source t i h e =
    let (u, hu) = decode_after_newline_from start source t i (decode-eq-ok source t h) e in
    (u, ok_decode (drop (suc i) source) u hu)

-- What ends with a newline decodes.
pub decode_through_newline :
    (source : Bytes) (t : Text) (i : ℕ)
    → decode source ≡ ok t
    → get_elem? source i ≡ some 10
    → (u : Text) × (decode (take (suc i) source) ≡ ok u)
decode_through_newline source t i h e =
    let (u, hu) = decode_through_newline_from start source t i (decode-eq-ok source t h) e in
    (u, ok_decode (take (suc i) source) u hu)
