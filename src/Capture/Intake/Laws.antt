-- ===== src/Capture/Intake/Laws.antt =====
use mathlib.Core.Path.{subst}
-- What `_iter_utf8_source_chunks` of src/knowledgeflow_capture/durability.py passes on.
use knowledge_flow.Common.{ℕ, ◌≡◌, refl, sym, ◌∙◌, ◌⊎◌, inl, inr, Option}
use knowledge_flow.Common.{none, some, [], ◌∷◌, ◌++◌, arith}
use knowledge_flow.Common.Text.{Text}
use knowledge_flow.Segmentation.Utf8.{
  Bytes, DecodeState, start, Fed, invalid, goes_on, emits, feed, decode_from,
}
use knowledge_flow.Segmentation.Utf8.{emit_before}
use knowledge_flow.Capture.Intake.{decode_chunk, with_character}

-- The characters in front of a decoded text
unfoldable pub in_front : Text → Option Text → Option Text
in_front s none = none
in_front s (some t) = some (s ++ t)

nothing_in_front : (o : Option Text) → o ≡ in_front [] o
unfolding in_front
nothing_in_front none = refl
nothing_in_front (some t) = refl

in_front_of :
    (c : ℕ) (t : Text) (o p : Option Text) → o ≡ in_front t p → emit_before c o ≡ in_front (c ∷ t) p
unfolding in_front emit_before
in_front_of c t o none h = rw (h) refl
in_front_of c t o (some u) h = rw (h) refl

Fed-cases :
    (f : Fed) → (f ≡ invalid) ⊎ ((s : DecodeState) × (f ≡ goes_on s)) ⊎ ((c : ℕ) × (f ≡ emits c))
Fed-cases invalid = inl refl
Fed-cases (goes_on s) = inr (inl (s, refl))
Fed-cases (emits c) = inr (inr (c, refl))

end_of_chunk :
    (state state' : DecodeState) (s : Text)
    → decode_chunk state [] ≡ some (s, state')
    → ([] ≡ s) × (state ≡ state')
unfolding decode_chunk
end_of_chunk state state' s h = (cc, cc)

no_chunk :
    {o : Option (Text × DecodeState)} {s : Text} {state : DecodeState}
    → o ≡ none
    → o ≡ some (s, state)
    → ⊥
no_chunk e h = cc

after_invalid :
    (state : DecodeState) (b : ℕ) (bs : Bytes)
    → feed state b ≡ invalid
    → decode_chunk state (b ∷ bs) ≡ none
unfolding decode_chunk
after_invalid state b bs e = rw (e, decode_chunk) refl

after_goes_on :
    (state state' : DecodeState) (b : ℕ) (bs : Bytes)
    → feed state b ≡ goes_on state'
    → decode_chunk state (b ∷ bs) ≡ decode_chunk state' bs
unfolding decode_chunk
after_goes_on state state' b bs e = rw (e, decode_chunk) refl

with_character-some :
    (c : ℕ) (o : Option (Text × DecodeState)) (s : Text) (state : DecodeState)
    → with_character c o ≡ some (s, state)
    → (t : Text) × (o ≡ some (t, state)) × (s ≡ c ∷ t)
unfolding with_character
with_character-some c none s state h = cc
with_character-some c (some (t, st)) s state h = (t, ground arith, ground arith)

-- A chunk after its first byte
fed_chunk : Bytes → Fed → Option (Text × DecodeState)
unfolding with_character
fed_chunk bs invalid = none
fed_chunk bs (goes_on state) = decode_chunk state bs
fed_chunk bs (emits c) = with_character c (decode_chunk start bs)

after_emits :
    (state state' : DecodeState) (b c : ℕ) (bs : Bytes) (s : Text)
    → feed state b ≡ emits c
    → decode_chunk state (b ∷ bs) ≡ some (s, state')
    → (t : Text) × (decode_chunk start bs ≡ some (t, state')) × (s ≡ c ∷ t)
unfolding decode_chunk fed_chunk
after_emits state state' b c bs s e h =
    with_character-some c (decode_chunk start bs) s state'
      (subst (λ f. fed_chunk bs f ≡ some (s, state')) e h)

pub decode_from-append :
    (state state' : DecodeState) (chunk rest : Bytes) (s : Text)
    → decode_chunk state chunk ≡ some (s, state')
    → decode_from state (chunk ++ rest) ≡ in_front s (decode_from state' rest)
unfolding decode_chunk decode_from in_front
decode_from-append state state' [] rest s h =
    let (no_text, same) = end_of_chunk state state' s h in
    rw (sym no_text, sym same) (nothing_in_front (decode_from state rest))
decode_from-append state state' (b ∷ bs) rest s h = elim (Fed-cases (feed state b)) [
  | inl e ↦ elim (no_chunk (after_invalid state b bs e) h) [ ]
  | inr (inl (next_state, e)) ↦
      rw (e, decode_from)
        (decode_from-append next_state state' bs rest s
          (sym (after_goes_on state next_state b bs e) ∙ h))
  | inr (inr (c, e)) ↦
      let (t, more, same) = after_emits state state' b c bs s e h in
      rw (e, decode_from, same)
        (in_front_of c t (decode_from start (bs ++ rest)) (decode_from state' rest)
          (decode_from-append start state' bs rest t more))
]
