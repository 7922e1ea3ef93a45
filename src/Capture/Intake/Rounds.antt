-- ===== src/Capture/Intake/Rounds.antt =====
use mathlib.Core.Path.{subst}
use knowledge_flow.Common.{ℕ, ◌+◌, ◌≤◌, ◌≡◌, refl, sym, ap, ◌∙◌, ◌⊎◌}
use knowledge_flow.Common.{inl, inr, true, false, not, some, List, [], ◌∷◌}
use knowledge_flow.Common.{◌++◌, arith, ◌==◌, if-both, length}
use knowledge_flow.Common.Text.{Text}
use knowledge_flow.Common.Result.{ok, raise_if, >>=-eq-ok, ok_injective, Ensures}
use knowledge_flow.Segmentation.Utf8.{
  Bytes, DecodeState, start, last_one, last_two, last_three, after_e0, after_ed, after_f0,
}
use knowledge_flow.Segmentation.Utf8.{after_f4, decode_from, at_end}
use knowledge_flow.Capture.Intake.{
  starts_with_bom, Intake, bytes_read, joined, finish_intake, is_complete, invalid_text, pass_on,
}

-- One round and the end of `_iter_utf8_source_chunks` of src/knowledgeflow_capture/durability.py.

-- What stands at the end of the loop, from the variables `s` on
unfoldable pub Passed : ℕ → Intake → List Bytes → List Bytes → Type 0
unfolding bytes_read joined starts_with_bom decode_from
Passed maximum_bytes s chunks passed =
    (t : Text) × (joined passed ≡ s.buffered_prefix ++ bytes_read chunks)
    × (s.byte_size + length (bytes_read chunks) ≤ maximum_bytes)
    × (decode_from s.decoder (bytes_read chunks) ≡ some t)
    × (s.saw_character ≡ false → (1 ≤ length t) × (starts_with_bom t ≡ false))

pub append_nil : (xs : Bytes) → xs ++ [] ≡ xs
append_nil [] = refl
append_nil (x ∷ xs) = ap (λ ys. x ∷ ys) (append_nil xs)

pub append_assoc : (xs ys zs : Bytes) → (xs ++ ys) ++ zs ≡ xs ++ (ys ++ zs)
append_assoc [] ys zs = refl
append_assoc (x ∷ xs) ys zs = ap (λ rest. x ∷ rest) (append_assoc xs ys zs)

pub length-append : (xs ys : List ℕ) → length (xs ++ ys) ≡ length xs + length ys
length-append [] ys = ground arith
length-append (x ∷ xs) ys = ground (arith, length-append xs ys)

pub joined-append : (xs ys : List Bytes) → joined (xs ++ ys) ≡ joined xs ++ joined ys
unfolding joined
joined-append [] ys = refl
joined-append (x ∷ xs) ys =
    ap (λ rest. x ++ rest) (joined-append xs ys) ∙ sym (append_assoc x (joined xs) (joined ys))

complete_is_start : (state : DecodeState) → is_complete state ≡ true → state ≡ start
unfolding is_complete
complete_is_start start h = refl
complete_is_start (last_one n) h = cc
complete_is_start (last_two n) h = cc
complete_is_start (last_three n) h = cc
complete_is_start after_e0 h = cc
complete_is_start after_ed h = cc
complete_is_start after_f0 h = cc
complete_is_start after_f4 h = cc

finish_intake-Passed :
    (maximum_bytes : ℕ) (s : Intake) (passed : List Bytes)
    → s.byte_size ≤ maximum_bytes
    → (s.saw_character ≡ true → s.buffered_prefix ≡ [])
    → finish_intake s ≡ ok passed
    → (is_complete s.decoder ≡ true) × (s.saw_character ≡ true) × ([] ≡ passed)
unfolding finish_intake
finish_intake-Passed maximum_bytes s passed b empty h =
    let (p1, complete, h1) = >>=-eq-ok (raise_if (not (is_complete s.decoder)) invalid_text) _ h in
    let (p2, sized, h2) = >>=-eq-ok (raise_if (s.byte_size == 0) invalid_text) _ h1 in
    let (p3, seen, h3) = >>=-eq-ok (raise_if (not s.saw_character) invalid_text) _ h2 in
    (ground arith, ground arith, ok_injective [] passed h3)

pub at_end-Passed :
    (maximum_bytes : ℕ) (s : Intake) (passed : List Bytes)
    → s.byte_size ≤ maximum_bytes
    → (s.saw_character ≡ true → s.buffered_prefix ≡ [])
    → finish_intake s ≡ ok passed
    → Passed maximum_bytes s [] passed
unfolding Passed bytes_read joined decode_from at_end
at_end-Passed maximum_bytes s passed b empty h =
    let (complete, seen, none_passed) = finish_intake-Passed maximum_bytes s passed b empty h in
    (
      [],
      ap joined (sym none_passed) ∙ sym (append_nil s.buffered_prefix ∙ empty seen),
      ground arith,
      ap (λ state. decode_from state []) (complete_is_start s.decoder complete),
      λ unseen. cc,
    )

-- What one chunk does to the variables
unfoldable pub Facts : Intake → Bytes → Text → DecodeState → List Bytes × Intake → Type 0
unfolding joined starts_with_bom
Facts s chunk d state (passed, s') =
    (s'.decoder ≡ state)
    × (s'.byte_size ≡ s.byte_size + length chunk)
    × (joined passed ++ s'.buffered_prefix ≡ s.buffered_prefix ++ chunk)
    × (s'.saw_character ≡ true → s'.buffered_prefix ≡ [])
    × (s.saw_character ≡ false
        → (s'.saw_character ≡ false) × (length d ≡ 0)
          ⊎ (1 ≤ length d) × (starts_with_bom d ≡ false))

returned : {A : Type 0} (P : A → Type 0) (a : A) → P a → Ensures P (ok a)
returned P a h = record { at = λ b e. subst P (ok_injective a b e) h }

pub pass_on-Facts :
    (s : Intake) (chunk : Bytes) (d : Text) (state : DecodeState)
    → (s.saw_character ≡ true → s.buffered_prefix ≡ [])
    → Ensures (Facts s chunk d state) (pass_on s chunk d state)
unfolding pass_on joined Facts
pass_on-Facts s chunk d state empty =
    if-both (Ensures (Facts s chunk d state)) s.saw_character _ _
      (λ seen.
        returned (Facts s chunk d state) _ (refl, refl, in_order (empty seen), empty, λ unseen. cc))
      (λ unseen.
        if-both (Ensures (Facts s chunk d state)) (length d == 0) _ _
          (λ none_yet.
            returned (Facts s chunk d state) _
              (refl, refl, refl, λ seen. cc, λ u. inl (unseen, ground arith)))
          (λ some_now.
            if-both (Ensures (Facts s chunk d state)) (starts_with_bom d) _ _
              (λ bom. record { at = λ b e. cc })
              (λ plain. returned (Facts s chunk d state) _ (
                refl,
                refl,
                append_nil (joined ((s.buffered_prefix ++ chunk) ∷ []))
                    ∙ append_nil (s.buffered_prefix ++ chunk),
                λ seen. refl,
                λ u. inr (ground arith, plain),
              ))))
  where
    in_order :
        s.buffered_prefix ≡ [] → (chunk ++ []) ++ s.buffered_prefix ≡ s.buffered_prefix ++ chunk
    in_order e =
        ap (λ xs. (chunk ++ []) ++ xs) e
        ∙ append_nil (chunk ++ [])
        ∙ append_nil chunk
        ∙ ap (λ xs. xs ++ chunk) (sym e)
