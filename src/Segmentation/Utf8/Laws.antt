-- ===== src/Segmentation/Utf8/Laws.antt =====
-- Where the character boundaries of valid UTF-8 lie.
pub mod Cuts
use native.Mathlib.Decide.{dec_le}
use knowledge_flow.Common.{ℕ, zero, suc, ◌+◌, ◌≤◌, ◌<◌, ◌≡◌, refl, sym}
use knowledge_flow.Common.{◌∙◌, ◌≢◌, ◌⊎◌, inl, inr, Bool, true, false, not}
use knowledge_flow.Common.{◌&&◌, ◌||◌, Option, none, some, [], ◌∷◌, arith, leb}
use knowledge_flow.Common.{◌==◌, if◌then◌else◌, length, get_elem?}
use knowledge_flow.Common.Text.{Text}
use knowledge_flow.Common.Result.{ok}
use knowledge_flow.Segmentation.Utf8.{
  Bytes, DecodeState, start, last_one, last_two, last_three, after_e0, after_ed, after_f0,
}
use knowledge_flow.Segmentation.Utf8.{
  after_f4, Fed, invalid, goes_on, emits, feed, decode_from, decode, is_continuation,
}
use knowledge_flow.Segmentation.Utf8.{is_utf8_boundary, emit_before, starts_character}

-- How many bytes the decoder still waits for.
weight : DecodeState → ℕ
weight start = 0
weight (last_one acc) = 1
weight (last_two acc) = 2
weight (last_three acc) = 3
weight after_e0 = 2
weight after_ed = 2
weight after_f0 = 3
weight after_f4 = 3

-- A test passes on every number under a limit.
passes_under : (ℕ → Bool) → ℕ → Bool
passes_under test zero = true
passes_under test (suc limit) = passes_under test limit && test limit

passes_under_lem :
    (test : ℕ → Bool) (limit b : ℕ) → b < limit → passes_under test limit ≡ true → test b ≡ true
unfolding passes_under
passes_under_lem test zero b under passed = absurd (omega arith)
passes_under_lem test (suc limit) b under passed = ground (arith, passes_under_lem test limit b)

abbrev agrees : ℕ → Bool
agrees b = if leb 0x80 b && leb b 0xbf then is_continuation b else not (is_continuation b)

agrees_table : passes_under agrees 256 ≡ true
unfolding passes_under is_continuation
agrees_table = refl

-- The mask of the source is the range test of the decoder.
is_continuation_lem : (b : ℕ) → b < 256 → is_continuation b ≡ (leb 0x80 b && leb b 0xbf)
is_continuation_lem b h = ground (arith, passes_under_lem agrees 256 b h agrees_table)

-- A byte that the decoder takes first is no continuation byte.
feed_start : (b : ℕ) → feed start b ≢ invalid → is_continuation b ≡ false
unfolding feed
feed_start b h = ground (arith, is_continuation_lem b)

-- A step inside a character uses up one of the bytes that are waited for.
feed-goes_on :
    (s t : DecodeState) (b : ℕ) → feed s b ≡ goes_on t → (s ≡ start) ⊎ (weight t + 1 ≡ weight s)
unfolding feed weight
feed-goes_on s t b h = ground arith

weight-le : (s : DecodeState) → weight s ≤ 3
unfolding weight
weight-le s = ground arith

feed-emits : (s : DecodeState) (b c : ℕ) → feed s b ≡ emits c → (s ≡ start) ⊎ (1 ≡ weight s)
unfolding feed weight
feed-emits s b c h = ground arith

-- One step of a decoding that succeeds.
record Stepped (s : DecodeState) (b : ℕ) (bs : Bytes) : Type 0 where
  next : DecodeState
  rest : Text
  decoded : decode_from next bs ≡ some rest
  waits : (s ≡ start) ⊎ (weight next + 1 ≡ weight s)
  first : s ≡ start → is_continuation b ≡ false
  newline : b ≡ 10 → next ≡ start

goes_on-newline : (s t : DecodeState) (b : ℕ) → feed s b ≡ goes_on t → b ≢ 10
unfolding feed
goes_on-newline s t b h e = ground arith

abbrev continue_with : Fed → Bytes → Option Text
continue_with invalid bs = none
continue_with (goes_on state') bs = decode_from state' bs
continue_with (emits c) bs = emit_before c (decode_from start bs)

decode_from-cons :
    (s : DecodeState) (b : ℕ) (bs : Bytes) → decode_from s (b ∷ bs) ≡ continue_with (feed s b) bs
unfolding decode_from
decode_from-cons s b bs = ground arith

emit_before-eq-some :
    (c : ℕ) (o : Option Text) (t : Text) → emit_before c o ≡ some t → (u : Text) × (o ≡ some u)
unfolding emit_before
emit_before-eq-some c none t h = absurd (cc)
emit_before-eq-some c (some u) t h = (u, refl)

decode_step :
    (s : DecodeState) (b : ℕ) (bs : Bytes) (t : Text)
    → decode_from s (b ∷ bs) ≡ some t
    → Stepped s b bs
unfolding weight
decode_step s b bs t h = go (feed s b) refl (sym (decode_from-cons s b bs) ∙ h)
  where
    go : (f : Fed) → feed s b ≡ f → continue_with f bs ≡ some t → Stepped s b bs
    go invalid e k = absurd (cc)
    go (goes_on state') e k = record {
      next = state';
      rest = t;
      decoded = k;
      waits = feed-goes_on s state' b e;
      first = λ at_start. feed_start b (λ bad. cc);
      newline = λ n. absurd (goes_on-newline s state' b e n);
    }
    go (emits c) e k =
        let (u, hu) = emit_before-eq-some c (decode_from start bs) t k in
        record {
          next = start;
          rest = u;
          decoded = hu;
          waits = ground (arith, feed-emits s b c e);
          first = λ at_start. feed_start b (λ bad. cc);
          newline = λ n. refl;
        }

-- Within three bytes below an offset of valid UTF-8 there is a character boundary.
abbrev Boundary : Bytes → ℕ → Type 0
Boundary bs c = (c == length bs || starts_character (get_elem? bs c)) ≡ true

weight_zero : (s : DecodeState) → weight s ≤ 0 → s ≡ start
unfolding weight
weight_zero s h = ground arith

abbrev Near : Bytes → ℕ → Type 0
Near bs m = (c : ℕ) × (c ≤ m) × (m ≤ c + 3) × Boundary bs c

Near-here : (b : ℕ) (bs : Bytes) (m : ℕ) → is_continuation b ≡ false → m ≤ 3 → Near (b ∷ bs) m
unfolding starts_character
Near-here b bs m h short = (0, omega arith, omega arith, ground arith)

Near-later : (b : ℕ) (bs : Bytes) (m : ℕ) → Near bs m → Near (b ∷ bs) (suc m)
Near-later b bs m (c, below, close, boundary) = (suc c, omega arith, omega arith, ground arith)

boundary-Near :
    (s : DecodeState) (bs : Bytes) (t : Text) (m : ℕ)
    → decode_from s bs ≡ some t
    → weight s ≤ m
    → m ≤ length bs
    → Near bs m
boundary-Near s [] t m h w short = (0, omega arith, omega arith, ground arith)
boundary-Near s (b ∷ bs) t zero h w short =
    Near-here b bs 0 ((decode_step s b bs t h).first (weight_zero s w)) (omega arith)
boundary-Near s (b ∷ bs) t (suc m) h w short =
    let d = decode_step s b bs t h in
    let later : weight d.next ≤ m → Near (b ∷ bs) (suc m) =
      λ fits. Near-later b bs m (boundary-Near d.next bs d.rest m d.decoded fits (omega arith)) in
    elim d.waits [
      | inr fewer ↦ later (omega arith)
      | inl at_start ↦ elim (dec_le (weight d.next) m) [
        | yes fits ↦ later fits
        | no over ↦ Near-here b bs (suc m) (d.first at_start) (omega (arith, weight-le d.next))
      ]
    ]

-- After a newline a character begins.
Boundary-after_newline :
    (s : DecodeState) (bs : Bytes) (t : Text) (i : ℕ)
    → decode_from s bs ≡ some t
    → get_elem? bs i ≡ some 10
    → Boundary bs (suc i)
unfolding starts_character
Boundary-after_newline s [] t i h e = cc
Boundary-after_newline s (b ∷ []) t zero h e = ground arith
Boundary-after_newline s (b ∷ b' ∷ bs) t zero h e =
    let d = decode_step s b (b' ∷ bs) t h in
    let d' = decode_step d.next b' bs d.rest d.decoded in
    let fresh = d'.first (d.newline (ground arith)) in ground arith
Boundary-after_newline s (b ∷ bs) t (suc i) h e =
    let d = decode_step s b bs t h in
    let rest = Boundary-after_newline d.next bs d.rest i d.decoded e in ground arith

decode-eq-ok :
    (source : Bytes) (t : Text) → decode source ≡ ok t → decode_from start source ≡ some t
unfolding decode
decode-eq-ok source t h = ground arith

-- In a source that decodes, one of any four consecutive offsets is a character boundary.
pub is_utf8_boundary_near :
    (source : Bytes) (t : Text) (m : ℕ)
    → decode source ≡ ok t
    → m ≤ length source
    → (c : ℕ) × (c ≤ m) × (m ≤ c + 3) × (is_utf8_boundary source c ≡ true)
unfolding is_utf8_boundary weight
is_utf8_boundary_near source t m h short =
    let (c, below, close, boundary) =
      boundary-Near start source t m (decode-eq-ok source t h) (omega arith) short in
    (c, below, close, ground arith)

-- In a source that decodes, the offset after a newline is a character boundary.
pub is_utf8_boundary_after_newline :
    (source : Bytes) (t : Text) (i : ℕ)
    → decode source ≡ ok t
    → get_elem? source i ≡ some 10
    → is_utf8_boundary source (suc i) ≡ true
unfolding is_utf8_boundary
is_utf8_boundary_after_newline source t i h e =
    let boundary = Boundary-after_newline start source t i (decode-eq-ok source t h) e in
    ground arith
