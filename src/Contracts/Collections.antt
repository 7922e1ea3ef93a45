-- ===== src/Contracts/Collections.antt =====
-- Lists inside a document: reading back what was written, and what a list that was read satisfies.
use mathlib.Core.Path.{subst}
use knowledge_flow.Common.{ℕ, suc, ◌≤◌, String, ◌<>◌, ◌≡◌, refl, sym, ap}
use knowledge_flow.Common.{◌∙◌, Bool, false, not, ◌&&◌, List, [], ◌∷◌, map}
use knowledge_flow.Common.{arith, ltb, ◌==◌, length, All, length-map}
use knowledge_flow.Common.Text.{Text}
use knowledge_flow.Common.Result.{
  Error, value_error, Result, ok, ◌>>=◌, ◌>>◌, raise_if, map_result, >>=-eq-ok,
}
use knowledge_flow.Common.Result.{ok_injective}
use knowledge_flow.Common.Value.{Value, str, seq, of_list, to_list-of_list, strs}
use knowledge_flow.Contracts.Require.{max_collection_items, require_sequence}

module _ {ℓ} {A : Type 0} (f : Value → Result A) (write : A → Value) (P : A → Type ℓ) where
  pub map_result-map :
      ((a : A) → P a → f (write a) ≡ ok a)
      → (xs : List A) → All P xs
      → map_result f (map write xs) ≡ ok xs
  map_result-map h [] v = refl
  map_result-map h (a ∷ xs) (p, v) = rw (h a p, map_result-map h xs v)

module _ {ℓ} {A : Type 0} (f : Value → Result A) (P : A → Type ℓ) where
  pub map_result-All :
      ((v : Value) (a : A) → f v ≡ ok a → P a)
      → (vs : List Value) (xs : List A) → map_result f vs ≡ ok xs
      → All P xs
  map_result-All h [] [] e = tt
  map_result-All h [] (a ∷ xs) e = cc
  map_result-All h (v ∷ vs) xs e =
      let (b, hb, e') = >>=-eq-ok (f v) _ e in
      let (bs, hbs, e'') = >>=-eq-ok (map_result f vs) _ e' in
      let same : b ∷ bs ≡ xs = cc in subst (All P) same (h v b hb, map_result-All h vs bs hbs)

-- The length of a list that was read is that of the sequence.
pub map_result-length :
    {A : Type 0} (f : Value → Result A) (vs : List Value) (xs : List A)
    → map_result f vs ≡ ok xs
    → length xs ≡ length vs
map_result-length f [] [] e = refl
map_result-length f [] (a ∷ xs) e = cc
map_result-length f (v ∷ vs) xs e =
    let (b, hb, e') = >>=-eq-ok (f v) _ e in
    let (bs, hbs, e'') = >>=-eq-ok (map_result f vs) _ e' in
    let same : b ∷ bs ≡ xs = cc in ap length (sym same) ∙ ap suc (map_result-length f vs bs hbs)

pub require_sequence-of_list :
    (vs : List Value) (field_name : String) (allow_empty : Bool)
    → length vs ≤ max_collection_items
    → (not allow_empty && length vs == 0) ≡ false
    → require_sequence (seq (of_list vs)) field_name allow_empty ≡ ok vs
unfolding require_sequence
require_sequence-of_list vs field_name allow_empty h e = rw (to_list-of_list vs) (ground arith)

pub require_sequence-eq-ok :
    (v : Value) (field_name : String) (allow_empty : Bool) (vs : List Value)
    → require_sequence v field_name allow_empty ≡ ok vs
    → (length vs ≤ max_collection_items) × ((not allow_empty && length vs == 0) ≡ false)
unfolding require_sequence
require_sequence-eq-ok v field_name allow_empty vs h = ground arith

-- A sequence of strings: `_require_sequence`, a bound on the count, and a check of each item.
unfoldable pub text_items :
    Value → String → Bool → (ℕ → Bool) → Error → (Value → Result Text) → Result (List Text)
text_items value field_name allow_empty wrong_count e check = do
  items ← require_sequence value field_name allow_empty
  raise_if (wrong_count (length items)) e
  map_result check items

module _ (field_name : String) (allow_empty : Bool) (wrong_count : ℕ → Bool) (e : Error)
    (check : Value → Result Text) (P : Text → Type 0) where
  abbrev pub TextsValid : List Text → Type 0
  TextsValid ts =
      (length ts ≤ max_collection_items)
      × ((not allow_empty && length ts == 0) ≡ false)
      × (wrong_count (length ts) ≡ false)
      × All P ts

  pub text_items-TextsValid :
      ((v : Value) (s : Text) → check v ≡ ok s → P s)
      → (v : Value) (ts : List Text)
      → text_items v field_name allow_empty wrong_count e check ≡ ok ts
      → TextsValid ts
  unfolding text_items
  text_items-TextsValid sound v ts h =
      let (items, e1, h1) = >>=-eq-ok (require_sequence v field_name allow_empty) _ h in
      let (u, e2, h2) = >>=-eq-ok (raise_if (wrong_count (length items)) e) _ h1 in
      let (few, enough) = require_sequence-eq-ok v field_name allow_empty items e1 in
      let size = map_result-length check items ts h2 in
      (
        rw size few,
        rw size enough,
        rw size (ground arith),
        map_result-All check P sound items ts h2,
      )

  pub sequence-strs :
      (ts : List Text)
      → TextsValid ts
      → require_sequence (strs ts) field_name allow_empty ≡ ok (map str ts)
  sequence-strs ts (few, enough, _, _) =
      require_sequence-of_list (map str ts) field_name allow_empty (rw (length-map str ts) few)
        (rw (length-map str ts) enough)

  pub text_items-strs :
      ((s : Text) → P s → check (str s) ≡ ok s)
      → (ts : List Text) → TextsValid ts
      → text_items (strs ts) field_name allow_empty wrong_count e check ≡ ok ts
  unfolding text_items
  text_items-strs complete ts valid =
      let (_, _, count, items) = valid in
      rw (sequence-strs ts valid, length-map str ts, count)
        (map_result-map check str P complete ts items)

-- `_require_sequence` on a tuple that is already there.
unfoldable pub require_items : {A : Type 0} → List A → String → Bool → Result (Unit {0})
require_items xs field_name allow_empty = do
  raise_if (not allow_empty && length xs == 0) (value_error (field_name <> " must not be empty"))
  raise_if (ltb max_collection_items (length xs))
      (value_error (field_name <> " contains too many items"))

-- A sequence of objects is read back from the list of their mappings.
pub items_read_back :
    {A : Type 0} (from_mapping : Value → Result A) (as_mapping : A → Value) (P : A → Type 0)
    (field_name : String) (allow_empty : Bool) (xs : List A)
    → ((a : A) → P a → from_mapping (as_mapping a) ≡ ok a)
    → All P xs
    → length xs ≤ max_collection_items
    → (not allow_empty && length xs == 0) ≡ false
    → (require_sequence (seq (of_list (map as_mapping xs))) field_name allow_empty
        ≡ ok (map as_mapping xs))
      × (map_result from_mapping (map as_mapping xs) ≡ ok xs)
items_read_back from_mapping as_mapping P field_name allow_empty xs back valid few enough = (
  require_sequence-of_list (map as_mapping xs) field_name allow_empty
      (rw (length-map as_mapping xs) few) (rw (length-map as_mapping xs) enough),
  map_result-map from_mapping as_mapping P back xs valid,
)

map_result-strs :
    (check : Value → Result Text) (ts us : List Text)
    → ((s u : Text) → check (str s) ≡ ok u → u ≡ s)
    → map_result check (map str ts) ≡ ok us
    → us ≡ ts
map_result-strs check [] us same h = sym (ok_injective [] us h)
map_result-strs check (t ∷ ts) us same h =
    let (v, hv, h') = >>=-eq-ok (check (str t)) _ h in
    let (vs, hvs, h'') = >>=-eq-ok (map_result check (map str ts)) _ h' in
    let first = same t v hv in let rest = map_result-strs check ts vs same hvs in cc

-- What a list of strings is read as is that list.
pub text_items-strs-eq-ok :
    (field_name : String) (allow_empty : Bool) (wrong_count : ℕ → Bool) (e : Error)
    (check : Value → Result Text) (ts us : List Text)
    → ((s u : Text) → check (str s) ≡ ok u → u ≡ s)
    → text_items (strs ts) field_name allow_empty wrong_count e check ≡ ok us
    → us ≡ ts
unfolding text_items require_sequence
text_items-strs-eq-ok field_name allow_empty wrong_count e check ts us same h =
    let (items, e1, h1) = >>=-eq-ok (require_sequence (strs ts) field_name allow_empty) _ h in
    let (u, e2, h2) = >>=-eq-ok (raise_if (wrong_count (length items)) e) _ h1 in
    let read = to_list-of_list (map str ts) in
    let back : items ≡ map str ts = ground arith in
    map_result-strs check ts us same (subst (λ z. map_result check z ≡ ok us) back h2)
