-- ===== src/Common/Text.antt =====
-- Python's `str` as its code points, with the tests that the program makes on it.
use Prim.Native.Nat.{ℕ, ◌+◌}
use Prim.Native.Char.{code}
use Prim.Native.String.{String}
use mathlib.Core.Path.{◌≡◌, refl}
use mathlib.Core.Bool.{Bool, true, false, not, ◌&&◌, ◌||◌}
use mathlib.Core.Option.{Option, none, some}
use mathlib.Core.List.{List, [], ◌∷◌, ◌++◌, reverse}
use native.Mathlib.Omega.{arith}
use knowledge_flow.Common.Tests.{leb, ltb, ◌==◌, if◌then◌else◌}
use knowledge_flow.Common.Lists.{all, any}

abbrev pub Text : Type 0
Text = List ℕ

-- The text of a literal. It stays shut in proofs.
unfoldable pub text : String → Text
text String.[] = []
text (String.◌∷◌ c s) = code c ∷ text s

unfoldable pub text_eq : Text → Text → Bool
text_eq [] [] = true
text_eq [] (d ∷ t) = false
text_eq (c ∷ s) [] = false
text_eq (c ∷ s) (d ∷ t) = c == d && text_eq s t

pub text_eq_refl : (s : Text) → text_eq s s ≡ true
unfolding text_eq
text_eq_refl [] = refl
text_eq_refl (c ∷ s) = ground (arith, text_eq_refl s)

pub text_eq→eq : (s t : Text) → text_eq s t ≡ true → s ≡ t
unfolding text_eq
text_eq→eq [] [] h = refl
text_eq→eq [] (d ∷ t) h = cc
text_eq→eq (c ∷ s) [] h = cc
text_eq→eq (c ∷ s) (d ∷ t) h = ground (arith, text_eq→eq s t)

-- `value in {…}`
unfoldable pub is_one_of : Text → List Text → Bool
unfolding text_eq
is_one_of s ts = any (text_eq s) ts

-- `len(set(items)) == len(items)`
unfoldable pub all_distinct : List Text → Bool
unfolding is_one_of
all_distinct [] = true
all_distinct (s ∷ ss) = not (is_one_of s ss) && all_distinct ss

-- `str.isspace` of one character, and `\s` of a regular expression
unfoldable pub is_space : ℕ → Bool
is_space c =
    leb 9 c && leb c 13
    || leb 28 c && leb c 32
    || c == 0x85
    || c == 0xa0
    || c == 0x1680
    || leb 0x2000 c && leb c 0x200a
    || c == 0x2028
    || c == 0x2029
    || c == 0x202f
    || c == 0x205f
    || c == 0x3000

unfoldable pub drop_while : (ℕ → Bool) → Text → Text
drop_while p [] = []
drop_while p (c ∷ s) = if p c then drop_while p s else c ∷ s

unfoldable pub drop_end_while : (ℕ → Bool) → Text → Text
unfolding drop_while
drop_end_while p s = reverse (drop_while p (reverse s))

-- `value.strip()`
unfoldable pub strip : Text → Text
unfolding drop_end_while is_space
strip s = drop_end_while is_space (drop_while is_space s)

abbrev char_bytes : ℕ → ℕ
char_bytes c = if ltb c 0x80 then 1 else if ltb c 0x800 then 2 else if ltb c 0x10000 then 3 else 4

-- `len(value.encode("utf-8"))`
unfoldable pub utf8_size : Text → ℕ
utf8_size [] = 0
utf8_size (c ∷ s) = char_bytes c + utf8_size s

-- `value.encode("utf-8")` raises on a lone surrogate.
abbrev pub can_encode : Text → Bool
can_encode s = all (λ c. ltb c 0xd800 || leb 0xe000 c) s

unfoldable pub has_char : ℕ → Text → Bool
has_char c s = any (λ d. d == c) s

unfoldable pub is_digit : ℕ → Bool
is_digit c = leb b'0' c && leb c b'9'

unfoldable pub is_lower : ℕ → Bool
is_lower c = leb b'a' c && leb c b'z'

-- `[0-9a-f]`
unfoldable pub is_hex : ℕ → Bool
unfolding is_digit
is_hex c = is_digit c || leb b'a' c && leb c b'f'

-- `value.startswith(prefix)`, with `value[len(prefix):]`
unfoldable pub after_prefix : Text → Text → Option Text
after_prefix [] s = some s
after_prefix (c ∷ p) [] = none
after_prefix (c ∷ p) (d ∷ s) = if c == d then after_prefix p s else none

pub after_prefix-append : (p s : Text) → after_prefix p (p ++ s) ≡ some s
unfolding after_prefix
after_prefix-append [] s = refl
after_prefix-append (c ∷ p) s = ground (arith, after_prefix-append p s)
