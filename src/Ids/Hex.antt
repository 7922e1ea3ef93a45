-- ===== src/Ids/Hex.antt =====
-- The text form of `uuid.UUID`, the standard library's: `str(uuid)`, and `UUID(text)` for text of
-- hexadecimal digits and hyphens. The other spellings that `UUID` takes (a `urn:` prefix, braces)
-- are no canonical form, so every caller refuses them; here `UUID` refuses them itself.
use mathlib.Core.List.{append_assoc}
use knowledge_flow.Common.{ℕ, zero, suc, ◌+◌, ◌-◌, ◌*◌, ◌/◌, ◌%◌, ◌^◌}
use knowledge_flow.Common.{◌<◌, ◌≡◌, refl, ap, ◌∙◌, false, ◌&&◌, Option, none}
use knowledge_flow.Common.{some, [], ◌∷◌, ◌++◌, arith, ltb, leb, ◌==◌, if◌then◌else◌}
use knowledge_flow.Common.{length, any}
use knowledge_flow.Common.Text.{Text}

abbrev hex_char : ℕ → ℕ
hex_char d = if ltb d 10 then b'0' + d else b'a' + (d - 10)

-- The last `k` hexadecimal digits of a number, in lower case.
unfoldable pub hex_text : ℕ → ℕ → Text
hex_text zero n = []
hex_text (suc k) n = hex_text k (n / 16) ++ (hex_char (n % 16) ∷ [])

-- `str(uuid)`: 8-4-4-4-12
unfoldable pub uuid_text : ℕ → Text
uuid_text n =
    hex_text 8 (n / 2 ^ 96)
    ++ (b'-'
        ∷ (hex_text 4 (n / 2 ^ 80)
            ++ (b'-'
                ∷ (hex_text 4 (n / 2 ^ 64)
                    ++ (b'-' ∷ (hex_text 4 (n / 2 ^ 48) ++ (b'-' ∷ (hex_text 12 n ++ []))))))))

unfoldable pub hex_digit? : ℕ → Option ℕ
hex_digit? c =
    if leb b'0' c && leb c b'9'
    then some (c - b'0')
    else if leb b'a' c && leb c b'f'
    then some (c - b'a' + 10)
    else if leb b'A' c && leb c b'F'
    then some (c - b'A' + 10)
    else none

unfoldable pub read_hex : ℕ → Text → Option ℕ
unfolding hex_digit?
read_hex acc [] = some acc
read_hex acc (c ∷ s) = elim (hex_digit? c) [ none ↦ none | some d ↦ read_hex (acc * 16 + d) s ]

unfoldable pub without_hyphens : Text → Text
without_hyphens [] = []
without_hyphens (c ∷ s) = let rest = without_hyphens s in if c == b'-' then rest else c ∷ rest

-- `UUID(text)`
unfoldable pub uuid_parse : Text → Option ℕ
unfolding read_hex without_hyphens
uuid_parse s = let h = without_hyphens s in if length h == 32 then read_hex 0 h else none

hex_char_lem :
    (d : ℕ) → d < 16 → (hex_digit? (hex_char d) ≡ some d) × ((hex_char d == b'-') ≡ false)
unfolding hex_digit?
hex_char_lem d h = ground arith

without_hyphens-hex_text :
    (k n : ℕ) (s : Text) → without_hyphens (hex_text k n ++ s) ≡ hex_text k n ++ without_hyphens s
unfolding hex_text without_hyphens
without_hyphens-hex_text zero n s = refl
without_hyphens-hex_text (suc k) n s =
    rw
      (
        append_assoc (hex_text k (n / 16)) (hex_char (n % 16) ∷ []) s,
        without_hyphens-hex_text k (n / 16),
        append_assoc (hex_text k (n / 16)) (hex_char (n % 16) ∷ []) (without_hyphens s),
      )
      (ap (λ t. hex_text k (n / 16) ++ t) (rw ((hex_char_lem (n % 16) (omega arith)).1) refl))

length-hex_text : (k n : ℕ) (s : Text) → length (hex_text k n ++ s) ≡ k + length s
unfolding hex_text
length-hex_text zero n s = omega arith
length-hex_text (suc k) n s =
    rw append_assoc (omega (arith, length-hex_text k (n / 16) (hex_char (n % 16) ∷ s)))

-- The number with its last `k` hexadecimal digits cut off.
abbrev without_digits : ℕ → ℕ → ℕ
without_digits zero n = n
without_digits (suc k) n = without_digits k (n / 16)

read_hex-hex_text :
    (k n : ℕ) (s : Text) → read_hex (without_digits k n) (hex_text k n ++ s) ≡ read_hex n s
unfolding hex_text read_hex
read_hex-hex_text zero n s = refl
read_hex-hex_text (suc k) n s = rw append_assoc (
    read_hex-hex_text k (n / 16) (hex_char (n % 16) ∷ s)
    ∙ rw ((hex_char_lem (n % 16) (omega arith)).0, read_hex) (ap (λ m. read_hex m s) (omega arith)))

abbrev digits_of : ℕ → Text
digits_of n =
    hex_text 8 (n / 2 ^ 96)
    ++ (hex_text 4 (n / 2 ^ 80)
        ++ (hex_text 4 (n / 2 ^ 64) ++ (hex_text 4 (n / 2 ^ 48) ++ (hex_text 12 n ++ []))))

without_hyphens-hyphen : (s : Text) → without_hyphens (b'-' ∷ s) ≡ without_hyphens s
unfolding without_hyphens
without_hyphens-hyphen s = refl

without_hyphens-nil : without_hyphens [] ≡ []
unfolding without_hyphens
without_hyphens-nil = refl

without_hyphens-uuid_text : (n : ℕ) → without_hyphens (uuid_text n) ≡ digits_of n
unfolding uuid_text
without_hyphens-uuid_text n =
    simp (without_hyphens-hex_text, without_hyphens-hyphen, without_hyphens-nil)

length-digits_of : (n : ℕ) → length (digits_of n) ≡ 32
length-digits_of n = simp length-hex_text

read_hex-part :
    (k m n : ℕ) (s : Text) → without_digits k n ≡ m → read_hex m (hex_text k n ++ s) ≡ read_hex n s
read_hex-part k m n s e = rw (← e) (read_hex-hex_text k n s)

read_hex-digits_of : (n : ℕ) → n < 2 ^ 128 → read_hex 0 (digits_of n) ≡ some n
read_hex-digits_of n h =
    read_hex-part 8 0 (n / 2 ^ 96) _ (omega arith)
    ∙ read_hex-part 4 (n / 2 ^ 96) (n / 2 ^ 80) _ (omega arith)
    ∙ read_hex-part 4 (n / 2 ^ 80) (n / 2 ^ 64) _ (omega arith)
    ∙ read_hex-part 4 (n / 2 ^ 64) (n / 2 ^ 48) _ (omega arith)
    ∙ read_hex-part 12 (n / 2 ^ 48) n [] (omega arith)
    ∙ unfold read_hex in refl

-- Reading the canonical text of a UUID gives the UUID back.
pub uuid_parse-uuid_text : (n : ℕ) → n < 2 ^ 128 → uuid_parse (uuid_text n) ≡ some n
unfolding uuid_parse
uuid_parse-uuid_text n h =
    rw (without_hyphens-uuid_text n, length-digits_of n) (read_hex-digits_of n h)

upper_digit :
    (d : ℕ) (s : Text)
    → d < 16
    → any (λ c. leb b'A' c && leb c b'Z') (hex_char d ∷ s) ≡ any (λ c. leb b'A' c && leb c b'Z') s
upper_digit d s h = ground arith

-- No hexadecimal digit is an upper-case letter.
pub no_upper-hex_text :
    (k n : ℕ) (s : Text)
    → any (λ c. leb b'A' c && leb c b'Z') (hex_text k n ++ s)
      ≡ any (λ c. leb b'A' c && leb c b'Z') s
unfolding hex_text
no_upper-hex_text zero n s = refl
no_upper-hex_text (suc k) n s =
    rw append_assoc
      (no_upper-hex_text k (n / 16) (hex_char (n % 16) ∷ s) ∙ upper_digit (n % 16) s (omega arith))
