-- ===== src/Contracts/Timestamp.antt =====
-- `require_canonical_utc_milliseconds` of knowledgeflow_capture/models.py: the pattern, and the
-- calendar check that `datetime.strptime` makes.
use knowledge_flow.Common.{ℕ, zero, suc, ◌+◌, ◌-◌, ◌*◌, ◌%◌, String, ◌<>◌}
use knowledge_flow.Common.{◌≡◌, Bool, true, false, not, ◌&&◌, ◌||◌, Option, none}
use knowledge_flow.Common.{some, [], ◌∷◌, arith, ltb, leb, ◌==◌, if◌then◌else◌}
use knowledge_flow.Common.Text.{Text, is_digit}
use knowledge_flow.Common.Result.{value_error, Result, ok, err, ◌>>◌, raise_if}
use knowledge_flow.Common.Value.{Value, str}

-- The `k` decimal digits at the front of a text, as a number, with the rest.
unfoldable pub digits : ℕ → ℕ → Text → Option (ℕ × Text)
digits zero acc s = some (acc, s)
digits (suc k) acc [] = none
digits (suc k) acc (c ∷ s) =
    let rest = digits k (acc * 10 + (c - b'0')) s in if is_digit c then rest else none

-- A literal character at the front of a text.
literal : ℕ → Text → Option Text
literal c [] = none
literal c (d ∷ s) = if c == d then some s else none

infixl 5 ◌then_read◌
◌then_read◌ : {A B : Type 0} → Option A → (A → Option B) → Option B
none then_read f = none
some a then_read f = f a

abbrev number_then : ℕ → ℕ → Text → Option (ℕ × Text)
number_then k c s =
    digits k 0 s then_read λ (n, rest). literal c rest then_read λ rest'. some (n, rest')

is_leap : ℕ → Bool
is_leap y = y % 4 == 0 && not (y % 100 == 0) || y % 400 == 0

days_in_month : ℕ → ℕ → ℕ
unfolding is_leap
days_in_month y m =
    if m == 2
    then (if is_leap y then 29 else 28)
    else if m == 4 || m == 6 || m == 9 || m == 11
    then 30
    else 31

pub record Moment : Type 0 where
  pub year : ℕ
  pub month : ℕ
  pub day : ℕ
  pub hour : ℕ
  pub minute : ℕ
  pub second : ℕ
  pub millisecond : ℕ

-- `[0-9]{4}-[0-9]{2}-[0-9]{2}T[0-9]{2}:[0-9]{2}:[0-9]{2}\.[0-9]{3}Z\Z`
unfoldable pub parse_pattern : Text → Option Moment
unfolding digits literal ◌then_read◌
parse_pattern s = number_then 4 b'-' s then_read λ (y, s1).
    number_then 2 b'-' s1 then_read λ (mo, s2). number_then 2 b'T' s2 then_read λ (d, s3).
    number_then 2 b':' s3 then_read λ (h, s4). number_then 2 b':' s4 then_read λ (mi, s5).
    number_then 2 b'.' s5 then_read λ (sec, s6). number_then 3 b'Z' s6 then_read λ (ms, s7).
    elim s7 [
      | [] ↦ some (record {
        year = y;
        month = mo;
        day = d;
        hour = h;
        minute = mi;
        second = sec;
        millisecond = ms;
      })
      | _ ∷ _ ↦ none
    ]

-- What `datetime` accepts.
unfoldable pub is_real : Moment → Bool
unfolding days_in_month
is_real t =
    leb 1 t.year
    && leb 1 t.month
    && leb t.month 12
    && leb 1 t.day
    && leb t.day (days_in_month t.year t.month)
    && ltb t.hour 24
    && ltb t.minute 60
    && ltb t.second 60

checked : Text → String → Option Moment → Result Text
checked s field_name none = err (value_error (field_name <> " must be canonical UTC milliseconds"))
checked s field_name (some t) = do
  raise_if (not (is_real t)) (value_error (field_name <> " must be a valid UTC timestamp"))
  ok s

unfoldable pub is_utc_milliseconds : Text → Bool
is_utc_milliseconds s = elim (parse_pattern s) [ none ↦ false | some t ↦ is_real t ]

unfoldable pub require_canonical_utc_milliseconds : Value → String → Result Text
unfolding checked
require_canonical_utc_milliseconds (str s) field_name = checked s field_name (parse_pattern s)
require_canonical_utc_milliseconds _ field_name =
    err (value_error (field_name <> " must be canonical UTC milliseconds"))

pub require_canonical_utc_milliseconds-eq-ok :
    (v : Value) (f : String) (s : Text)
    → require_canonical_utc_milliseconds v f ≡ ok s
    → is_utc_milliseconds s ≡ true
unfolding require_canonical_utc_milliseconds is_utc_milliseconds
require_canonical_utc_milliseconds-eq-ok v f s h = ground arith

pub require_canonical_utc_milliseconds-str :
    (f : String) (s : Text)
    → is_utc_milliseconds s ≡ true
    → require_canonical_utc_milliseconds (str s) f ≡ ok s
unfolding require_canonical_utc_milliseconds is_utc_milliseconds
require_canonical_utc_milliseconds-str f s h = ground arith
