-- ===== src/Contracts/ByteRange.antt =====
-- `ByteRange` of contracts.py: a non-empty half-open range of byte offsets.
use knowledge_flow.Common.{ℕ, ◌<◌, String, ◌≡◌, Bool, true, ◌&&◌, List, []}
use knowledge_flow.Common.{◌∷◌, arith, leb, ◌==◌}
use knowledge_flow.Common.Result.{value_error, Result, ok, ◌>>=◌, ◌>>◌, raise_if}
use knowledge_flow.Common.Int.{pos}
use knowledge_flow.Common.Value.{Value, num, dict, end, entry}
use knowledge_flow.Contracts.Require.{
  require_exact_keys, item, require_nonnegative, require_positive,
}

pub record ByteRange : Type 0 where
  pub start_byte : ℕ
  pub end_byte : ℕ

-- `ByteRange(start_byte, end_byte)` with the checks of `__post_init__`.
unfoldable pub init : Value → Value → Result ByteRange
unfolding require_nonnegative require_positive
init start_byte end_byte = do
  start ← require_nonnegative start_byte "start_byte"
  stop ← require_positive end_byte "end_byte"
  raise_if (leb stop start) (value_error "byte range must be non-empty and half-open")
  ok (record { start_byte = start; end_byte = stop })

unfoldable pub as_mapping : ByteRange → Value
as_mapping r =
    dict (entry "start_byte" (num (pos r.start_byte)) (entry "end_byte" (num (pos r.end_byte)) end))

abbrev fields : List String
fields = "start_byte" ∷ "end_byte" ∷ []

unfoldable pub from_mapping : Value → String → Result ByteRange
unfolding init
from_mapping value field_name = do
  raw ← require_exact_keys value fields field_name
  start ← item raw "start_byte"
  stop ← item raw "end_byte"
  init start stop

-- `==` of the dataclass
unfoldable pub eq : ByteRange → ByteRange → Bool
eq a b = a.start_byte == b.start_byte && a.end_byte == b.end_byte

pub eq→eq : (a b : ByteRange) → eq a b ≡ true → a ≡ b
unfolding eq
eq→eq a b h = ground arith

abbrev pub IsValid : ByteRange → Type 0
IsValid r = r.start_byte < r.end_byte

pub init-IsValid : (u v : Value) (r : ByteRange) → init u v ≡ ok r → IsValid r
unfolding init
init-IsValid u v r h = ground arith

pub from_mapping-IsValid :
    (v : Value) (f : String) (r : ByteRange) → from_mapping v f ≡ ok r → IsValid r
unfolding from_mapping
from_mapping-IsValid v f r h = ground arith

pub from_mapping-as_mapping :
    (r : ByteRange) (f : String) → IsValid r → from_mapping (as_mapping r) f ≡ ok r
unfolding from_mapping as_mapping require_exact_keys item
from_mapping-as_mapping r f h = ground arith
