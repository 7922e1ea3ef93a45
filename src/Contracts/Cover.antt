-- ===== src/Contracts/Cover.antt =====
-- `_require_exact_range_cover` of contracts.py, against what a cover is.
use knowledge_flow.Contracts.ByteRange
use knowledge_flow.Contracts.ByteRange.{ByteRange}
use knowledge_flow.Common.{ℕ, ◌+◌, ◌-◌, ◌≤◌, String, ◌<>◌, ◌≡◌, Bool, not}
use knowledge_flow.Common.{◌&&◌, List, [], ◌∷◌, arith, ltb, leb, ◌==◌, if◌then◌else◌}
use knowledge_flow.Common.{length, All}
use knowledge_flow.Common.Result.{value_error, Result, ok, ◌>>◌, raise_if}

-- The loop, with its cursor.
cover_loop : ℕ → ℕ → String → List ByteRange → Result (Unit {0})
cover_loop cursor stop field_name [] =
    raise_if (not (cursor == stop))
      (value_error (field_name <> " must cover declared scope exactly"))
cover_loop cursor stop field_name (r ∷ rs) = do
  raise_if (not (r.start_byte == cursor))
      (value_error (field_name <> " must cover declared scope without gaps or overlap"))
  cover_loop r.end_byte stop field_name rs

unfoldable pub require_exact_range_cover : ByteRange → List ByteRange → String → Result (Unit {0})
unfolding cover_loop
require_exact_range_cover declared_scope ranges field_name = do
  raise_if (length ranges == 0) (value_error (field_name <> " must not be empty"))
  cover_loop declared_scope.start_byte declared_scope.end_byte field_name ranges

-- The ranges follow one another from one offset to the other.
abbrev pub Chain : ℕ → ℕ → List ByteRange → Type 0
Chain start stop [] = start ≡ stop
Chain start stop (r ∷ rs) = (r.start_byte ≡ start) × Chain r.end_byte stop rs

abbrev pub Covers : ByteRange → List ByteRange → Type 0
Covers scope ranges = (1 ≤ length ranges) × Chain scope.start_byte scope.end_byte ranges

cover_loop-Chain :
    (start stop : ℕ) (f : String) (rs : List ByteRange)
    → cover_loop start stop f rs ≡ ok tt
    → Chain start stop rs
unfolding cover_loop
cover_loop-Chain start stop f [] h = ground arith
cover_loop-Chain start stop f (r ∷ rs) h = ground (arith, cover_loop-Chain r.end_byte stop f rs)

cover_loop_of_Chain :
    (start stop : ℕ) (f : String) (rs : List ByteRange)
    → Chain start stop rs
    → cover_loop start stop f rs ≡ ok tt
unfolding cover_loop
cover_loop_of_Chain start stop f [] h = ground arith
cover_loop_of_Chain start stop f (r ∷ rs) h =
    ground (arith, cover_loop_of_Chain r.end_byte stop f rs h.1)

pub require_exact_range_cover-Covers :
    (scope : ByteRange) (rs : List ByteRange) (f : String)
    → require_exact_range_cover scope rs f ≡ ok tt
    → Covers scope rs
unfolding require_exact_range_cover
require_exact_range_cover-Covers scope rs f h =
    ground (arith, cover_loop-Chain scope.start_byte scope.end_byte f rs)

pub require_exact_range_cover_of_Covers :
    (scope : ByteRange) (rs : List ByteRange) (f : String)
    → Covers scope rs
    → require_exact_range_cover scope rs f ≡ ok tt
unfolding require_exact_range_cover
require_exact_range_cover_of_Covers scope rs f h =
    ground (arith, cover_loop_of_Chain scope.start_byte scope.end_byte f rs h.1)

-- How many of the ranges hold an offset.
abbrev holds : ℕ → ByteRange → Bool
holds b r = leb r.start_byte b && ltb b r.end_byte

unfoldable pub covering : ℕ → List ByteRange → ℕ
covering b [] = 0
covering b (r ∷ rs) = (if holds b r then 1 else 0) + covering b rs

Chain-le :
    (start stop : ℕ) (rs : List ByteRange)
    → All ByteRange.IsValid rs
    → Chain start stop rs
    → start ≤ stop
Chain-le start stop [] v h = omega arith
Chain-le start stop (r ∷ rs) v h = omega (arith, Chain-le r.end_byte stop rs v.1 h.1)

covering-Chain :
    (b start stop : ℕ) (rs : List ByteRange)
    → All ByteRange.IsValid rs
    → Chain start stop rs
    → covering b rs ≡ (if leb start b && ltb b stop then 1 else 0)
unfolding covering
covering-Chain b start stop [] v h = ground arith
covering-Chain b start stop (r ∷ rs) v h =
    ground (arith, covering-Chain b r.end_byte stop rs v.1 h.1, Chain-le r.end_byte stop rs v.1 h.1)

-- A list of valid ranges that `_require_exact_range_cover` accepts holds every byte of the
-- declared scope exactly once, and no other byte.
pub covering-require_exact_range_cover :
    (scope : ByteRange) (rs : List ByteRange) (f : String) (b : ℕ)
    → All ByteRange.IsValid rs
    → require_exact_range_cover scope rs f ≡ ok tt
    → covering b rs ≡ (if holds b scope then 1 else 0)
covering-require_exact_range_cover scope rs f b v h =
    covering-Chain b scope.start_byte scope.end_byte rs v
      (require_exact_range_cover-Covers scope rs f h).1

-- The bytes of a list of ranges.
unfoldable pub total_bytes : List ByteRange → ℕ
total_bytes [] = 0
total_bytes (r ∷ rs) = (r.end_byte - r.start_byte) + total_bytes rs

pub total_bytes-Chain :
    (start stop : ℕ) (rs : List ByteRange)
    → All ByteRange.IsValid rs
    → Chain start stop rs
    → total_bytes rs + start ≡ stop
unfolding total_bytes
total_bytes-Chain start stop [] v h = omega arith
total_bytes-Chain start stop (r ∷ rs) v h =
    omega (arith, total_bytes-Chain r.end_byte stop rs v.1 h.1)
