-- ===== src/Segmentation/Build/Reads.antt =====
-- What one segment and one locator say of the source.
use knowledge_flow.Contracts.SourceBinding.{SourceBinding}
use knowledge_flow.Contracts.ByteRange.{ByteRange}
use knowledge_flow.Contracts.SegmentationProfile.{SegmentationProfile}
use knowledge_flow.Contracts.SegmentRecord.{SegmentRecord}
use knowledge_flow.Contracts.EvidenceLocator.{EvidenceLocator}
use knowledge_flow.Common.{ℕ, suc, ◌+◌, ◌-◌, ◌≤◌, ◌<◌, ◌≡◌, refl, sym}
use knowledge_flow.Common.{List, [], ◌∷◌, ◌++◌, map, arith, length, take, drop}
use knowledge_flow.Common.{All}
use knowledge_flow.Common.Text.{text}
use knowledge_flow.Segmentation.Utf8.{Bytes}
use knowledge_flow.Segmentation.Lines.{slice, count_newlines}
use knowledge_flow.Hashing.{hash_bytes}
use knowledge_flow.Segmentation.Build.{Headings, Services}
use knowledge_flow.Segmentation.Build.Laws.{expected_segment, expected_items}
use knowledge_flow.Segmentation.Build.Pieces.{HeadingOf, slice-Cut, heading_at-HeadingOf}

-- What a segment with the number `n` says of a source: its bytes stand between `before` and
-- `after`, its lines count the newlines before its first and its last byte, its digest is that of
-- its own bytes, and its heading path is that of the last heading at or before its start.
pub record SegmentReads (services : Services) (source : Bytes) (profile : SegmentationProfile)
    (events : Headings) (n : ℕ) (s : SegmentRecord) : Type 0 where
  pub before : Bytes
  pub front : Bytes
  pub last_byte : ℕ
  pub after : Bytes
  pub split : source ≡ before ++ (front ++ (last_byte ∷ after))
  pub starts : s.byte_range.start_byte ≡ length before
  pub ends : s.byte_range.end_byte ≡ suc (length before + length front)
  pub first_line : s.start_line ≡ suc (count_newlines before)
  pub last_line : s.end_line ≡ suc (count_newlines (before ++ front))
  pub digest : s.body_sha256 ≡ text "sha256:" ++ services.hexdigest (front ++ (last_byte ∷ []))
  pub heading : HeadingOf events (length before) s.heading_path
  pub number : s.ordinal ≡ n
  pub profile_id : s.profile_id ≡ profile.profile_id
  pub profile_revision : s.profile_revision ≡ profile.revision

-- What a locator says of its segment: it is the same place of the bound source.
pub record LocatorReads (binding : SourceBinding) (s : SegmentRecord) (l : EvidenceLocator)
    : Type 0 where
  pub bound : l.source ≡ binding
  pub place : l.byte_range ≡ s.byte_range
  pub first_line : l.start_line ≡ s.start_line
  pub last_line : l.end_line ≡ s.end_line
  pub digest : l.excerpt_sha256 ≡ s.body_sha256

-- Segments and locators that go together one by one, numbered from `n`.
unfoldable pub Reads :
    Services
    → Bytes
    → SourceBinding
    → SegmentationProfile
    → Headings
    → ℕ
    → List SegmentRecord
    → List EvidenceLocator
    → Type 0
Reads services source binding profile events n [] [] = Unit
Reads services source binding profile events n [] (l ∷ ls) = ⊥
Reads services source binding profile events n (s ∷ ss) [] = ⊥
Reads services source binding profile events n (s ∷ ss) (l ∷ ls) =
    SegmentReads services source profile events n s
    × LocatorReads binding s l
    × Reads services source binding profile events (suc n) ss ls

segment-Reads :
    (services : Services) (source : Bytes) (profile : SegmentationProfile) (events : Headings)
    (n : ℕ) (r : ByteRange) (k : ℕ)
    → r.end_byte ≡ suc (r.start_byte + k)
    → r.end_byte ≤ length source
    → SegmentReads services source profile events n
        (expected_segment services source profile events n r)
unfolding hash_bytes slice
segment-Reads services source profile events n r k size inside =
    let c = slice-Cut source r.start_byte k (omega arith) in
    let width : r.end_byte - r.start_byte ≡ suc k = omega arith in
    let but_last : r.end_byte - 1 ≡ r.start_byte + k = omega arith in
    record {
      before = take r.start_byte source;
      front = take k (drop r.start_byte source);
      last_byte = c.last_byte;
      after = c.after;
      split = c.split;
      starts = sym c.sized;
      ends = rw (c.sized, c.front_sized) size;
      first_line = omega arith;
      last_line = rw (but_last, c.before_last) (omega arith);
      digest = rw (width, c.whole) refl;
      heading = rw c.sized (heading_at-HeadingOf events r.start_byte);
      number = refl;
      profile_id = refl;
      profile_revision = refl;
    }

-- The ranges that the loop takes lie inside the source and are not empty.
pub expected_items-Reads :
    (services : Services) (source : Bytes) (binding : SourceBinding) (profile : SegmentationProfile)
    (events : Headings) (n : ℕ) (rs : List ByteRange)
    → All (λ r. (r.start_byte < r.end_byte) × (r.end_byte ≤ length source)) rs
    → Reads services source binding profile events n
        (map (λ item. item.0) (expected_items services source binding profile events n rs))
        (map (λ item. item.1) (expected_items services source binding profile events n rs))
unfolding Reads expected_items
expected_items-Reads services source binding profile events n [] h = tt
expected_items-Reads services source binding profile events n (r ∷ rs) ((more, inside), h) = (
  segment-Reads services source profile events n r (r.end_byte - r.start_byte - 1) (omega arith)
      inside,
  record { bound = refl; place = refl; first_line = refl; last_line = refl; digest = refl },
  expected_items-Reads services source binding profile events (suc n) rs h,
)
