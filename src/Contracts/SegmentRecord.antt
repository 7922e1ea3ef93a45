-- ===== src/Contracts/SegmentRecord.antt =====
-- `SegmentRecord` of contracts.py: one segment of the source.
use knowledge_flow.Contracts.ByteRange
use knowledge_flow.Contracts.ByteRange.{ByteRange}
use knowledge_flow.Contracts.SegmentationProfile.{profile_name}
use knowledge_flow.Common.{ℕ, ◌≤◌, String, ◌≡◌, true, List, [], ◌∷◌, arith}
use knowledge_flow.Common.{ltb}
use knowledge_flow.Common.Text.{Text, text_eq_refl, text_eq→eq}
use knowledge_flow.Common.Result.{
  Error, value_error, Result, ok, ◌>>=◌, ◌>>◌, raise_if, Ensures, bind-Ensures,
}
use knowledge_flow.Common.Int.{pos}
use knowledge_flow.Common.Value.{Value, num, str, dict, end, entry, strs}
use knowledge_flow.Contracts.Require.{
  max_short_text_bytes, require_exact_keys, item, require_token, require_single_line_string,
  require_nonnegative, require_positive, require_version_one, is_uuid7_id,
}
use knowledge_flow.Contracts.Require.{
  require_uuid7_id, require_sequence, is_sha256, require_sha256, is_single_line, require_one_of,
  require_text, require_bool, require_single_line_string-str,
}
use knowledge_flow.Contracts.Require.{require_single_line_string-eq-ok}
use knowledge_flow.Contracts.Collections.{
  text_items, TextsValid, text_items-TextsValid, sequence-strs, text_items-strs,
  text_items-strs-eq-ok,
}

pub record SegmentRecord : Type 0 where
  pub segment_id : Text
  pub ordinal : ℕ
  pub byte_range : ByteRange
  pub start_line : ℕ
  pub end_line : ℕ
  pub heading_path : List Text
  pub body_sha256 : Text
  pub profile_id : Text
  pub profile_revision : ℕ

abbrev too_deep : Error
too_deep = value_error "heading_path contains too many items"

abbrev check_heading : Value → Result Text
check_heading v = require_single_line_string v "heading_path item" max_short_text_bytes

abbrev pub HeadingsValid : List Text → Type 0
HeadingsValid =
    TextsValid "heading_path" true (λ n. ltb 32 n) too_deep check_heading
      (λ s. is_single_line max_short_text_bytes s ≡ true)

unfoldable pub require_headings : Value → Result (List Text)
unfolding text_items require_single_line_string
require_headings v = text_items v "heading_path" true (λ n. ltb 32 n) too_deep check_heading

require_headings-HeadingsValid :
    (v : Value) (hs : List Text) → require_headings v ≡ ok hs → HeadingsValid hs
unfolding require_headings
require_headings-HeadingsValid v hs h =
    text_items-TextsValid "heading_path" true (λ n. ltb 32 n) too_deep check_heading
      (λ s. is_single_line max_short_text_bytes s ≡ true)
      (require_single_line_string-eq-ok "heading_path item" max_short_text_bytes) v hs h

pub require_headings-strs : (hs : List Text) → HeadingsValid hs → require_headings (strs hs) ≡ ok hs
unfolding require_headings
require_headings-strs hs h =
    text_items-strs "heading_path" true (λ n. ltb 32 n) too_deep check_heading
      (λ s. is_single_line max_short_text_bytes s ≡ true)
      (λ s. require_single_line_string-str s "heading_path item" max_short_text_bytes) hs h

pub require_headings-strs-eq-ok : (hs us : List Text) → require_headings (strs hs) ≡ ok us → us ≡ hs
unfolding require_headings require_single_line_string
require_headings-strs-eq-ok hs us h =
    text_items-strs-eq-ok "heading_path" true (λ n. ltb 32 n) too_deep check_heading hs us
      (λ s u e. ground arith) h

unfoldable pub init :
    Value → Value → ByteRange → Value → Value → Value → Value → Value → Value → Result SegmentRecord
unfolding require_token require_uuid7_id require_sha256 require_positive require_nonnegative
    require_one_of require_text require_bool require_version_one
init segment_id_given ordinal_given byte_range start_line_given end_line_given heading_path_given
      body_sha256_given profile_id_given profile_revision_given =
    do
      segment_id ← require_uuid7_id segment_id_given "seg_" "segment_id"
      ordinal ← require_nonnegative ordinal_given "segment ordinal"
      start_line ← require_positive start_line_given "start_line"
      end_line ← require_positive end_line_given "end_line"
      raise_if (ltb end_line start_line) (value_error "start_line must not exceed end_line")
      heading_path ← require_headings heading_path_given
      body_sha256 ← require_sha256 body_sha256_given "body_sha256"
      profile_id ←
          require_text profile_id_given profile_name
            (value_error "segment profile_id is not the CUR1 experimental profile")
      require_version_one profile_revision_given "segment profile_revision"
      profile_revision ← require_positive profile_revision_given "segment profile_revision"
      ok (record {
        segment_id = segment_id;
        ordinal = ordinal;
        byte_range = byte_range;
        start_line = start_line;
        end_line = end_line;
        heading_path = heading_path;
        body_sha256 = body_sha256;
        profile_id = profile_id;
        profile_revision = profile_revision;
      })

unfoldable pub as_mapping : SegmentRecord → Value
as_mapping r = dict (
    entry "segment_id" (str r.segment_id) (
      entry "ordinal" (num (pos r.ordinal)) (
        entry "range" (ByteRange.as_mapping r.byte_range) (
          entry "start_line" (num (pos r.start_line)) (
            entry "end_line" (num (pos r.end_line)) (
              entry "heading_path" (strs r.heading_path) (
                entry "body_sha256" (str r.body_sha256) (
                  entry "profile_id" (str r.profile_id)
                    (entry "profile_revision" (num (pos r.profile_revision)) end)))))))))

abbrev fields : List String
fields =
    "segment_id" ∷ "ordinal" ∷ "range" ∷ "start_line" ∷ "end_line" ∷ "heading_path" ∷ "body_sha256"
    ∷ "profile_id" ∷ "profile_revision" ∷ []

unfoldable pub from_mapping : Value → Result SegmentRecord
from_mapping value = do
  raw ← require_exact_keys value fields "segment"
  segment_id_given ← item raw "segment_id"
  ordinal_given ← item raw "ordinal"
  byte_range_given ← item raw "range"
  start_line_given ← item raw "start_line"
  end_line_given ← item raw "end_line"
  heading_path_given ← item raw "heading_path"
  body_sha256_given ← item raw "body_sha256"
  profile_id_given ← item raw "profile_id"
  profile_revision_given ← item raw "profile_revision"
  headings ← require_sequence heading_path_given "heading_path" true
  byte_range ← ByteRange.from_mapping byte_range_given "segment.range"
  init segment_id_given ordinal_given byte_range start_line_given end_line_given heading_path_given
      body_sha256_given profile_id_given profile_revision_given

pub record IsValid (r : SegmentRecord) : Type 0 where
  pub id : is_uuid7_id "seg_" r.segment_id ≡ true
  pub range_valid : ByteRange.IsValid r.byte_range
  pub start_pos : 1 ≤ r.start_line
  pub lines : r.start_line ≤ r.end_line
  pub headings : HeadingsValid r.heading_path
  pub hash : is_sha256 r.body_sha256 ≡ true
  pub profile : r.profile_id ≡ profile_name
  pub revision_one : r.profile_revision ≡ 1

pub init-IsValid :
    (segment_id_given : Value) (ordinal_given : Value) (byte_range : ByteRange)
    (start_line_given : Value) (end_line_given : Value) (heading_path_given : Value)
    (body_sha256_given : Value) (profile_id_given : Value) (profile_revision_given : Value)
    (r : SegmentRecord)
    → ByteRange.IsValid byte_range
    → init segment_id_given ordinal_given byte_range start_line_given end_line_given
        heading_path_given body_sha256_given profile_id_given profile_revision_given
      ≡ ok r
    → IsValid r
unfolding init
init-IsValid segment_id_given ordinal_given byte_range start_line_given end_line_given
      heading_path_given body_sha256_given profile_id_given profile_revision_given r
      valid_byte_range h =
    ground (
      arith,
      require_headings-HeadingsValid heading_path_given r.heading_path,
      text_eq→eq r.profile_id profile_name,
    )

-- A record made from values of the right types holds those values.
pub init-eq-ok :
    (id : Text) (n : ℕ) (range : ByteRange) (a b : ℕ) (hs : List Text) (d p : Text) (v : ℕ)
    (r : SegmentRecord)
    → init
        (str id)
        (num (pos n))
        range
        (num (pos a))
        (num (pos b))
        (strs hs)
        (str d)
        (str p)
        (num (pos v))
      ≡ ok r
    → r ≡ record {
      segment_id = id;
      ordinal = n;
      byte_range = range;
      start_line = a;
      end_line = b;
      heading_path = hs;
      body_sha256 = d;
      profile_id = p;
      profile_revision = v;
    }
unfolding init
init-eq-ok id n range a b hs d p v r h =
    ground (arith, require_headings-strs-eq-ok hs r.heading_path)

pub init-values :
    (r : SegmentRecord)
    → IsValid r
    → init
        (str r.segment_id)
        (num (pos r.ordinal))
        r.byte_range
        (num (pos r.start_line))
        (num (pos r.end_line))
        (strs r.heading_path)
        (str r.body_sha256)
        (str r.profile_id)
        (num (pos r.profile_revision))
      ≡ ok r
unfolding init
init-values r h =
    ground (arith, require_headings-strs r.heading_path h.headings, text_eq_refl profile_name)

-- What a document is read as is valid.
pub from_mapping-IsValid : (v : Value) (r : SegmentRecord) → from_mapping v ≡ ok r → IsValid r
unfolding from_mapping
from_mapping-IsValid v r h =
    let valid : Ensures IsValid (from_mapping v) =
      (bind-Ensures (require_exact_keys v fields "segment") λ raw e_raw.
        (bind-Ensures (item raw "segment_id") λ segment_id_given e_segment_id_given.
          (bind-Ensures (item raw "ordinal") λ ordinal_given e_ordinal_given.
            (bind-Ensures (item raw "range") λ byte_range_given e_byte_range_given.
              (bind-Ensures (item raw "start_line") λ start_line_given e_start_line_given.
                (bind-Ensures (item raw "end_line") λ end_line_given e_end_line_given.
                  (bind-Ensures (item raw "heading_path") λ heading_path_given e_heading_path_given.
                    (bind-Ensures (item raw "body_sha256") λ body_sha256_given e_body_sha256_given.
                      (bind-Ensures (item raw "profile_id") λ profile_id_given e_profile_id_given.
                        (bind-Ensures (item raw "profile_revision")
                          λ profile_revision_given e_profile_revision_given.
                            (bind-Ensures (require_sequence heading_path_given "heading_path" true)
                              λ headings e_headings.
                                (bind-Ensures
                                  (ByteRange.from_mapping byte_range_given "segment.range")
                                  λ byte_range e_byte_range. record {
                                    at = λ a made.
                                        init-IsValid segment_id_given ordinal_given byte_range
                                          start_line_given end_line_given heading_path_given
                                          body_sha256_given profile_id_given profile_revision_given
                                          a
                                          (ByteRange.from_mapping-IsValid byte_range_given
                                            "segment.range" byte_range e_byte_range)
                                          made;
                                  })))))))))))) in
    valid.at r h

-- A valid object is read back from its own mapping.
pub from_mapping-as_mapping : (r : SegmentRecord) → IsValid r → from_mapping (as_mapping r) ≡ ok r
unfolding from_mapping as_mapping require_exact_keys item
from_mapping-as_mapping r h =
    let (few, any_count, deep, plain) = h.headings in
    rw
      (
        sequence-strs "heading_path" true (λ n. ltb 32 n) too_deep check_heading
            (λ s. is_single_line max_short_text_bytes s ≡ true) r.heading_path
            (few, any_count, deep, plain),
        ByteRange.from_mapping-as_mapping r.byte_range "segment.range" h.range_valid,
      )
      (init-values r h)
