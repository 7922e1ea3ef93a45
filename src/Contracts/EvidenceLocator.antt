-- ===== src/Contracts/EvidenceLocator.antt =====
-- `EvidenceLocator` of contracts.py: an exact excerpt of a source.
use knowledge_flow.Contracts.SourceBinding
use knowledge_flow.Contracts.SourceBinding.{SourceBinding}
use knowledge_flow.Contracts.ByteRange
use knowledge_flow.Contracts.ByteRange.{ByteRange}
use mathlib.Core.Path.{subst}
use knowledge_flow.Common.{ℕ, ◌≤◌, String, ◌≡◌, sym, true, List, [], ◌∷◌}
use knowledge_flow.Common.{arith, ltb}
use knowledge_flow.Common.Text.{Text}
use knowledge_flow.Common.Result.{
  value_error, Result, ok, ◌>>=◌, ◌>>◌, raise_if, Ensures, bind-Ensures,
}
use knowledge_flow.Common.Int.{pos}
use knowledge_flow.Common.Value.{Value, num, str, dict, end, entry}
use knowledge_flow.Contracts.Require.{
  require_exact_keys, item, require_token, require_nonnegative, require_positive, is_uuid7_id,
  require_uuid7_id, is_sha256, require_sha256,
}
use knowledge_flow.Contracts.Require.{require_one_of, require_text, require_bool}

pub record EvidenceLocator : Type 0 where
  pub locator_id : Text
  pub source : SourceBinding
  pub byte_range : ByteRange
  pub start_line : ℕ
  pub end_line : ℕ
  pub excerpt_sha256 : Text

unfoldable pub init :
    Value → SourceBinding → ByteRange → Value → Value → Value → Result EvidenceLocator
unfolding require_token require_uuid7_id require_sha256 require_positive require_nonnegative
    require_one_of require_text require_bool
init locator_id_given source byte_range start_line_given end_line_given excerpt_sha256_given = do
  locator_id ← require_uuid7_id locator_id_given "loc_" "locator_id"
  raise_if (ltb source.byte_size byte_range.end_byte)
      (value_error "locator range exceeds source bytes")
  start_line ← require_positive start_line_given "start_line"
  end_line ← require_positive end_line_given "end_line"
  raise_if (ltb end_line start_line) (value_error "start_line must not exceed end_line")
  excerpt_sha256 ← require_sha256 excerpt_sha256_given "excerpt_sha256"
  ok (record {
    locator_id = locator_id;
    source = source;
    byte_range = byte_range;
    start_line = start_line;
    end_line = end_line;
    excerpt_sha256 = excerpt_sha256;
  })

unfoldable pub as_mapping : EvidenceLocator → Value
as_mapping r = dict (
    entry "locator_id" (str r.locator_id) (
      entry "source" (SourceBinding.as_mapping r.source) (
        entry "range" (ByteRange.as_mapping r.byte_range) (
          entry "start_line" (num (pos r.start_line)) (
            entry "end_line" (num (pos r.end_line))
              (entry "excerpt_sha256" (str r.excerpt_sha256) end))))))

abbrev fields : List String
fields = "locator_id" ∷ "source" ∷ "range" ∷ "start_line" ∷ "end_line" ∷ "excerpt_sha256" ∷ []

unfoldable pub from_mapping : Value → Result EvidenceLocator
from_mapping value = do
  raw ← require_exact_keys value fields "locator"
  locator_id_given ← item raw "locator_id"
  source_given ← item raw "source"
  byte_range_given ← item raw "range"
  start_line_given ← item raw "start_line"
  end_line_given ← item raw "end_line"
  excerpt_sha256_given ← item raw "excerpt_sha256"
  source ← SourceBinding.from_mapping source_given
  byte_range ← ByteRange.from_mapping byte_range_given "locator.range"
  init locator_id_given source byte_range start_line_given end_line_given excerpt_sha256_given

-- What the checks of the class itself establish.
pub record FieldsValid (r : EvidenceLocator) : Type 0 where
  pub id : is_uuid7_id "loc_" r.locator_id ≡ true
  pub inside : r.byte_range.end_byte ≤ r.source.byte_size
  pub start_pos : 1 ≤ r.start_line
  pub lines : r.start_line ≤ r.end_line
  pub hash : is_sha256 r.excerpt_sha256 ≡ true

pub record IsValid (r : EvidenceLocator) : Type 0 where
  pub own : FieldsValid r
  pub valid_source : SourceBinding.IsValid r.source
  pub valid_byte_range : ByteRange.IsValid r.byte_range

init-FieldsValid :
    (locator_id_given : Value) (source : SourceBinding) (byte_range : ByteRange)
    (start_line_given : Value) (end_line_given : Value) (excerpt_sha256_given : Value)
    (r : EvidenceLocator)
    → init locator_id_given source byte_range start_line_given end_line_given excerpt_sha256_given
      ≡ ok r
    → FieldsValid r × (r.source ≡ source) × (r.byte_range ≡ byte_range)
unfolding init
init-FieldsValid locator_id_given source byte_range start_line_given end_line_given
      excerpt_sha256_given r h =
    ground (arith)

pub init-IsValid :
    (locator_id_given : Value) (source : SourceBinding) (byte_range : ByteRange)
    (start_line_given : Value) (end_line_given : Value) (excerpt_sha256_given : Value)
    (r : EvidenceLocator)
    → SourceBinding.IsValid source
    → ByteRange.IsValid byte_range
    → init locator_id_given source byte_range start_line_given end_line_given excerpt_sha256_given
      ≡ ok r
    → IsValid r
init-IsValid locator_id_given source byte_range start_line_given end_line_given excerpt_sha256_given
      r valid_source valid_byte_range h =
    let (own, same_source, same_byte_range) =
      init-FieldsValid locator_id_given source byte_range start_line_given end_line_given
        excerpt_sha256_given r h in
    record {
      own = own;
      valid_source = subst SourceBinding.IsValid (sym same_source) valid_source;
      valid_byte_range = subst ByteRange.IsValid (sym same_byte_range) valid_byte_range;
    }

-- A locator made from values of the right types holds those values.
pub init-eq-ok :
    (id : Text) (source : SourceBinding) (range : ByteRange) (a b : ℕ) (d : Text)
    (r : EvidenceLocator)
    → init (str id) source range (num (pos a)) (num (pos b)) (str d) ≡ ok r
    → r ≡ record {
      locator_id = id;
      source = source;
      byte_range = range;
      start_line = a;
      end_line = b;
      excerpt_sha256 = d;
    }
unfolding init
init-eq-ok id source range a b d r h = ground arith

pub init-values :
    (r : EvidenceLocator)
    → FieldsValid r
    → init
        (str r.locator_id)
        r.source
        r.byte_range
        (num (pos r.start_line))
        (num (pos r.end_line))
        (str r.excerpt_sha256)
      ≡ ok r
unfolding init
init-values r h = ground (arith)

-- What a document is read as is valid.
pub from_mapping-IsValid : (v : Value) (r : EvidenceLocator) → from_mapping v ≡ ok r → IsValid r
unfolding from_mapping
from_mapping-IsValid v r h =
    let valid : Ensures IsValid (from_mapping v) =
      (bind-Ensures (require_exact_keys v fields "locator") λ raw e_raw.
        (bind-Ensures (item raw "locator_id") λ locator_id_given e_locator_id_given.
          (bind-Ensures (item raw "source") λ source_given e_source_given.
            (bind-Ensures (item raw "range") λ byte_range_given e_byte_range_given.
              (bind-Ensures (item raw "start_line") λ start_line_given e_start_line_given.
                (bind-Ensures (item raw "end_line") λ end_line_given e_end_line_given.
                  (bind-Ensures (item raw "excerpt_sha256")
                    λ excerpt_sha256_given e_excerpt_sha256_given.
                      (bind-Ensures (SourceBinding.from_mapping source_given) λ source e_source.
                        (bind-Ensures (ByteRange.from_mapping byte_range_given "locator.range")
                          λ byte_range e_byte_range. record {
                            at = λ a made.
                                init-IsValid locator_id_given source byte_range start_line_given
                                  end_line_given excerpt_sha256_given a
                                  (SourceBinding.from_mapping-IsValid source_given source e_source)
                                  (ByteRange.from_mapping-IsValid byte_range_given "locator.range"
                                    byte_range e_byte_range)
                                  made;
                          }))))))))) in
    valid.at r h

-- A valid object is read back from its own mapping.
pub from_mapping-as_mapping : (r : EvidenceLocator) → IsValid r → from_mapping (as_mapping r) ≡ ok r
unfolding from_mapping as_mapping require_exact_keys item
from_mapping-as_mapping r h =
    rw
      (
        SourceBinding.from_mapping-as_mapping r.source h.valid_source,
        ByteRange.from_mapping-as_mapping r.byte_range "locator.range" h.valid_byte_range,
      )
      (init-values r h.own)
