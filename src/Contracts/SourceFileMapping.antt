-- ===== src/Contracts/SourceFileMapping.antt =====
-- `SourceFileMapping` of contracts.py: one local file bound to one exact Capture version.
use knowledge_flow.Contracts.SourceBinding
use knowledge_flow.Contracts.SourceBinding.{SourceBinding}
use knowledge_flow.Common.{ℕ, ◌≤◌, String, ◌≡◌, Bool, true, not, List, []}
use knowledge_flow.Common.{◌∷◌, arith, ◌==◌}
use knowledge_flow.Common.Text.{Text, text, text_eq, text_eq_refl, text_eq→eq}
use knowledge_flow.Common.Result.{
  value_error, Result, ok, ◌>>=◌, ◌>>◌, raise_if, Ensures, bind-Ensures,
}
use knowledge_flow.Common.Int.{pos}
use knowledge_flow.Common.Value.{Value, bool, num, str, dict, end, entry}
use knowledge_flow.Contracts.Require.{
  require_exact_keys, item, is_safe_token, require_token, require_nonnegative, require_positive,
  require_version_one, is_uuid7_id, require_uuid7_id,
}
use knowledge_flow.Contracts.Require.{
  is_sha256, require_sha256, require_one_of, require_text, require_bool,
}
use knowledge_flow.Contracts.Timestamp.{
  is_utc_milliseconds, require_canonical_utc_milliseconds, require_canonical_utc_milliseconds-eq-ok,
  require_canonical_utc_milliseconds-str,
}

pub record SourceFileMapping : Type 0 where
  pub source_mapping_id : Text
  pub source_reference : Text
  pub source_sha256 : Text
  pub source_byte_size : ℕ
  pub capture : SourceBinding
  pub mapped_at : Text
  pub strict_utf8 : Bool

unfoldable pub init :
    Value → Value → Value → Value → SourceBinding → Value → Value → Result SourceFileMapping
unfolding require_token require_uuid7_id require_sha256 require_positive require_nonnegative
    require_one_of require_text require_bool
init source_mapping_id_given source_reference_given source_sha256_given source_byte_size_given
      capture mapped_at_given strict_utf8_given =
    do
      source_mapping_id ← require_uuid7_id source_mapping_id_given "smap_" "source_mapping_id"
      source_reference ← require_token source_reference_given "source_reference"
      source_sha256 ← require_sha256 source_sha256_given "source_sha256"
      source_byte_size ← require_positive source_byte_size_given "source_byte_size"
      raise_if (not (text_eq source_sha256 capture.payload_sha256))
          (value_error "source and Capture Payload hashes must match")
      raise_if (not (source_byte_size == capture.byte_size))
          (value_error "source and Capture Payload byte sizes must match")
      mapped_at ← require_canonical_utc_milliseconds mapped_at_given "mapped_at"
      strict_utf8 ←
          require_bool strict_utf8_given (value_error "strict_utf8 must be true for CUR-MVP-1")
      raise_if (not strict_utf8) (value_error "strict_utf8 must be true for CUR-MVP-1")
      ok (record {
        source_mapping_id = source_mapping_id;
        source_reference = source_reference;
        source_sha256 = source_sha256;
        source_byte_size = source_byte_size;
        capture = capture;
        mapped_at = mapped_at;
        strict_utf8 = strict_utf8;
      })

unfoldable pub as_mapping : SourceFileMapping → Value
as_mapping r = dict (
    entry "schema" (str (text "knowledgeflow.curation-source-mapping")) (
      entry "schema_version" (num (pos 1)) (
        entry "source_mapping_id" (str r.source_mapping_id) (
          entry "source_reference" (str r.source_reference) (
            entry "source_sha256" (str r.source_sha256) (
              entry "source_byte_size" (num (pos r.source_byte_size)) (
                entry "capture" (SourceBinding.as_mapping r.capture) (
                  entry "mapped_at" (str r.mapped_at)
                    (entry "strict_utf8" (bool r.strict_utf8) end)))))))))

abbrev fields : List String
fields =
    "schema" ∷ "schema_version" ∷ "source_mapping_id" ∷ "source_reference" ∷ "source_sha256"
    ∷ "source_byte_size" ∷ "capture" ∷ "mapped_at" ∷ "strict_utf8" ∷ []

unfoldable pub from_mapping : Value → Result SourceFileMapping
from_mapping value = do
  raw ← require_exact_keys value fields "source mapping"
  schema ← item raw "schema"
  schema_checked ←
      require_text schema (text "knowledgeflow.curation-source-mapping")
        (value_error "source mapping schema is not supported")
  schema_version ← item raw "schema_version"
  require_version_one schema_version "source mapping schema_version"
  source_mapping_id_given ← item raw "source_mapping_id"
  source_reference_given ← item raw "source_reference"
  source_sha256_given ← item raw "source_sha256"
  source_byte_size_given ← item raw "source_byte_size"
  capture_given ← item raw "capture"
  mapped_at_given ← item raw "mapped_at"
  strict_utf8_given ← item raw "strict_utf8"
  capture ← SourceBinding.from_mapping capture_given
  init source_mapping_id_given source_reference_given source_sha256_given source_byte_size_given
      capture mapped_at_given strict_utf8_given

pub record IsValid (r : SourceFileMapping) : Type 0 where
  pub id : is_uuid7_id "smap_" r.source_mapping_id ≡ true
  pub reference : is_safe_token r.source_reference ≡ true
  pub hash : is_sha256 r.source_sha256 ≡ true
  pub size_pos : 1 ≤ r.source_byte_size
  pub capture_valid : SourceBinding.IsValid r.capture
  pub same_hash : r.source_sha256 ≡ r.capture.payload_sha256
  pub same_size : r.source_byte_size ≡ r.capture.byte_size
  pub mapped : is_utc_milliseconds r.mapped_at ≡ true
  pub strict : r.strict_utf8 ≡ true

pub init-IsValid :
    (source_mapping_id_given : Value) (source_reference_given : Value) (source_sha256_given : Value)
    (source_byte_size_given : Value) (capture : SourceBinding) (mapped_at_given : Value)
    (strict_utf8_given : Value) (r : SourceFileMapping)
    → SourceBinding.IsValid capture
    → init source_mapping_id_given source_reference_given source_sha256_given source_byte_size_given
        capture mapped_at_given strict_utf8_given
      ≡ ok r
    → IsValid r
unfolding init
init-IsValid source_mapping_id_given source_reference_given source_sha256_given
      source_byte_size_given capture mapped_at_given strict_utf8_given r valid_capture h =
    ground (
      arith,
      require_canonical_utc_milliseconds-eq-ok mapped_at_given "mapped_at" r.mapped_at,
      text_eq→eq r.source_sha256 capture.payload_sha256,
    )

pub init-values :
    (r : SourceFileMapping)
    → IsValid r
    → init
        (str r.source_mapping_id)
        (str r.source_reference)
        (str r.source_sha256)
        (num (pos r.source_byte_size))
        r.capture
        (str r.mapped_at)
        (bool r.strict_utf8)
      ≡ ok r
unfolding init
init-values r h = ground (
  arith,
  require_canonical_utc_milliseconds-str "mapped_at" r.mapped_at h.mapped,
  text_eq_refl r.source_sha256,
)

-- What a document is read as is valid.
pub from_mapping-IsValid : (v : Value) (r : SourceFileMapping) → from_mapping v ≡ ok r → IsValid r
unfolding from_mapping
from_mapping-IsValid v r h =
    let valid : Ensures IsValid (from_mapping v) =
      (bind-Ensures (require_exact_keys v fields "source mapping") λ raw e_raw.
        (bind-Ensures (item raw "schema") λ schema e_schema.
          (bind-Ensures
            (require_text schema (text "knowledgeflow.curation-source-mapping")
              (value_error "source mapping schema is not supported"))
            λ schema_checked e_schema_checked.
              (bind-Ensures (item raw "schema_version") λ schema_version e_schema_version.
                (bind-Ensures (require_version_one schema_version "source mapping schema_version")
                  λ u4 e_u4.
                    (bind-Ensures (item raw "source_mapping_id")
                      λ source_mapping_id_given e_source_mapping_id_given.
                        (bind-Ensures (item raw "source_reference")
                          λ source_reference_given e_source_reference_given.
                            (bind-Ensures (item raw "source_sha256")
                              λ source_sha256_given e_source_sha256_given.
                                (bind-Ensures (item raw "source_byte_size")
                                  λ source_byte_size_given e_source_byte_size_given.
                                    (bind-Ensures (item raw "capture")
                                      λ capture_given e_capture_given.
                                        (bind-Ensures (item raw "mapped_at")
                                          λ mapped_at_given e_mapped_at_given.
                                            (bind-Ensures (item raw "strict_utf8")
                                              λ strict_utf8_given e_strict_utf8_given.
                                                (bind-Ensures
                                                  (SourceBinding.from_mapping capture_given)
                                                  λ capture e_capture. record {
                                                    at = λ a made.
                                                        init-IsValid source_mapping_id_given
                                                          source_reference_given source_sha256_given
                                                          source_byte_size_given capture
                                                          mapped_at_given strict_utf8_given a
                                                          (SourceBinding.from_mapping-IsValid
                                                            capture_given capture e_capture)
                                                          made;
                                                  }))))))))))))) in
    valid.at r h

-- A valid object is read back from its own mapping.
pub from_mapping-as_mapping :
    (r : SourceFileMapping) → IsValid r → from_mapping (as_mapping r) ≡ ok r
unfolding from_mapping as_mapping require_exact_keys item require_text require_version_one text_eq
    text
from_mapping-as_mapping r h =
    ground (arith, init-values r h, SourceBinding.from_mapping-as_mapping r.capture h.capture_valid)
