-- ===== src/Contracts/SegmentationProfile.antt =====
-- `SegmentationProfile` of contracts.py: the one experimental profile.
use knowledge_flow.Common.{ℕ, ◌*◌, String, ◌≡◌, Bool, not, ◌&&◌, List, []}
use knowledge_flow.Common.{◌∷◌, arith, ◌==◌}
use knowledge_flow.Common.Text.{Text, text, text_eq, text_eq_refl, text_eq→eq}
use knowledge_flow.Common.Result.{
  value_error, Result, ok, ◌>>=◌, ◌>>◌, raise_if, Ensures, bind-Ensures,
}
use knowledge_flow.Common.Int.{pos}
use knowledge_flow.Common.Value.{Value, num, str, dict, end, entry}
use knowledge_flow.Contracts.Require.{
  require_exact_keys, item, require_token, require_nonnegative, require_positive,
  require_version_one, require_uuid7_id, require_sha256, require_one_of,
}
use knowledge_flow.Contracts.Require.{require_text, require_bool}

pub record SegmentationProfile : Type 0 where
  pub profile_id : Text
  pub revision : ℕ
  pub target_bytes : ℕ
  pub maximum_bytes : ℕ
  pub overlap_bytes : ℕ

abbrev pub profile_name : Text
profile_name = text "experiment-markdown-blocks"

abbrev pub experiment_target_bytes : ℕ
experiment_target_bytes = 16 * 1024

abbrev pub experiment_max_bytes : ℕ
experiment_max_bytes = 32 * 1024

unfoldable pub init : Value → Value → Value → Value → Value → Result SegmentationProfile
unfolding require_token require_uuid7_id require_sha256 require_positive require_nonnegative
    require_one_of require_text require_bool require_version_one
init profile_id_given revision_given target_bytes_given maximum_bytes_given overlap_bytes_given = do
  profile_id ←
      require_text profile_id_given profile_name
        (value_error "profile_id is not the CUR1 experimental profile")
  require_version_one revision_given "segmentation profile revision"
  revision ← require_positive revision_given "segmentation profile revision"
  target_bytes ← require_positive target_bytes_given "target_bytes"
  maximum_bytes ← require_positive maximum_bytes_given "maximum_bytes"
  overlap_bytes ← require_nonnegative overlap_bytes_given "overlap_bytes"
  raise_if (not (target_bytes == experiment_target_bytes))
      (value_error "target_bytes is not the CUR1 experimental value")
  raise_if (not (maximum_bytes == experiment_max_bytes))
      (value_error "maximum_bytes is not the CUR1 experimental value")
  raise_if (not (overlap_bytes == 0)) (value_error "the raw CUR1 Segment layer does not overlap")
  ok (record {
    profile_id = profile_id;
    revision = revision;
    target_bytes = target_bytes;
    maximum_bytes = maximum_bytes;
    overlap_bytes = overlap_bytes;
  })

unfoldable pub as_mapping : SegmentationProfile → Value
as_mapping r = dict (
    entry "profile_id" (str r.profile_id) (
      entry "revision" (num (pos r.revision)) (
        entry "target_bytes" (num (pos r.target_bytes)) (
          entry "maximum_bytes" (num (pos r.maximum_bytes))
            (entry "overlap_bytes" (num (pos r.overlap_bytes)) end)))))

abbrev fields : List String
fields = "profile_id" ∷ "revision" ∷ "target_bytes" ∷ "maximum_bytes" ∷ "overlap_bytes" ∷ []

unfoldable pub from_mapping : Value → Result SegmentationProfile
from_mapping value = do
  raw ← require_exact_keys value fields "segmentation_profile"
  profile_id_given ← item raw "profile_id"
  revision_given ← item raw "revision"
  target_bytes_given ← item raw "target_bytes"
  maximum_bytes_given ← item raw "maximum_bytes"
  overlap_bytes_given ← item raw "overlap_bytes"
  init profile_id_given revision_given target_bytes_given maximum_bytes_given overlap_bytes_given

-- `==` of the dataclass
unfoldable pub eq : SegmentationProfile → SegmentationProfile → Bool
eq a b =
    text_eq a.profile_id b.profile_id
    && a.revision == b.revision
    && a.target_bytes == b.target_bytes
    && a.maximum_bytes == b.maximum_bytes
    && a.overlap_bytes == b.overlap_bytes

pub record IsValid (r : SegmentationProfile) : Type 0 where
  pub id : r.profile_id ≡ profile_name
  pub revision_one : r.revision ≡ 1
  pub target : r.target_bytes ≡ experiment_target_bytes
  pub maximum : r.maximum_bytes ≡ experiment_max_bytes
  pub no_overlap : r.overlap_bytes ≡ 0

pub init-IsValid :
    (profile_id_given : Value) (revision_given : Value) (target_bytes_given : Value)
    (maximum_bytes_given : Value) (overlap_bytes_given : Value) (r : SegmentationProfile)
    → init profile_id_given revision_given target_bytes_given maximum_bytes_given
        overlap_bytes_given
      ≡ ok r
    → IsValid r
unfolding init
init-IsValid profile_id_given revision_given target_bytes_given maximum_bytes_given
      overlap_bytes_given r h =
    ground (arith, text_eq→eq r.profile_id profile_name)

pub init-values :
    (r : SegmentationProfile)
    → IsValid r
    → init
        (str r.profile_id)
        (num (pos r.revision))
        (num (pos r.target_bytes))
        (num (pos r.maximum_bytes))
        (num (pos r.overlap_bytes))
      ≡ ok r
unfolding init
init-values r h = ground (arith, text_eq_refl profile_name)

-- What a document is read as is valid.
pub from_mapping-IsValid : (v : Value) (r : SegmentationProfile) → from_mapping v ≡ ok r → IsValid r
unfolding from_mapping
from_mapping-IsValid v r h =
    let valid : Ensures IsValid (from_mapping v) =
      (bind-Ensures (require_exact_keys v fields "segmentation_profile") λ raw e_raw.
        (bind-Ensures (item raw "profile_id") λ profile_id_given e_profile_id_given.
          (bind-Ensures (item raw "revision") λ revision_given e_revision_given.
            (bind-Ensures (item raw "target_bytes") λ target_bytes_given e_target_bytes_given.
              (bind-Ensures (item raw "maximum_bytes") λ maximum_bytes_given e_maximum_bytes_given.
                (bind-Ensures (item raw "overlap_bytes")
                  λ overlap_bytes_given e_overlap_bytes_given. record {
                    at = λ a made.
                        init-IsValid profile_id_given revision_given target_bytes_given
                          maximum_bytes_given overlap_bytes_given a made;
                  })))))) in
    valid.at r h

-- A valid object is read back from its own mapping.
pub from_mapping-as_mapping :
    (r : SegmentationProfile) → IsValid r → from_mapping (as_mapping r) ≡ ok r
unfolding from_mapping as_mapping require_exact_keys item
from_mapping-as_mapping r h = ground (arith, init-values r h)
