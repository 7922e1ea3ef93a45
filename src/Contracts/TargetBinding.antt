-- ===== src/Contracts/TargetBinding.antt =====
-- `TargetBinding` of contracts.py: the knowledge base and commit that a map is bound to.
use knowledge_flow.Common.{ℕ, ◌≤◌, String, ◌≡◌, true, List, [], ◌∷◌, arith}
use knowledge_flow.Common.Text.{Text, text, text_eq_refl, text_eq→eq}
use knowledge_flow.Common.Result.{value_error, Result, ok, ◌>>=◌, Ensures, bind-Ensures}
use knowledge_flow.Common.Int.{pos}
use knowledge_flow.Common.Value.{Value, num, str, dict, end, entry}
use knowledge_flow.Contracts.Require.{
  require_exact_keys, item, is_safe_token, is_git_object_id, require_token, require_git_object_id,
  require_nonnegative, require_positive, is_uuid7_id,
}
use knowledge_flow.Contracts.Require.{
  require_uuid7_id, is_sha256, require_sha256, require_one_of, require_text, require_bool,
}

pub record TargetBinding : Type 0 where
  pub kb_id : Text
  pub manifest_sha256 : Text
  pub raw_mapping_sha256 : Text
  pub managed_ref : Text
  pub base_commit : Text
  pub version_policy_id : Text
  pub version_policy_revision : ℕ

abbrev pub managed_ref_name : Text
managed_ref_name = text "refs/heads/knowledgeflow"

unfoldable pub init : Value → Value → Value → Value → Value → Value → Value → Result TargetBinding
unfolding require_token require_uuid7_id require_sha256 require_positive require_nonnegative
    require_one_of require_text require_bool require_git_object_id
init kb_id_given manifest_sha256_given raw_mapping_sha256_given managed_ref_given base_commit_given
      version_policy_id_given version_policy_revision_given =
    do
      kb_id ← require_uuid7_id kb_id_given "kb_" "kb_id"
      manifest_sha256 ← require_sha256 manifest_sha256_given "manifest_sha256"
      raw_mapping_sha256 ← require_sha256 raw_mapping_sha256_given "raw_mapping_sha256"
      managed_ref ←
          require_text managed_ref_given managed_ref_name
            (value_error "managed_ref must be refs/heads/knowledgeflow")
      base_commit ← require_git_object_id base_commit_given "base_commit"
      version_policy_id ← require_token version_policy_id_given "version_policy_id"
      version_policy_revision ←
          require_positive version_policy_revision_given "version_policy_revision"
      ok (record {
        kb_id = kb_id;
        manifest_sha256 = manifest_sha256;
        raw_mapping_sha256 = raw_mapping_sha256;
        managed_ref = managed_ref;
        base_commit = base_commit;
        version_policy_id = version_policy_id;
        version_policy_revision = version_policy_revision;
      })

unfoldable pub as_mapping : TargetBinding → Value
as_mapping r = dict (
    entry "kb_id" (str r.kb_id) (
      entry "manifest_sha256" (str r.manifest_sha256) (
        entry "raw_mapping_sha256" (str r.raw_mapping_sha256) (
          entry "managed_ref" (str r.managed_ref) (
            entry "base_commit" (str r.base_commit) (
              entry "version_policy_id" (str r.version_policy_id)
                (entry "version_policy_revision" (num (pos r.version_policy_revision)) end)))))))

abbrev fields : List String
fields =
    "kb_id" ∷ "manifest_sha256" ∷ "raw_mapping_sha256" ∷ "managed_ref" ∷ "base_commit"
    ∷ "version_policy_id" ∷ "version_policy_revision" ∷ []

unfoldable pub from_mapping : Value → Result TargetBinding
from_mapping value = do
  raw ← require_exact_keys value fields "target_binding"
  kb_id_given ← item raw "kb_id"
  manifest_sha256_given ← item raw "manifest_sha256"
  raw_mapping_sha256_given ← item raw "raw_mapping_sha256"
  managed_ref_given ← item raw "managed_ref"
  base_commit_given ← item raw "base_commit"
  version_policy_id_given ← item raw "version_policy_id"
  version_policy_revision_given ← item raw "version_policy_revision"
  init kb_id_given manifest_sha256_given raw_mapping_sha256_given managed_ref_given
      base_commit_given version_policy_id_given version_policy_revision_given

pub record IsValid (r : TargetBinding) : Type 0 where
  pub id : is_uuid7_id "kb_" r.kb_id ≡ true
  pub manifest : is_sha256 r.manifest_sha256 ≡ true
  pub raw_mapping : is_sha256 r.raw_mapping_sha256 ≡ true
  pub ref : r.managed_ref ≡ managed_ref_name
  pub commit : is_git_object_id r.base_commit ≡ true
  pub policy : is_safe_token r.version_policy_id ≡ true
  pub policy_pos : 1 ≤ r.version_policy_revision

pub init-IsValid :
    (kb_id_given : Value) (manifest_sha256_given : Value) (raw_mapping_sha256_given : Value)
    (managed_ref_given : Value) (base_commit_given : Value) (version_policy_id_given : Value)
    (version_policy_revision_given : Value) (r : TargetBinding)
    → init kb_id_given manifest_sha256_given raw_mapping_sha256_given managed_ref_given
        base_commit_given version_policy_id_given version_policy_revision_given
      ≡ ok r
    → IsValid r
unfolding init
init-IsValid kb_id_given manifest_sha256_given raw_mapping_sha256_given managed_ref_given
      base_commit_given version_policy_id_given version_policy_revision_given r h =
    ground (arith, text_eq→eq r.managed_ref managed_ref_name)

pub init-values :
    (r : TargetBinding)
    → IsValid r
    → init
        (str r.kb_id)
        (str r.manifest_sha256)
        (str r.raw_mapping_sha256)
        (str r.managed_ref)
        (str r.base_commit)
        (str r.version_policy_id)
        (num (pos r.version_policy_revision))
      ≡ ok r
unfolding init
init-values r h = ground (arith, text_eq_refl managed_ref_name)

-- What a document is read as is valid.
pub from_mapping-IsValid : (v : Value) (r : TargetBinding) → from_mapping v ≡ ok r → IsValid r
unfolding from_mapping
from_mapping-IsValid v r h =
    let valid : Ensures IsValid (from_mapping v) =
      (bind-Ensures (require_exact_keys v fields "target_binding") λ raw e_raw.
        (bind-Ensures (item raw "kb_id") λ kb_id_given e_kb_id_given.
          (bind-Ensures (item raw "manifest_sha256")
            λ manifest_sha256_given e_manifest_sha256_given.
              (bind-Ensures (item raw "raw_mapping_sha256")
                λ raw_mapping_sha256_given e_raw_mapping_sha256_given.
                  (bind-Ensures (item raw "managed_ref") λ managed_ref_given e_managed_ref_given.
                    (bind-Ensures (item raw "base_commit") λ base_commit_given e_base_commit_given.
                      (bind-Ensures (item raw "version_policy_id")
                        λ version_policy_id_given e_version_policy_id_given.
                          (bind-Ensures (item raw "version_policy_revision")
                            λ version_policy_revision_given e_version_policy_revision_given.
                              record {
                                at = λ a made.
                                    init-IsValid kb_id_given manifest_sha256_given
                                      raw_mapping_sha256_given managed_ref_given base_commit_given
                                      version_policy_id_given version_policy_revision_given a made;
                              })))))))) in
    valid.at r h

-- A valid object is read back from its own mapping.
pub from_mapping-as_mapping : (r : TargetBinding) → IsValid r → from_mapping (as_mapping r) ≡ ok r
unfolding from_mapping as_mapping require_exact_keys item
from_mapping-as_mapping r h = ground (arith, init-values r h)
