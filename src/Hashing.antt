-- ===== src/Hashing.antt =====
-- src/knowledgeflow_capture/hashing.py, over `hashlib.sha256(value).hexdigest()` as an argument.
use knowledge_flow.Common.{ℕ, ◌≡◌, true, List, ◌++◌, arith, length, all}
use knowledge_flow.Common.Text.{Text, text, is_hex}
use knowledge_flow.Contracts.Require.{is_sha256}

pub record DigestResult : Type 0 where
  pub byte_size : ℕ
  pub sha256 : Text

unfoldable pub hash_bytes : (List ℕ → Text) → List ℕ → DigestResult
hash_bytes hexdigest value = record {
  byte_size = length value;
  sha256 = text "sha256:" ++ hexdigest value;
}

-- The digest of `hash_bytes` is one that `require_sha256` takes, where hashlib gives 64 lowercase
-- hexadecimal digits.
pub hash_bytes-is_sha256 :
    (hexdigest : List ℕ → Text) (value : List ℕ)
    → length (hexdigest value) ≡ 64
    → all is_hex (hexdigest value) ≡ true
    → is_sha256 (hash_bytes hexdigest value).sha256 ≡ true
unfolding hash_bytes is_sha256
hash_bytes-is_sha256 hexdigest value size digits = ground arith
