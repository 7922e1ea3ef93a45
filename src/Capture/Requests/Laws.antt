-- ===== src/Capture/Requests/Laws.antt =====
-- An idempotency scope names one channel and one operation.
use knowledge_flow.Common.{ℕ, ◌≡◌, refl, ◌≢◌, true, [], ◌∷◌, ◌++◌, arith}
use knowledge_flow.Common.{all}
use knowledge_flow.Common.Text.{Text, text, is_digit, is_lower}
use knowledge_flow.Common.Result.{ok}
use knowledge_flow.Common.Value.{Value}
use knowledge_flow.Capture.Requests.{
  is_channel_char, is_channel_token, ChannelMetadata, make_channel, Operation, capture_text,
  append_capture_version, operation_name, canonical_idempotency_scope,
}

not_colon : (c : ℕ) → is_channel_char c ≡ true → c ≢ b':'
unfolding is_channel_char is_lower is_digit
not_colon c h e = ground arith

-- Two texts that are cut at their first colon are cut alike.
same_parts :
    (s t x y : Text)
    → all is_channel_char s ≡ true
    → all is_channel_char t ≡ true
    → s ++ (b':' ∷ x) ≡ t ++ (b':' ∷ y)
    → (s ≡ t) × (x ≡ y)
same_parts [] [] x y hs ht e = (refl, cc)
same_parts [] (d ∷ t) x y hs ht e = absurd (not_colon d (ground arith) (cc))
same_parts (c ∷ s) [] x y hs ht e = absurd (not_colon c (ground arith) (cc))
same_parts (c ∷ s) (d ∷ t) x y hs ht e =
    let first : c ≡ d = cc in
    let (same, rest) = same_parts s t x y (ground arith) (ground arith) (cc) in ((cc), rest)

operation_name_injective : (a b : Operation) → operation_name a ≡ operation_name b → a ≡ b
unfolding operation_name text
operation_name_injective capture_text capture_text e = refl
operation_name_injective append_capture_version append_capture_version e = refl
operation_name_injective capture_text append_capture_version e = cc
operation_name_injective append_capture_version capture_text e = cc

-- What `ChannelMetadata` accepts has tokens for its type and its instance.
pub record TokensValid (c : ChannelMetadata) : Type 0 where
  pub type_token : is_channel_token c.channel_type ≡ true
  pub instance_token : is_channel_token c.instance_id ≡ true

pub make_channel-TokensValid :
    (kind instance_ ref created : Value) (c : ChannelMetadata)
    → make_channel kind instance_ ref created ≡ ok c
    → TokensValid c
unfolding make_channel
make_channel-TokensValid kind instance_ ref created c h = ground arith

-- Two channels whose type and instance are channel tokens and two operations with the same
-- idempotency scope have the same type, the same instance and the same operation.
pub canonical_idempotency_scope-injective :
    (c d : ChannelMetadata) (a b : Operation)
    → TokensValid c
    → TokensValid d
    → canonical_idempotency_scope c a ≡ canonical_idempotency_scope d b
    → (c.channel_type ≡ d.channel_type) × (c.instance_id ≡ d.instance_id) × (a ≡ b)
unfolding canonical_idempotency_scope is_channel_token
canonical_idempotency_scope-injective c d a b vc vd e =
    let chars : (t : Text) → is_channel_token t ≡ true → all is_channel_char t ≡ true =
      λ t h. ground arith in
    let (same_type, rest) =
      same_parts c.channel_type d.channel_type _ _ (chars c.channel_type vc.type_token)
        (chars d.channel_type vd.type_token) e in
    let (same_instance, names) =
      same_parts c.instance_id d.instance_id _ _ (chars c.instance_id vc.instance_token)
        (chars d.instance_id vd.instance_token) rest in
    (same_type, same_instance, operation_name_injective a b names)
