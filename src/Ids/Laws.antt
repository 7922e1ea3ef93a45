-- ===== src/Ids/Laws.antt =====
-- Generated identifiers are valid, carry their timestamp, and are of one kind only.
use knowledge_flow.Common.{ℕ, ◌/◌, ◌%◌, ◌^◌, ◌<◌, ◌<>◌, ◌≡◌, refl, ap}
use knowledge_flow.Common.{◌≢◌, true, false, Option, none, some, List, ◌++◌, arith}
use knowledge_flow.Common.Text.{Text, text_eq_refl, after_prefix, after_prefix-append}
use knowledge_flow.Common.Result.{value_error, ok, err, >>=-eq-ok, ok_injective}
use knowledge_flow.Common.Int.{ℤ, pos, negsuc}
use knowledge_flow.Common.Value.{str}
use knowledge_flow.Ids.{
  IdKind, capture, event, store, job, prefix_of, Environment, generate_uuid7, is_uuid7,
}
use knowledge_flow.Ids.{
  extract_unix_ts_ms, generate_typed_id, validate_typed_id, validate_uuid, uuid_text,
  uuid_parse-uuid_text, assemble, has_upper, without_prefix,
}
use knowledge_flow.Ids.{timestamp, random_material, no_upper-hex_text, prefix_name}

abbrev Fields : ℕ → ℕ → Type 0
Fields ts uuid = (uuid < 2 ^ 128) × (is_uuid7 uuid ≡ true) × (uuid / 2 ^ 80 % 2 ^ 48 ≡ ts)

-- The fields of an assembled UUID.
assemble-Fields : (ts material : ℕ) → ts < 2 ^ 48 → Fields ts (assemble ts material)
unfolding assemble is_uuid7
assemble-Fields ts material h = (omega arith, ground arith, omega arith)

-- The timestamp that a call uses: the one given, or the clock's.
abbrev pub used_ms : Environment → Option ℤ → ℕ
used_ms e none = e.time_ns / 1000000
used_ms e (some (pos n)) = n
used_ms e (some (negsuc n)) = 0

timestamp-eq-ok :
    (e : Environment) (ts : Option ℤ) (t : ℕ)
    → timestamp e ts ≡ ok t
    → (t < 2 ^ 48) × (t ≡ used_ms e ts)
unfolding timestamp
timestamp-eq-ok e none t h = ground arith
timestamp-eq-ok e (some (pos n)) t h = ground arith
timestamp-eq-ok e (some (negsuc n)) t h = cc

generate_uuid7-Fields :
    (e : Environment) (ts : Option ℤ) (random : Option (List ℕ)) (uuid : ℕ)
    → generate_uuid7 e ts random ≡ ok uuid
    → Fields (used_ms e ts) uuid
unfolding generate_uuid7
generate_uuid7-Fields e ts random uuid h =
    let (t, ht, ht') = >>=-eq-ok (timestamp e ts) _ h in
    let (m, hm, hm') = >>=-eq-ok (random_material e random) _ ht' in
    let (small, same) = timestamp-eq-ok e ts t ht in
    rw (← ok_injective _ uuid hm', ← same) (assemble-Fields t m small)

-- A UUIDv7 that was generated gives back the timestamp that was given, or the milliseconds of the
-- clock where none was.
pub extract_unix_ts_ms-generate_uuid7 :
    (e : Environment) (ts : Option ℤ) (random : Option (List ℕ)) (uuid : ℕ)
    → generate_uuid7 e ts random ≡ ok uuid
    → extract_unix_ts_ms uuid ≡ ok (used_ms e ts)
unfolding extract_unix_ts_ms
extract_unix_ts_ms-generate_uuid7 e ts random uuid h =
    let f = generate_uuid7-Fields e ts random uuid h in rw f.1 (ap ok f.2)

validate_uuid-uuid_text :
    (uuid : ℕ) → uuid < 2 ^ 128 → is_uuid7 uuid ≡ true → validate_uuid (uuid_text uuid) ≡ ok uuid
unfolding validate_uuid
validate_uuid-uuid_text uuid small seven =
    rw (uuid_parse-uuid_text uuid small, text_eq_refl (uuid_text uuid), seven)

has_upper-typed_id :
    (kind : IdKind) (uuid : ℕ) → has_upper (prefix_of kind ++ uuid_text uuid) ≡ false
unfolding has_upper prefix_of uuid_text
has_upper-typed_id capture uuid = simp no_upper-hex_text
has_upper-typed_id event uuid = simp no_upper-hex_text
has_upper-typed_id store uuid = simp no_upper-hex_text
has_upper-typed_id job uuid = simp no_upper-hex_text

without_prefix-prefix_of :
    (kind : IdKind) (s : Text) → without_prefix kind (prefix_of kind ++ s) ≡ ok s
unfolding without_prefix
without_prefix-prefix_of kind s = rw (after_prefix-append (prefix_of kind) s)

-- A typed ID that was generated passes the check of its own kind, with the UUID that it was made
-- of, whatever the clock and the random bytes.
pub validate_typed_id-generate_typed_id :
    (kind : IdKind) (e : Environment) (ts : Option ℤ) (random : Option (List ℕ)) (id : Text)
    → generate_typed_id kind e ts random ≡ ok id
    → (uuid : ℕ) × (generate_uuid7 e ts random ≡ ok uuid)
      × (validate_typed_id (str id) kind ≡ ok uuid)
unfolding generate_typed_id validate_typed_id
validate_typed_id-generate_typed_id kind e ts random id h =
    let (uuid, made, same) = >>=-eq-ok (generate_uuid7 e ts random) _ h in
    let (small, seven, _) = generate_uuid7-Fields e ts random uuid made in
    (
      uuid,
      made,
      rw
          (
            ← ok_injective _ id same,
            has_upper-typed_id kind uuid,
            without_prefix-prefix_of kind (uuid_text uuid),
          )
          (validate_uuid-uuid_text uuid small seven),
    )

other_prefix :
    (kind other : IdKind) (s : Text)
    → kind ≢ other
    → after_prefix (prefix_of other) (prefix_of kind ++ s) ≡ none
unfolding prefix_of after_prefix
other_prefix capture capture s h = absurd (h refl)
other_prefix event event s h = absurd (h refl)
other_prefix store store s h = absurd (h refl)
other_prefix job job s h = absurd (h refl)
other_prefix _ _ s h = refl

-- A typed ID that was generated for one kind is refused where another kind is expected, with the
-- error that names the other prefix.
pub validate_typed_id-other_kind :
    (kind other : IdKind) (e : Environment) (ts : Option ℤ) (random : Option (List ℕ)) (id : Text)
    → kind ≢ other
    → generate_typed_id kind e ts random ≡ ok id
    → validate_typed_id (str id) other
      ≡ err (value_error ("typed ID must use the " <> prefix_name other <> " prefix"))
unfolding generate_typed_id validate_typed_id
validate_typed_id-other_kind kind other e ts random id different h =
    let (uuid, made, same) = >>=-eq-ok (generate_uuid7 e ts random) _ h in
    rw (
      ← ok_injective _ id same,
      has_upper-typed_id kind uuid,
      other_prefix kind other (uuid_text uuid) different,
    )
