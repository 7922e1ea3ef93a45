-- ===== src/Ids/Tests.antt =====
-- Tests of the identifiers.
use knowledge_flow.Common.{ℕ, ◌<>◌, ◌≡◌, refl, ◌≢◌, none, some, List, []}
use knowledge_flow.Common.{◌∷◌, ◌++◌, arith}
use knowledge_flow.Common.Text.{Text}
use knowledge_flow.Common.Result.{value_error, ok, err}
use knowledge_flow.Common.Value.{str}
use knowledge_flow.Ids.{
  event, job, prefix_of, Environment, generate_uuid7, extract_unix_ts_ms, generate_typed_id,
  validate_typed_id, uuid_text,
}
use knowledge_flow.Ids.{uuid_parse, uuid_parse-uuid_text, prefix_name}
use knowledge_flow.Ids.Laws.{
  used_ms, extract_unix_ts_ms-generate_uuid7, validate_typed_id-generate_typed_id,
  validate_typed_id-other_kind,
}

abbrev sample_environment : Environment
sample_environment = record { time_ns = 1700000000123456789; token_bytes = [] }

abbrev ten_bytes : List ℕ
ten_bytes = 1 ∷ 2 ∷ 3 ∷ 4 ∷ 5 ∷ 6 ∷ 7 ∷ 8 ∷ 9 ∷ 10 ∷ []

abbrev sample_uuid : ℕ
sample_uuid = 2055173893494115424339740299331373322

sample_generated : generate_uuid7 sample_environment none (some ten_bytes) ≡ ok sample_uuid
unfolding generate_uuid7
sample_generated = refl

extract_unix_ts_ms-generate_uuid7_example :
    extract_unix_ts_ms sample_uuid ≡ ok (used_ms sample_environment none)
extract_unix_ts_ms-generate_uuid7_example =
    extract_unix_ts_ms-generate_uuid7 sample_environment none (some ten_bytes) sample_uuid
      sample_generated

abbrev sample_id : Text
sample_id = prefix_of event ++ uuid_text sample_uuid

sample_id_generated :
    generate_typed_id event sample_environment none (some ten_bytes) ≡ ok sample_id
unfolding generate_typed_id generate_uuid7
sample_id_generated = refl

validate_typed_id-generate_typed_id_example :
    (uuid : ℕ) × (generate_uuid7 sample_environment none (some ten_bytes) ≡ ok uuid)
    × (validate_typed_id (str sample_id) event ≡ ok uuid)
validate_typed_id-generate_typed_id_example =
    validate_typed_id-generate_typed_id event sample_environment none (some ten_bytes) sample_id
      sample_id_generated

event_not_job : event ≢ job
event_not_job h = cc

validate_typed_id-other_kind_example :
    validate_typed_id (str sample_id) job
    ≡ err (value_error ("typed ID must use the " <> prefix_name job <> " prefix"))
validate_typed_id-other_kind_example =
    validate_typed_id-other_kind event job sample_environment none (some ten_bytes) sample_id
      event_not_job sample_id_generated

uuid_parse-uuid_text_example : uuid_parse (uuid_text sample_uuid) ≡ some sample_uuid
uuid_parse-uuid_text_example = uuid_parse-uuid_text sample_uuid (omega arith)
