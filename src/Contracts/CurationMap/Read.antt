-- ===== src/Contracts/CurationMap/Read.antt =====
-- `CurationMap.from_mapping` of contracts.py, which reads two versions of the document.
use knowledge_flow.Contracts.CurationMap
use knowledge_flow.Contracts.SourceBinding
use knowledge_flow.Contracts.SourceBinding.{SourceBinding}
use knowledge_flow.Contracts.ByteRange
use knowledge_flow.Contracts.ByteRange.{ByteRange}
use knowledge_flow.Contracts.ScopeRecord
use knowledge_flow.Contracts.ScopeRecord.{ScopeRecord}
use knowledge_flow.Contracts.ProcessorProfile
use knowledge_flow.Contracts.ProcessorProfile.{ProcessorProfile}
use knowledge_flow.Contracts.ProcessorUsage
use knowledge_flow.Contracts.ProcessorUsage.{ProcessorUsage}
use knowledge_flow.Contracts.TargetBinding
use knowledge_flow.Contracts.TargetBinding.{TargetBinding}
use knowledge_flow.Contracts.MapCandidate
use knowledge_flow.Contracts.MapCandidate.{MapCandidate}
use knowledge_flow.Contracts.EvidenceLocator
use knowledge_flow.Contracts.EvidenceLocator.{EvidenceLocator}
use knowledge_flow.Common.{String, Bool, true, false, not, Option, none, some, List}
use knowledge_flow.Common.{[], ◌∷◌, ◌++◌, ◌==◌, if◌then◌else◌, same_key}
use knowledge_flow.Common.Text.{text, text_eq}
use knowledge_flow.Common.Result.{value_error, Result, ok, err, ◌>>=◌, ◌>>◌, raise_if, map_result}
use knowledge_flow.Common.Int.{pos}
use knowledge_flow.Common.Value.{Value, null, num, str, dict, Entries, end, entry}
use knowledge_flow.Contracts.Require.{require_exact_keys, item, require_sequence, require_text}
use knowledge_flow.Contracts.CurationMap.{CurationMap, short_reading_profile}

-- `value.get(key)`
get : Entries → String → Option Value
get end key = none
get (entry k v fs) key = if same_key k key then some v else get fs key

pub data SchemaVersion : Type 0 where
  one two : SchemaVersion

-- `type(version) is not int or version not in {1, 2}`
read_version : Option Value → Result SchemaVersion
read_version (some (num (pos n))) =
    if n == 1
    then ok one
    else if n == 2
    then ok two
    else err (value_error "curation map schema_version is not supported")
read_version _ = err (value_error "curation map schema_version is not supported")

is_short_profile : Option Value → Bool
is_short_profile (some (str s)) = text_eq s short_reading_profile
is_short_profile _ = false

abbrev base_fields : List String
base_fields =
    "schema" ∷ "schema_version" ∷ "map_id" ∷ "map_version" ∷ "curation_run_id" ∷ "created_at"
    ∷ "source" ∷ "declared_scope" ∷ "scope" ∷ "processor_profile" ∷ "processor_usage"
    ∷ "target_binding" ∷ "candidates" ∷ []

-- The fields that a version requires.
required : SchemaVersion → Entries → Result (List String)
unfolding is_short_profile get
required one fs = ok base_fields
required two fs = do
  raise_if (not (is_short_profile (get fs "reading_profile")))
      (value_error "curation map v2 reading_profile is not supported")
  ok (base_fields ++ ("reading_profile" ∷ "review_locators" ∷ []))

-- `review_locators` and `reading_profile` of a version.
read_review : SchemaVersion → Entries → Result (List Value)
unfolding item require_sequence
read_review one raw = ok []
read_review two raw = do
  given ← item raw "review_locators"
  require_sequence given "review_locators" true

read_profile : SchemaVersion → Entries → Result Value
unfolding item
read_profile one raw = ok null
read_profile two raw = item raw "reading_profile"

abbrev read_binding : Value → Result (Option TargetBinding)
read_binding null = ok none
read_binding v = TargetBinding.from_mapping v >>= λ b. ok (some b)

-- The objects inside the document are read after the exact fields are there.
read_map : SchemaVersion → Entries → Result CurationMap
unfolding read_review read_profile
read_map version raw = do
  schema ← item raw "schema"
  checked ←
      require_text schema (text "knowledgeflow.curation-map")
        (value_error "curation map schema is not supported")
  scope_given ← item raw "scope"
  scope_values ← require_sequence scope_given "scope" false
  candidates_given ← item raw "candidates"
  candidate_values ← require_sequence candidates_given "candidates" false
  locator_values ← read_review version raw
  map_id ← item raw "map_id"
  map_version ← item raw "map_version"
  curation_run_id ← item raw "curation_run_id"
  created_at ← item raw "created_at"
  source_given ← item raw "source"
  source ← SourceBinding.from_mapping source_given
  declared_given ← item raw "declared_scope"
  declared_scope ← ByteRange.from_mapping declared_given "declared_scope"
  scope ← map_result ScopeRecord.from_mapping scope_values
  profile_given ← item raw "processor_profile"
  processor_profile ← ProcessorProfile.from_mapping profile_given
  usage_given ← item raw "processor_usage"
  processor_usage ← ProcessorUsage.from_mapping usage_given
  binding_given ← item raw "target_binding"
  target_binding ← read_binding binding_given
  candidates ← map_result MapCandidate.from_mapping candidate_values
  reading_profile ← read_profile version raw
  review_locators ← map_result EvidenceLocator.from_mapping locator_values
  CurationMap.init map_id map_version curation_run_id created_at source declared_scope scope
      processor_profile processor_usage target_binding candidates reading_profile review_locators

unfoldable pub from_mapping : Value → Result CurationMap
unfolding get read_version required read_map
from_mapping (dict fs) = do
  version ← read_version (get fs "schema_version")
  fields ← required version fs
  raw ← require_exact_keys (dict fs) fields "curation map"
  read_map version raw
from_mapping _ = err (value_error "curation map must be a mapping")
