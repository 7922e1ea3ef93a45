-- ===== src/Contracts/ProcessingAuthorization.antt =====
-- `ProcessingAuthorization` of contracts.py.
use knowledge_flow.Contracts.ByteRange
use knowledge_flow.Contracts.ByteRange.{ByteRange}
use knowledge_flow.Common.{◌≤◌, String, ◌≡◌, true, false, not, ◌||◌, Option, List}
use knowledge_flow.Common.{[], ◌∷◌, map, arith, ltb, ◌==◌, length, All, AllOption}
use knowledge_flow.Common.{length-map}
use knowledge_flow.Common.Text.{Text, all_distinct}
use knowledge_flow.Common.Result.{
  value_error, Result, ok, ◌>>=◌, ◌>>◌, raise_if, map_result, >>=-eq-ok, Ensures,
}
use knowledge_flow.Common.Result.{bind-Ensures}
use knowledge_flow.Common.Value.{Value, str, dict, end, entry, strs, opt_str}
use knowledge_flow.Contracts.Require.{
  require_exact_keys, item, is_safe_token, require_token, is_uuid7_id, require_uuid7_id,
  require_sequence, require_optional, require_token-str,
}
use knowledge_flow.Contracts.Require.{require_token-eq-ok}
use knowledge_flow.Contracts.Timestamp.{
  is_utc_milliseconds, require_canonical_utc_milliseconds, require_canonical_utc_milliseconds-eq-ok,
  require_canonical_utc_milliseconds-str,
}
use knowledge_flow.Contracts.Collections.{
  map_result-map, map_result-All, map_result-length, require_sequence-of_list,
}

pub record ProcessingAuthorization : Type 0 where
  pub authorization_id : Text
  pub authorized_by : Text
  pub authorized_at : Text
  pub allowed_range : ByteRange
  pub task_ids : List Text
  pub budget_id : Option Text

-- The checks of `task_ids`.
unfoldable pub require_tasks : Value → Result (List Text)
require_tasks given = do
  tasks ← require_sequence given "task_ids" false
  raise_if (length tasks == 0 || ltb 32 (length tasks))
      (value_error "task_ids must contain from 1 through 32 values")
  task_ids ← map_result (λ v. require_token v "task_ids item") tasks
  raise_if (not (all_distinct task_ids)) (value_error "task_ids must be unique")
  ok task_ids

unfoldable pub init :
    Value → Value → Value → ByteRange → Value → Value → Result ProcessingAuthorization
unfolding require_token require_uuid7_id
init authorization_id_given authorized_by_given authorized_at_given allowed_range task_ids_given
      budget_id_given =
    do
      authorization_id ← require_uuid7_id authorization_id_given "auth_" "authorization_id"
      authorized_by ← require_token authorized_by_given "authorized_by"
      authorized_at ← require_canonical_utc_milliseconds authorized_at_given "authorized_at"
      task_ids ← require_tasks task_ids_given
      budget_id ← require_optional (λ v. require_token v "budget_id") budget_id_given
      ok (record {
        authorization_id = authorization_id;
        authorized_by = authorized_by;
        authorized_at = authorized_at;
        allowed_range = allowed_range;
        task_ids = task_ids;
        budget_id = budget_id;
      })

unfoldable pub as_mapping : ProcessingAuthorization → Value
as_mapping r = dict (
    entry "authorization_id" (str r.authorization_id) (
      entry "authorized_by" (str r.authorized_by) (
        entry "authorized_at" (str r.authorized_at) (
          entry "allowed_range" (ByteRange.as_mapping r.allowed_range)
            (entry "task_ids" (strs r.task_ids) (entry "budget_id" (opt_str r.budget_id) end))))))

abbrev fields : List String
fields =
    "authorization_id" ∷ "authorized_by" ∷ "authorized_at" ∷ "allowed_range" ∷ "task_ids"
    ∷ "budget_id" ∷ []

unfoldable pub from_mapping : Value → Result ProcessingAuthorization
from_mapping value = do
  raw ← require_exact_keys value fields "processing_authorization"
  authorization_id_given ← item raw "authorization_id"
  authorized_by_given ← item raw "authorized_by"
  authorized_at_given ← item raw "authorized_at"
  allowed_range_given ← item raw "allowed_range"
  task_ids_given ← item raw "task_ids"
  budget_id_given ← item raw "budget_id"
  tasks ← require_sequence task_ids_given "task_ids" false
  allowed_range ← ByteRange.from_mapping allowed_range_given "allowed_range"
  init authorization_id_given authorized_by_given authorized_at_given allowed_range task_ids_given
      budget_id_given

abbrev pub TasksValid : List Text → Type 0
TasksValid ts =
    (1 ≤ length ts)
    × (length ts ≤ 32)
    × All (λ s. is_safe_token s ≡ true) ts
    × (all_distinct ts ≡ true)

require_tasks-TasksValid : (v : Value) (ts : List Text) → require_tasks v ≡ ok ts → TasksValid ts
unfolding require_tasks
require_tasks-TasksValid v ts h =
    let (items, e1, h1) = >>=-eq-ok (require_sequence v "task_ids" false) _ h in
    let (checked, e2, h2) =
      >>=-eq-ok (raise_if (length items == 0 || ltb 32 (length items)) _) _ h1 in
    let (read, e3, h3) = >>=-eq-ok (map_result (λ v. require_token v "task_ids item") items) _ h2 in
    let tokens =
      map_result-All (λ v. require_token v "task_ids item") (λ s. is_safe_token s ≡ true)
        (require_token-eq-ok "task_ids item") items read e3 in
    let same : read ≡ ts = ground arith in
    let size = map_result-length _ items read e3 in
    rw (← same) (ground arith, ground arith, tokens, ground arith)

sequence-strs :
    (ts : List Text) → TasksValid ts → require_sequence (strs ts) "task_ids" false ≡ ok (map str ts)
sequence-strs ts (some_task, few, tokens, distinct) =
    require_sequence-of_list (map str ts) "task_ids" false (rw (length-map str ts) (omega arith))
      (ground (arith, length-map str ts))

require_tasks-strs : (ts : List Text) → TasksValid ts → require_tasks (strs ts) ≡ ok ts
unfolding require_tasks
require_tasks-strs ts tasks =
    let (some_task, few, tokens, distinct) = tasks in
    rw
      (
        sequence-strs ts tasks,
        length-map str ts,
        map_result-map _ str _ (λ s. require_token-str s "task_ids item") ts tokens,
      )
      (ground arith)

pub record IsValid (r : ProcessingAuthorization) : Type 0 where
  pub id : is_uuid7_id "auth_" r.authorization_id ≡ true
  pub by : is_safe_token r.authorized_by ≡ true
  pub at : is_utc_milliseconds r.authorized_at ≡ true
  pub range : ByteRange.IsValid r.allowed_range
  pub tasks : TasksValid r.task_ids
  pub budget : AllOption (λ s. is_safe_token s ≡ true) r.budget_id

pub init-IsValid :
    (authorization_id_given : Value) (authorized_by_given : Value) (authorized_at_given : Value)
    (allowed_range : ByteRange) (task_ids_given : Value) (budget_id_given : Value)
    (r : ProcessingAuthorization)
    → ByteRange.IsValid allowed_range
    → init authorization_id_given authorized_by_given authorized_at_given allowed_range
        task_ids_given budget_id_given
      ≡ ok r
    → IsValid r
unfolding init
init-IsValid authorization_id_given authorized_by_given authorized_at_given allowed_range
      task_ids_given budget_id_given r valid_allowed_range h =
    ground (
      arith,
      require_canonical_utc_milliseconds-eq-ok authorized_at_given "authorized_at" r.authorized_at,
      require_tasks-TasksValid task_ids_given r.task_ids,
    )

pub init-values :
    (r : ProcessingAuthorization)
    → IsValid r
    → init
        (str r.authorization_id)
        (str r.authorized_by)
        (str r.authorized_at)
        r.allowed_range
        (strs r.task_ids)
        (opt_str r.budget_id)
      ≡ ok r
unfolding init
init-values r h = ground (
  arith,
  require_canonical_utc_milliseconds-str "authorized_at" r.authorized_at h.at,
  require_tasks-strs r.task_ids h.tasks,
)

-- What a document is read as is valid.
pub from_mapping-IsValid :
    (v : Value) (r : ProcessingAuthorization) → from_mapping v ≡ ok r → IsValid r
unfolding from_mapping
from_mapping-IsValid v r h =
    let valid : Ensures IsValid (from_mapping v) =
      (bind-Ensures (require_exact_keys v fields "processing_authorization") λ raw e_raw.
        (bind-Ensures (item raw "authorization_id")
          λ authorization_id_given e_authorization_id_given.
            (bind-Ensures (item raw "authorized_by") λ authorized_by_given e_authorized_by_given.
              (bind-Ensures (item raw "authorized_at") λ authorized_at_given e_authorized_at_given.
                (bind-Ensures (item raw "allowed_range")
                  λ allowed_range_given e_allowed_range_given.
                    (bind-Ensures (item raw "task_ids") λ task_ids_given e_task_ids_given.
                      (bind-Ensures (item raw "budget_id") λ budget_id_given e_budget_id_given.
                        (bind-Ensures (require_sequence task_ids_given "task_ids" false)
                          λ tasks e_tasks.
                            (bind-Ensures
                              (ByteRange.from_mapping allowed_range_given "allowed_range")
                              λ allowed_range e_allowed_range. record {
                                at = λ a made.
                                    init-IsValid authorization_id_given authorized_by_given
                                      authorized_at_given allowed_range task_ids_given
                                      budget_id_given a
                                      (ByteRange.from_mapping-IsValid allowed_range_given
                                        "allowed_range" allowed_range e_allowed_range)
                                      made;
                              }))))))))) in
    valid.at r h

-- A valid object is read back from its own mapping.
pub from_mapping-as_mapping :
    (r : ProcessingAuthorization) → IsValid r → from_mapping (as_mapping r) ≡ ok r
unfolding from_mapping as_mapping require_exact_keys item
from_mapping-as_mapping r h = ground (
  arith,
  init-values r h,
  ByteRange.from_mapping-as_mapping r.allowed_range "allowed_range" h.range,
  sequence-strs r.task_ids h.tasks,
)
