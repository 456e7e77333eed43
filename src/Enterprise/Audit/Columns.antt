-- ===== src/Enterprise/Audit/Columns.antt =====
-- `_extract_fields`, and what SQLite keeps of the value of a column,
-- enterprise_demo/common/audit_store.py.
use laptop_bap_demo.Base.{
  Bool, List, Option, String, [], false, if◌then◌else◌, none, not, some, true, ◌==◌, ◌∷◌,
}
use laptop_bap_demo.Base.Int.{pos, ℤ}
use laptop_bap_demo.Base.Json.{
  Fields, Json, arr, as_dict, bool, dict, end, field, get, int, null, obj, str,
}
use laptop_bap_demo.Base.Json.Repr.{str_ℤ}
use laptop_bap_demo.Base.Lists.{contains}
use laptop_bap_demo.Base.Run.{Except, ok, raised}
use laptop_bap_demo.Enterprise.World.{Machine}

-- `value not in (None, "")`
abbrev pub is_filled : Json → Bool
is_filled null = false
is_filled (str s) = not (s == "")
is_filled v = true

-- the first filled value of a container, then of the next one
abbrev first_name : Fields → List String → Json → Json
first_name container [] rest = rest
first_name container (name ∷ names) rest =
    let later = first_name container names rest in
    let value = get container name in if is_filled value then value else later

-- `pick`
unfoldable pub pick : List Fields → List String → Json
pick [] names = null
pick (container ∷ containers) names =
    let later = pick containers names in first_name container names later

-- `_extract_fields`
unfoldable pub extract_fields : Fields → Fields
unfolding pick
extract_fields details =
    let claims = as_dict (get details "claims") in
    let client = as_dict (get details "client") in
    let policy = as_dict (get details "policy") in
    let two = details ∷ claims ∷ [] in
    let three = details ∷ claims ∷ policy ∷ [] in
    let clients = details ∷ client ∷ [] in
    dict (
      ("outcome", pick two ("outcome" ∷ []))
      ∷ ("trace_id", pick two ("trace_id" ∷ []))
      ∷ ("request_id", pick two ("request_id" ∷ []))
      ∷ ("decision_id", pick two ("decision_id" ∷ []))
      ∷ ("execution_id", pick two ("execution_id" ∷ []))
      ∷ ("session_id", pick two ("session_id" ∷ []))
      ∷ ("agent_run_id", pick two ("agent_run_id" ∷ "agent_run" ∷ []))
      ∷ ("user_id", pick two ("user_id" ∷ "user" ∷ "sub" ∷ []))
      ∷ ("device_id", pick two ("device_id" ∷ "device" ∷ []))
      ∷ ("agent_type", pick two ("agent_type" ∷ "agent" ∷ []))
      ∷ ("agent_version", pick two ("agent_version" ∷ []))
      ∷ ("tool_name", pick two ("tool_name" ∷ []))
      ∷ ("task_summary", pick two ("task_summary" ∷ "task" ∷ []))
      ∷ ("action", pick two ("action" ∷ []))
      ∷ ("resource", pick two ("resource" ∷ []))
      ∷ ("resource_key", pick two ("resource_key" ∷ "key" ∷ []))
      ∷ ("decision", pick two ("decision" ∷ "effect" ∷ []))
      ∷ ("decision_reason", pick two ("decision_reason" ∷ "reason" ∷ []))
      ∷ ("policy_bundle_id", pick three ("policy_bundle_id" ∷ "bundle_id" ∷ []))
      ∷ ("policy_revision", pick three ("policy_revision" ∷ "revision" ∷ []))
      ∷ ("policy_rule_id", pick three ("policy_rule_id" ∷ "rule_id" ∷ []))
      ∷ ("policy_bundle_sha256", pick three ("policy_bundle_sha256" ∷ "bundle_sha256" ∷ []))
      ∷ ("approval_request_id", pick two ("approval_request_id" ∷ []))
      ∷ ("approver_id", pick two ("approver_id" ∷ "approved_by" ∷ []))
      ∷ ("grant_id", pick two ("grant_id" ∷ []))
      ∷ ("grant_expires_at", pick two ("grant_expires_at" ∷ "expires_at" ∷ "exp" ∷ []))
      ∷ ("http_status", pick two ("http_status" ∷ []))
      ∷ ("client_process_id", pick clients ("client_process_id" ∷ []))
      ∷ ("client_executable", pick clients ("client_executable" ∷ []))
      ∷ ("client_signer_subject", pick clients ("client_signer_subject" ∷ []))
      ∷ ("mtls_subject", pick two ("mtls_subject" ∷ "mtls_client" ∷ []))
      ∷ ("request_payload_hash", pick two ("request_payload_hash" ∷ []))
      ∷ ("result_payload_hash", pick two ("result_payload_hash" ∷ []))
      ∷ [])

-- the columns of type INTEGER in `AUDIT_COLUMNS`
abbrev is_integer : String → Bool
is_integer column = contains ("grant_expires_at" ∷ "http_status" ∷ "client_process_id" ∷ []) column

abbrev bit : Bool → ℤ
bit true = pos 1
bit false = pos 0

abbrev or_text : String → Option ℤ → Json
or_text s none = str s
or_text s (some z) = int z

-- What a column keeps of the value that is bound to it: a Boolean is bound as a number, a column of
-- type TEXT turns a number into a text, and one of type INTEGER a text that is a number into it.
-- An array or an object cannot be bound.
unfoldable pub stored_value : Machine → String → Json → Except Json
unfolding str_ℤ
stored_value m column null = ok null
stored_value m column (str s) =
    ok (if is_integer column then or_text s (m.sqlite_integer s) else str s)
stored_value m column (int z) = ok (if is_integer column then int z else str (str_ℤ z))
stored_value m column (bool b) = ok (if is_integer column then int (bit b) else str (str_ℤ (bit b)))
stored_value m column (arr vs) = raised "ProgrammingError: type 'list' is not supported"
stored_value m column (obj fs) = raised "ProgrammingError: type 'dict' is not supported"

abbrev with_column : String → Except Json → Except Fields → Except Fields
with_column column (raised e) rest = raised e
with_column column (ok v) (raised e) = raised e
with_column column (ok v) (ok rest) = ok (field column v rest)

unfoldable pub stored_columns : Machine → Fields → Except Fields
unfolding stored_value
stored_columns m end = ok end
stored_columns m (field column v fs) =
    with_column column (stored_value m column v) (stored_columns m fs)
