-- ===== src/Enterprise/Audit/Access.antt =====
-- `access_audit_view` of the schema and `search_access`, enterprise_demo/common/audit_store.py. The
-- columns of the view are of type TEXT but for the status, and the events stand in the order of their
-- sequence.
pub mod Sound
use laptop_bap_demo.Base.{
  Bool, List, String, [], if◌then◌else◌, ltb, map, not, ◌&&◌, ◌==◌, ◌||◌, ◌∷◌,
}
use laptop_bap_demo.Base.Dict.{Dict}
use laptop_bap_demo.Base.Int.{ℤ}
use laptop_bap_demo.Base.Json.{Fields, Json, dict, eq_json, get, null, or_else, str}
use laptop_bap_demo.Base.Json.Repr.{str_of}
use laptop_bap_demo.Base.Lists.{contains, count_if, filter, take}
use laptop_bap_demo.Enterprise.Audit.Backfill.{is_null}
use laptop_bap_demo.Enterprise.Audit.Search.{clamp_limit, clauses, leb_text}
use laptop_bap_demo.Enterprise.World.{AuditRow}

-- `column = 'value'`, where the column is not NULL
abbrev pub column_is : String → String → AuditRow → Bool
column_is column value row = eq_json (get row.columns column) (str value)

abbrev pub is_set : String → AuditRow → Bool
is_set column row = not (is_null (get row.columns column))

abbrev pub exists_row : (AuditRow → Bool) → List AuditRow → Bool
exists_row p rows = ltb 0 (count_if p rows)

-- MAX and MIN over the rows where the column is not NULL
abbrev pub larger : Json → Json → Json
larger null v = v
larger u null = u
larger u v = if leb_text (str_of v) (str_of u) then u else v

abbrev pub smaller : Json → Json → Json
smaller null v = v
smaller u null = u
smaller u v = if leb_text (str_of u) (str_of v) then u else v

unfoldable pub max_of : String → List AuditRow → Json
max_of column [] = null
max_of column (row ∷ rows) = larger (get row.columns column) (max_of column rows)

unfoldable pub min_of : String → List AuditRow → Json
min_of column [] = null
min_of column (row ∷ rows) = smaller (get row.columns column) (min_of column rows)

-- `SELECT column … WHERE p ORDER BY sequence DESC LIMIT 1`, NULL where there is no such row
unfoldable pub last_of : (AuditRow → Bool) → String → List AuditRow → Json → Json
last_of p column [] found = found
last_of p column (row ∷ rows) found =
    last_of p column rows (if p row then get row.columns column else found)

-- `kind='AUTHORIZATION_DECISION'`
abbrev pub is_decision : AuditRow → Bool
is_decision = column_is "kind" "AUTHORIZATION_DECISION"

abbrev pub is_executed : AuditRow → Bool
is_executed row =
    (column_is "kind" "RESOURCE_EXECUTED" row || column_is "kind" "EXECUTION_RESULT" row)
    && (column_is "outcome" "SUCCEEDED" row || column_is "outcome" "EXECUTED" row)

abbrev pub is_denied : AuditRow → Bool
is_denied row =
    column_is "kind" "EXECUTION_DENIED" row || column_is "kind" "RESOURCE_RESULT_DENIED" row

abbrev pub execution_outcome : List AuditRow → String
execution_outcome rows =
    if exists_row is_executed rows
    then "EXECUTED"
    else if exists_row is_denied rows
    then "DENIED"
    else "NOT_EXECUTED"

-- the columns of the view for the rows of one request
unfoldable pub access_row : String → List AuditRow → Fields
unfolding max_of min_of last_of
access_row request_id rows = dict (
    ("request_id", str request_id)
    ∷ ("trace_id", max_of "trace_id" rows)
    ∷ ("requested_at_utc", min_of "timestamp" rows)
    ∷ ("last_event_at_utc", max_of "timestamp" rows)
    ∷ ("user_id", max_of "user_id" rows)
    ∷ ("device_id", max_of "device_id" rows)
    ∷ ("agent_type", max_of "agent_type" rows)
    ∷ ("agent_run_id", max_of "agent_run_id" rows)
    ∷ ("session_id", max_of "session_id" rows)
    ∷ ("task_summary", max_of "task_summary" rows)
    ∷ ("action", max_of "action" rows)
    ∷ ("resource", max_of "resource" rows)
    ∷ ("resource_key", max_of "resource_key" rows)
    ∷ ("decision", last_of is_decision "decision" rows null)
    ∷ ("decision_reason", last_of is_decision "decision_reason" rows null)
    ∷ ("policy_rule_id", last_of (is_set "policy_rule_id") "policy_rule_id" rows null)
    ∷ ("policy_revision", last_of (is_set "policy_revision") "policy_revision" rows null)
    ∷ ("approval_request_id", max_of "approval_request_id" rows)
    ∷ ("approver_id", max_of "approver_id" rows)
    ∷ ("grant_id", max_of "grant_id" rows)
    ∷ ("execution_id", max_of "execution_id" rows)
    ∷ ("execution_outcome", str (execution_outcome rows))
    ∷ ("final_http_status", last_of (is_set "http_status") "http_status" rows null)
    ∷ [])

abbrev pub rows_of : String → List AuditRow → List AuditRow
rows_of request_id events = filter (column_is "request_id" request_id) events

-- the request of a row, where it is neither NULL nor empty
abbrev pub request_of : AuditRow → String
request_of row = str_of (or_else (get row.columns "request_id") (str ""))

abbrev pub is_listed : List AuditRow → String → Bool
is_listed events request_id =
    not (request_id == "") && exists_row (is_set "action") (rows_of request_id events)

-- the groups: each request once
unfoldable pub requests_from : List AuditRow → List String → List AuditRow → List String
requests_from events seen [] = []
requests_from events seen (row ∷ rows) =
    let skipped = requests_from events seen rows in
    let listed = request_of row ∷ requests_from events (request_of row ∷ seen) rows in
    if contains seen (request_of row) || not (is_listed events (request_of row))
    then skipped
    else listed

unfoldable pub access_view : List AuditRow → List Fields
unfolding requests_from access_row
access_view events = map (λ r. access_row r (rows_of r events)) (requests_from events [] events)

-- `ORDER BY requested_at_utc DESC`. SQLite may put rows with the same time in any order.
abbrev pub leb_requested : Fields → Fields → Bool
leb_requested a b = leb_text (str_of (get a "requested_at_utc")) (str_of (get b "requested_at_utc"))

unfoldable pub place : Fields → List Fields → List Fields
place a [] = a ∷ []
place a (b ∷ bs) = let behind = b ∷ place a bs in if leb_requested b a then a ∷ b ∷ bs else behind

unfoldable pub by_time : List Fields → List Fields
unfolding place
by_time [] = []
by_time (a ∷ as') = place a (by_time as')

abbrev pub access_columns : List String
access_columns =
    "request_id" ∷ "trace_id" ∷ "session_id" ∷ "user_id" ∷ "device_id" ∷ "agent_type"
    ∷ "agent_run_id" ∷ "action" ∷ "resource" ∷ "decision" ∷ "policy_rule_id" ∷ "grant_id"
    ∷ "execution_id" ∷ "execution_outcome" ∷ []

abbrev pub access_matches : Dict String → Fields → Bool
access_matches filters row = clauses access_columns row filters

unfoldable pub search_access : Dict String → ℤ → List AuditRow → List Fields
unfolding access_view by_time
search_access filters limit events =
    take (clamp_limit limit) (by_time (filter (access_matches filters) (access_view events)))
