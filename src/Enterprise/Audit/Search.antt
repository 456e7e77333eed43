-- ===== src/Enterprise/Audit/Search.antt =====
-- `search_events`, enterprise_demo/common/audit_store.py. The values of the filters are texts, as in
-- every call.
pub mod Sound
use Prim.Native.Nat.{Ordering}
use Prim.Native.String.{compare as compare_text}
use laptop_bap_demo.Base.{
  Bool, List, Option, String, [], false, if◌then◌else◌, none, not, reverse, some, true, ℕ, ◌&&◌,
  ◌==◌, ◌∷◌,
}
use laptop_bap_demo.Base.Dict.{Dict, find}
use laptop_bap_demo.Base.Int.{negsuc, pos, ℤ}
use laptop_bap_demo.Base.Json.{Fields, Json, eq_json, get, get_or, insert, nat, remove, str}
use laptop_bap_demo.Base.Json.Repr.{str_of}
use laptop_bap_demo.Base.Lists.{contains, drop, filter, max_ℕ, min_ℕ, take}
use laptop_bap_demo.Base.Run.{Except, ok, raised}
use laptop_bap_demo.Enterprise.World.{AuditRow, Machine}

-- the columns that a filter may name, all of type TEXT
abbrev pub searchable : List String
searchable =
    "event_id" ∷ "trace_id" ∷ "request_id" ∷ "decision_id" ∷ "execution_id" ∷ "session_id"
    ∷ "agent_run_id" ∷ "user_id" ∷ "device_id" ∷ "agent_type" ∷ "action" ∷ "resource" ∷ "decision"
    ∷ "policy_rule_id" ∷ "approval_request_id" ∷ "grant_id" ∷ "kind" ∷ "source" ∷ "outcome" ∷ []

-- the order of SQLite's BINARY collation, that of the bytes
abbrev pub leb_text : String → String → Bool
leb_text s t = elim (compare_text s t) [ Ordering.gt ↦ false | _ ↦ true ]

-- `f"{key}=?"`, where the column is not NULL
abbrev pub clause : List String → Fields → String → String → Bool
clause allowed row key value =
    if contains allowed key && not (value == "") then eq_json (get row key) (str value) else true

abbrev pub clauses : List String → Fields → Dict String → Bool
clauses allowed row [] = true
clauses allowed row ((key, value) ∷ filters) =
    clause allowed row key value && clauses allowed row filters

-- `timestamp>=?` and `timestamp<=?`, where the filter is there
abbrev pub from_clause : Fields → Option String → Bool
from_clause row none = true
from_clause row (some value) =
    if value == "" then true else leb_text value (str_of (get row "timestamp"))

abbrev pub to_clause : Fields → Option String → Bool
to_clause row none = true
to_clause row (some value) =
    if value == "" then true else leb_text (str_of (get row "timestamp")) value

-- the WHERE of the query
unfoldable pub matches : Dict String → AuditRow → Bool
unfolding find
matches filters row =
    clauses searchable row.columns filters
    && from_clause row.columns (find filters "from")
    && to_clause row.columns (find filters "to")

-- `max(1, min(limit, 1000))`
abbrev pub clamp_limit : ℤ → ℕ
clamp_limit (pos limit) = max_ℕ 1 (min_ℕ limit 1000)
clamp_limit (negsuc n) = 1

-- `max(0, offset)`
abbrev pub clamp_offset : ℤ → ℕ
clamp_offset (pos offset) = offset
clamp_offset (negsuc n) = 0

-- `SELECT * FROM audit_events … ORDER BY sequence DESC LIMIT ? OFFSET ?`, on the rows in the order of
-- their sequence
unfoldable pub select_events : Dict String → ℤ → ℤ → List AuditRow → List AuditRow
unfolding matches
select_events filters limit offset events =
    take (clamp_limit limit)
      (drop (clamp_offset offset) (filter (matches filters) (reverse events)))

-- `dict(row)`
abbrev pub row_dict : AuditRow → Fields
row_dict row =
    insert "event_hash" (str row.event_hash) (insert "sequence" (nat row.sequence) row.columns)

-- `json.loads`
abbrev pub load_text : Machine → String → Except Json
load_text m s = elim (m.loads (m.encode_utf8 s)) [ none ↦ raised "JSONDecodeError" | some v ↦ ok v ]

abbrev pub with_details : Fields → Except Json → Except Fields
with_details row (raised e) = raised e
with_details row (ok details) = ok (insert "details" details row)

-- `_public_event`
unfoldable pub public_event : Machine → Fields → Except Fields
unfolding insert remove
public_event m row =
    with_details (remove "details_json" row)
      (load_text m (str_of (get_or row "details_json" (str "{}"))))

abbrev pub cons_ok : Except Fields → Except (List Fields) → Except (List Fields)
cons_ok (raised e) rest = raised e
cons_ok (ok fs) (raised e) = raised e
cons_ok (ok fs) (ok rest) = ok (fs ∷ rest)

unfoldable pub public_events : Machine → List AuditRow → Except (List Fields)
unfolding public_event
public_events m [] = ok []
public_events m (row ∷ rows) = cons_ok (public_event m (row_dict row)) (public_events m rows)

unfoldable pub search_events : Machine → Dict String → ℤ → ℤ → List AuditRow → Except (List Fields)
unfolding select_events public_events
search_events m filters limit offset events =
    public_events m (select_events filters limit offset events)
