-- ===== src/Enterprise/Audit/Snapshot.antt =====
-- `snapshot`, enterprise_demo/common/audit_store.py. The columns `token` and `token_hash` of the grants
-- are those that are left out; the request of an approval is kept as the value that its text stands
-- for.
pub mod Secrets
use laptop_bap_demo.Base.{Bool, List, String, [], false, map, reverse, true, ◌∷◌}
use laptop_bap_demo.Base.Dict.{Dict}
use laptop_bap_demo.Base.Int.{pos, ℤ}
use laptop_bap_demo.Base.Json.{Fields, Json, arr, dict, int, items, nat, obj, remove, str}
use laptop_bap_demo.Base.Lists.{take}
use laptop_bap_demo.Base.Run.{Except, ok, raised}
use laptop_bap_demo.Enterprise.Audit.{verify_chain}
use laptop_bap_demo.Enterprise.Audit.Access.{search_access}
use laptop_bap_demo.Enterprise.Audit.Search.{search_events}
use laptop_bap_demo.Enterprise.World.{ApprovalRow, GrantRow, Machine, World}

abbrev flag : Bool → Json
flag true = nat 1
flag false = nat 0

-- `dict(row)` of a row of `grants`
abbrev pub grant_dict : String → GrantRow → Fields
grant_dict grant_id row = dict (
    ("grant_id", str grant_id)
    ∷ ("token", str "")
    ∷ ("token_hash", str row.token_hash)
    ∷ ("agent_run", str row.agent_run)
    ∷ ("action", str row.action)
    ∷ ("resource", str row.resource)
    ∷ ("expires_at", int row.expires_at)
    ∷ ("approved_by", str row.approved_by)
    ∷ ("policy_rule_id", str row.policy_rule_id)
    ∷ ("policy_revision", str row.policy_revision)
    ∷ ("revoked", flag row.revoked)
    ∷ [])

-- `{key: value … if key not in {"token", "token_hash"}}`
abbrev pub without_token : Fields → Fields
without_token fs = remove "token" (remove "token_hash" fs)

abbrev pub approval_dict : String → ApprovalRow → Fields
approval_dict request_id row = dict (
    ("request_id", str request_id)
    ∷ ("user_id", str row.user_id)
    ∷ ("agent_run", str row.agent_run)
    ∷ ("action", str row.action)
    ∷ ("resource", str row.resource)
    ∷ ("policy_rule_id", str row.policy_rule_id)
    ∷ ("policy_revision", str row.policy_revision)
    ∷ ("grant_ttl_seconds", int row.grant_ttl_seconds)
    ∷ ("request_hash", str row.request_hash)
    ∷ ("status", str row.status)
    ∷ ("request_context", obj row.request_json)
    ∷ [])

-- `ORDER BY rowid DESC LIMIT 50`: the rows in the order of their insertion, newest first
abbrev pub newest : {V : Type 0} → Dict V → Dict V
newest rows = take 50 (reverse rows)

unfoldable pub shown_grants : Dict GrantRow → List Fields
unfolding remove
shown_grants grants = map (λ r. without_token (grant_dict r.0 r.1)) (newest grants)

unfoldable pub shown_approvals : Dict ApprovalRow → List Fields
shown_approvals approvals = map (λ r. approval_dict r.0 r.1) (newest approvals)

abbrev pub dicts : List Fields → Json
dicts fs = arr (items (map (λ d. obj d) fs))

abbrev pub snapshot_with : Machine → World → Except (List Fields) → Except Fields
snapshot_with m w (raised e) = raised e
snapshot_with m w (ok events) = ok (
    dict (
      ("events", dicts (reverse events))
      ∷ ("grants", dicts (shown_grants w.grants))
      ∷ ("approvals", dicts (shown_approvals w.approvals))
      ∷ ("access", dicts (search_access [] (pos 50) w.events))
      ∷ ("integrity", obj (verify_chain m w.events))
      ∷ []))

-- `snapshot(limit)`
unfoldable pub snapshot : Machine → ℤ → World → Except Fields
unfolding shown_grants shown_approvals search_events search_access verify_chain
snapshot m limit w = snapshot_with m w (search_events m [] limit (pos 0) w.events)
