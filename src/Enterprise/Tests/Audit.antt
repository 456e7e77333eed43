-- ===== src/Enterprise/Tests/Audit.antt =====
-- The audit store's and the dashboard's theorems at concrete inputs: a log of two events, one of them
-- older than the hash chain.
use laptop_bap_demo.Base.{List, String, [], false, map, refl, some, true, ◌-◌, ◌==◌, ◌∷◌, ◌≡◌, ◌≤◌}
use laptop_bap_demo.Base.Dict.{Dict, find}
use laptop_bap_demo.Base.Int.{pos}
use laptop_bap_demo.Base.Json.{
  Fields, arr, bool, dict, eq_json, get, insert, lookup, nat, nil, null, obj, remove, str, truthy,
}
use laptop_bap_demo.Base.Json.Number.{int_of}
use laptop_bap_demo.Base.Json.Repr.{str_of}
use laptop_bap_demo.Base.Lists.{All, contains, count_if, length, min_ℕ}
use laptop_bap_demo.Base.Run.{ok}
use laptop_bap_demo.Enterprise.Audit.{verify_chain}
use laptop_bap_demo.Enterprise.Audit.Access.{access_columns, search_access}
use laptop_bap_demo.Enterprise.Audit.Access.Sound.{rows_for, search_access_sound}
use laptop_bap_demo.Enterprise.Audit.Backfill.{
  KeepAll, LegacyRow, backfill_chain, backfill_chain-verify_chain,
}
use laptop_bap_demo.Enterprise.Audit.Search.{
  clamp_limit, clamp_offset, matches, search_events, searchable,
}
use laptop_bap_demo.Enterprise.Audit.Search.Sound.{search_events_sound}
use laptop_bap_demo.Enterprise.Audit.Snapshot.{dicts, shown_grants, snapshot}
use laptop_bap_demo.Enterprise.Audit.Snapshot.Secrets.{HasNoToken, snapshot-HasNoToken}
use laptop_bap_demo.Enterprise.Dashboard.{Filters, Query, query_filters}
use laptop_bap_demo.Enterprise.Dashboard.Bounds.{IsClamped, IsParsed, query_filters-IsClamped}
use laptop_bap_demo.Enterprise.Tests.{claims, demo_machine, idle}
use laptop_bap_demo.Enterprise.World.{AuditRow, World}

abbrev read_row : AuditRow
read_row = record {
  sequence = 1;
  columns = dict (
      ("kind", str "AUTHORIZATION_DECISION")
      ∷ ("timestamp", str "2026-01-01T00:00:00Z")
      ∷ ("request_id", str "req-1")
      ∷ ("user_id", str "dev")
      ∷ ("action", str "database.read")
      ∷ ("details_json", str "{}")
      ∷ []);
  event_hash = "digest";
}

abbrev write_row : AuditRow
write_row = record {
  sequence = 2;
  columns = dict (
      ("kind", str "EXECUTION_DENIED")
      ∷ ("timestamp", str "2026-01-02T00:00:00Z")
      ∷ ("request_id", str "req-2")
      ∷ ("user_id", str "ops")
      ∷ ("action", str "database.write")
      ∷ ("details_json", str "{}")
      ∷ []);
  event_hash = "digest";
}

abbrev two_events : List AuditRow
two_events = read_row ∷ write_row ∷ []

abbrev by_user : Dict String
by_user = ("user_id", "dev") ∷ ("from", "2026-01-01") ∷ []

abbrev shown_read : Fields
shown_read = dict (
    ("kind", str "AUTHORIZATION_DECISION")
    ∷ ("timestamp", str "2026-01-01T00:00:00Z")
    ∷ ("request_id", str "req-1")
    ∷ ("user_id", str "dev")
    ∷ ("action", str "database.read")
    ∷ ("sequence", nat 1)
    ∷ ("event_hash", str "digest")
    ∷ ("details", obj claims)
    ∷ [])

search_events_sound_example :
    ((k v : String)
      → find by_user k ≡ some v
      → contains searchable k ≡ true
      → (v == "") ≡ false
      → All (λ e. get e k ≡ str v) (shown_read ∷ []))
    × (1
        ≡ min_ℕ
            (clamp_limit (pos 50))
            (count_if (matches by_user) two_events - clamp_offset (pos 0)))
unfolding search_events insert remove lookup str_of eq_json
search_events_sound_example =
    search_events_sound demo_machine by_user (pos 50) (pos 0) two_events (shown_read ∷ []) refl

search_access_sound_example :
    ((k v : String)
      → find by_user k ≡ some v
      → contains access_columns k ≡ true
      → (v == "") ≡ false
      → All (λ row. get row k ≡ str v) (search_access by_user (pos 50) two_events))
    × ((request : String) → rows_for request (search_access by_user (pos 50) two_events) ≤ 1)
    × (length (search_access by_user (pos 50) two_events) ≤ clamp_limit (pos 50))
search_access_sound_example = search_access_sound by_user (pos 50) two_events

search_access_test :
    map (λ row. get row "execution_outcome") (search_access [] (pos 50) two_events)
    ≡ str "DENIED" ∷ str "NOT_EXECUTED" ∷ []
unfolding search_access lookup eq_json str_of truthy
search_access_test = refl

-- a row without an ID and without a hash
abbrev old_row : LegacyRow
old_row = record {
  sequence = 1;
  columns = dict (("kind", str "OLD") ∷ ("timestamp", str "2025-12-31T00:00:00Z") ∷ []);
  event_hash = null;
}

backfill_chain-verify_chain_example :
    ((get (verify_chain demo_machine (backfill_chain demo_machine 0 (old_row ∷ []))) "ok"
        ≡ bool true)
      × (get (verify_chain demo_machine (backfill_chain demo_machine 0 (old_row ∷ []))) "checked"
          ≡ nat 1))
    × KeepAll (old_row ∷ []) (backfill_chain demo_machine 0 (old_row ∷ []))
backfill_chain-verify_chain_example = backfill_chain-verify_chain demo_machine 0 (old_row ∷ [])

abbrev shown_state : Fields
shown_state = dict (
    ("events", arr nil)
    ∷ ("grants", dicts (shown_grants idle.grants))
    ∷ ("approvals", arr nil)
    ∷ ("access", arr nil)
    ∷ ("integrity", obj (verify_chain demo_machine []))
    ∷ [])

snapshot-HasNoToken_example :
    (get shown_state "grants" ≡ dicts (shown_grants idle.grants))
    × All HasNoToken (shown_grants idle.grants)
    × (map (λ d. get d "grant_id") (shown_grants idle.grants) ≡ str "gnt-1" ∷ [])
    × (length (shown_grants idle.grants) ≡ min_ℕ 50 1)
    × (get shown_state "integrity" ≡ obj (verify_chain demo_machine []))
unfolding snapshot
snapshot-HasNoToken_example = snapshot-HasNoToken demo_machine (pos 300) idle shown_state refl

abbrev typed : Query
typed = ("user_id", "dev" ∷ []) ∷ ("limit", "5000" ∷ []) ∷ ("offset", "-3" ∷ []) ∷ []

typed-IsParsed : IsParsed typed
typed-IsParsed = (λ e. absurd (cc e), (λ e. absurd (cc e), (λ e. absurd (cc e), tt)))

query_filters-IsClamped_example : (f : Filters) × (query_filters typed ≡ ok f) × IsClamped f
query_filters-IsClamped_example = query_filters-IsClamped typed typed-IsParsed

query_filters_test :
    query_filters typed
    ≡ ok (record { filters = ("user_id", "dev") ∷ []; limit = pos 1000; offset = pos 0 })
unfolding query_filters find int_of
query_filters_test = refl

abbrev searched : World
searched = record idle { events = two_events }
