-- ===== src/Enterprise/Dashboard.antt =====
-- enterprise_demo/central_dashboard/app.py: the query string, as `parse_qs` reads it, and the GET
-- routes. The page and the two ways in which json is written are parameters.
pub mod Bounds
pub mod Routes
use laptop_bap_demo.Base.{
  Bool, List, Option, String, [], false, if◌then◌else◌, map, none, not, some, starts_with, ℕ, ◌&&◌,
  ◌<>◌, ◌==◌, ◌∷◌,
}
use laptop_bap_demo.Base.Dict.{Dict, find}
use laptop_bap_demo.Base.Int.{pos, ℤ}
use laptop_bap_demo.Base.Json.{Fields, Json, dict, obj, str}
use laptop_bap_demo.Base.Json.Number.{int_of}
use laptop_bap_demo.Base.Lists.{contains}
use laptop_bap_demo.Base.Run.{Except, ok, raised}
use laptop_bap_demo.Base.Text.{join}
use laptop_bap_demo.Enterprise.Audit.{verify_chain}
use laptop_bap_demo.Enterprise.Audit.Access.{search_access}
use laptop_bap_demo.Enterprise.Audit.Search.{clamp_limit, clamp_offset, search_events}
use laptop_bap_demo.Enterprise.Audit.Snapshot.{dicts, snapshot}
use laptop_bap_demo.Enterprise.World.{Machine, World}

abbrev pub Query : Type 0
Query = Dict (List String)

-- `query_filters` returns these three.
pub record Filters : Type 0 where
  pub filters : Dict String
  pub limit : ℤ
  pub offset : ℤ

abbrev pub is_filter : String → List String → Bool
is_filter key [] = false
is_filter key (value ∷ values) = not (contains ("limit" ∷ "offset" ∷ []) key) && not (value == "")

abbrev pub first_value : List String → String
first_value [] = ""
first_value (value ∷ values) = value

unfoldable pub filters_of : Query → Dict String
filters_of [] = []
filters_of ((key, values) ∷ query) =
    let others = filters_of query in
    if is_filter key values then (key, first_value values) ∷ others else others

-- `int(query.get(key, [default])[0])`
abbrev pub int_at : String → Option (List String) → Except ℤ
int_at default none = int_of (str default)
int_at default (some []) = raised "IndexError: list index out of range"
int_at default (some (value ∷ values)) = int_of (str value)

-- `max(1, min(limit, 1000))` and `max(0, offset)`
abbrev pub between : ℤ → ℤ
between limit = pos (clamp_limit limit)

abbrev pub at_least_zero : ℤ → ℤ
at_least_zero offset = pos (clamp_offset offset)

abbrev pub clamped : Except ℤ → Except ℤ → Except (ℤ × ℤ)
clamped (ok limit) (ok offset) = ok (between limit, at_least_zero offset)
clamped (ok limit) (raised e) = raised e
clamped (raised e) offset = raised e

-- `except ValueError`
abbrev pub or_default : Except (ℤ × ℤ) → Except (ℤ × ℤ)
or_default (ok bounds) = ok bounds
or_default (raised e) = if starts_with e "ValueError" then ok (pos 300, pos 0) else raised e

abbrev pub with_bounds : Dict String → Except (ℤ × ℤ) → Except Filters
with_bounds filters (raised e) = raised e
with_bounds filters (ok (limit, offset)) =
    ok (record { filters = filters; limit = limit; offset = offset })

unfoldable pub query_filters : Query → Except Filters
unfolding filters_of find int_of
query_filters query =
    with_bounds (filters_of query)
      (or_default (clamped (int_at "300" (find query "limit")) (int_at "0" (find query "offset"))))

-- What `respond` sends.
pub record Page : Type 0 where
  pub status : ℕ
  pub body : String
  pub content_type : String
  pub disposition : Option String

abbrev pub json_page : ℕ → String → Page
json_page status body = record {
  status = status;
  body = body;
  content_type = "application/json";
  disposition = none;
}

module _ (page : String) (dumps dumps_sorted : Json → String) where
  abbrev pub answer : Except Json → Except Page
  answer (raised e) = raised e
  answer (ok v) = ok (json_page 200 (dumps v))

  abbrev pub under : String → Except (List Fields) → Except Json
  under key (raised e) = raised e
  under key (ok rows) = ok (obj (dict ((key, dicts rows) ∷ [])))

  abbrev pub as_object : Except Fields → Except Json
  as_object (raised e) = raised e
  as_object (ok fs) = ok (obj fs)

  -- `"\n".join(json.dumps(row, sort_keys=True) for row in rows) + "\n"`
  abbrev pub jsonl : List Fields → String
  jsonl rows = join "\n" (map (λ row. dumps_sorted (obj row)) rows) <> "\n"

  abbrev pub export : Except (List Fields) → Except Page
  export (raised e) = raised e
  export (ok rows) = ok record {
    status = 200;
    body = jsonl rows;
    content_type = "application/x-ndjson";
    disposition = some "attachment; filename=\"bap-audit-export.jsonl\"";
  }

  -- the routes, with the filters of the query
  abbrev pub route : Machine → World → String → Filters → Except Page
  route m w path f =
      if path == "/"
      then ok record {
        status = 200;
        body = page;
        content_type = "text/html; charset=utf-8";
        disposition = none;
      }
      else if path == "/api/state"
      then answer (as_object (snapshot m (pos 300) w))
      else if path == "/api/audit"
      then answer (under "events" (search_events m f.filters f.limit f.offset w.events))
      else if path == "/api/access"
      then answer (under "access" (ok (search_access f.filters f.limit w.events)))
      else if path == "/api/integrity"
      then answer (ok (obj (verify_chain m w.events)))
      else if path == "/api/export"
      then export (search_events m f.filters (pos 1000) f.offset w.events)
      else if path == "/health"
      then ok (json_page 200 "{\"ok\":true,\"service\":\"central-dashboard\"}")
      else ok (json_page 404 "{\"ok\":false,\"error\":\"Not found\"}")

  abbrev pub route_with : Machine → World → String → Except Filters → Except Page
  route_with m w path (raised e) = raised e
  route_with m w path (ok f) = route m w path f

  unfoldable pub do_get : Machine → World → String → Query → Except Page
  unfolding query_filters snapshot search_events search_access verify_chain join
  do_get m w path query = route_with m w path (query_filters query)
