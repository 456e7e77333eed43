-- ===== src/Enterprise/Dashboard/Routes.antt =====
-- Which requests the dashboard answers.
use laptop_bap_demo.Base.{Bool, List, String, [], if◌then◌else◌, ◌∷◌, ◌≡◌}
use laptop_bap_demo.Base.Dict.{Dict}
use laptop_bap_demo.Base.Json.{Fields, Json}
use laptop_bap_demo.Base.Lists.{All, contains}
use laptop_bap_demo.Base.Run.{Except, ok}
use laptop_bap_demo.Enterprise.Audit.Search.{public_event, row_dict}
use laptop_bap_demo.Enterprise.Dashboard.{Page}
use laptop_bap_demo.Enterprise.World.{AuditRow, Machine, World}

-- The details of every row can be read.
abbrev pub AreReadable : Machine → List AuditRow → Type 0
AreReadable m events = All (λ row. (e : Fields) × (public_event m (row_dict row) ≡ ok e)) events

abbrev Answers : {A : Type 0} → Except A → Type 0
Answers {A} r = (a : A) × (r ≡ ok a)

abbrev pub is_route : String → Bool
is_route path =
    contains
      ("/" ∷ "/api/state" ∷ "/api/audit" ∷ "/api/access" ∷ "/api/integrity" ∷ "/api/export"
        ∷ "/health" ∷ [])
      path

-- An answer, with 200 or else with 404.
record Served (known : Bool) (r : Except Page) : Type 0 where
  page : Page
  answered : r ≡ ok page
  with_status : page.status ≡ (if known then 200 else 404)
