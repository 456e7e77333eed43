-- ===== src/LocalPoc/Connector/Dashboard.antt =====
-- What the dashboard shows of an authorization.
use laptop_bap_demo.Base.{String, if◌then◌else◌, refl, some, ◌==◌, ◌≡◌}
use laptop_bap_demo.Base.Json.{Fields, Json, get, insert, lookup, obj, str}
use laptop_bap_demo.Base.Json.Lookup.{lookup-insert}
use laptop_bap_demo.LocalPoc.Connector.Server.{hide_token}
use laptop_bap_demo.LocalPoc.World.{Authorization}

-- The grant of an authorization, where it has a token, is shown with the token masked and its other
-- entries as they are.
get-hide_token :
    (a : Authorization) (grant : Fields) (token : Json)
    → get a.bap "grant" ≡ obj grant
    → lookup grant "token" ≡ some token
    → (k : String)
    → (get (hide_token a).bap "grant" ≡ obj (insert "token" (str "<signed-token>") grant))
      × (lookup (insert "token" (str "<signed-token>") grant) k
          ≡ (if "token" == k then some (str "<signed-token>") else lookup grant k))
unfolding hide_token
get-hide_token a grant token g t k =
    (rw (g, t, lookup-insert) refl, lookup-insert k "token" (str "<signed-token>") grant)
