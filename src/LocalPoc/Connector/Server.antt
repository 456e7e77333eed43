-- ===== src/LocalPoc/Connector/Server.antt =====
-- `dashboard_state` and the HTTP handler of local_poc/laptop_connector.py.
use laptop_bap_demo.LocalPoc.Connector.Sessions
use laptop_bap_demo.LocalPoc.EventBus
use laptop_bap_demo.Base.{Option, String, [], if◌then◌else◌, none, some, true, ◌==◌, ◌∷◌}
use laptop_bap_demo.Base.Dict.{Dict}
use laptop_bap_demo.Base.Json.{
  Fields, Json, arr, bool, dict, end, field, get, insert, items, lookup, nat, obj, str,
}
use laptop_bap_demo.Base.Run.{Run, modify, pure, ◌>>=◌, ◌>>◌}
use laptop_bap_demo.LocalPoc.Connector.Classify.{classified_fields}
use laptop_bap_demo.LocalPoc.Connector.Database.{execute_database}
use laptop_bap_demo.LocalPoc.Connector.Network.{Network}
use laptop_bap_demo.LocalPoc.Connector.Sessions.{
  capture_intent, end_session, post_tool, session_json, start_session,
}
use laptop_bap_demo.LocalPoc.Connector.Tools.{
  authorize_tool, inspect_external_grant, permission_request, record_agent_event,
}
use laptop_bap_demo.LocalPoc.EventBus.{EventBus}
use laptop_bap_demo.LocalPoc.World.{Authorization, Host, Response, World}

abbrev authorization_fields : Authorization → Fields
authorization_fields a = dict (
    ("session_id", str a.session_id)
    ∷ ("classification", obj (classified_fields a.classification))
    ∷ ("bap", obj a.bap)
    ∷ ("created_at", nat a.created_at)
    ∷ ("hook_client", obj a.hook_client)
    ∷ [])

abbrev mask : Fields → Fields → Option Json → Fields
mask bap grant none = bap
mask bap grant (some token) = insert "grant" (obj (insert "token" (str "<signed-token>") grant)) bap

abbrev hide_in : Fields → Json → Fields
hide_in bap (obj grant) = mask bap grant (lookup grant "token")
hide_in bap v = bap

-- The grant of an authorization is an object or missing:
-- `if grant and "token" in grant: grant["token"] = "<signed-token>"`
unfoldable pub hide_token : Authorization → Authorization
unfolding insert
hide_token a = record a { bap = hide_in a.bap (get a.bap "grant") }

abbrev pub table {ℓ} : {V : Type ℓ} → (V → Fields) → Dict V → Fields
table f [] = end
table f ((k, v) ∷ d) = field k (obj (f v)) (table f d)

unfoldable pub dashboard_state : World → Fields
unfolding hide_token
dashboard_state w = dict (
    ("sessions", obj (table session_json w.connector.sessions))
    ∷ (
      "authorizations",
      obj (table (λ a. authorization_fields (hide_token a)) w.connector.authorizations),
    )
    ∷ ("database", obj (table (λ row. row) w.rows))
    ∷ ("events", arr (items (EventBus.snapshot w.events)))
    ∷ [])

module _ (h : Host) (net : Network) where
  abbrev with_200 : Run World Fields → Run World Response
  with_200 m = do result ← m; pure (200, result)

  -- the POST handler, on the path of the URL and a body that is a JSON object
  unfoldable pub do_post : String → Fields → Run World Response
  do_post path payload =
      if path == "/session/start"
      then with_200 (start_session h payload)
      else if path == "/intent"
      then with_200 (capture_intent h payload)
      else if path == "/hook/pre-tool"
      then with_200 (authorize_tool h net payload)
      else if path == "/hook/permission"
      then with_200 (permission_request h net payload)
      else if path == "/hook/post-tool"
      then with_200 (post_tool h payload)
      else if path == "/agent/event"
      then record_agent_event h net payload
      else if path == "/agent/authorize"
      then with_200 (authorize_tool h net payload)
      else if path == "/agent/action/result"
      then with_200 (post_tool h payload)
      else if path == "/session/end"
      then with_200 (end_session h net payload)
      else if path == "/db/execute"
      then execute_database h net payload
      else if path == "/demo/external-grant-attempt"
      then inspect_external_grant h net payload
      else if path == "/reset"
      then (do Sessions.reset h; pure (200, dict (("ok", bool true) ∷ [])))
      else if path == "/shutdown"
      then (do
        modify λ w. record w { connector = record (w.connector) { shutdown = true } }
        pure (200, dict (("ok", bool true) ∷ [])))
      else pure (404, dict (("error", str "not found") ∷ []))
