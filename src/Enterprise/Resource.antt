-- ===== src/Enterprise/Resource.antt =====
-- The protected resource, enterprise_demo/protected_resource/app.py.
use laptop_bap_demo.Base.{
  Bool, List, Option, String, [], false, if◌then◌else◌, none, not, some, true, ◌++◌, ◌<>◌, ◌==◌,
  ◌∷◌,
}
use laptop_bap_demo.Base.Dict.{Dict, find, put}
use laptop_bap_demo.Base.Json.{
  Fields, Json, bool, dict, end, get, get_or, nat, obj, str, truthy, update,
}
use laptop_bap_demo.Base.Json.Repr.{str_of}
use laptop_bap_demo.Base.Run.{Except, Run, gets, lift, modify, ok, pure, raised, ◌>>=◌, ◌>>◌}
use laptop_bap_demo.Base.Text.{upper}
use laptop_bap_demo.Enterprise.Audit.{emit}
use laptop_bap_demo.Enterprise.World.{Machine, Response, World, draw, message_of, payload_hash}

abbrev pub gateway_secret : String
gateway_secret = "demo-resource-gateway-only"

-- `DATA`, as the module makes it
abbrev pub initial_data : Dict Fields
initial_data =
    (
      "customer-123",
      dict (("name", str "Alice Example") ∷ ("status", str "active") ∷ ("tier", str "gold") ∷ []),
    )
    ∷ []

abbrev has_secret : Option String → Bool
has_secret none = false
has_secret (some s) = s == gateway_secret

abbrev pub or_empty : Option Fields → Fields
or_empty none = end
or_empty (some d) = d

-- `payload.get("value") or {}`, as the argument of `update`: an array of pairs would do too, and is not
-- modelled; every other value raises
abbrev pub written_fields : Json → Except Fields
written_fields (obj fs) = ok fs
written_fields v = if truthy v then raised "TypeError: cannot convert to a dict" else ok end

module _ (m : Machine) where
  abbrev base_of : Fields → List (String × Json)
  base_of payload =
      ("trace_id", get payload "trace_id")
      ∷ ("request_id", get payload "request_id")
      ∷ ("decision_id", get payload "decision_id")
      ∷ ("execution_id", get payload "execution_id")
      ∷ ("user_id", get payload "user_id")
      ∷ ("agent_run", get payload "agent_run")
      ∷ ("action", get payload "action")
      ∷ ("resource", get payload "resource")
      ∷ ("resource_key", get payload "key")
      ∷ ("grant_id", get payload "grant_id")
      ∷ ("request_payload_hash", str (payload_hash m (obj payload)))
      ∷ []

  abbrev succeed : Fields → String → String → Fields → Run World Response
  succeed payload operation key value = do
    let response = dict (
        ("ok", bool true)
        ∷ ("operation", str operation)
        ∷ ("key", str key)
        ∷ ("value", obj value)
        ∷ [])
    emit m "PROTECTED RESOURCE" "RESOURCE_EXECUTED"
        ("Executed " <> upper operation <> " on " <> key <> " through the gateway")
        (dict (
          base_of payload
          ++ ("operation", str operation)
            ∷ ("http_status", nat 200)
            ∷ ("outcome", str "SUCCEEDED")
            ∷ ("result_payload_hash", str (payload_hash m (obj response)))
            ∷ []))
        "success"
    pure (200, response)

  abbrev read_row : Fields → String → Option Fields → Run World Response
  read_row payload key none = do
    emit m "PROTECTED RESOURCE" "EXECUTION_RESULT" ("Resource key " <> key <> " was not found")
        (dict (
          base_of payload
          ++ ("operation", str "read")
            ∷ ("http_status", nat 404)
            ∷ ("outcome", str "FAILED")
            ∷ (
              "result_payload_hash",
              str (payload_hash m (obj (dict (("error", str "not found") ∷ [])))),
            )
            ∷ []))
        "warning"
    pure (404, dict (("ok", bool false) ∷ ("error", str "not found") ∷ []))
  read_row payload key (some row) = succeed payload "read" key row

  -- the row is made before the value is looked at
  abbrev write_row : Fields → String → Run World Response
  write_row payload key = do
    rows ← gets (λ w. w.rows)
    let row = or_empty (find rows key)
    modify λ w. record w { rows = put key row w.rows }
    value ← lift (written_fields (get payload "value"))
    modify λ w. record w { rows = put key (update row value) w.rows }
    succeed payload "write" key (update row value)

  unfoldable pub execute : Fields → String → String → Run World Response
  unfolding emit update
  execute payload operation key =
      if operation == "read"
      then (do row ← gets (λ w. find w.rows key); read_row payload key row)
      else if operation == "write"
      then write_row payload key
      else (do
        emit m "PROTECTED RESOURCE" "EXECUTION_DENIED"
            ("Operation " <> operation <> " is prohibited")
            (dict (
              base_of payload
              ++ ("operation", str operation)
                ∷ ("decision", str "DENY")
                ∷ ("decision_reason", str "Operation prohibited")
                ∷ ("outcome", str "DENIED")
                ∷ ("http_status", nat 403)
                ∷ []))
            "error"
        pure (403, dict (("ok", bool false) ∷ ("error", str "operation prohibited") ∷ [])))

  abbrev guarded_query : Option String → Fields → Run World Response
  guarded_query secret payload =
      if not (has_secret secret)
      then (do
        emit m "PROTECTED RESOURCE" "DIRECT_ACCESS_DENIED"
            "Rejected a request that did not come through the resource gateway"
            (dict (
              base_of payload
              ++ ("operation", get payload "operation")
                ∷ ("decision", str "DENY")
                ∷ ("decision_reason", str "Resource gateway identity required")
                ∷ ("outcome", str "DENIED")
                ∷ ("http_status", nat 403)
                ∷ []))
            "error"
        pure (403, dict (("ok", bool false) ∷ ("error", str "Resource gateway required") ∷ [])))
      else execute payload (str_of (get_or payload "operation" (str "read")))
          (str_of (get_or payload "key" (str "customer-123")))

  abbrev query : Option String → Except Fields → Run World Response
  query secret (ok payload) = guarded_query secret payload
  query secret (raised error) = do
    hex ← draw m 12
    let request_id = "req-" <> hex
    emit m "PROTECTED RESOURCE" "MALFORMED_REQUEST_DENIED"
        "Rejected malformed protected-resource request"
        (dict (
          ("request_id", str request_id)
          ∷ ("decision", str "DENY")
          ∷ ("decision_reason", str "Malformed JSON")
          ∷ ("outcome", str "DENIED")
          ∷ ("error", str (message_of error))
          ∷ []))
        "error"
    pure (
      400,
      dict (
          ("ok", bool false)
          ∷ ("error", str "malformed JSON")
          ∷ ("request_id", str request_id)
          ∷ []),
    )

  -- the POST handler, on the path, the header `X-Resource-Gateway-Secret` and the body
  unfoldable pub do_post : String → Option String → Except Fields → Run World Response
  unfolding execute
  do_post path secret body =
      if not (path == "/query")
      then (do
        emit m "PROTECTED RESOURCE" "UNKNOWN_ROUTE_DENIED"
            "Rejected unknown protected-resource route"
            (dict (
              ("request_path", str path)
              ∷ ("decision", str "DENY")
              ∷ ("decision_reason", str "Unknown route")
              ∷ ("outcome", str "DENIED")
              ∷ []))
            "error"
        pure (404, dict (("error", str "not found") ∷ [])))
      else query secret body
