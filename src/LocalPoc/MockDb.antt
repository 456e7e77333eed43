-- ===== src/LocalPoc/MockDb.antt =====
-- `MockDatabaseState` and its HTTP handler, local_poc/mock_db_server.py.
pub mod Rows
use laptop_bap_demo.Base.{
  Bool, Option, String, [], false, if◌then◌else◌, inl, inr, none, not, some, true, ◌<>◌, ◌==◌, ◌∷◌,
  ◌⊎◌,
}
use laptop_bap_demo.Base.Dict.{Dict, erase, find, put}
use laptop_bap_demo.Base.Json.{Fields, Json, bool, dict, end, get, get_or, null, obj, str, update}
use laptop_bap_demo.Base.Json.Repr.{str_of}
use laptop_bap_demo.Base.Run.{Run, modify, pure, ◌>>=◌, ◌>>◌}
use laptop_bap_demo.Base.Text.{upper}
use laptop_bap_demo.LocalPoc.World.{Host, Response, World, emit_event}

abbrev pub gateway_secret : String
gateway_secret = "demo-gateway-to-database-secret"

abbrev pub initial_rows : Dict Fields
initial_rows =
    (
      "customer-123",
      dict (("name", str "Ada") ∷ ("status", str "active") ∷ ("risk", str "low") ∷ []),
    )
    ∷ (
      "customer-456",
      dict (("name", str "Grace") ∷ ("status", str "review") ∷ ("risk", str "medium") ∷ []),
    )
    ∷ []

abbrev pub or_empty : Option Fields → Fields
or_empty none = end
or_empty (some d) = d

abbrev pub or_null : Option Fields → Json
or_null none = null
or_null (some d) = obj d

abbrev pub error_body : String → Fields
error_body message = dict (("ok", bool false) ∷ ("error", str message) ∷ [])

abbrev done : String → String → String → Json → Fields
done operation key name value =
    dict (("ok", bool true) ∷ ("operation", str operation) ∷ ("key", str key) ∷ (name, value) ∷ [])

-- `read`, on `self.rows.get(key)`
abbrev pub read_row : String → Dict Fields → Option Fields → Dict Fields × (Response ⊎ Fields)
read_row key rows none = (rows, inl (404, error_body "record not found"))
read_row key rows (some row) = (rows, inr (done "read" key "record" (obj row)))

-- `write`: the record is made before the value is looked at.
abbrev pub write_row : String → Json → Dict Fields → Dict Fields × (Response ⊎ Fields)
write_row key (obj value) rows =
    let row = update (or_empty (find rows key)) value in
    (put key row rows, inr (done "write" key "record" (obj row)))
write_row key value rows = (
  put key (or_empty (find rows key)) rows,
  inl (400, error_body "write requires an object value"),
)

unfoldable pub locked_part :
    String → String → Json → Dict Fields → Dict Fields × (Response ⊎ Fields)
unfolding update
locked_part operation key value rows =
    if operation == "read"
    then read_row key rows (find rows key)
    else if operation == "write"
    then write_row key value rows
    else if operation == "delete"
    then (erase key rows, inr (done "delete" key "removed" (or_null (find rows key))))
    else (rows, inl (400, error_body ("unsupported operation: " <> operation)))

module _ (h : Host) where
  abbrev pub finish : String → String → Fields → Response ⊎ Fields → Run World Response
  finish operation key payload (inl early) = pure early
  finish operation key payload (inr response) = do
    emit_event h "MOCK DB" "QUERY_EXECUTED" ("Executed " <> upper operation <> " on " <> key)
        (dict (
          ("operation", str operation)
          ∷ ("key", str key)
          ∷ ("agent_run", get payload "agent_run")
          ∷ []))
        "success"
    pure (200, response)

  unfoldable pub execute : Fields → Run World Response
  execute payload w =
      let operation = str_of (get_or payload "operation" (str "read")) in
      let key = str_of (get_or payload "key" (str "customer-123")) in
      let (rows, result) = locked_part operation key (get payload "value") w.rows in
      finish operation key payload result (record w { rows = rows })

  unfoldable pub reset : Run World (Unit {0})
  reset = modify λ w. record w { rows = initial_rows }

  abbrev has_secret : Option String → Bool
  has_secret none = false
  has_secret (some s) = s == gateway_secret

  -- the POST handler: the path, the header `X-Demo-Gateway-Secret` and a body that is an object
  unfoldable pub do_post : String → Option String → Fields → Run World Response
  do_post path secret payload =
      if not (path == "/query")
      then pure (404, dict (("error", str "not found") ∷ []))
      else if not (has_secret secret)
      then (do
        emit_event h "MOCK DB" "DIRECT_DENY" "Rejected connection without the gateway credential"
            end "error"
        pure (403, error_body "gateway credential required"))
      else execute payload
