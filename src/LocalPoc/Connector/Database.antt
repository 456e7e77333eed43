-- ===== src/LocalPoc/Connector/Database.antt =====
-- `execute_database`, local_poc/laptop_connector.py: the gateway in front of the mock database.
use laptop_bap_demo.Base.{
  Option, String, [], eqb, false, if◌then◌else◌, not, some, ◌<>◌, ◌==◌, ◌||◌, ◌∷◌,
}
use laptop_bap_demo.Base.Dict.{find, put}
use laptop_bap_demo.Base.Json.{
  Fields, Json, as_dict, bool, dict, end, eq_json, get, get_or, insert, item, nat, obj, str, truthy,
}
use laptop_bap_demo.Base.Json.Repr.{str_of}
use laptop_bap_demo.Base.Run.{Except, Run, gets, lift, ok, pure, raised, ◌>>=◌, ◌>>◌}
use laptop_bap_demo.Base.Text.{upper}
use laptop_bap_demo.LocalPoc.Connector.Network.{Network}
use laptop_bap_demo.LocalPoc.Connector.Sessions.{session_id_of, set_authorizations}
use laptop_bap_demo.LocalPoc.MockDb.{gateway_secret}
use laptop_bap_demo.LocalPoc.World.{
  Authorization, Classified, Host, Response, Session, World, emit_event, guarded,
}

abbrev pub refused : String → Response
refused message = (403, dict (("ok", bool false) ∷ ("error", str message) ∷ []))

-- `classified["operation"]`: only a call to a guarded tool reaches the BAP and is stored; for the
-- others the key is missing and the lookup raises.
abbrev pub operation_of : Classified → Except String
operation_of (guarded action resource operation summary) = ok operation
operation_of _ = raised "KeyError"

abbrev pub action_resource_of : Classified → Except (String × String)
action_resource_of (guarded action resource operation summary) = ok (action, resource)
action_resource_of _ = raised "KeyError"

-- `grant[key]`, where the grant is a JSON value
abbrev pub item_of : Json → String → Except Json
item_of (obj d) key = item d key
item_of v key = raised "TypeError"

module _ (h : Host) (net : Network) where
  -- the answer of the database, and what the caller gets
  abbrev forward : Fields → Session → String → String → Json → Run World Response
  forward payload session operation key grant = do
    grant_id ← lift (item_of grant "grant_id")
    response ← net.db "/query" (some gateway_secret) (
        dict (
          ("operation", str operation)
          ∷ ("key", str key)
          ∷ ("value", get payload "value")
          ∷ ("agent_run", str session.agent_run)
          ∷ ("grant_id", grant_id)
          ∷ []))
    let (db_status, db_result) = response
    emit_event h "CONNECTOR" "RESULT_RETURNED"
        ("Returned MockDB result to " <> session.agent <> " for " <> upper operation <> " " <> key)
        (dict (("status", nat db_status) ∷ ("result", obj db_result) ∷ []))
        (if eqb db_status 200 then "success" else "error")
    approved_by ← lift (item_of grant "approved_by")
    exp ← lift (item_of grant "exp")
    pure (
      db_status,
      insert "bap_evidence"
          (obj (
            dict (
              ("agent_run", str session.agent_run)
              ∷ ("on_behalf_of", str session.user)
              ∷ ("task", str session.task)
              ∷ ("grant_id", grant_id)
              ∷ ("approved_by", approved_by)
              ∷ ("expires_at", exp)
              ∷ [])))
          db_result,
    )

  -- from `validation_request` on
  unfoldable pub validate_and_forward :
      Fields → Session → Classified → String → String → Json → Run World Response
  unfolding insert
  validate_and_forward payload session classified operation key grant = do
    token ← lift (item_of grant "token")
    subject ← lift (action_resource_of classified)
    let (action, resource) = subject
    let validation_request = dict (
        ("token", token)
        ∷ ("action", str action)
        ∷ ("resource", str resource)
        ∷ ("agent_run", str session.agent_run)
        ∷ [])
    grant_id ← lift (item_of grant "grant_id")
    emit_event h "DB GATEWAY" "GRANT_VALIDATE"
        ("Validating " <> str_of grant_id <> " before forwarding the database request")
        (insert "token" (str "<signed-token>") validation_request) "info"
    response ← net.bap "/validate" validation_request
    let (status, validation) = response
    if not (eqb status 200) || not (truthy (get validation "valid"))
        then (do
          emit_event h "DB GATEWAY" "GRANT_REJECTED"
              (str_of (get_or validation "reason" (str "Grant validation failed"))) validation
              "error"
          pure (
            403,
            dict (
                ("ok", bool false)
                ∷ ("error", get_or validation "reason" (str "Grant validation failed"))
                ∷ []),
          ))
        else (do
          emit_event h "DB GATEWAY" "GRANT_VALID"
              ("Grant " <> str_of grant_id <> " is valid; forwarding to MockDB")
              (as_dict (get_or validation "claims" (obj end))) "success"
          forward payload session operation key grant)

  -- `grant = bap_result.get("grant")` and its test
  abbrev pub with_grant :
      Fields → Session → Classified → String → String → Fields → Run World Response
  with_grant payload session classified operation key bap =
      if not (truthy (get bap "grant"))
      then pure (refused "BAP did not issue a grant")
      else validate_and_forward payload session classified operation key (get bap "grant")

  -- a write into `bap_result`, which is part of the stored authorization
  abbrev store_bap : String → Authorization → Fields → Run World (Unit {0})
  store_bap session_id a bap = do
    authorizations ← gets (λ w. w.connector.authorizations)
    set_authorizations (put session_id (record a { bap = bap }) authorizations)

  -- from the answer to `/approve` on
  abbrev pub after_approval :
      Fields
      → String
      → String
      → String
      → Session
      → Authorization
      → Classified
      → Response
      → Run World Response
  after_approval payload session_id operation key session a classified (status, approval) =
      if not (eqb status 200) || not (truthy (get approval "ok"))
      then pure (
        403,
        dict (
            ("ok", bool false)
            ∷ ("error", get_or approval "reason" (str "Approval activation failed"))
            ∷ []),
      )
      else (do
        store_bap session_id a (insert "decision" (str "ALLOW") a.bap)
        grant ← lift (item approval "grant")
        let bap = insert "grant" grant (insert "decision" (str "ALLOW") a.bap)
        store_bap session_id a bap
        with_grant payload session classified operation key bap)

  -- `bap_result.get("decision") == "REQUIRE_APPROVAL"`
  abbrev pub execute_decided :
      Fields → String → String → String → Session → Authorization → Classified → Run World Response
  execute_decided payload session_id operation key session a classified =
      if eq_json (get a.bap "decision") (str "REQUIRE_APPROVAL")
      then (do
        let request_id = str_of (get_or a.bap "approval_request_id" (str ""))
        emit_event h "CONNECTOR" "APPROVAL_OBSERVED"
            "Tool executed after Claude's approval prompt; activating the pending demo grant"
            (dict (("session_id", str session_id) ∷ ("approval_request_id", str request_id) ∷ []))
            "warning"
        response ←
            net.bap "/approve"
              (dict (("request_id", str request_id) ∷ ("approver", str session.user) ∷ []))
        after_approval payload session_id operation key session a classified response)
      else with_grant payload session classified operation key a.bap

  -- the categories other than PROTECTED have no `operation`, and are never stored
  abbrev pub execute_authorized :
      Fields → String → String → String → Session → Authorization → Classified → Run World Response
  execute_authorized payload session_id operation key session a classified = do
    expected_operation ← lift (operation_of classified)
    if not (operation == expected_operation)
        then pure (refused "Runtime operation differs from the pre-authorized action")
        else execute_decided payload session_id operation key session a classified

  abbrev pub execute_known :
      Fields → String → String → String → Option Session → Option Authorization → Run World Response
  execute_known payload session_id operation key (some session) (some a) =
      execute_authorized payload session_id operation key session a a.classification
  execute_known payload session_id operation key _ _ = do
    emit_event h "DB GATEWAY" "NO_GRANT_DENIED"
        ("Denied "
          <> upper operation
          <> " "
          <> key
          <> ": no registered session with an authorized grant")
        (dict
          (("session_id", str session_id) ∷ ("operation", str operation) ∷ ("key", str key) ∷ []))
        "error"
    pure (refused "No authorized agent session found")

  unfoldable pub execute_database : Fields → Run World Response
  execute_database payload = do
    let session_id = session_id_of payload
    let operation = str_of (get_or payload "operation" (str "read"))
    let key = str_of (get_or payload "key" (str "customer-123"))
    session ← gets (λ w. find w.connector.sessions session_id)
    authorization ← gets (λ w. find w.connector.authorizations session_id)
    execute_known payload session_id operation key session authorization
