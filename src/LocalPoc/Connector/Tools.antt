-- ===== src/LocalPoc/Connector/Tools.antt =====
-- The hooks of the connector that ask for, or only record, a decision.
use laptop_bap_demo.Base.{
  List, Option, String, [], eqb, false, if◌then◌else◌, none, not, some, true, ◌<>◌, ◌==◌, ◌||◌, ◌∷◌,
}
use laptop_bap_demo.Base.Dict.{find, put}
use laptop_bap_demo.Base.Json.{
  Fields, Json, as_dict, bool, dict, end, get, get_or, obj, str, truthy, update,
}
use laptop_bap_demo.Base.Json.Repr.{str_of}
use laptop_bap_demo.Base.Run.{Except, Run, gets, lift, observe, ok, pure, raised, ◌>>=◌, ◌>>◌}
use laptop_bap_demo.Base.Text.{upper}
use laptop_bap_demo.LocalPoc.Connector.Classify.{classified_fields, classify_value, client_metadata}
use laptop_bap_demo.LocalPoc.Connector.Network.{Network}
use laptop_bap_demo.LocalPoc.Connector.Sessions.{session_id_of, set_authorizations}
use laptop_bap_demo.LocalPoc.World.{
  Authorization, Classified, Host, Response, Session, World, bypass, emit_event, guarded, local,
}

abbrev decision_of : String → String → List (String × Json) → Fields
decision_of decision reason more = dict (("decision", str decision) ∷ ("reason", str reason) ∷ more)

abbrev pub summary_of : Classified → String
summary_of (local summary) = summary
summary_of (bypass summary) = summary
summary_of (guarded action resource operation summary) = summary

abbrev level_of : String → String
level_of decision =
    if decision == "ALLOW"
    then "success"
    else if decision == "REQUIRE_APPROVAL"
    then "warning"
    else "error"

abbrev agent_messages : String → Option String
agent_messages phase =
    if phase == "LLM_REQUEST"
    then some "Asked the local LLM to select a bounded action"
    else if phase == "LLM_PROPOSAL"
    then some "Local LLM proposed an action; awaiting BAP authorization"
    else if phase == "FINAL_RESPONSE"
    then some "Local LLM summarized the BAP-controlled result"
    else if phase == "AGENT_ERROR"
    then some "Python agent stopped after an error"
    else none

abbrev refused : String → Response
refused message = (403, dict (("ok", bool false) ∷ ("error", str message) ∷ []))

-- The request that the connector sends to the BAP.
abbrev pub bap_request : Session → String → String → Fields
bap_request s action resource = dict (
    ("user", str s.user)
    ∷ ("agent", str s.agent)
    ∷ ("agent_run", str s.agent_run)
    ∷ ("task", str s.task)
    ∷ ("device", str s.device)
    ∷ ("action", str action)
    ∷ ("resource", str resource)
    ∷ [])

module _ (h : Host) (net : Network) where
  -- from the answer of the BAP on
  abbrev pub decide : Fields → String → Classified → Response → Run World Fields
  decide payload session_id classified (status, result) =
      if not (eqb status 200)
      then pure (
          dict (
            ("decision", str "DENY")
            ∷ ("reason", get_or result "error" (str "BAP authorization failed"))
            ∷ []))
      else (do
        now ← gets (λ w. w.now)
        let authorization : Authorization = record {
          session_id = session_id;
          classification = classified;
          bap = result;
          created_at = now;
          hook_client = client_metadata payload;
        }
        authorizations ← gets (λ w. w.connector.authorizations)
        set_authorizations (put session_id authorization authorizations)
        let decision = str_of (get_or result "decision" (str "DENY"))
        emit_event h "CONNECTOR" ("DECISION_" <> decision)
            (str_of (get_or result "reason" (str decision))) result (level_of decision)
        pure (
            dict (
              ("decision", str decision)
              ∷ ("reason", get result "reason")
              ∷ ("session_id", str session_id)
              ∷ ("classification", obj (classified_fields classified))
              ∷ ("grant", get result "grant")
              ∷ ("approval_request_id", get result "approval_request_id")
              ∷ [])))

  -- the two ways in which `json_request` ends: an exception denies the call
  abbrev pub after_request :
      Fields → String → Classified → Fields → Except Response → Run World Fields
  after_request payload session_id classified request (raised exc) = do
    emit_event h "CONNECTOR" "BAP_UNAVAILABLE" ("BAP is unavailable; tool call denied: " <> exc)
        request "error"
    pure (decision_of "DENY" "BAP unavailable; failing closed" [])
  after_request payload session_id classified request (ok response) =
      decide payload session_id classified response

  -- the three categories
  abbrev pub authorize_classified : Fields → String → Session → Classified → Run World Fields
  authorize_classified payload session_id session (local summary) = pure (
      decision_of "ALLOW" "Local workspace action allowed"
        (("classification", obj (classified_fields (local summary))) ∷ []))
  authorize_classified payload session_id session (bypass summary) = do
    emit_event h "CONNECTOR" "BYPASS_BLOCKED"
        "Direct mock database client blocked; use the BAP database client"
        (classified_fields (bypass summary)) "error"
    pure (
        decision_of "DENY"
          "Direct database access is blocked. Use tools/db_client.py through the laptop BAP connector."
          (("classification", obj (classified_fields (bypass summary))) ∷ []))
  authorize_classified payload session_id session (guarded action resource operation summary) = do
    let request = bap_request session action resource
    observe (net.bap "/authorize" request)
        (after_request payload session_id (guarded action resource operation summary) request)

  abbrev pub authorize_in : Fields → String → String → Option Session → Run World Fields
  authorize_in payload session_id tool_name none = do
    emit_event h "CONNECTOR" "FAIL_CLOSED"
        ("Denied " <> tool_name <> ": agent session is not registered")
        (dict (("session_id", str session_id) ∷ [])) "error"
    pure (decision_of "DENY" "Agent session is not registered with the laptop BAP connector" [])
  authorize_in payload session_id tool_name (some session) = do
    classified ← lift (classify_value tool_name (get payload "tool_input"))
    emit_event h (if session.agent == "claude-code" then "PRE-TOOL HOOK" else "AGENT ACTION")
        "TOOL_INTERCEPTED" ("Intercepted " <> tool_name <> ": " <> summary_of classified)
        (update (dict (("session_id", str session_id) ∷ [])) (classified_fields classified)) "info"
    authorize_classified payload session_id session classified

  unfoldable pub authorize_tool : Fields → Run World Fields
  authorize_tool payload = do
    let session_id = session_id_of payload
    let tool_name = str_of (get_or payload "tool_name" (str ""))
    session ← gets (λ w. find w.connector.sessions session_id)
    authorize_in payload session_id tool_name session

  abbrev record_phase : String → String → Json → Option String → Run World Response
  record_phase session_id phase details none =
      pure (400, dict (("ok", bool false) ∷ ("error", str "Unsupported agent event phase") ∷ []))
  record_phase session_id phase details (some message) = do
    emit_event h "PY AGENT" phase message
        (update (dict (("session_id", str session_id) ∷ [])) (as_dict details))
        (if phase == "AGENT_ERROR" then "error" else "info")
    pure (200, dict (("ok", bool true) ∷ []))

  unfoldable pub record_agent_event : Fields → Run World Response
  record_agent_event payload = do
    let session_id = session_id_of payload
    session ← gets (λ w. find w.connector.sessions session_id)
    elim session [
      | none ↦ pure (refused "Registered Python agent session required")
      | some s ↦
          if s.agent == "claude-code"
          then pure (refused "Registered Python agent session required")
          else let phase = upper (str_of (get_or payload "phase" (str ""))) in
            record_phase session_id phase (get payload "details") (agent_messages phase)
    ]

  abbrev bap_of : Option Authorization → Fields
  bap_of none = end
  bap_of (some a) = a.bap

  unfoldable pub permission_request : Fields → Run World Fields
  permission_request payload = do
    let session_id = session_id_of payload
    authorization ← gets (λ w. find w.connector.authorizations session_id)
    emit_event h "CC HOOK" "USER_APPROVAL_UI" "Claude Code displayed a human approval prompt"
        (dict (
          ("session_id", str session_id)
          ∷ ("approval_request_id", get (bap_of authorization) "approval_request_id")
          ∷ []))
        "warning"
    pure (dict (("ok", bool true) ∷ []))

  abbrev not_forwarded : String → Response
  not_forwarded message = (
    403,
    dict (("ok", bool false) ∷ ("error", str message) ∷ ("forwarded_to_database", bool false) ∷ []),
  )

  unfoldable pub inspect_external_grant : Fields → Run World Response
  inspect_external_grant payload = do
    let token = str_of (get_or payload "token" (str ""))
    let action = str_of (get_or payload "action" (str "database.read"))
    let resource = str_of (get_or payload "resource" (str "dev-customer-db"))
    let agent_run = str_of (get_or payload "agent_run" (str "fictitious-run"))
    let subject : List (String × Json) =
        ("action", str action) ∷ ("resource", str resource) ∷ ("agent_run", str agent_run) ∷ []
    emit_event h "DB GATEWAY" "EXTERNAL_GRANT_PRESENTED"
        ("A caller presented an external grant for " <> action <> " on " <> resource)
        (dict (("token", str "<caller-supplied-token>") ∷ subject)) "warning"
    response ← net.bap "/validate" (dict (("token", str token) ∷ subject))
    let (status, validation) = response
    let reason = str_of (get_or validation "reason" (str "Grant validation failed"))
    if not (eqb status 200) || not (truthy (get validation "valid"))
        then (do
          emit_event h "DB GATEWAY" "FICTITIOUS_GRANT_DENIED"
              ("Rejected caller-supplied grant: " <> reason)
              (update (dict subject) (dict (("reason", str reason) ∷ []))) "error"
          pure (not_forwarded reason))
        else (do
          emit_event h "DB GATEWAY" "EXTERNAL_GRANT_DENIED"
              "A valid grant still cannot be injected by a caller; connector-held grants are required"
              (dict subject) "error"
          pure (not_forwarded "Externally supplied grants are not accepted"))
