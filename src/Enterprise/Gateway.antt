-- ===== src/Enterprise/Gateway.antt =====
-- The resource gateway, enterprise_demo/resource_gateway/app.py: it checks a grant on its own before
-- the protected resource is asked.
pub mod Mediation
use laptop_bap_demo.Base.{
  Bool, List, Option, String, [], eqb, false, if◌then◌else◌, inl, inr, map, none, not, some, ℕ,
  ◌&&◌, ◌++◌, ◌<>◌, ◌==◌, ◌∷◌, ◌⊎◌,
}
use laptop_bap_demo.Base.Json.{
  Fields, Json, bool, dict, eq_json, get, get_or, insert, item, nat, null, obj, or_else, str,
  truthy, update,
}
use laptop_bap_demo.Base.Json.Repr.{str_of}
use laptop_bap_demo.Base.Run.{Except, Run, gets, lift, ok, pure, raised, ◌>>=◌, ◌>>◌}
use laptop_bap_demo.Base.Text.{decimal, join}
use laptop_bap_demo.Enterprise.Audit.{emit}
use laptop_bap_demo.Enterprise.Bap.Issue.{without_jti}
use laptop_bap_demo.Enterprise.Bap.Validate.{active_grant, bound_fields}
use laptop_bap_demo.Enterprise.Grants.{verify_grant}
use laptop_bap_demo.Enterprise.Resource.{gateway_secret}
use laptop_bap_demo.Enterprise.World.{
  Machine, Response, World, draw, message_of, or_drawn, payload_hash,
}

abbrev named : String × String → String
named (key, value) = key <> "=" <> value

abbrev flatten : List (List (String × String)) → List String
flatten [] = []
flatten (group ∷ groups) = map named group ++ flatten groups

-- `peer_subject`, on the subject of the client's certificate
unfoldable pub peer_subject : List (List (String × String)) → String
unfolding join
peer_subject groups =
    let joined = join "," (flatten groups) in if joined == "" then "unknown-client" else joined

-- `{"read": "database.read", "write": "database.write"}.get(operation)`
abbrev pub expected_action : String → Json
expected_action operation =
    if operation == "read"
    then str "database.read"
    else if operation == "write"
    then str "database.write"
    else null

-- the first of the three names under which the claims differ from the payload
abbrev pub mismatch : Fields → Fields → List String → Option String
mismatch payload claims [] = none
mismatch payload claims (name ∷ names) =
    let later = mismatch payload claims names in
    if eq_json (get claims name) (get payload name) then later else some name

-- the IDs of a request
pub record Ids : Type 0 where
  pub trace_id : String
  pub request_id : String
  pub decision_id : String
  pub execution_id : String

abbrev pub ids_for : Fields → String → String → String → Ids
ids_for payload trace_id request_id hex = record {
  trace_id = trace_id;
  request_id = request_id;
  decision_id = str_of (or_else (get payload "decision_id") (str "dec-unknown"));
  execution_id = "exe-" <> hex;
}

-- `request_json` to the protected resource: an answer, or an exception
abbrev pub Upstream : Type 0
Upstream = String → Option String → Fields → Run World Response

module _ (m : Machine) (upstream : Upstream) where
  abbrev pub base_of : Fields → String → Ids → Fields
  base_of payload subject i = dict (
      ("trace_id", str i.trace_id)
      ∷ ("request_id", str i.request_id)
      ∷ ("decision_id", str i.decision_id)
      ∷ ("execution_id", str i.execution_id)
      ∷ ("agent_run", get payload "agent_run")
      ∷ ("action", get payload "action")
      ∷ ("resource", get payload "resource")
      ∷ ("resource_key", get payload "key")
      ∷ ("mtls_subject", str subject)
      ∷ (
        "request_payload_hash",
        str (payload_hash m (obj (insert "token" (str "[REDACTED]") payload))),
      )
      ∷ [])

  -- every refusal: an event, and the answer 403
  abbrev refuse : String → Fields → Ids → String → Run World Response
  refuse kind details i reason = do
    emit m "RESOURCE GATEWAY" kind reason
        (update details (
          dict (
            ("decision", str "DENY")
            ∷ ("decision_reason", str reason)
            ∷ ("outcome", str "DENIED")
            ∷ ("http_status", nat 403)
            ∷ [])))
        "error"
    pure (
      403,
      dict (
          ("ok", bool false)
          ∷ ("error", str reason)
          ∷ ("request_id", str i.request_id)
          ∷ ("execution_id", str i.execution_id)
          ∷ []),
    )

  abbrev outcome_of : ℕ → Fields → String
  outcome_of status result =
      if eqb status 200 && truthy (get result "ok") then "SUCCEEDED" else "FAILED"

  -- the request to the protected resource, and the answer
  abbrev pub forward : Fields → Fields → Ids → String → Fields → Run World Response
  forward payload base i operation claims = do
    grant_id ← lift (item claims "grant_id")
    response ← upstream "/query" (some gateway_secret) (
        dict (
          ("operation", str operation)
          ∷ ("key", get_or payload "key" (str "customer-123"))
          ∷ ("value", get payload "value")
          ∷ ("grant_id", grant_id)
          ∷ ("trace_id", str i.trace_id)
          ∷ ("request_id", str i.request_id)
          ∷ ("decision_id", str i.decision_id)
          ∷ ("execution_id", str i.execution_id)
          ∷ ("user_id", get claims "sub")
          ∷ ("agent_run", get claims "agent_run")
          ∷ ("action", get claims "action")
          ∷ ("resource", get claims "resource")
          ∷ []))
    let (status, result) = response
    emit m "RESOURCE GATEWAY" "EXECUTION_RESULT"
        ("Protected resource returned HTTP " <> decimal status)
        (update base (
          dict (
            ("claims", obj (without_jti claims))
            ∷ ("http_status", nat status)
            ∷ ("outcome", str (outcome_of status result))
            ∷ ("result_payload_hash", str (payload_hash m (obj result)))
            ∷ [])))
        (if outcome_of status result == "SUCCEEDED" then "success" else "error")
    pure (
      status,
      update result (
          dict (
            ("execution_id", str i.execution_id)
            ∷ ("bap_evidence", obj (without_jti claims))
            ∷ [])),
    )

  abbrev pub execute_valid : Fields → Fields → Ids → Fields → String → Run World Response
  execute_valid payload base i claims operation = do
    grant_id ← lift (item claims "grant_id")
    emit m "RESOURCE GATEWAY" "GRANT_VALID"
        ("Validated " <> str_of grant_id <> " independently before resource access")
        (update base (
          dict (
            ("claims", obj (without_jti claims))
            ∷ ("decision", str "ALLOW")
            ∷ ("decision_reason", str "Grant signature, state, expiry and bindings are valid")
            ∷ ("outcome", str "AUTHORIZED")
            ∷ [])))
        "success"
    if not (eq_json (expected_action operation) (get claims "action"))
        then refuse "EXECUTION_DENIED"
            (update base (dict (("claims", obj claims) ∷ ("operation", str operation) ∷ []))) i
            "Runtime operation differs from granted action"
        else forward payload base i operation claims

  abbrev pub execute_active : Fields → Fields → Ids → Fields → Bool → Run World Response
  execute_active payload base i claims active =
      if not active
      then refuse "EXECUTION_DENIED" (insert "claims" (obj claims) base) i
          "Grant is unknown or revoked"
      else execute_valid payload base i claims (str_of (get_or payload "operation" (str "read")))

  abbrev pub execute_bound : Fields → Fields → Ids → Fields → Option String → Run World Response
  execute_bound payload base i claims (some name) =
      refuse "EXECUTION_DENIED" (insert "claims" (obj claims) base) i
        ("Grant " <> name <> " binding mismatch")
  execute_bound payload base i claims none = do
    grants ← gets (λ w. w.grants)
    active ← lift (active_grant (get claims "grant_id") grants)
    execute_active payload base i claims active

  abbrev pub execute_verified : Fields → Fields → Ids → String ⊎ Fields → Run World Response
  execute_verified payload base i (inl reason) = refuse "GRANT_REJECTED" base i reason
  execute_verified payload base i (inr claims) =
      execute_bound payload base i claims (mismatch payload claims bound_fields)

  -- from the parsed payload on
  unfoldable pub execute : Fields → String → Run World Response
  unfolding verify_grant emit insert update
  execute payload subject = do
    trace_id ← or_drawn m (get payload "trace_id") "trc-" 12
    request_id ← or_drawn m (get payload "request_id") "req-" 12
    hex ← draw m 12
    let i = ids_for payload trace_id request_id hex
    now ← gets (λ w. w.now)
    verified ← lift (verify_grant m now (str_of (get_or payload "token" (str ""))))
    execute_verified payload (base_of payload subject i) i verified

  abbrev execute_body : List (List (String × String)) → Except Fields → Run World Response
  execute_body certificate (ok payload) = execute payload (peer_subject certificate)
  execute_body certificate (raised error) = do
    hex ← draw m 12
    let request_id = "req-" <> hex
    emit m "RESOURCE GATEWAY" "MALFORMED_REQUEST_DENIED" "Rejected malformed gateway request"
        (dict (
          ("request_id", str request_id)
          ∷ ("decision", str "DENY")
          ∷ ("decision_reason", str "Malformed JSON")
          ∷ ("outcome", str "DENIED")
          ∷ ("error", str (message_of error))
          ∷ []))
        "error"
    pure (
      400,
      dict (
          ("ok", bool false)
          ∷ ("error", str "malformed JSON")
          ∷ ("request_id", str request_id)
          ∷ []),
    )

  -- the POST handler, on the path, the subject of the client's certificate and the body
  unfoldable pub do_post :
      String → List (List (String × String)) → Except Fields → Run World Response
  unfolding execute peer_subject
  do_post path certificate body =
      if not (path == "/execute")
      then (do
        emit m "RESOURCE GATEWAY" "UNKNOWN_ROUTE_DENIED" "Rejected unknown resource-gateway route"
            (dict (
              ("request_path", str path)
              ∷ ("decision", str "DENY")
              ∷ ("decision_reason", str "Unknown route")
              ∷ ("outcome", str "DENIED")
              ∷ []))
            "error"
        pure (404, dict (("error", str "not found") ∷ [])))
      else execute_body certificate body
