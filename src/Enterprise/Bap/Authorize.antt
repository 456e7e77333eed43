-- ===== src/Enterprise/Bap/Authorize.antt =====
-- `BAPApplication.authorize`, enterprise_demo/enterprise_bap/app.py.
use laptop_bap_demo.Base.{
  List, String, [], false, if◌then◌else◌, none, not, some, true, ◌++◌, ◌<>◌, ◌∷◌,
}
use laptop_bap_demo.Base.Dict.{find, put}
use laptop_bap_demo.Base.Json.{
  Fields, Json, dict, end, field, get, insert, obj, str, truthy, update,
}
use laptop_bap_demo.Base.Json.Repr.{str_of}
use laptop_bap_demo.Base.Run.{Except, Run, gets, modify, ok, pure, raise, raised, ◌>>=◌, ◌>>◌}
use laptop_bap_demo.Base.Text.{join, take_chars}
use laptop_bap_demo.Enterprise.Audit.{emit}
use laptop_bap_demo.Enterprise.Audit.Redact.{redact_dict}
use laptop_bap_demo.Enterprise.Bap.Issue.{issue_grant}
use laptop_bap_demo.Enterprise.Policy.{
  Bundle, Effect, PolicyDecision, allow, deny, effect_text, evaluate, require_approval,
}
use laptop_bap_demo.Enterprise.World.{
  ApprovalRow, Machine, Response, World, draw, is_policy_error, message_of, or_drawn, payload_hash,
  with_connection,
}

-- `[key for key in required if not payload.get(key)]`
unfoldable pub missing_keys : Fields → List String → List String
missing_keys payload [] = []
missing_keys payload (key ∷ keys) =
    let rest = missing_keys payload keys in if truthy (get payload key) then rest else key ∷ rest

-- `{key: payload.get(key) for key in required if payload.get(key)}`
pub present_fields : Fields → List String → Fields
present_fields payload [] = end
present_fields payload (key ∷ keys) =
    let rest = present_fields payload keys in
    if truthy (get payload key) then field key (get payload key) rest else rest

abbrev pub required : List String
required = "user" ∷ "device" ∷ "agent" ∷ "agent_run" ∷ "task" ∷ "action" ∷ "resource" ∷ []

-- the three IDs of a request
pub record Trace : Type 0 where
  pub trace_id : String
  pub request_id : String
  pub decision_id : String

abbrev pub trace_fields : Trace → List (String × Json)
trace_fields t =
    ("trace_id", str t.trace_id)
    ∷ ("request_id", str t.request_id)
    ∷ ("decision_id", str t.decision_id)
    ∷ []

abbrev denial : String → String → List (String × Json)
denial reason outcome =
    ("decision", str "DENY") ∷ ("decision_reason", str reason) ∷ ("outcome", str outcome) ∷ []

abbrev pub outcome_of : Effect → String
outcome_of deny = "DENIED"
outcome_of require_approval = "PENDING_APPROVAL"
outcome_of allow = "AUTHORIZED"

abbrev pub level_of : Effect → String
level_of deny = "error"
level_of require_approval = "warning"
level_of allow = "success"

abbrev pub policy_fields : PolicyDecision → List (String × Json)
policy_fields p =
    ("policy_bundle_id", str p.bundle_id)
    ∷ ("policy_revision", str p.revision)
    ∷ ("policy_rule_id", str p.rule_id)
    ∷ ("policy_bundle_sha256", str p.bundle_sha256)
    ∷ []

-- `decision_metadata`
abbrev metadata : PolicyDecision → List (String × Json)
metadata p =
    (
      "policy",
      obj (
          dict (
            ("bundle_id", str p.bundle_id)
            ∷ ("revision", str p.revision)
            ∷ ("rule_id", str p.rule_id)
            ∷ ("bundle_sha256", str p.bundle_sha256)
            ∷ [])),
    )
    ∷ []

-- `INSERT INTO approvals` and the update of its hash, in one block
unfoldable pub insert_approval : String → ApprovalRow → Run World (Unit {0})
insert_approval id row = with_connection do
  known ← gets (λ w. find w.approvals id)
  elim known [
    | some _ ↦ raise "IntegrityError: UNIQUE constraint failed: approvals.request_id"
    | none ↦ modify λ w. record w { approvals = put id row w.approvals; writing = true }
  ]

module _ (m : Machine) (b : Bundle) (replica_id : String) where
  -- `_required` fields are missing
  abbrev pub refuse_incomplete : Fields → String → Trace → List String → Run World Response
  refuse_incomplete payload mtls_subject t missing = do
    let reason = "Missing authorization fields: " <> join ", " missing
    emit m replica_id "AUTHORIZATION_DECISION" reason
        (update (present_fields payload required) (
          dict (
            trace_fields t
            ++ denial reason "DENIED"
            ++ ("mtls_subject", str mtls_subject)
              ∷ ("request_payload_hash", str (payload_hash m (obj payload)))
              ∷ [])))
        "error"
    pure (400, dict (("decision", str "DENY") ∷ ("reason", str reason) ∷ trace_fields t))

  abbrev pub evidence_of : Fields → String → Trace → Fields
  evidence_of payload mtls_subject t = dict (
      ("replica", str replica_id)
      ∷ ("mtls_subject", str mtls_subject)
      ∷ ("trace_id", str t.trace_id)
      ∷ ("request_id", str t.request_id)
      ∷ ("decision_id", str t.decision_id)
      ∷ ("user", str (str_of (get payload "user")))
      ∷ ("device", get payload "device")
      ∷ ("agent", get payload "agent")
      ∷ ("agent_run", str (str_of (get payload "agent_run")))
      ∷ ("action", str (str_of (get payload "action")))
      ∷ ("resource", str (str_of (get payload "resource")))
      ∷ ("task", str (take_chars 300 (str_of (get payload "task"))))
      ∷ ("request_payload_hash", str (payload_hash m (obj payload)))
      ∷ [])

  -- `except (OSError, ValueError, …) as error`: other exceptions go on
  abbrev pub policy_unavailable : Fields → Trace → String → Run World Response
  policy_unavailable evidence t error = if not (is_policy_error error) then raise error else (do
    let reason : String = "Enterprise policy is unavailable or invalid; failed closed"
    emit m replica_id "POLICY_BUNDLE_ERROR" "Policy bundle failed validation; denied request"
        (update evidence (dict (("error", str (message_of error)) ∷ denial reason "DENIED")))
        "error"
    emit m replica_id "AUTHORIZATION_DECISION" reason
        (update evidence (dict (denial reason "DENIED"))) "error"
    pure (200, dict (("decision", str "DENY") ∷ ("reason", str reason) ∷ trace_fields t)))

  abbrev answer : PolicyDecision → Trace → List (String × Json) → Response
  answer p t more = (
    200,
    dict (
        ("decision", str (effect_text p.effect))
        ∷ ("reason", str p.reason)
        ∷ ("replica", str replica_id)
        ∷ (more ++ trace_fields t ++ metadata p)),
  )

  -- an approval is needed
  abbrev pub request_approval :
      Fields → Trace → Fields → PolicyDecision → String → Run World Response
  request_approval payload t evidence p hex = do
    let approval_request_id = "apr-" <> hex
    insert_approval approval_request_id (record {
      user_id = str_of (get payload "user");
      agent_run = str_of (get payload "agent_run");
      action = str_of (get payload "action");
      resource = str_of (get payload "resource");
      policy_rule_id = p.rule_id;
      policy_revision = p.revision;
      grant_ttl_seconds = p.grant_ttl_seconds;
      request_json = redact_dict payload;
      request_hash = payload_hash m (obj payload);
      status = "PENDING";
    })
    let details = insert "approval_request_id" (str approval_request_id) evidence
    emit m replica_id "APPROVAL_REQUIRED"
        ("Created approval request "
          <> approval_request_id
          <> " for "
          <> str_of (get payload "action"))
        details "warning"
    emit m replica_id "AUTHORIZATION_DECISION" p.reason details "warning"
    pure (answer p t (("approval_request_id", str approval_request_id) ∷ []))

  -- the three effects
  abbrev pub act_on : Fields → Trace → Fields → PolicyDecision → Effect → Run World Response
  act_on payload t evidence p allow = do
    grant ←
        issue_grant m replica_id (str_of (get payload "user")) (str_of (get payload "agent_run"))
          (str_of (get payload "action")) (str_of (get payload "resource")) "policy" p t.trace_id
          t.request_id t.decision_id
    emit m replica_id "AUTHORIZATION_DECISION" p.reason
        (insert "grant_id" (get grant "grant_id") evidence) "success"
    pure (answer p t (("grant", obj grant) ∷ []))
  act_on payload t evidence p require_approval = do
    hex ← draw m 6
    request_approval payload t evidence p hex
  act_on payload t evidence p deny = do
    emit m replica_id "POLICY_DENY"
        ("Denied " <> str_of (get payload "action") <> " on " <> str_of (get payload "resource"))
        evidence "error"
    emit m replica_id "AUTHORIZATION_DECISION" p.reason evidence "error"
    pure (answer p t [])

  -- from the result of `policy.evaluate` on
  abbrev pub decide : Fields → Trace → Fields → Except PolicyDecision → Run World Response
  decide payload t evidence (raised error) = policy_unavailable evidence t error
  decide payload t evidence (ok p) = do
    let policy_evidence = update evidence (
        dict (
          policy_fields p
          ++ ("decision", str (effect_text p.effect))
            ∷ ("decision_reason", str p.reason)
            ∷ ("outcome", str (outcome_of p.effect))
            ∷ []))
    emit m replica_id "POLICY_MATCHED" (p.rule_id <> " returned " <> effect_text p.effect)
        policy_evidence (level_of p.effect)
    act_on payload t policy_evidence p p.effect

  abbrev pub authorize_complete : Fields → String → Trace → Run World Response
  authorize_complete payload mtls_subject t = do
    let evidence = evidence_of payload mtls_subject t
    emit m replica_id "AUTHORIZATION_REQUEST"
        ("Evaluating "
          <> str_of (get payload "action")
          <> " on "
          <> str_of (get payload "resource"))
        evidence "info"
    decide payload t evidence (evaluate m b payload false)

  abbrev pub authorize_traced : Fields → String → Trace → List String → Run World Response
  authorize_traced payload mtls_subject t [] = authorize_complete payload mtls_subject t
  authorize_traced payload mtls_subject t (key ∷ keys) =
      refuse_incomplete payload mtls_subject t (key ∷ keys)

  unfoldable pub authorize : Fields → String → Run World Response
  unfolding emit issue_grant evaluate insert update missing_keys
  authorize payload mtls_subject = do
    trace_id ← or_drawn m (get payload "trace_id") "trc-" 12
    request_id ← or_drawn m (get payload "request_id") "req-" 12
    hex ← draw m 12
    let t : Trace = record {
      trace_id = trace_id;
      request_id = request_id;
      decision_id = "dec-" <> hex;
    }
    authorize_traced payload mtls_subject t (missing_keys payload required)
