-- ===== src/Enterprise/Bap/Validate.antt =====
-- `validate`, `revoke_session` and `record_audit` of `BAPApplication`,
-- enterprise_demo/enterprise_bap/app.py.
use laptop_bap_demo.Base.{
  Bool, List, Option, String, [], false, if◌then◌else◌, inl, inr, none, not, some, suc, true, ℕ,
  ◌&&◌, ◌<>◌, ◌==◌, ◌∷◌, ◌⊎◌,
}
use laptop_bap_demo.Base.Dict.{Dict, find}
use laptop_bap_demo.Base.Json.{
  Fields, Json, arr, as_dict, bool, dict, eq_json, get, get_or, insert, int, nat, null, obj, str,
  update,
}
use laptop_bap_demo.Base.Json.Repr.{str_of, str_ℤ}
use laptop_bap_demo.Base.Run.{Except, Run, gets, lift, modify, ok, pure, raised, ◌>>=◌, ◌>>◌}
use laptop_bap_demo.Base.Text.{decimal, take_chars}
use laptop_bap_demo.Enterprise.Audit.{emit, is_level}
use laptop_bap_demo.Enterprise.Grants.{verify_grant}
use laptop_bap_demo.Enterprise.World.{
  GrantRow, Machine, Response, World, payload_hash, with_connection,
}

abbrev denial : String → List (String × Json)
denial reason =
    ("decision", str "DENY") ∷ ("decision_reason", str reason) ∷ ("outcome", str "DENIED") ∷ []

-- `SELECT revoked FROM grants WHERE grant_id=?`, then `not row or row["revoked"]`. A number is
-- compared as a text, nothing equals NULL, and an array or an object cannot be bound.
abbrev pub is_active : Option GrantRow → Bool
is_active none = false
is_active (some row) = not row.revoked

abbrev pub active_grant : Json → Dict GrantRow → Except Bool
active_grant (str grant_id) grants = ok (is_active (find grants grant_id))
active_grant (arr vs) grants = raised "ProgrammingError: type 'list' is not supported"
active_grant (obj fs) grants = raised "ProgrammingError: type 'dict' is not supported"
active_grant (int z) grants = ok (is_active (find grants (str_ℤ z)))
active_grant (bool b) grants = ok (is_active (find grants (if b then "1" else "0")))
active_grant null grants = ok false

-- the first name whose value in the payload differs from that of the claims
abbrev pub mismatch : Fields → Fields → List String → Option String
mismatch payload claims [] = none
mismatch payload claims (name ∷ names) =
    let later = mismatch payload claims names in
    if eq_json (get payload name) (get claims name) then later else some name

abbrev pub bound_fields : List String
bound_fields = "action" ∷ "resource" ∷ "agent_run" ∷ []

-- `UPDATE grants SET revoked=1 WHERE agent_run=? AND revoked=0`, and its row count
unfoldable pub revoke_rows : String → Dict GrantRow → Dict GrantRow × ℕ
revoke_rows agent_run [] = ([], 0)
revoke_rows agent_run ((id, row) ∷ rest) =
    let (rows, count) = revoke_rows agent_run rest in
    if row.agent_run == agent_run && not row.revoked
    then ((id, record row { revoked = true }) ∷ rows, suc count)
    else ((id, row) ∷ rows, count)

module _ (m : Machine) (replica_id : String) where
  abbrev pub base_of : Fields → Fields
  base_of payload = dict (
      ("trace_id", get payload "trace_id")
      ∷ ("request_id", get payload "request_id")
      ∷ ("agent_run", get payload "agent_run")
      ∷ ("action", get payload "action")
      ∷ ("resource", get payload "resource")
      ∷ (
        "request_payload_hash",
        str (payload_hash m (obj (insert "token" (str "[REDACTED]") payload))),
      )
      ∷ [])

  -- every refusal: an event, and the answer 403
  abbrev pub refuse : Fields → String → Run World Response
  refuse details reason = do
    emit m replica_id "GRANT_VALIDATION_DECISION" reason (update details (dict (denial reason)))
        "error"
    pure (403, dict (("valid", bool false) ∷ ("reason", str reason) ∷ []))

  abbrev pub validate_bindings : Fields → Fields → Option String → Run World Response
  validate_bindings details claims (some name) =
      refuse details ("Grant " <> name <> " binding mismatch")
  validate_bindings details claims none = do
    emit m replica_id "GRANT_VALIDATION_DECISION" "Grant is valid"
        (update details (
          dict (
            ("decision", str "ALLOW")
            ∷ ("decision_reason", str "Grant is valid")
            ∷ ("outcome", str "AUTHORIZED")
            ∷ [])))
        "success"
    pure (200, dict (("valid", bool true) ∷ ("claims", obj claims) ∷ []))

  abbrev pub validate_active : Fields → Fields → Fields → Bool → Run World Response
  validate_active payload details claims active =
      if not active
      then refuse details "Grant is unknown or revoked"
      else validate_bindings details claims (mismatch payload claims bound_fields)

  abbrev pub validate_verified : Fields → Fields → String ⊎ Fields → Run World Response
  validate_verified payload base (inl reason) = refuse base reason
  validate_verified payload base (inr claims) = do
    grants ← gets (λ w. w.grants)
    active ← lift (active_grant (get claims "grant_id") grants)
    validate_active payload (insert "claims" (obj claims) base) claims active

  unfoldable pub validate : Fields → Run World Response
  unfolding verify_grant emit insert update
  validate payload = do
    now ← gets (λ w. w.now)
    verified ← lift (verify_grant m now (str_of (get_or payload "token" (str ""))))
    validate_verified payload (base_of payload) verified

  -- the event and the answer
  abbrev pub report_revoked : Fields → String → ℕ → Run World Response
  report_revoked payload agent_run count = do
    emit m replica_id "SESSION_REVOKED" ("Revoked " <> decimal count <> " grants for " <> agent_run)
        (update payload (
          dict (
            ("agent_run", str agent_run)
            ∷ ("revoked_grants", nat count)
            ∷ ("outcome", str "REVOKED")
            ∷ [])))
        "warning"
    pure (200, dict (("ok", bool true) ∷ ("revoked_grants", nat count) ∷ []))

  unfoldable pub revoke_session : Fields → Run World Response
  unfolding emit revoke_rows update
  revoke_session payload = do
    let agent_run = str_of (get_or payload "agent_run" (str ""))
    grants ← gets (λ w. w.grants)
    let (rows, count) = revoke_rows agent_run grants
    with_connection (modify λ w. record w { grants = rows; writing = true })
    report_revoked payload agent_run count

  -- `payload.get("level") in {…}`: an array or an object has no hash
  abbrev pub audit_level : Json → Except String
  audit_level (str s) = ok (if is_level s then s else "info")
  audit_level (arr vs) = raised "TypeError: unhashable type: 'list'"
  audit_level (obj fs) = raised "TypeError: unhashable type: 'dict'"
  audit_level v = ok "info"

  unfoldable pub record_audit : Fields → String → Run World Response
  unfolding emit update
  record_audit payload mtls_subject = do
    level ← lift (audit_level (get payload "level"))
    emit m (take_chars 80 (str_of (get_or payload "source" (str "LAPTOP CONNECTOR"))))
        (take_chars 80 (str_of (get_or payload "kind" (str "CLIENT_EVENT"))))
        (take_chars 500 (str_of (get_or payload "message" (str "Connector event"))))
        (update (as_dict (get payload "details"))
          (dict (("mtls_subject", str mtls_subject) ∷ ("replica", str replica_id) ∷ [])))
        level
    pure (200, dict (("ok", bool true) ∷ ("replica", str replica_id) ∷ []))
