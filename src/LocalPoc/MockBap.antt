-- ===== src/LocalPoc/MockBap.antt =====
-- `MockBAPState` and its HTTP handler, local_poc/mock_bap_server.py.
pub mod Token
pub mod Policy
pub mod Signatures
pub mod Validation
pub mod Grants
pub mod Approvals
pub mod Revocation
pub mod Table
use laptop_bap_demo.Base.{
  List, Option, String, [], false, if◌then◌else◌, none, not, some, starts_with, true, ℕ, ◌&&◌, ◌+◌,
  ◌<>◌, ◌==◌, ◌||◌, ◌∷◌,
}
use laptop_bap_demo.Base.Dict.{Dict, erase, find, put}
use laptop_bap_demo.Base.Int.{ltb_ℤ, pos, ℤ}
use laptop_bap_demo.Base.Json.{
  Fields, Json, bool, dict, eq_json, get, get_or, insert, nat, obj, str, truthy, update,
}
use laptop_bap_demo.Base.Json.Number.{int_of}
use laptop_bap_demo.Base.Json.Repr.{str_of}
use laptop_bap_demo.Base.Lists.{length}
use laptop_bap_demo.Base.Run.{Except, Run, gets, lift, modify, pure, raise, ◌>>=◌, ◌>>◌}
use laptop_bap_demo.LocalPoc.World.{Host, Response, World, emit_event, token_hex}

pub data Decision : Type 0 where
  allow deny require_approval : Decision

abbrev pub decision_text : Decision → String
decision_text allow = "ALLOW"
decision_text deny = "DENY"
decision_text require_approval = "REQUIRE_APPROVAL"

unfoldable pub classify_policy : String → String → Decision × String
classify_policy action resource =
    if starts_with resource "prod-"
    then (deny, "Laptop agents cannot access production databases")
    else if action == "database.delete" || action == "database.drop"
    then (deny, "Destructive database operations are prohibited")
    else if action == "database.write"
    then (require_approval, "Development database writes require human approval")
    else if action == "database.read" && starts_with resource "dev-"
    then (allow, "Development database reads are allowed for registered tasks")
    else (deny, "No matching BAP policy permits this request")

abbrev pub set_pending : Dict Fields → Run World (Unit {0})
set_pending p = modify λ w. record w { bap = record (w.bap) { pending = p } }

abbrev pub set_grants : Dict Fields → Run World (Unit {0})
set_grants g = modify λ w. record w { bap = record (w.bap) { grants = g } }

-- the claims of `_mint_grant`
abbrev pub claims_of : Fields → String → String → ℕ → Fields
claims_of request approved_by grant_id now = dict (
    ("grant_id", str grant_id)
    ∷ ("agent_run", get request "agent_run")
    ∷ ("on_behalf_of", get request "user")
    ∷ ("task", get request "task")
    ∷ ("action", get request "action")
    ∷ ("resource", get request "resource")
    ∷ ("approved_by", str approved_by)
    ∷ ("iat", nat now)
    ∷ ("exp", nat (now + 60))
    ∷ [])

abbrev pub common_of : Decision → String → Fields → Fields
common_of decision reason request = dict (
    ("decision", str (decision_text decision))
    ∷ ("reason", str reason)
    ∷ ("agent_run", get request "agent_run")
    ∷ ("user", get request "user")
    ∷ ("action", get request "action")
    ∷ ("resource", get request "resource")
    ∷ [])

abbrev pub invalid : String → Fields
invalid reason = dict (("valid", bool false) ∷ ("reason", str reason) ∷ [])

-- the comparisons of `validate`, once the expiry is read
abbrev pub judge : Fields → ℤ → ℕ → String → String → String → Fields
judge claims exp now action resource agent_run =
    if ltb_ℤ exp (pos now)
    then invalid "Grant expired"
    else if not (eq_json (get claims "action") (str action))
    then invalid "Grant action mismatch"
    else if not (eq_json (get claims "resource") (str resource))
    then invalid "Grant resource mismatch"
    else if not (eq_json (get claims "agent_run") (str agent_run))
    then invalid "Grant agent-run mismatch"
    else dict (("valid", bool true) ∷ ("claims", obj claims) ∷ [])

-- `int(…)` of the expiry may raise
abbrev pub judge_expiry : Fields → Except ℤ → String → String → String → Run World Fields
judge_expiry claims expiry action resource agent_run = do
  exp ← lift expiry
  now ← gets (λ w. w.now)
  pure (judge claims exp now action resource agent_run)

-- `if not active_grant`
abbrev pub validate_active : Fields → Option Fields → String → String → String → Run World Fields
validate_active claims none action resource agent_run =
    pure (invalid "Grant was revoked or is not active")
validate_active claims (some active_grant) action resource agent_run =
    if not (truthy (obj active_grant))
    then pure (invalid "Grant was revoked or is not active")
    else judge_expiry claims (int_of (get_or claims "exp" (nat 0))) action resource agent_run

abbrev pub validate_claims : Fields → String → String → String → Run World Fields
validate_claims claims action resource agent_run = do
  active_grant ← gets (λ w. find w.bap.grants (str_of (get_or claims "grant_id" (str ""))))
  validate_active claims active_grant action resource agent_run

-- `[key for key, value in self.grants.items() if value.get("agent_run") == agent_run]`
pub ids_of_run : String → Dict Fields → List String
ids_of_run agent_run [] = []
ids_of_run agent_run ((key, value) ∷ rest) =
    let later = ids_of_run agent_run rest in
    if eq_json (get value "agent_run") (str agent_run) then key ∷ later else later

-- `for grant_id in ids: self.grants.pop(grant_id, None)`
pub pop_all : List String → Dict Fields → Dict Fields
pop_all [] d = d
pop_all (key ∷ keys) d = pop_all keys (erase key d)

module _ (h : Host) where
  unfoldable pub mint_grant : Fields → String → Run World Fields
  unfolding update
  mint_grant request approved_by = do
    now ← gets (λ w. w.now)
    hex ← token_hex h 4
    let grant_id = "gnt-" <> hex
    let claims = claims_of request approved_by grant_id now
    key ← gets (λ w. w.bap.signing_key)
    let grant = update claims (dict (("token", str (Token.sign h key claims)) ∷ []))
    grants ← gets (λ w. w.bap.grants)
    set_grants (put grant_id grant grants)
    pure grant

  -- the three branches of `authorize`
  abbrev pub authorize_as : Decision → String → Fields → Run World Fields
  authorize_as allow reason request = do
    grant ← mint_grant request "policy:dev-read-v1"
    let common = insert "grant" (obj grant) (common_of allow reason request)
    emit_event h "BAP SERVER" "GRANT_ISSUED"
        ("Issued 60-second grant "
          <> str_of (get grant "grant_id")
          <> " for "
          <> str_of (get request "action"))
        grant "success"
    pure common
  authorize_as require_approval reason request = do
    hex ← token_hex h 4
    let request_id = "apr-" <> hex
    now ← gets (λ w. w.now)
    pending ← gets (λ w. w.bap.pending)
    set_pending (put request_id (insert "created_at" (nat now) request) pending)
    let common =
        insert "approval_request_id" (str request_id) (common_of require_approval reason request)
    emit_event h "BAP SERVER" "APPROVAL_NEEDED"
        ("Created approval request " <> request_id <> " for " <> str_of (get request "action"))
        common "warning"
    pure common
  authorize_as deny reason request = do
    let common = common_of deny reason request
    emit_event h "BAP SERVER" "POLICY_DENY" reason common "error"
    pure common

  unfoldable pub authorize : Fields → Run World Fields
  unfolding classify_policy insert
  authorize request =
      let (decision, reason) =
        classify_policy (str_of (get_or request "action" (str "unknown")))
          (str_of (get_or request "resource" (str "unknown"))) in
      authorize_as decision reason request

  unfoldable pub approve : String → String → Run World Fields
  approve request_id approver = do
    pending ← gets (λ w. w.bap.pending)
    set_pending (erase request_id pending)
    elim (find pending request_id) [
      | none ↦ pure (dict (("ok", bool false) ∷ ("reason", str "Approval request not found") ∷ []))
      | some request ↦
          if not (truthy (obj request))
          then pure (dict (("ok", bool false) ∷ ("reason", str "Approval request not found") ∷ []))
          else do
            grant ← mint_grant request ("human:" <> approver)
            emit_event h "BAP SERVER" "HUMAN_APPROVED"
                (approver
                  <> " approved "
                  <> request_id
                  <> "; grant "
                  <> str_of (get grant "grant_id")
                  <> " activated")
                grant "success"
            pure (dict (("ok", bool true) ∷ ("grant", obj grant) ∷ []))
    ]

  -- claims that are a JSON value other than an object have no `get`
  abbrev pub validate_decoded : Option Json → String → String → String → Run World Fields
  validate_decoded none action resource agent_run = pure (invalid "Invalid grant signature")
  validate_decoded (some (obj claims)) action resource agent_run =
      if not (truthy (obj claims))
      then pure (invalid "Invalid grant signature")
      else validate_claims claims action resource agent_run
  validate_decoded (some v) action resource agent_run =
      if not (truthy v) then pure (invalid "Invalid grant signature") else raise "AttributeError"

  unfoldable pub validate : String → String → String → String → Run World Fields
  unfolding eq_json
  validate token action resource agent_run = do
    key ← gets (λ w. w.bap.signing_key)
    validate_decoded (Token.verify h key token) action resource agent_run

  unfoldable pub revoke_session : String → Run World ℕ
  unfolding ids_of_run pop_all
  revoke_session agent_run = do
    grants ← gets (λ w. w.bap.grants)
    let ids = ids_of_run agent_run grants
    set_grants (pop_all ids grants)
    pure (length ids)

  -- the POST handler, on the path of the URL and a body that is a JSON object
  unfoldable pub do_post : String → Fields → Run World Response
  do_post path payload =
      if path == "/authorize"
      then (do result ← authorize payload; pure (200, result))
      else if path == "/approve"
      then (do
        result ←
            approve (str_of (get payload "request_id"))
              (str_of (get_or payload "approver" (str "developer")))
        pure (if truthy (get result "ok") then 200 else 404, result))
      else if path == "/validate"
      then (do
        result ←
            validate (str_of (get_or payload "token" (str "")))
              (str_of (get_or payload "action" (str "")))
              (str_of (get_or payload "resource" (str "")))
              (str_of (get_or payload "agent_run" (str "")))
        pure (if truthy (get result "valid") then 200 else 403, result))
      else if path == "/revoke-session"
      then (do
        count ← revoke_session (str_of (get_or payload "agent_run" (str "")))
        pure (200, dict (("ok", bool true) ∷ ("revoked", nat count) ∷ [])))
      else pure (404, dict (("error", str "not found") ∷ []))
