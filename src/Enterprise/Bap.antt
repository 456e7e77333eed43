-- ===== src/Enterprise/Bap.antt =====
-- `BAPApplication` and its HTTP handler, enterprise_demo/enterprise_bap/app.py.
pub mod Issue
pub mod Authorize
pub mod Approve
pub mod Validate
pub mod Entitlement
pub mod Approvals
pub mod Binding
pub mod Approved
pub mod Validity
pub mod SingleUse
use laptop_bap_demo.Base.{String, [], if◌then◌else◌, ◌<>◌, ◌==◌, ◌∷◌}
use laptop_bap_demo.Base.Json.{Fields, dict, get, str}
use laptop_bap_demo.Base.Lists.{take}
use laptop_bap_demo.Base.Run.{Except, Run, observe, ok, pure, raised, ◌>>=◌, ◌>>◌}
use laptop_bap_demo.Base.Text.{join, split_char}
use laptop_bap_demo.Enterprise.Audit.{emit}
use laptop_bap_demo.Enterprise.Policy.{Bundle}
use laptop_bap_demo.Enterprise.World.{Machine, Response, World, draw, message_of, or_drawn}

-- `type(error).__name__`
unfoldable pub class_of : String → String
unfolding split_char
class_of e = join ":" (take 1 (split_char ":" e))

module _ (m : Machine) (b : Bundle) (replica_id : String) where
  abbrev route : String → String → Fields → Run World Response
  route path subject payload =
      if path == "/authorize"
      then Authorize.authorize m b replica_id payload subject
      else if path == "/approve"
      then Approve.approve m b replica_id payload
      else if path == "/validate"
      then Validate.validate m replica_id payload
      else if path == "/revoke-session"
      then Validate.revoke_session m replica_id payload
      else if path == "/audit"
      then Validate.record_audit m replica_id payload subject
      else (do
        emit m replica_id "UNKNOWN_ROUTE_DENIED" ("Rejected unknown BAP route " <> path)
            (dict (
              ("request_path", str path)
              ∷ ("mtls_subject", str subject)
              ∷ ("decision", str "DENY")
              ∷ ("decision_reason", str "Unknown route")
              ∷ ("outcome", str "DENIED")
              ∷ []))
            "error"
        pure (404, dict (("error", str "not found") ∷ [])))

  -- `except Exception as error` around the routes
  abbrev after_route : String → String → Fields → Except Response → Run World Response
  after_route path subject payload (ok response) = pure response
  after_route path subject payload (raised error) = do
    request_id ← or_drawn m (get payload "request_id") "req-" 12
    emit m replica_id "BAP_INTERNAL_ERROR" "BAP request failed closed on an internal error"
        (dict (
          ("request_id", str request_id)
          ∷ ("request_path", str path)
          ∷ ("mtls_subject", str subject)
          ∷ ("decision", str "DENY")
          ∷ ("decision_reason", str "BAP internal error")
          ∷ ("outcome", str "DENIED")
          ∷ ("error_type", str (class_of error))
          ∷ []))
        "error"
    pure (
      500,
      dict (
          ("error", str "BAP internal error; failed closed") ∷ ("request_id", str request_id) ∷ []),
    )

  -- the POST handler, on the path, the header `X-Demo-mTLS-Client` or "missing", and what reading the
  -- body gives: an object, or the error of a body that is none
  unfoldable pub do_post : String → String → Except Fields → Run World Response
  unfolding class_of
  do_post path subject (raised error) = do
    hex ← draw m 12
    let request_id = "req-" <> hex
    emit m replica_id "MALFORMED_REQUEST_DENIED" "Rejected malformed BAP request JSON"
        (dict (
          ("request_id", str request_id)
          ∷ ("request_path", str path)
          ∷ ("mtls_subject", str subject)
          ∷ ("decision", str "DENY")
          ∷ ("decision_reason", str "Malformed JSON")
          ∷ ("outcome", str "DENIED")
          ∷ ("error", str (message_of error))
          ∷ []))
        "error"
    pure (400, dict (("error", str "malformed JSON") ∷ ("request_id", str request_id) ∷ []))
  do_post path subject (ok payload) =
      observe (route path subject payload) (after_route path subject payload)
