-- ===== src/Enterprise/FrontDoor.antt =====
-- The front door of the BAP, enterprise_demo/bap_front_door/app.py: it spreads requests over the
-- replicas, and answers 503 where a replica cannot be reached.
pub mod Routing
use Prim.Native.Nat.{◌%◌}
use laptop_bap_demo.Base.{
  Bool, List, Option, String, [], eqb, false, if◌then◌else◌, none, some, true, ℕ, ◌&&◌, ◌+◌, ◌<>◌,
  ◌==◌, ◌∷◌,
}
use laptop_bap_demo.Base.Json.{Fields, Json, as_dict, bool, dict, end, get, nat, null, obj, str}
use laptop_bap_demo.Base.Run.{Except, Run, observe, ok, pure, raised, ◌>>=◌, ◌>>◌}
use laptop_bap_demo.Base.Text.{decimal}
use laptop_bap_demo.Enterprise.Audit.{emit}
use laptop_bap_demo.Enterprise.Gateway.{peer_subject}
use laptop_bap_demo.Enterprise.World.{
  Machine, Response, World, draw, message_of, or_drawn, payload_hash,
}

-- `BAP_REPLICA_PORTS[index % len(BAP_REPLICA_PORTS)]`, enterprise_demo/common/paths.py
abbrev pub port_at : ℕ → ℕ
port_at index = if eqb (index % 2) 0 then 11501 else 11502

-- `ReplicaPool.next`
abbrev pub next : Run World ℕ
next w = (ok (port_at w.index), record w { index = w.index + 1 })

abbrev pub body_text : Option Fields → Json
body_text none = null
body_text (some fs) = obj fs

-- `body or {}`
abbrev pub details_of : Option Fields → Fields
details_of none = end
details_of (some fs) = fs

abbrev is_dict : Json → Bool
is_dict (obj fs) = true
is_dict v = false

-- where the IDs of a request are looked for
abbrev pub correlation : String → Fields → Fields
correlation path details =
    if path == "/audit" && is_dict (get details "details")
    then as_dict (get details "details")
    else details

-- `request_json` to a replica: port, path, body, method and the header with the client's subject
abbrev pub Replicas : Type 0
Replicas = ℕ → String → Option Fields → String → String → Run World Response

module _ (m : Machine) (replicas : Replicas) where
  abbrev after_replica : String → String → String → ℕ → Except Response → Run World Response
  after_replica path request_id trace_id replica_port (ok response) = pure response
  after_replica path request_id trace_id replica_port (raised error) = do
    emit m "BAP FRONT DOOR" "UPSTREAM_FAILURE" "BAP replica was unavailable; request failed closed"
        (dict (
          ("request_id", str request_id)
          ∷ ("trace_id", str trace_id)
          ∷ ("replica_port", nat replica_port)
          ∷ ("path", str path)
          ∷ ("outcome", str "DENIED")
          ∷ ("decision", str "DENY")
          ∷ ("decision_reason", str "BAP replica unavailable")
          ∷ ("http_status", nat 503)
          ∷ []))
        "error"
    pure (503, dict (("error", str ("BAP replica unavailable: " <> message_of error)) ∷ []))

  abbrev pub route :
      String → String → List (List (String × String)) → Option Fields → Run World Response
  route method path certificate body = do
    let client_subject = peer_subject certificate
    let details = details_of body
    let ids = correlation path details
    request_id ← or_drawn m (get ids "request_id") "req-" 12
    trace_id ← or_drawn m (get ids "trace_id") "trc-" 12
    replica_port ← next
    emit m "BAP FRONT DOOR" "MTLS_ACCEPTED"
        ("Authenticated connector and routed " <> path <> " to replica :" <> decimal replica_port)
        (dict (
          ("mtls_subject", str client_subject)
          ∷ ("replica_port", nat replica_port)
          ∷ ("path", str path)
          ∷ ("request_id", str request_id)
          ∷ ("trace_id", str trace_id)
          ∷ ("request_payload_hash", str (payload_hash m (obj details)))
          ∷ ("outcome", str "ACCEPTED")
          ∷ []))
        "success"
    observe (replicas replica_port path body method client_subject)
        (after_replica path request_id trace_id replica_port)

  -- `proxy`: the body of a POST may be malformed, and a GET has none
  unfoldable pub proxy :
      String → String → List (List (String × String)) → Except (Option Fields) → Run World Response
  unfolding emit peer_subject
  proxy method path certificate (ok body) = route method path certificate body
  proxy method path certificate (raised error) = do
    hex ← draw m 12
    let request_id = "req-" <> hex
    emit m "BAP FRONT DOOR" "MALFORMED_REQUEST" "Rejected malformed JSON before routing"
        (dict (
          ("request_id", str request_id)
          ∷ ("path", str path)
          ∷ ("outcome", str "DENIED")
          ∷ ("decision", str "DENY")
          ∷ ("decision_reason", str (message_of error))
          ∷ ("http_status", nat 400)
          ∷ []))
        "warning"
    pure (
      400,
      dict (
          ("ok", bool false)
          ∷ ("error", str "Malformed JSON request")
          ∷ ("request_id", str request_id)
          ∷ []),
    )
