-- ===== src/Enterprise/Supervisor/Services.antt =====
-- SERVICES of enterprise_demo/orchestration/start_demo.py, with the files and ports that `main` asks for
-- before it starts them.
use laptop_bap_demo.Base.{List, String, [], ℕ, ◌∷◌}
use laptop_bap_demo.Enterprise.Supervisor.{Host}

module _ (h : Host) where
  -- `str(DEMO_ROOT / folder / "app.py")`
  abbrev pub app : String → String
  app folder = h.path (folder ∷ "app.py" ∷ [])

  abbrev pub pki : String → String
  pki file = h.path ("runtime" ∷ "pki" ∷ file ∷ [])

  abbrev pub runtime : String → String
  runtime file = h.path ("runtime" ∷ file ∷ [])

  abbrev pub published : String → String → String
  published folder file = h.path (folder ∷ "publish" ∷ file ∷ [])

  -- SERVICES
  abbrev pub services : List (String × List String)
  services =
      ("protected-resource", h.python ∷ app "protected_resource" ∷ [])
      ∷ (
        "bap-replica-1",
        h.python
            ∷ app "enterprise_bap"
            ∷ "--port"
            ∷ "11501"
            ∷ "--replica-id"
            ∷ "BAP REPLICA 1"
            ∷ [],
      )
      ∷ (
        "bap-replica-2",
        h.python
            ∷ app "enterprise_bap"
            ∷ "--port"
            ∷ "11502"
            ∷ "--replica-id"
            ∷ "BAP REPLICA 2"
            ∷ [],
      )
      ∷ ("bap-front-door", h.python ∷ app "bap_front_door" ∷ [])
      ∷ ("resource-gateway", h.python ∷ app "resource_gateway" ∷ [])
      ∷ ("central-dashboard", h.python ∷ app "central_dashboard" ∷ [])
      ∷ (
        "laptop-connector",
        published "laptop_connector_service" "bap_connector_service.exe"
            ∷ "--client-pfx"
            ∷ pki "connector-client.pfx"
            ∷ "--pfx-password"
            ∷ "demo-only-change-me"
            ∷ "--ca-cert"
            ∷ pki "demo-ca.cert.pem"
            ∷ "--require-signed-clients"
            ∷ "true"
            ∷ "--audit-outbox"
            ∷ runtime "connector-audit-outbox.jsonl"
            ∷ [],
      )
      ∷ []

  abbrev pub required : List String
  required =
      pki "demo-ca.cert.pem"
      ∷ pki "connector-client.pfx"
      ∷ published "laptop_connector_service" "bap_connector_service.exe"
      ∷ published "bap_resource_client" "bap_resource_client.exe"
      ∷ published "claude_guard" "claude_guard.exe"
      ∷ []

  abbrev pub ports : List ℕ
  ports = 11443 ∷ 11444 ∷ 11445 ∷ 11501 ∷ 11502 ∷ 11600 ∷ []
