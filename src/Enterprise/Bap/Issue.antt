-- ===== src/Enterprise/Bap/Issue.antt =====
-- `BAPApplication.issue_grant`, enterprise_demo/enterprise_bap/app.py.
use laptop_bap_demo.Base.{String, [], false, none, some, true, ℕ, ◌<>◌, ◌∷◌}
use laptop_bap_demo.Base.Dict.{find, put}
use laptop_bap_demo.Base.Int.{pos, ◌+ℤ◌}
use laptop_bap_demo.Base.Json.{Fields, dict, insert, int, nat, remove, str, update}
use laptop_bap_demo.Base.Json.Repr.{str_ℤ}
use laptop_bap_demo.Base.Run.{Run, gets, modify, pure, raise, ◌>>=◌, ◌>>◌}
use laptop_bap_demo.Enterprise.Audit.{emit}
use laptop_bap_demo.Enterprise.Grants.{sign_grant}
use laptop_bap_demo.Enterprise.Policy.{PolicyDecision}
use laptop_bap_demo.Enterprise.World.{GrantRow, Machine, World, draw, payload_hash, with_connection}

-- the claims, whose draws are made in the order of the source
abbrev pub claims_of :
    String
    → String
    → String
    → String
    → String
    → PolicyDecision
    → String
    → String
    → String
    → String
    → ℕ
    → String
    → Fields
claims_of user agent_run action resource approved_by policy trace_id request_id decision_id grant_id
      now jti =
    dict (
      ("iss", str "enterprise-bap-demo")
      ∷ ("aud", str "enterprise-resource-gateway")
      ∷ ("sub", str user)
      ∷ ("grant_id", str grant_id)
      ∷ ("agent_run", str agent_run)
      ∷ ("action", str action)
      ∷ ("resource", str resource)
      ∷ ("approved_by", str approved_by)
      ∷ ("trace_id", str trace_id)
      ∷ ("request_id", str request_id)
      ∷ ("decision_id", str decision_id)
      ∷ ("policy_bundle_id", str policy.bundle_id)
      ∷ ("policy_rule_id", str policy.rule_id)
      ∷ ("policy_revision", str policy.revision)
      ∷ ("policy_bundle_sha256", str policy.bundle_sha256)
      ∷ ("iat", nat now)
      ∷ ("exp", int (pos now +ℤ policy.grant_ttl_seconds))
      ∷ ("jti", str jti)
      ∷ [])

-- `INSERT INTO grants`, where the grant ID is the primary key
unfoldable pub insert_grant : String → GrantRow → Run World (Unit {0})
insert_grant grant_id row = with_connection do
  known ← gets (λ w. find w.grants grant_id)
  elim known [
    | some _ ↦ raise "IntegrityError: UNIQUE constraint failed: grants.grant_id"
    | none ↦ modify λ w. record w { grants = put grant_id row w.grants; writing = true }
  ]

-- `{key: value for key, value in claims.items() if key != "jti"}`
abbrev pub without_jti : Fields → Fields
without_jti claims = remove "jti" claims

module _ (m : Machine) (replica_id : String) where
  -- the row, the event and the answer
  unfoldable pub store_grant :
      Fields → String → String → PolicyDecision → GrantRow → Run World Fields
  unfolding emit update
  store_grant claims grant_id token policy row = do
    insert_grant grant_id row
    emit m replica_id "GRANT_ISSUED"
        ("Issued "
          <> str_ℤ policy.grant_ttl_seconds
          <> "-second grant "
          <> grant_id
          <> " under "
          <> policy.rule_id)
        (insert "outcome" (str "ISSUED") (without_jti claims)) "success"
    pure (update (dict (("grant_id", str grant_id) ∷ ("token", str token) ∷ [])) claims)

  unfoldable pub issue_grant :
      String
      → String
      → String
      → String
      → String
      → PolicyDecision
      → String
      → String
      → String
      → Run World Fields
  unfolding sign_grant store_grant
  issue_grant user agent_run action resource approved_by policy trace_id request_id decision_id = do
    now ← gets (λ w. w.now)
    hex ← draw m 6
    let grant_id = "gnt-" <> hex
    jti ← draw m 12
    let claims =
        claims_of user agent_run action resource approved_by policy trace_id request_id decision_id
          grant_id now jti
    let token = sign_grant m claims
    store_grant claims grant_id token policy (record {
      token_hash = payload_hash m (str token);
      agent_run = agent_run;
      action = action;
      resource = resource;
      expires_at = pos now +ℤ policy.grant_ttl_seconds;
      approved_by = approved_by;
      policy_rule_id = policy.rule_id;
      policy_revision = policy.revision;
      revoked = false;
    })
