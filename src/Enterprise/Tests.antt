-- ===== src/Enterprise/Tests.antt =====
-- The enterprise demo's theorems at concrete inputs: a machine whose cryptography accepts one token,
-- and a Cedar command that allows everything.
mod Audit
mod Supervisor
use laptop_bap_demo.Base.{[], false, map, none, refl, some, true, ℕ, ◌∷◌, ◌≡◌, ◌⊎◌}
use laptop_bap_demo.Base.Dict.{find}
use laptop_bap_demo.Base.Int.{pos}
use laptop_bap_demo.Base.Json.{
  Fields, arr, bool, cons, dict, end, eq_json, get, insert, lookup, nat, nil, obj, remove, str,
  truthy, update,
}
use laptop_bap_demo.Base.Json.Number.{int_of}
use laptop_bap_demo.Base.Json.Repr.{str_of}
use laptop_bap_demo.Base.Run.{Except, ok, raise, raised}
use laptop_bap_demo.Base.Text.{drop_chars, lower, take_chars}
use laptop_bap_demo.Enterprise.Audit.{emit, hash_of, verify_chain}
use laptop_bap_demo.Enterprise.Audit.Append.{emit-verify_chain, next_columns}
use laptop_bap_demo.Enterprise.Audit.Chain.{fingerprint, onto, verify_chain-tamper}
use laptop_bap_demo.Enterprise.Audit.Columns.{extract_fields, stored_columns}
use laptop_bap_demo.Enterprise.Audit.Redact.{redact_dict}
use laptop_bap_demo.Enterprise.Audit.Redaction.{CleanFields, redact_dict-Clean}
use laptop_bap_demo.Enterprise.Bap.Approvals.{approve-not_pending}
use laptop_bap_demo.Enterprise.Bap.Approve.{approve}
use laptop_bap_demo.Enterprise.Bap.Approved.{Approved, approve-Approved}
use laptop_bap_demo.Enterprise.Bap.Authorize.{authorize}
use laptop_bap_demo.Enterprise.Bap.Entitlement.{NamesAll, SameGrants, authorize-entitled}
use laptop_bap_demo.Enterprise.Bap.SingleUse.{approve-once}
use laptop_bap_demo.Enterprise.Bap.Validate.{validate}
use laptop_bap_demo.Enterprise.Bap.Validity.{Valid, validate-Valid}
use laptop_bap_demo.Enterprise.FrontDoor.{proxy}
use laptop_bap_demo.Enterprise.FrontDoor.Routing.{unreachable}
use laptop_bap_demo.Enterprise.Gateway.{execute}
use laptop_bap_demo.Enterprise.Gateway.Mediation.{Granted, execute-Granted}
use laptop_bap_demo.Enterprise.Policy.{Bundle, PolicyDecision, allow, decision, evaluate}
use laptop_bap_demo.Enterprise.Policy.Decisions.{Justified, evaluate-Justified}
use laptop_bap_demo.Enterprise.Resource.{initial_data}
use laptop_bap_demo.Enterprise.World.{AuditRow, GrantRow, Machine, Response, World, message_of}

abbrev pub claims : Fields
claims = dict (
    ("grant_id", str "gnt-1")
    ∷ ("agent_run", str "run-1")
    ∷ ("action", str "database.read")
    ∷ ("resource", str "dev-customer-db")
    ∷ ("exp", nat 160)
    ∷ [])

abbrev pub demo_machine : Machine
demo_machine = record {
  token_hex = λ bytes n. "00";
  timestamp = λ n. "12:00:00";
  dumps = λ v. "{}";
  loads = λ bytes. some (obj claims);
  encode_utf8 = λ s. 1 ∷ [];
  sha256 = λ s. "digest";
  sqlite_integer = λ s. none;
  b64encode = λ bytes. "b";
  b64decode = λ s. some (1 ∷ []);
  rsa_sign = λ s. 1 ∷ [];
  rsa_verify = λ signature s. true;
  grant_error = λ s. "not enough values";
  cedar = λ request. ok ("ALLOW", "");
}

abbrev demo_bundle : Bundle
demo_bundle = record {
  bundle_id = "bundle";
  revision = "1";
  bundle_sha256 = "digest";
  grant_ttl_seconds = pos 60;
  rule_ids = [];
}

abbrev grant_row : GrantRow
grant_row = record {
  token_hash = "digest";
  agent_run = "run-1";
  action = "database.read";
  resource = "dev-customer-db";
  expires_at = pos 160;
  approved_by = "policy";
  policy_rule_id = "rule";
  policy_revision = "1";
  revoked = false;
}

abbrev pub idle : World
idle = record {
  events = [];
  grants = ("gnt-1", grant_row) ∷ [];
  approvals = [];
  writing = false;
  rows = initial_data;
  index = 0;
  now = 100;
  draws = 0;
}

abbrev request : Fields
request = dict (
    ("token", str "a.b.c")
    ∷ ("user", str "dev")
    ∷ ("device", str "laptop-1")
    ∷ ("agent", str "claude-code")
    ∷ ("agent_run", str "run-1")
    ∷ ("task", str "look")
    ∷ ("action", str "database.read")
    ∷ ("resource", str "dev-customer-db")
    ∷ ("request_id", str "req-1")
    ∷ ("approver", str "boss")
    ∷ [])

abbrev pub first_row : AuditRow
first_row = record {
  sequence = 1;
  columns = dict (("kind", str "TEST") ∷ ("previous_event_hash", str "GENESIS") ∷ []);
  event_hash = "digest";
}

-- the same row under another number, and with a column that the hash does not cover
abbrev moved_row : AuditRow
moved_row = record first_row {
  sequence = 7;
  columns =
      dict
        (("kind", str "TEST") ∷ ("previous_event_hash", str "GENESIS") ∷ ("sequence", nat 7) ∷ []);
}

verify_chain-tamper_example :
    map (fingerprint demo_machine) (onto demo_machine (first_row ∷ []) [])
    ≡ map (fingerprint demo_machine) (onto demo_machine (moved_row ∷ []) [])
unfolding verify_chain lookup eq_json remove
verify_chain-tamper_example =
    verify_chain-tamper demo_machine (first_row ∷ []) (moved_row ∷ []) "digest" refl refl
      (λ e. refl, tt)

emit-verify_chain_example :
    ((emit demo_machine "BAP" "TEST" "hello" end "info" idle).0 ≡ ok tt)
    × (get
          (verify_chain demo_machine
            (emit demo_machine "BAP" "TEST" "hello" end "info" idle).1.events)
          "head_hash"
        ≡ str
            (hash_of demo_machine (next_columns demo_machine "BAP" "TEST" "hello" end "info" idle)))
unfolding verify_chain stored_columns insert update extract_fields lookup redact_dict
emit-verify_chain_example =
    emit-verify_chain demo_machine "BAP" "TEST" "hello" end "info" idle "GENESIS" refl refl refl

evaluate-Justified_example : Justified demo_machine request false allow
unfolding evaluate str_of lookup
evaluate-Justified_example =
    evaluate-Justified demo_machine demo_bundle request false
      (decision demo_machine demo_bundle allow "no-applicable-policy"
        "Cedar permitted the requested action")
      refl

authorize-entitled_example :
    SameGrants idle (authorize demo_machine demo_bundle "bap-1" request "CN=laptop" idle).1
    ⊎ (NamesAll demo_machine demo_bundle "bap-1" idle request
        × (p : PolicyDecision) × (evaluate demo_machine demo_bundle request false ≡ ok p)
        × (p.effect ≡ allow)
        × Justified demo_machine request false allow)
authorize-entitled_example =
    authorize-entitled demo_machine demo_bundle "bap-1" idle request "CN=laptop"

approve-not_pending_example :
    ((approve demo_machine demo_bundle "bap-1" request idle).0
      ≡ raised "OperationalError: database is locked")
    × ((approve demo_machine demo_bundle "bap-1" request idle).1.grants ≡ idle.grants)
    × ((approve demo_machine demo_bundle "bap-1" request idle).1.approvals ≡ idle.approvals)
unfolding lookup str_of find
approve-not_pending_example =
    approve-not_pending demo_machine demo_bundle "bap-1" request idle refl refl

approve-Approved_example :
    SameGrants idle (approve demo_machine demo_bundle "bap-1" request idle).1
    ⊎ Approved demo_machine demo_bundle request idle
approve-Approved_example = approve-Approved demo_machine demo_bundle "bap-1" request idle

validate-Valid_example : Valid demo_machine request idle
unfolding validate str_of lookup int_of find eq_json stored_columns extract_fields redact_dict
    take_chars lower
validate-Valid_example =
    validate-Valid demo_machine "bap-1" request idle
      (dict (("valid", bool true) ∷ ("claims", obj claims) ∷ [])) refl

execute-Granted_example :
    ((execute demo_machine
        (λ path secret body. raise "URLError: refused")
        request
        "CN=laptop"
        idle).1.rows
      ≡ idle.rows)
    ⊎ Granted demo_machine request idle
execute-Granted_example =
    execute-Granted demo_machine (λ path secret body. raise "URLError: refused") request idle
      "CN=laptop"

abbrev turned_away : Except Response × World
turned_away = proxy demo_machine (unreachable "URLError: refused") "GET" "/health" [] (ok none) idle

abbrev waiting : World
waiting = record idle {
  approvals =
      (
        "req-1",
        record {
          user_id = "laptop-user";
          agent_run = "run-1";
          action = "database.read";
          resource = "dev-customer-db";
          policy_rule_id = "rule";
          policy_revision = "1";
          grant_ttl_seconds = pos 60;
          request_json = request;
          request_hash = "digest";
          status = "PENDING";
        },
      )
      ∷ [];
}

approve-once_example :
    ((approve demo_machine demo_bundle "bap-1" request
        (approve demo_machine demo_bundle "bap-1" request waiting).1).0
      ≡ raised "OperationalError: database is locked")
    × ((approve demo_machine demo_bundle "bap-1" request
          (approve demo_machine demo_bundle "bap-1" request waiting).1).1.grants
        ≡ (approve demo_machine demo_bundle "bap-1" request waiting).1.grants)
unfolding lookup str_of
approve-once_example =
    approve-once demo_machine demo_bundle "bap-1" request waiting refl request refl refl

abbrev leaking : Fields
leaking = dict (
    ("API_Key", str "k-1")
    ∷ ("nested", obj (dict (("userPassword", arr (cons (str "p") nil)) ∷ ("name", str "n") ∷ [])))
    ∷ [])

redact_dict-Clean_example : CleanFields (redact_dict leaking)
redact_dict-Clean_example = redact_dict-Clean leaking

redact_dict_test :
    redact_dict leaking
    ≡ dict (
        ("API_Key", str "[REDACTED]")
        ∷ ("nested", obj (dict (("userPassword", str "[REDACTED]") ∷ ("name", str "n") ∷ [])))
        ∷ [])
unfolding redact_dict insert take_chars lower
redact_dict_test = refl
