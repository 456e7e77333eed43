-- ===== src/LocalPoc/Tests.antt =====
-- The laptop demo's theorems at concrete inputs: a host whose encodings are small tables, and the
-- first grant of a run.
mod Services
mod Agent
mod Bridge
use laptop_bap_demo.LocalPoc.MockBap
use laptop_bap_demo.Base.{
  List, Option, String, [], eqb, false, if◌then◌else◌, ltb, none, refl, some, starts_with, true, ℕ,
  ◌+◌, ◌<>◌, ◌==◌, ◌↔◌, ◌∷◌, ◌≡◌,
}
use laptop_bap_demo.Base.Dict.{find, put}
use laptop_bap_demo.Base.Json.{
  Fields, Json, bool, count_fields, dict, end, lookup, obj, str, truthy,
}
use laptop_bap_demo.Base.Json.Number.{int_of}
use laptop_bap_demo.Base.Json.Repr.{str_of}
use laptop_bap_demo.Base.Lists.{last_n}
use laptop_bap_demo.Base.Run.{ok}
use laptop_bap_demo.Base.Text.{decimal, split_char}
use laptop_bap_demo.LocalPoc.EventBus.{EventBus, clear, emit, new_bus}
use laptop_bap_demo.LocalPoc.EventBus.History.{Draft, emit_all, emit_all-history, history}
use laptop_bap_demo.LocalPoc.MockBap.{
  allow, approve, claims_of, classify_policy, invalid, mint_grant, require_approval, revoke_session,
  validate,
}
use laptop_bap_demo.LocalPoc.MockBap.Approvals.{approve_once, not_found}
use laptop_bap_demo.LocalPoc.MockBap.Grants.{Names, at_second, minted_token, validate-mint}
use laptop_bap_demo.LocalPoc.MockBap.Revocation.{belongs, validate-revoke_session}
use laptop_bap_demo.LocalPoc.MockBap.Signatures.{IsReadable, IsSigned, verify-sign}
use laptop_bap_demo.LocalPoc.MockBap.Token.{sign, verify}
use laptop_bap_demo.LocalPoc.MockBap.Validation.{IsAccepted, validate_sound}
use laptop_bap_demo.LocalPoc.MockDb.{initial_rows}
use laptop_bap_demo.LocalPoc.World.{Host, World, token_hex}

-- The header has two entries and the claims have nine.
abbrev bytes_of : Fields → List ℕ
bytes_of d = count_fields d ∷ []

abbrev text_of : List ℕ → String
text_of [] = "none"
text_of (n ∷ ns) = if eqb n 2 then "head" else if eqb n 9 then "claims" else "mac"

abbrev decode_text : String → Option (List ℕ)
decode_text s =
    if s == "head"
    then some (2 ∷ [])
    else if s == "claims"
    then some (9 ∷ [])
    else if s == "mac"
    then some (3 ∷ [])
    else none

abbrev run_request : Fields
run_request = dict (
    ("user", str "dev")
    ∷ ("agent_run", str "cc-run-1")
    ∷ ("task", str "look")
    ∷ ("action", str "database.read")
    ∷ ("resource", str "dev-customer-db")
    ∷ [])

abbrev first_claims : Fields
first_claims = claims_of run_request "policy:dev-read-v1" "gnt-00" 100

abbrev load_bytes : List ℕ → Option Json
load_bytes [] = none
load_bytes (n ∷ ns) = if eqb n 9 then some (obj first_claims) else none

abbrev pub demo_host : Host
demo_host = record {
  token_hex = λ bytes n. decimal n <> decimal n;
  timestamp = λ n. "12:00:00";
  environ = λ name. none;
  nodename = some "laptop-1";
  dumps = bytes_of;
  loads = load_bytes;
  b64encode = text_of;
  b64decode = decode_text;
  hmac_sha256 = λ key text. 3 ∷ [];
}

abbrev pub quiet : World
quiet = record {
  events = new_bus 3;
  bap = record { pending = []; grants = []; signing_key = "key" };
  rows = initial_rows;
  connector = record { sessions = []; authorizations = []; shutdown = false };
  now = 100;
  draws = 0;
}

abbrev first_readable : IsReadable demo_host "key" first_claims first_claims
unfolding count_fields
first_readable = record {
  header_no_dot = refl;
  claims_no_dot = refl;
  signature_no_dot = refl;
  signature_decodes = refl;
  claims_decode = refl;
  claims_load = refl;
  same_entries = λ k. refl;
}

abbrev first_names : Names run_request "database.read" "dev-customer-db" "cc-run-1"
unfolding lookup
first_names = record { names_action = refl; names_resource = refl; names_run = refl }

abbrev read_action : String
read_action = "database.read"

abbrev first_draft : Draft
first_draft = record {
  timestamp = "t";
  source = "A";
  kind = "K";
  message = "m";
  details = end;
  level = "info";
}

abbrev used_bus : EventBus
used_bus = emit "s" "B" "K" "n" end "info" (new_bus 2)

emit_all-history_example :
    ((emit_all (first_draft ∷ []) (new_bus 3)).events ≡ last_n 3 (history 0 (first_draft ∷ [])))
    × ((emit_all (first_draft ∷ []) (clear used_bus)).events
        ≡ last_n used_bus.max_events (history 0 (first_draft ∷ [])))
emit_all-history_example = emit_all-history 3 used_bus (first_draft ∷ [])

validate-mint_example :
    (validate demo_host
      (minted_token demo_host quiet run_request "policy:dev-read-v1")
      "database.read"
      "dev-customer-db"
      "cc-run-1"
      (at_second 161 (mint_grant demo_host run_request "policy:dev-read-v1" quiet).1)).0
    ≡ ok (
        if ltb (100 + 60) 161
        then invalid "Grant expired"
        else dict (("valid", bool true) ∷ ("claims", obj first_claims) ∷ []))
unfolding decimal
validate-mint_example =
    validate-mint demo_host quiet run_request "policy:dev-read-v1" first_names first_claims
      first_readable 161

abbrev pub granted : World
granted = (mint_grant demo_host run_request "policy:dev-read-v1" quiet).1

validate_sound_example :
    (claims : Fields) × IsAccepted demo_host granted "head.claims.mac" "database.read"
      "dev-customer-db" "cc-run-1" claims
unfolding validate mint_grant truthy verify find put decimal str_of int_of
validate_sound_example =
    validate_sound demo_host granted "head.claims.mac" "database.read" "dev-customer-db" "cc-run-1"
      (dict (("valid", bool true) ∷ ("claims", obj first_claims) ∷ [])) refl refl

approve_once_example :
    ((approve demo_host "apr-00" "b" (approve demo_host "apr-00" "a" quiet).1).0 ≡ ok not_found)
    × ((approve demo_host "apr-00" "b" (approve demo_host "apr-00" "a" quiet).1).1.bap.grants
        ≡ (approve demo_host "apr-00" "a" quiet).1.bap.grants)
approve_once_example = approve_once demo_host "apr-00" "a" "b" quiet

validate-revoke_session_example :
    (validate demo_host
      (minted_token demo_host quiet run_request "policy:dev-read-v1")
      "database.read"
      "dev-customer-db"
      "cc-run-1"
      (revoke_session demo_host "cc-run-1"
        (mint_grant demo_host run_request "policy:dev-read-v1" quiet).1).1).0
    ≡ ok (invalid "Grant was revoked or is not active")
unfolding decimal
validate-revoke_session_example =
    validate-revoke_session demo_host quiet run_request "policy:dev-read-v1" first_claims
      "database.read" "dev-customer-db" "cc-run-1" first_names first_readable tt
