-- ===== src/LocalPoc/Tests/Services.antt =====
-- The theorems on the database and the connector at concrete inputs: a registered session, with the
-- services of the demo and with none.
use laptop_bap_demo.Base.{[], false, refl, some, ◌∷◌, ◌≡◌, ◌⊎◌}
use laptop_bap_demo.Base.Dict.{find}
use laptop_bap_demo.Base.Json.{Fields, dict, end, lookup, null, obj, str, truthy}
use laptop_bap_demo.Base.Json.Repr.{str_of}
use laptop_bap_demo.Base.Run.{raise}
use laptop_bap_demo.LocalPoc.Connector.Classify.{classify, classify_value}
use laptop_bap_demo.LocalPoc.Connector.Database.{execute_database}
use laptop_bap_demo.LocalPoc.Connector.FailClosed.{Because, authorize_tool-Because}
use laptop_bap_demo.LocalPoc.Connector.Mediation.{Evidence, execute_database-Evidence}
use laptop_bap_demo.LocalPoc.Connector.Network.{offline, services}
use laptop_bap_demo.LocalPoc.Connector.Services.{execute_database-IsAccepted}
use laptop_bap_demo.LocalPoc.Connector.Tools.{authorize_tool}
use laptop_bap_demo.LocalPoc.Hook.{main}
use laptop_bap_demo.LocalPoc.Hook.FailClosed.{Decided, main-authorize}
use laptop_bap_demo.LocalPoc.MockBap.Validation.{IsAccepted}
use laptop_bap_demo.LocalPoc.Tests.{demo_host, granted}
use laptop_bap_demo.LocalPoc.World.{Session, World, guarded}

abbrev session_1 : Session
session_1 = record {
  session_id = "s1";
  agent_run = "cc-run-1";
  agent = "claude-code";
  user = "dev";
  device = "laptop-1";
  cwd = null;
  task = "look";
  started_at = 90;
  status = "ACTIVE";
  hook_client = end;
}

abbrev registered : World
registered = record granted {
  connector = record {
    sessions = ("s1", session_1) ∷ [];
    authorizations =
        (
          "s1",
          record {
            session_id = "s1";
            classification =
                guarded "database.read" "dev-customer-db" "read" "database.read on dev-customer-db";
            bap = dict (("decision", str "ALLOW") ∷ []);
            created_at = 100;
            hook_client = end;
          },
        )
        ∷ [];
    shutdown = false;
  };
}

abbrev read_call : Fields
read_call =
    dict (("session_id", str "s1") ∷ ("tool_name", str "Read") ∷ ("operation", str "read") ∷ [])

execute_database-Evidence_example :
    ((execute_database demo_host offline read_call registered).1.rows ≡ registered.rows)
    ⊎ Evidence offline read_call registered
execute_database-Evidence_example =
    execute_database-Evidence demo_host offline (record { same_rows = λ path request w. refl })
      read_call registered

execute_database-IsAccepted_example :
    ((execute_database demo_host (services demo_host) read_call registered).1.rows
      ≡ registered.rows)
    ⊎ ((e : Evidence (services demo_host) read_call registered) × (e.asked.now ≡ registered.now)
        × (claims : Fields) × IsAccepted demo_host e.asked
            (str_of e.token)
            e.action
            e.resource
            e.session.agent_run
            claims)
execute_database-IsAccepted_example = execute_database-IsAccepted demo_host read_call registered

abbrev allowed_locally : Fields
allowed_locally = dict (
    ("decision", str "ALLOW")
    ∷ ("reason", str "Local workspace action allowed")
    ∷ (
      "classification",
      obj (dict (("category", str "LOCAL") ∷ ("summary", str "Local Claude tool Read") ∷ [])),
    )
    ∷ [])

authorize_tool-Because_example : Because offline read_call registered allowed_locally
unfolding authorize_tool find str_of lookup classify_value truthy classify
authorize_tool-Because_example =
    authorize_tool-Because demo_host offline read_call registered allowed_locally refl (λ e. cc)

main-authorize_example :
    Decided demo_host
      (λ path event. raise "URLError")
      read_call
      registered
      (main demo_host
        (λ path event. raise "URLError")
        ("authorize" ∷ [])
        (some read_call)
        registered).0
main-authorize_example =
    main-authorize demo_host (λ path event. raise "URLError") read_call registered
