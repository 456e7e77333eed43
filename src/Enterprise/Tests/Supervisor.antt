-- ===== src/Enterprise/Tests/Supervisor.antt =====
-- The theorems on the start and the stop of the services at concrete inputs: a host on which everything
-- works, with a signal after 0.6 seconds, one whose services never answer, and a PID file with a PID
-- that now belongs to another program.
use laptop_bap_demo.Base.{
  String, [], false, if◌then◌else◌, none, refl, some, true, ℕ, ◌+◌, ◌∷◌, ◌≡◌, ◌≢◌,
}
use laptop_bap_demo.Base.Int.{eqb_ℤ, pos}
use laptop_bap_demo.Base.Json.{Json, arr, bool, dict, items, lookup, nat, obj, str, truthy}
use laptop_bap_demo.Base.Json.Number.{int_of}
use laptop_bap_demo.Base.Json.Repr.{str_of}
use laptop_bap_demo.Base.Lists.{All}
use laptop_bap_demo.Base.Run.{ok, raised}
use laptop_bap_demo.Base.Text.{drop_chars, join}
use laptop_bap_demo.Enterprise.Supervisor.Services.{required}
use laptop_bap_demo.Enterprise.Supervisor.{Host, System, is_running}
use laptop_bap_demo.Enterprise.Supervisor.Ready.{Waited, wait_http-Waited}
use laptop_bap_demo.Enterprise.Supervisor.Returns.{main-Returns}
use laptop_bap_demo.Enterprise.Supervisor.Shutdown.{Cleaned, main-leaves_none}
use laptop_bap_demo.Enterprise.Supervisor.Start.{main, wait_http, wait_rounds}
use laptop_bap_demo.Enterprise.Supervisor.Stop.{Shell, Tasks, stop_main}
use laptop_bap_demo.Enterprise.Supervisor.Stop.Complete.{Ended}
use laptop_bap_demo.Enterprise.Supervisor.Stop.Kept.{Allowed}
use laptop_bap_demo.Enterprise.Supervisor.Stop.Matching.{Finished, stop_main-Allowed}
use laptop_bap_demo.Enterprise.World.{message_of}

abbrev demo_host : Host
demo_host = record {
  path = join "/";
  python = "python";
  open_log = λ name. ok tt;
  spawn = λ command number. ok (100 + number);
  own_end = λ pid. none;
  grace = λ pid. some 10;
  request = λ url time. ok (200, dict (("ok", bool true) ∷ []));
  duration = λ url time. 5;
  client_context = ok tt;
  guard_health = λ time. ok (0, "");
  guard_duration = λ time. 5;
  port_available = λ port. true;
  migrate = ok tt;
  archive = λ time. "archive";
  interrupt = some 600;
  own_pid = 99;
}

abbrev demo_system : System
demo_system = record {
  now = 0;
  started = [];
  ends = [];
  processes = [];
  pid_file = none;
  files = required demo_host;
}

main-leaves_none_example : Cleaned demo_host (ok (some 0), (main demo_host false 3 demo_system).1)
unfolding main is_running join truthy lookup
main-leaves_none_example =
    main-leaves_none demo_host false 3 demo_system (main demo_host false 3 demo_system).1
      (ok (some 0)) refl refl

main-Returns_example : (main demo_host true 601 demo_system).0 ≢ ok none
main-Returns_example = main-Returns demo_host 600 refl true demo_system

-- a host whose services are never ready
abbrev silent_host : Host
silent_host = record demo_host { request = λ url time. raised "URLError: refused" }

wait_http-Waited_example :
    Waited silent_host "http://127.0.0.1:11501/health" 12000 0
      (wait_http silent_host "http://127.0.0.1:11501/health" demo_system)
wait_http-Waited_example = wait_http-Waited silent_host "http://127.0.0.1:11501/health" demo_system

wait_http_test :
    (wait_http silent_host "http://127.0.0.1:11501/health" demo_system).0
    ≡ raised "RuntimeError: Service did not become ready at http://127.0.0.1:11501/health: refused"
unfolding wait_rounds message_of drop_chars join
wait_http_test = refl

abbrev demo_tasks : Tasks
demo_tasks = record {
  executable_path = λ pid. if eqb_ℤ pid (pos 101) then ok "python" else ok "browser";
  resolve = λ s. s;
  terminate_pid = λ pid. ok tt;
}

abbrev service : String → ℕ → Json
service name pid = obj (
    dict (
      ("name", str name)
      ∷ ("pid", nat pid)
      ∷ ("command", arr (items (str "python" ∷ str "app.py" ∷ [])))
      ∷ []))

abbrev pid_state : Json
pid_state = obj (
    dict (
      ("supervisor_pid", nat 99)
      ∷ ("services", arr (items (service "one" 101 ∷ service "two" 102 ∷ [])))
      ∷ []))

abbrev demo_shell : Shell
demo_shell = record { pid_file = some (ok pid_state); killed = [] }

stop_main-Allowed_example :
    All (Allowed demo_tasks pid_state) (pos 101 ∷ pos 99 ∷ [])
    × Ended demo_tasks {A = ℕ}
        (Finished demo_tasks pid_state)
        (ok 0, record { pid_file = none; killed = pos 101 ∷ pos 99 ∷ [] })
unfolding stop_main lookup int_of truthy str_of
stop_main-Allowed_example = stop_main-Allowed demo_tasks pid_state demo_shell refl refl
