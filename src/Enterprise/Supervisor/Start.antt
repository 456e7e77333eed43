-- ===== src/Enterprise/Supervisor/Start.antt =====
-- `main` and `wait_http`, enterprise_demo/orchestration/start_demo.py. What is printed, the list of the
-- failed services in the last message among it, and the opening of the browser are left out; the moves
-- of files and the writing of the PID file do not fail, and a signal that comes before its handler is
-- set is taken to be seen by it.
use laptop_bap_demo.Base.{
  Bool, List, Option, String, [], eqb, false, if◌then◌else◌, ltb, map, none, not, some, suc, zero,
  ℕ, ◌&&◌, ◌++◌, ◌+◌, ◌<>◌, ◌==◌, ◌||◌, ◌∷◌,
}
use laptop_bap_demo.Base.Json.{Fields, Json, arr, dict, get, items, nat, obj, str, truthy}
use laptop_bap_demo.Base.Lists.{all, contains, filter, length}
use laptop_bap_demo.Base.Run.{
  Except, Run, gets, lift, modify, observe, ok, pure, raised, ◌>>=◌, ◌>>◌,
}
use laptop_bap_demo.Enterprise.Supervisor.Services.{runtime, services, required, ports}
use laptop_bap_demo.Enterprise.Supervisor.{Host, Process, System, by, is_running, later, terminate}
use laptop_bap_demo.Enterprise.World.{message_of}

module _ (h : Host) where
  -- `status == 200 and body.get("ok")`
  abbrev pub is_ready : Except (ℕ × Fields) → Bool
  is_ready (ok (status, body)) = eqb status 200 && truthy (get body "ok")
  is_ready (raised e) = false

  abbrev pub last_error : Except (ℕ × Fields) → String → String
  last_error (ok r) error = error
  last_error (raised e) error = message_of e

  -- the loop of `wait_http`, on the rounds that are left
  unfoldable pub wait_rounds : ℕ → String → ℕ → String → Run System (Unit {0})
  unfolding message_of
  wait_rounds zero url deadline error s = (raised "no round is left", s)
  wait_rounds (suc fuel) url deadline error s =
      let answer = h.request url s.now in
      let answered = later (h.duration url s.now) s in
      let next = wait_rounds fuel url deadline (last_error answer error) (later 200 answered) in
      if ltb s.now deadline
      then (if is_ready answer then (ok tt, answered) else next)
      else (raised ("RuntimeError: Service did not become ready at " <> url <> ": " <> error), s)

  -- `wait_http(url, ssl_context)`: a round takes 0.2 of the 12 seconds at least
  abbrev pub wait_http : String → Run System (Unit {0})
  wait_http url s = wait_rounds 61 url (s.now + 12000) "None" s

  -- the loop that waits for the connector
  unfoldable pub guard_rounds : ℕ → ℕ → String → Run System (Unit {0})
  guard_rounds zero deadline error s = (raised "no round is left", s)
  guard_rounds (suc fuel) deadline error s =
      let answered = later (h.guard_duration s.now) s in
      let next = λ (e : String). guard_rounds fuel deadline e (later 250 answered) in
      if ltb s.now deadline
      then elim (h.guard_health s.now) [
        | raised e ↦ (raised e, answered)
        | ok (code, text) ↦ if eqb code 0 then (ok tt, answered) else next text
      ]
      else (raised ("RuntimeError: Named-pipe connector failed health check: " <> error), s)

  abbrev pub wait_guard : Run System (Unit {0})
  wait_guard s = guard_rounds 41 (s.now + 10000) "" s

  -- `subprocess.Popen` and `processes.append`
  abbrev pub add_process : String → ℕ → System → System
  add_process name pid s = record s {
    started = s.started ++ (pid ∷ []);
    processes = s.processes ++ (record { name = name; pid = pid } ∷ []);
  }

  abbrev pub launch : String → List String → Run System (Unit {0})
  launch name command = do
    lift (h.open_log name)
    number ← gets (λ s. length s.started)
    pid ← lift (h.spawn command number)
    modify (add_process name pid)

  unfoldable pub launch_all : List (String × List String) → Run System (Unit {0})
  launch_all [] = pure tt
  launch_all ((name, command) ∷ rest) = launch name command >> launch_all rest

  abbrev pub listing : List (String × List String) → List Process → Except (List Json)
  listing [] [] = ok []
  listing ((name, command) ∷ rest) (p ∷ ps) =
      let others = listing rest ps in
      elim others [
        | raised e ↦ raised e
        | ok vs ↦ ok (
            obj (
              dict (
                ("name", str name)
                ∷ ("pid", nat p.pid)
                ∷ ("command", arr (items (map (λ word. str word) command)))
                ∷ []))
            ∷ vs)
      ]
  listing _ _ = raised "ValueError: zip() arguments differ in length"

  abbrev pub pid_text : List Json → Json
  pid_text entries =
      obj (dict (("supervisor_pid", nat h.own_pid) ∷ ("services", arr (items entries)) ∷ []))

  -- `PID_FILE.write_text`
  abbrev pub write_pid_file : Run System (Unit {0})
  write_pid_file = do
    processes ← gets (λ s. s.processes)
    entries ← lift (listing (services h) processes)
    modify (λ s. record s { pid_file = some (pid_text entries) })

  abbrev pub some_ended : List Process → System → Bool
  some_ended [] s = false
  some_ended (p ∷ ps) s = not (is_running h p.pid s) || some_ended ps s

  -- the loop until a signal comes; `none` where it still runs after the rounds that are given
  unfoldable pub supervise : ℕ → Run System (Option ℕ)
  unfolding is_running
  supervise zero s = (ok none, s)
  supervise (suc fuel) s =
      let next = supervise fuel (later 500 s) in
      if by h.interrupt s.now
      then (ok (some 0), s)
      else if some_ended s.processes s
      then (raised "RuntimeError: Enterprise demo service exited unexpectedly", s)
      else next

  -- the body of the `try`
  abbrev pub start : ℕ → Run System (Option ℕ)
  start fuel = do
    launch_all (services h)
    write_pid_file
    wait_http "http://127.0.0.1:11501/health"
    wait_http "http://127.0.0.1:11502/health"
    wait_http "http://127.0.0.1:11600/health"
    wait_http "http://127.0.0.1:11445/health"
    lift h.client_context
    wait_http "https://127.0.0.1:11443/health"
    wait_http "https://127.0.0.1:11444/health"
    wait_guard
    supervise fuel

  -- `except Exception` and `finally`
  abbrev pub conclude : Except (Option ℕ) → Run System (Option ℕ)
  conclude (ok none) s = (ok none, s)
  conclude (ok (some code)) s = (ok (some code), terminate h s.processes s)
  conclude (raised e) s = (ok (some 1), terminate h s.processes s)

  -- `path.replace(archive / path.name)`, where the path exists
  abbrev pub move : String → String → List String → List String
  move path target files =
      if contains files path then target ∷ filter (λ f. not (f == path)) files else files

  abbrev pub archive_files : System → System
  archive_files s =
      let place = h.archive s.now in
      record s {
        files =
            move (runtime h "connector-audit-outbox.jsonl")
              (place <> "/connector-audit-outbox.jsonl")
              (move (runtime h "enterprise-demo.db" <> "-shm") (place <> "/enterprise-demo.db-shm")
                (move (runtime h "enterprise-demo.db" <> "-wal")
                  (place <> "/enterprise-demo.db-wal")
                  (move (runtime h "enterprise-demo.db") (place <> "/enterprise-demo.db")
                    s.files)));
      }

  abbrev pub supervised : Bool → ℕ → Run System (Option ℕ)
  supervised reset_state fuel = do
    modify (λ s. if reset_state then archive_files s else s)
    lift h.migrate
    modify (λ s. record s { processes = [] })
    observe (start fuel) conclude

  -- `main`, with `none` where the services are still supervised after the rounds that are given
  unfoldable pub main : Bool → ℕ → Run System (Option ℕ)
  unfolding launch_all wait_rounds guard_rounds supervise terminate
  main reset_state fuel s =
      let goes_on = supervised reset_state fuel s in
      if all (contains s.files) (required h) && all h.port_available (ports h)
      then goes_on
      else (ok (some 2), s)
