-- ===== src/Enterprise/Supervisor.antt =====
-- The start and the stop of the enterprise demo, enterprise_demo/orchestration: the operating system
-- as far as the scripts use it, and `terminate` of start_demo.py. Times are in milliseconds.
pub mod Services
pub mod Start
pub mod Terminated
pub mod Ready
pub mod Listed
pub mod Shutdown
pub mod Returns
pub mod Stop
use laptop_bap_demo.Base.{
  Bool, List, Option, String, [], eqb, false, if◌then◌else◌, leb, none, not, reverse, some, ℕ, ◌+◌,
  ◌-◌, ◌∷◌,
}
use laptop_bap_demo.Base.Json.{Fields, Json}
use laptop_bap_demo.Base.Lists.{max_ℕ, min_ℕ}
use laptop_bap_demo.Base.Run.{Except}

-- What the operating system does.
pub record Host : Type 0 where
  -- the text of a path below DEMO_ROOT, and `sys.executable`
  pub path : List String → String
  pub python : String
  -- `open` of a log, and `subprocess.Popen` by the number of processes that were started: its PID
  pub open_log : String → Except (Unit {0})
  pub spawn : List String → ℕ → Except ℕ
  -- when a process ends by itself, and how long it takes to end when it is asked to
  pub own_end : ℕ → Option ℕ
  pub grace : ℕ → Option ℕ
  -- `request_json` with GET at a time, and how long it takes
  pub request : String → ℕ → Except (ℕ × Fields)
  pub duration : String → ℕ → ℕ
  -- `mtls_client_context`
  pub client_context : Except (Unit {0})
  -- `guard --health` at a time: its return code and its error output, and how long it takes
  pub guard_health : ℕ → Except (ℕ × String)
  pub guard_duration : ℕ → ℕ
  pub port_available : ℕ → Bool
  -- `AuditStore(STATE_DB)`
  pub migrate : Except (Unit {0})
  -- the directory of an archive, by the time
  pub archive : ℕ → String
  -- when SIGINT or SIGTERM comes
  pub interrupt : Option ℕ
  pub own_pid : ℕ

-- An item of `processes`.
pub record Process : Type 0 where
  pub name : String
  pub pid : ℕ

-- `started` are the PIDs of all processes that were started and `ends` the ends of processes that were
-- asked to end or killed, with their times; `processes` is the variable of `main`, `pid_file` the value
-- that the text of PID_FILE stands for, and `files` the other files that the script looks at.
pub record System : Type 0 where
  pub now : ℕ
  pub started : List ℕ
  pub ends : List (ℕ × ℕ)
  pub processes : List Process
  pub pid_file : Option Json
  pub files : List String

-- whether a moment has come
abbrev pub by : Option ℕ → ℕ → Bool
by none time = false
by (some t) time = leb t time

abbrev pub earliest : Option ℕ → Option ℕ → Option ℕ
earliest none u = u
earliest (some t) none = some t
earliest (some t) (some u) = some (min_ℕ t u)

unfoldable pub end_from : ℕ → List (ℕ × ℕ) → Option ℕ
end_from pid [] = none
end_from pid ((p, t) ∷ ends) =
    let rest = end_from pid ends in if eqb p pid then earliest (some t) rest else rest

-- when a process ends
abbrev pub end_of : Host → ℕ → System → Option ℕ
end_of h pid s = earliest (h.own_end pid) (end_from pid s.ends)

-- `process.poll() is None`
unfoldable pub is_running : Host → ℕ → System → Bool
unfolding end_from
is_running h pid s = not (by (end_of h pid s) s.now)

abbrev pub ends_at : ℕ → ℕ → System → System
ends_at pid t s = record s { ends = (pid, t) ∷ s.ends }

abbrev pub ends_after : ℕ → Option ℕ → System → System
ends_after pid none s = s
ends_after pid (some d) s = ends_at pid (s.now + d) s

-- `time.sleep`, and any other wait
abbrev pub later : ℕ → System → System
later d s = record s { now = s.now + d }

-- `process.terminate()`, where it is running
abbrev pub ask : Host → Process → System → System
ask h p s = if is_running h p.pid s then ends_after p.pid (h.grace p.pid) s else s

abbrev pub ask_all : Host → List Process → System → System
ask_all h [] s = s
ask_all h (p ∷ ps) s = ask_all h ps (ask h p s)

-- `process.wait(timeout)`, with the `process.kill()` of a timeout, which is taken to end the process at
-- once
abbrev pub wait_or_kill : ℕ → ℕ → Option ℕ → System → System
wait_or_kill pid timeout none s = ends_at pid (s.now + timeout) (later timeout s)
wait_or_kill pid timeout (some t) s =
    if leb t (s.now + timeout)
    then record s { now = max_ℕ s.now t }
    else ends_at pid (s.now + timeout) (later timeout s)

-- `max(0.1, deadline - time.time())`
abbrev pub timeout_to : ℕ → ℕ → ℕ
timeout_to deadline time = max_ℕ 100 (deadline - time)

abbrev pub finish_one : Host → ℕ → Process → System → System
finish_one h deadline p s =
    if is_running h p.pid s
    then wait_or_kill p.pid (timeout_to deadline s.now) (end_of h p.pid s) s
    else s

abbrev pub finish_all : Host → ℕ → List Process → System → System
finish_all h deadline [] s = s
finish_all h deadline (p ∷ ps) s = finish_all h deadline ps (finish_one h deadline p s)

abbrev pub unlink_pid_file : System → System
unlink_pid_file s = record s { pid_file = none }

-- `terminate(processes)`
unfoldable pub terminate : Host → List Process → System → System
unfolding is_running
terminate h processes s =
    let asked = ask_all h (reverse processes) s in
    unlink_pid_file (finish_all h (asked.now + 5000) (reverse processes) asked)
