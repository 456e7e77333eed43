-- ===== src/Enterprise/Supervisor/Stop.antt =====
-- `main` of enterprise_demo/orchestration/stop_demo.py. What is printed is left out.
pub mod Kept
pub mod Complete
pub mod Matching
use laptop_bap_demo.Base.{
  List, Option, String, [], if◌then◌else◌, none, reverse, some, ℕ, ◌<>◌, ◌==◌, ◌∷◌,
}
use laptop_bap_demo.Base.Int.{ℤ}
use laptop_bap_demo.Base.Json.{
  Json, arr, as_dict, cons, end, get, get_or, listed, lookup, nil, obj, str, truthy,
}
use laptop_bap_demo.Base.Json.Number.{int_of}
use laptop_bap_demo.Base.Json.Repr.{str_of}
use laptop_bap_demo.Base.Run.{
  Except, Run, lift, modify, observe, ok, pure, raise, raised, ◌>>=◌, ◌>>◌,
}
use laptop_bap_demo.Base.Text.{take_chars}
use laptop_bap_demo.Enterprise.World.{has_class}

-- What the script asks of the operating system.
pub record Tasks : Type 0 where
  -- `executable_path(pid)`, `Path(text).resolve()` and `os.kill(pid, signal.SIGTERM)`
  pub executable_path : ℤ → Except String
  pub resolve : String → String
  pub terminate_pid : ℤ → Except (Unit {0})

-- PID_FILE, as what `json.loads` makes of its text, and the PIDs that SIGTERM was sent to, newest first.
pub record Shell : Type 0 where
  pub pid_file : Option (Except Json)
  pub killed : List ℤ

-- `value["key"]` of an item of the list
abbrev pub field_of : String → Json → Except Json
field_of k (obj fs) = elim (lookup fs k) [ none ↦ raised ("KeyError: " <> k) | some v ↦ ok v ]
field_of k v = raised "TypeError: indices must be integers"

abbrev pub pid_of : Json → Except ℤ
pid_of entry = elim (field_of "pid" entry) [ raised e ↦ raised e | ok v ↦ int_of v ]

-- `value[0]`
abbrev pub head_of : Json → Except Json
head_of (arr (cons v vs)) = ok v
head_of (arr nil) = raised "IndexError: list index out of range"
head_of (str s) =
    if s == "" then raised "IndexError: string index out of range" else ok (str (take_chars 1 s))
head_of (obj fs) = raised "KeyError: 0"
head_of v = raised "TypeError: not subscriptable"

-- `str(entry.get("command", [""])[0])`
abbrev pub expected_of : Json → Except String
expected_of entry = elim (head_of (get_or (as_dict entry) "command" (arr (cons (str "") nil)))) [
  | raised e ↦ raised e
  | ok v ↦ ok (str_of v)
]

-- `reversed(entries)`; the keys of an object and the characters of a text have no field `pid`
abbrev pub listed_in : Json → Except (List Json)
listed_in (arr vs) = ok (reverse (listed vs))
listed_in (obj end) = ok []
listed_in (str s) = if s == "" then ok [] else raised "TypeError: no list of services"
listed_in v = raised "TypeError: no list of services"

abbrev pub sent : ℤ → Except (Unit {0}) → Run Shell (Unit {0})
sent pid (raised e) s = (raised e, s)
sent pid (ok u) s = (ok tt, record s { killed = pid ∷ s.killed })

-- `except (ProcessLookupError, OSError): pass`, as `names` are caught
abbrev pub passing : List String → Except (Unit {0}) → Run Shell (Unit {0})
passing names (ok u) = pure tt
passing names (raised e) = if has_class names e then pure tt else raise e

-- `state.get("supervisor_pid")` of an object; null where there is none
abbrev pub supervisor_of : Json → Json
supervisor_of state = get (as_dict state) "supervisor_pid"

abbrev pub services_of : Json → Json
services_of state =
    if truthy (supervisor_of state) then get_or (as_dict state) "services" (arr nil) else state

module _ (t : Tasks) where
  -- `os.kill(pid, signal.SIGTERM)`
  abbrev pub kill : ℤ → Run Shell (Unit {0})
  kill pid = sent pid (t.terminate_pid pid)

  -- `os.kill` and the line that names the service
  abbrev pub kill_entry : ℤ → Json → Run Shell (Unit {0})
  kill_entry pid entry = do kill pid; name ← lift (field_of "name" entry); pure tt

  abbrev pub stop_matching : ℤ → String → Json → Except String → Run Shell (Unit {0})
  stop_matching pid expected entry (raised e) =
      if has_class ("CalledProcessError" ∷ []) e then pure tt else raise e
  stop_matching pid expected entry (ok actual) =
      if t.resolve actual == t.resolve expected
      then observe (kill_entry pid entry) (passing ("ProcessLookupError" ∷ []))
      else pure tt

  -- a round of the loop
  unfoldable pub stop_entry : Json → Run Shell (Unit {0})
  unfolding int_of lookup str_of
  stop_entry entry = do
    pid ← lift (pid_of entry)
    expected ← lift (expected_of entry)
    stop_matching pid expected entry (t.executable_path pid)

  unfoldable pub stop_entries : List Json → Run Shell (Unit {0})
  unfolding stop_entry
  stop_entries [] = pure tt
  stop_entries (entry ∷ entries) = stop_entry entry >> stop_entries entries

  abbrev pub stop_supervisor : Json → Run Shell (Unit {0})
  stop_supervisor pid = do
    supervisor_pid ← lift (int_of pid)
    observe (kill supervisor_pid)
        (passing ("ProcessLookupError" ∷ "PermissionError" ∷ "OSError" ∷ []))

  abbrev pub stop_all : Json → Run Shell ℕ
  stop_all state = do
    if truthy (supervisor_of state) then stop_supervisor (supervisor_of state) else pure tt
    entries ← lift (listed_in (services_of state))
    stop_entries entries
    modify (λ s. record s { pid_file = none })
    pure 0

  abbrev pub stop_file : Option (Except Json) → Run Shell ℕ
  stop_file none = pure 0
  stop_file (some text) = do state ← lift text; stop_all state

  -- `main`
  unfoldable pub stop_main : Run Shell ℕ
  unfolding stop_entries truthy
  stop_main s = stop_file s.pid_file s
