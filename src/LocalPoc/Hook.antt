-- ===== src/LocalPoc/Hook.antt =====
-- The Claude Code hook, local_poc/hooks/bap_hook.py. A run gives its exit code and what it prints on
-- the standard output, which every handler does at most once and last. The texts on the error output
-- are left out. The input is a JSON object, or no JSON at all.
pub mod FailClosed
use laptop_bap_demo.Base.{
  List, Option, String, [], eqb, if◌then◌else◌, none, not, some, ℕ, ◌&&◌, ◌<>◌, ◌==◌, ◌∷◌,
}
use laptop_bap_demo.Base.Json.{
  Fields, Json, dict, end, eq_json, get, get_or, insert, obj, or_else, str, truthy,
}
use laptop_bap_demo.Base.Json.Repr.{str_of}
use laptop_bap_demo.Base.Run.{Except, Run, lift, observe, ok, pure, raised, ◌>>=◌, ◌>>◌}
use laptop_bap_demo.Base.Text.{is_in}
use laptop_bap_demo.LocalPoc.Connector.Sessions.{env}
use laptop_bap_demo.LocalPoc.World.{Host, Response, World}

-- `post`: the connector answers with a status and an object, or the call raises.
abbrev pub Post : Type 0
Post = String → Fields → Run World Response

abbrev pub Outcome : Type 0
Outcome = ℕ × Option Fields

abbrev with_input : Option Fields → Fields → Fields
with_input none d = d
with_input (some updated) d = insert "updatedInput" (obj updated) d

-- `emit_hook_decision`
unfoldable pub hook_decision : String → String → Option Fields → Fields
unfolding insert
hook_decision decision reason updated_input = dict (
    (
      "hookSpecificOutput",
      obj (
          with_input updated_input (
            dict (
              ("hookEventName", str "PreToolUse")
              ∷ ("permissionDecision", str decision)
              ∷ ("permissionDecisionReason", str reason)
              ∷ []))),
    )
    ∷ [])

-- the handlers that only report
abbrev pub report : Response → Outcome
report (status, result) = (if eqb status 200 then 0 else 2, none)

-- `dict(event.get("tool_input") or {})`. A list of pairs would do too, and is not modelled.
abbrev pub tool_input_of : Json → Except Fields
tool_input_of (obj fs) = ok fs
tool_input_of v = if truthy v then raised "TypeError" else ok end

abbrev pub command_of : Fields → String
command_of updated = str_of (get_or updated "command" (str ""))

-- the command of the guarded client is bound to the session
abbrev pub bind_session : Fields → Fields → Fields
bind_session event updated =
    if eq_json (get event "tool_name") (str "Bash")
      && is_in "db_client.py" (command_of updated)
      && not (is_in "direct_db_client.py" (command_of updated))
      && not (is_in "--bap-session" (command_of updated))
    then insert "command"
        (str
          (command_of updated <> " --bap-session " <> str_of (get_or event "session_id" (str ""))))
        updated
    else updated

-- the three decisions
abbrev pub answer_for : String → String → Fields → Fields
answer_for decision reason updated =
    if decision == "ALLOW"
    then hook_decision "allow" reason (some updated)
    else if decision == "REQUIRE_APPROVAL"
    then hook_decision "ask" reason (some updated)
    else hook_decision "deny" reason none

-- from the answer of the connector on
abbrev pub decide : Fields → Except Response → Run World Outcome
decide event (raised exc) =
    pure (
      0,
      some (hook_decision "deny" ("Laptop BAP connector unavailable; fail closed: " <> exc) none),
    )
decide event (ok (status, result)) =
    if not (eqb status 200)
    then pure (
      0,
      some (hook_decision "deny" "Laptop BAP connector rejected the authorization request" none),
    )
    else (do
      let decision = str_of (get_or result "decision" (str "DENY"))
      let reason = str_of (get_or result "reason" (str "No BAP decision reason supplied"))
      updated ← lift (tool_input_of (get event "tool_input"))
      pure (0, some (answer_for decision reason (bind_session event updated))))

module _ (h : Host) (post : Post) where
  abbrev report_to : String → Fields → Run World Outcome
  report_to path event = do response ← post path event; pure (report response)

  unfoldable pub session_start : Fields → Run World Outcome
  unfolding insert
  session_start event = report_to "/session/start" (
      insert "user"
        (or_else (env (h.environ "USERNAME")) (or_else (env (h.environ "USER")) (str "developer")))
        event)

  unfoldable pub pre_tool : Fields → Run World Outcome
  unfolding hook_decision
  pre_tool event = observe (post "/hook/pre-tool" event) (decide event)

  -- `HANDLERS`
  abbrev pub handler : String → Option (Fields → Run World Outcome)
  handler name =
      if name == "session-start"
      then some session_start
      else if name == "capture-intent"
      then some (report_to "/intent")
      else if name == "authorize"
      then some pre_tool
      else if name == "permission-request"
      then some (report_to "/hook/permission")
      else if name == "post-tool"
      then some (report_to "/hook/post-tool")
      else if name == "session-end"
      then some (report_to "/session/end")
      else none

  -- `except Exception as exc` in `main`
  abbrev pub after_handler : String → Except Outcome → Run World Outcome
  after_handler name (ok outcome) = pure outcome
  after_handler name (raised exc) =
      if name == "authorize"
      then pure (0, some (hook_decision "deny" ("BAP hook failed closed: " <> exc) none))
      else pure (2, none)

  -- `read_event`
  abbrev pub event_of : Option Fields → Fields
  event_of none = end
  event_of (some event) = event

  abbrev pub run_handler : String → Fields → Option (Fields → Run World Outcome) → Run World Outcome
  run_handler name event none = pure (2, none)
  run_handler name event (some handle) = observe (handle event) (after_handler name)

  -- `main`, on the arguments after the name of the program and the standard input
  unfoldable pub main : List String → Option Fields → Run World Outcome
  unfolding pre_tool session_start
  main (name ∷ []) input = run_handler name (event_of input) (handler name)
  main _ input = pure (2, none)
