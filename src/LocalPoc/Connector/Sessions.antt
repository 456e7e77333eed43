-- ===== src/LocalPoc/Connector/Sessions.antt =====
-- Sessions of the connector: start, intent, post-tool, end, reset.
use laptop_bap_demo.LocalPoc.EventBus
use laptop_bap_demo.LocalPoc.MockDb
use laptop_bap_demo.Base.{
  Bool, Option, String, [], false, if◌then◌else◌, none, some, true, ◌<>◌, ◌==◌, ◌∷◌,
}
use laptop_bap_demo.Base.Dict.{Dict, find, put}
use laptop_bap_demo.Base.Json.{
  Fields, Json, bool, dict, end, get, get_or, nat, null, obj, or_else, str, truthy,
}
use laptop_bap_demo.Base.Json.Repr.{str_of}
use laptop_bap_demo.Base.Run.{Run, gets, modify, pure, ◌>>=◌, ◌>>◌}
use laptop_bap_demo.Base.Text.{take_chars}
use laptop_bap_demo.LocalPoc.Connector.Classify.{client_metadata}
use laptop_bap_demo.LocalPoc.Connector.Network.{Network}
use laptop_bap_demo.LocalPoc.EventBus.{EventBus}
use laptop_bap_demo.LocalPoc.World.{Authorization, Host, Session, World, emit_event, token_hex}

abbrev pub session_json : Session → Fields
session_json s = dict (
    ("session_id", str s.session_id)
    ∷ ("agent_run", str s.agent_run)
    ∷ ("agent", str s.agent)
    ∷ ("user", str s.user)
    ∷ ("device", str s.device)
    ∷ ("cwd", s.cwd)
    ∷ ("task", str s.task)
    ∷ ("started_at", nat s.started_at)
    ∷ ("status", str s.status)
    ∷ ("hook_client", obj s.hook_client)
    ∷ [])

abbrev pub set_sessions : Dict Session → Run World (Unit {0})
set_sessions d = modify λ w. record w { connector = record (w.connector) { sessions = d } }

abbrev pub set_authorizations : Dict Authorization → Run World (Unit {0})
set_authorizations d =
    modify λ w. record w { connector = record (w.connector) { authorizations = d } }

-- the session ID of a request
abbrev pub session_id_of : Fields → String
session_id_of payload = str_of (get_or payload "session_id" (str ""))

-- `os.environ.get(name)` as a Python value
abbrev pub env : Option String → Json
env none = null
env (some s) = str s

abbrev or_laptop : Option String → String
or_laptop none = "laptop"
or_laptop (some s) = s

abbrev pub is_claude : Option Session → Bool
is_claude none = false
is_claude (some s) = s.agent == "claude-code"

abbrev pub hook_source : Bool → String
hook_source claude = if claude then "CC HOOK" else "PY AGENT"

module _ (h : Host) where
  -- `x or "session-" + secrets.token_hex(4)`: the draw is made only where it is needed
  abbrev or_draw : Json → Run World Json
  or_draw v = if truthy v then pure v else (do hex ← token_hex h 4; pure (str ("session-" <> hex)))

  unfoldable pub start_session : Fields → Run World Fields
  unfolding client_metadata
  start_session payload = do
    session_value ← or_draw (get payload "session_id")
    let session_id = str_of session_value
    let user = str_of (
        or_else (get payload "user") (
          or_else (env (h.environ "USERNAME"))
            (or_else (env (h.environ "USER")) (str "developer"))))
    let agent = take_chars 80 (str_of (or_else (get payload "agent") (str "claude-code")))
    let run_prefix = if agent == "claude-code" then "cc-run" else "py-run"
    hex ← token_hex h 4
    let agent_run = run_prefix <> "-" <> hex
    let named = env (h.environ "COMPUTERNAME")
    let device = if truthy named then str_of named else or_laptop h.nodename
    now ← gets (λ w. w.now)
    let session : Session = record {
      session_id = session_id;
      agent_run = agent_run;
      agent = agent;
      user = user;
      device = device;
      cwd = get payload "cwd";
      task = "Task not captured yet";
      started_at = now;
      status = "ACTIVE";
      hook_client = client_metadata payload;
    }
    sessions ← gets (λ w. w.connector.sessions)
    set_sessions (put session_id session sessions)
    emit_event h (hook_source (agent == "claude-code")) "SESSION_START"
        ("Registered " <> agent <> " session " <> session_id <> " as " <> agent_run)
        (session_json session) "success"
    pure (dict (("ok", bool true) ∷ ("session", obj (session_json session)) ∷ []))

  -- `if session: session["task"] = prompt[:300]`
  abbrev set_task : String → String → Option Session → Run World (Unit {0})
  set_task session_id prompt none = pure tt
  set_task session_id prompt (some s) = do
    sessions ← gets (λ w. w.connector.sessions)
    set_sessions (put session_id (record s { task = take_chars 300 prompt }) sessions)

  unfoldable pub capture_intent : Fields → Run World Fields
  capture_intent payload = do
    let session_id = session_id_of payload
    let prompt =
        str_of (or_else (get payload "prompt") (or_else (get payload "user_prompt") (str "")))
    session ← gets (λ w. find w.connector.sessions session_id)
    set_task session_id prompt session
    emit_event h (hook_source (is_claude session)) "TASK_INTENT"
        ("Captured delegated task: " <> take_chars 100 prompt)
        (dict (("session_id", str session_id) ∷ ("prompt", str prompt) ∷ [])) "info"
    pure (dict (("ok", bool true) ∷ []))

  unfoldable pub post_tool : Fields → Run World Fields
  unfolding client_metadata
  post_tool payload = do
    let session_id = session_id_of payload
    session ← gets (λ w. find w.connector.sessions session_id)
    emit_event h (hook_source (is_claude session)) "ACTUAL_RESULT"
        ("Recorded completed " <> str_of (get_or payload "tool_name" (str "tool")) <> " call")
        (dict (
          ("session_id", get payload "session_id")
          ∷ ("tool_name", get payload "tool_name")
          ∷ ("tool_use_id", get payload "tool_use_id")
          ∷ ("hook_client", obj (client_metadata payload))
          ∷ []))
        "success"
    pure (dict (("ok", bool true) ∷ []))

  -- `if session:` under the lock and after it; the dict in the table is the one that is emitted
  abbrev close_session : Network → String → Option Session → Run World (Unit {0})
  close_session net session_id none = pure tt
  close_session net session_id (some s) = do
    let closed : Session = record s { status = "CLOSED" }
    sessions ← gets (λ w. w.connector.sessions)
    set_sessions (put session_id closed sessions)
    net.bap "/revoke-session" (dict (("agent_run", str s.agent_run) ∷ []))
    emit_event h (hook_source (s.agent == "claude-code")) "SESSION_END"
        ("Closed " <> s.agent_run <> " and revoked its grants") (session_json closed) "warning"

  unfoldable pub end_session : Network → Fields → Run World Fields
  end_session net payload = do
    let session_id = session_id_of payload
    session ← gets (λ w. find w.connector.sessions session_id)
    close_session net session_id session
    pure (dict (("ok", bool true) ∷ []))

  unfoldable pub reset : Run World (Unit {0})
  reset = do
    set_sessions []
    set_authorizations []
    MockDb.reset h
    modify λ w. record w { events = EventBus.clear w.events }
    emit_event h "DEMO" "RESET" "Demo state reset" end "warning"
