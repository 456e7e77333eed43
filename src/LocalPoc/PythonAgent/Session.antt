-- ===== src/LocalPoc/PythonAgent/Session.antt =====
-- `run_agent` of local_poc/python_agent.py, after the choice of the model: the calls of the connector
-- and of the local model, in their order. What they answer is a function of the calls so far, newest
-- first. The printing is left out.
pub mod Stable
pub mod Guarded
pub mod Ending
use laptop_bap_demo.Base.{
  List, Option, String, [], eqb, false, if◌then◌else◌, none, not, some, ℕ, ◌<>◌, ◌∷◌,
}
use laptop_bap_demo.Base.Json.{
  Fields, Items, Json, arr, bool, cons, dict, eq_json, get, get_or, lookup, nat, nil, null, obj,
  str, truthy,
}
use laptop_bap_demo.Base.Json.Repr.{str_of}
use laptop_bap_demo.Base.Run.{Except, Run, observe, ok, pure, raise, raised, ◌>>=◌, ◌>>◌}
use laptop_bap_demo.Base.Text.{decimal, strip, take_chars}
use laptop_bap_demo.LocalPoc.PythonAgent.{Proposal, parse_proposal}
use laptop_bap_demo.LocalPoc.World.{Response}

pub data Peer : Type 0 where
  connector : String → Peer
  local_model : Peer

pub record Call : Type 0 where
  pub peer : Peer
  pub payload : Fields
  pub answer : Except Response

-- `json_request`: a status and an object, or an exception
abbrev pub Outside : Type 0
Outside = List Call → Peer → Fields → Except Response

abbrev pub made : Outside → Peer → Fields → List Call → Call
made out peer payload log = record { peer = peer; payload = payload; answer = out log peer payload }

abbrev pub json_request : Outside → Peer → Fields → Run (List Call) Response
json_request out peer payload log = (out log peer payload, made out peer payload log ∷ log)

-- `connector_post`, from the answer on
abbrev pub accept : Response → Run (List Call) Fields
accept (status, result) =
    if eqb status 200
    then pure result
    else raise (str_of (get_or result "error" (str ("Connector returned HTTP " <> decimal status))))

abbrev pub at_key : String → Json → Option Json
at_key k (obj fs) = lookup fs k
at_key k v = none

abbrev pub first_item : Json → Option Json
first_item (arr (cons v vs)) = some v
first_item v = none

-- a look-up in what the look-ups before it found
abbrev pub within : Option Json → (Json → Option Json) → Option Json
within none look = none
within (some v) look = look v

-- `result["choices"][0]["message"]["content"]`, or `none` for the errors that are caught
abbrev pub content_of : Fields → Option Json
content_of result =
    within (within (within (lookup result "choices") first_item) (at_key "message"))
      (at_key "content")

unfoldable pub join_texts : Items → String
join_texts nil = ""
join_texts (cons (obj fs) vs) = str_of (get_or fs "text" (str "")) <> join_texts vs
join_texts (cons v vs) = join_texts vs

abbrev pub text_of_content : Json → String
text_of_content (arr vs) = strip (join_texts vs)
text_of_content v = strip (str_of v)

-- `local_chat`, from the answer on
abbrev pub chat_error : String → ℕ → Fields → String
chat_error llm_url status result =
    "Local LLM endpoint "
    <> llm_url
    <> " returned HTTP "
    <> decimal status
    <> (if truthy (get result "error") then ": " <> str_of (get result "error") else "")

abbrev pub read_content : Option Json → Run (List Call) String
read_content none = raise "Local LLM response was not OpenAI chat-completions JSON"
read_content (some content) = pure (text_of_content content)

abbrev pub read_chat : String → Response → Run (List Call) String
read_chat llm_url (status, result) =
    if not (eqb status 200)
    then raise (chat_error llm_url status result)
    else read_content (content_of result)

abbrev message : String → String → Json
message role content = obj (dict (("role", str role) ∷ ("content", str content) ∷ []))

abbrev pub chat_payload : String → String → String → Fields
chat_payload model system user = dict (
    ("model", str model)
    ∷ ("messages", arr (cons (message "system" system) (cons (message "user" user) nil)))
    ∷ ("temperature", nat 0)
    ∷ ("max_tokens", nat 300)
    ∷ ("stream", bool false)
    ∷ [])

-- the arguments and what the machine gives
pub record Settings : Type 0 where
  pub session_id : String
  pub user : String
  pub cwd : String
  pub llm_url : String
  pub model : String
  pub task : String
  pub loads : String → Option Json
  pub dumps : Fields → String

abbrev pub proposal_fields : Proposal → Fields
proposal_fields p =
    dict (("operation", str p.operation) ∷ ("key", str p.key) ∷ ("reason", str p.reason) ∷ [])

abbrev pub text_or_null : Option String → Json
text_or_null none = null
text_or_null (some text) = str text

module _ (s : Settings) where
  abbrev pub start_payload : Fields
  start_payload = dict (
      ("session_id", str s.session_id)
      ∷ ("agent", str "local-llm-python-agent")
      ∷ ("user", str s.user)
      ∷ ("cwd", str s.cwd)
      ∷ [])

  abbrev pub event : String → Fields → Fields
  event phase details =
      dict (("session_id", str s.session_id) ∷ ("phase", str phase) ∷ ("details", obj details) ∷ [])

  abbrev pub authorization_payload : Proposal → Fields
  authorization_payload p = dict (
      ("session_id", str s.session_id)
      ∷ ("tool_name", str "AgentDatabase")
      ∷ ("tool_use_id", str "agent-action-1")
      ∷ (
        "tool_input",
        obj (
            dict (
              ("operation", str p.operation)
              ∷ ("resource", str "dev-customer-db")
              ∷ ("key", str p.key)
              ∷ [])),
      )
      ∷ [])

  abbrev pub execution_payload : Proposal → Fields
  execution_payload p =
      dict (
        ("session_id", str s.session_id) ∷ ("operation", str p.operation) ∷ ("key", str p.key) ∷ [])

  abbrev pub result_payload : Proposal → Fields → Fields
  result_payload p result = dict (
      ("session_id", str s.session_id)
      ∷ ("tool_name", str "AgentDatabase")
      ∷ ("tool_use_id", str "agent-action-1")
      ∷ ("result", obj (dict (("ok", get result "ok") ∷ ("key", str p.key) ∷ [])))
      ∷ [])

module _ (out : Outside) (s : Settings) where
  abbrev pub connector_post : String → Fields → Run (List Call) Fields
  connector_post path payload = json_request out (connector path) payload >>= accept

  abbrev pub local_chat : String → String → Run (List Call) String
  local_chat system user =
      json_request out local_model (chat_payload s.model system user) >>= read_chat s.llm_url

  abbrev pub send_event : String → Fields → Run (List Call) Fields
  send_event phase details = connector_post "/agent/event" (event s phase details)

  -- `try: … except Exception: pass`
  abbrev pub ignoring : Run (List Call) Fields → Run (List Call) (Unit {0})
  ignoring m = observe m (λ _. pure tt)

  -- the summary, or the text that stands in for it
  abbrev pub summary_or_note : Proposal → Except String → Run (List Call) String
  summary_or_note p (ok summary) = pure summary
  summary_or_note p (raised exc) =
      pure ("Read " <> p.key <> " successfully through BAP (summary LLM failed: " <> exc <> ").")

  -- from the answer of the database on
  abbrev pub report_result : Proposal → Fields → Run (List Call) (Unit {0})
  report_result p result = do
    connector_post "/agent/action/result" (result_payload s p result)
    summary ←
        observe
          (local_chat
            "Summarize this read-only database result in one sentence. Do not invent facts."
            (s.dumps result))
          (summary_or_note p)
    send_event "FINAL_RESPONSE" (dict (("summary", str (take_chars 1000 summary)) ∷ []))
    pure tt

  -- from the connector's answer on
  abbrev pub act_on : Proposal → Fields → Run (List Call) (Unit {0})
  act_on p authorization =
      if not (eq_json (get authorization "decision") (str "ALLOW"))
      then raise (
          "BAP denied the proposed action: "
          <> str_of (get_or authorization "reason" (str "no reason")))
      else (connector_post "/db/execute" (execution_payload s p) >>= report_result p)

  abbrev pub attempt : Proposal → Run (List Call) (Unit {0})
  attempt p = connector_post "/agent/authorize" (authorization_payload s p) >>= act_on p

  -- the proposal is told to the connector before it is attempted
  abbrev pub propose : String → Proposal × Option String → Run (List Call) (Unit {0})
  propose proposal_text (p, normalization) = do
    send_event "LLM_PROPOSAL" (
        dict (
          ("raw_model_output", str (take_chars 500 proposal_text))
          ∷ ("bounded_proposal", obj (proposal_fields p))
          ∷ ("normalization", text_or_null normalization)
          ∷ []))
    attempt p

  abbrev system_prompt : String
  system_prompt =
      "You are a read-only demo agent. Select one lookup using only this JSON schema: "
      <> "{\"operation\":\"read\",\"key\":\"customer-123\",\"reason\":\"short reason\"}. "
      <> "Return JSON only. Never propose writes, deletes, shell commands, URLs, or credentials."

  -- from the session on: `registration["session"]` is a `KeyError` where it is missing
  abbrev pub require_session : Option Json → Run (List Call) (Unit {0})
  require_session none = raise "'session'"
  require_session (some session) = pure tt

  abbrev pub work : Fields → Run (List Call) (Unit {0})
  work registration = do
    require_session (lookup registration "session")
    connector_post "/intent" (dict (("session_id", str s.session_id) ∷ ("prompt", str s.task) ∷ []))
    send_event "LLM_REQUEST"
        (dict (("llm_url", str s.llm_url) ∷ ("model", str s.model) ∷ ("task", str s.task) ∷ []))
    proposal_text ← local_chat system_prompt s.task
    propose proposal_text (parse_proposal s.loads proposal_text)

  -- `except Exception as exc` of a registered session
  abbrev pub after_work : Except (Unit {0}) → Run (List Call) ℕ
  after_work (ok _) = pure 0
  after_work (raised exc) = do
    ignoring (send_event "AGENT_ERROR" (dict (("error", str exc) ∷ [])))
    pure 1

  abbrev pub after_start : Except Fields → Run (List Call) ℕ
  after_start (raised exc) = pure 1
  after_start (ok registration) = do
    code ← observe (work registration) after_work
    ignoring (connector_post "/session/end" (dict (("session_id", str s.session_id) ∷ [])))
    pure code

  -- the exit code of `run_agent`
  unfoldable pub run_agent : Run (List Call) ℕ
  unfolding join_texts parse_proposal
  run_agent = observe (connector_post "/session/start" (start_payload s)) after_start
