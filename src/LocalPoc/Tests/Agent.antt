-- ===== src/LocalPoc/Tests/Agent.antt =====
-- The theorems about the demo agent at concrete inputs.
use laptop_bap_demo.LocalPoc.PythonAgent.Models.{resolve_model}
use laptop_bap_demo.Base.{
  Option, String, [], false, if◌then◌else◌, map, none, refl, some, true, ◌==◌, ◌∷◌, ◌≡◌,
}
use laptop_bap_demo.Base.Json.{
  Fields, Json, arr, bool, cons, dict, end, eq_json, items, lookup, nil, obj, str,
}
use laptop_bap_demo.Base.Json.Repr.{str_of}
use laptop_bap_demo.Base.Run.{ok, raised}
use laptop_bap_demo.Base.Text.{lower, strip, take_chars}
use laptop_bap_demo.LocalPoc.PythonAgent.{parse_proposal}
use laptop_bap_demo.LocalPoc.PythonAgent.Proposals.{IsBounded, parse_proposal-IsBounded}
use laptop_bap_demo.LocalPoc.PythonAgent.Session.{
  Outside, Settings, connector, join_texts, local_model, run_agent,
}
use laptop_bap_demo.LocalPoc.PythonAgent.Session.Ending.{Ended, run_agent-ends}
use laptop_bap_demo.LocalPoc.PythonAgent.Session.Guarded.{Guarded, run_agent-Guarded}
use laptop_bap_demo.LocalPoc.PythonAgent.Session.Stable.{is_execution}

-- a `json.loads` that knows one text
abbrev loads_one : String → Option Json
loads_one text =
    if text == "{\"key\":\"customer-7\"}"
    then some (obj (dict (("operation", str "READ") ∷ ("key", str "customer-7") ∷ [])))
    else none

parse_proposal-IsBounded_example :
    IsBounded (parse_proposal loads_one "Sure: {\"key\":\"customer-7\"}!").0
parse_proposal-IsBounded_example =
    parse_proposal-IsBounded loads_one "Sure: {\"key\":\"customer-7\"}!"

parse_proposal_test :
    parse_proposal loads_one "Sure: {\"key\":\"customer-7\"}!"
    ≡ (record { operation = "read"; key = "customer-7"; reason = "" }, none)
unfolding parse_proposal lower str_of lookup take_chars
parse_proposal_test = refl

abbrev settings : Settings
settings = record {
  session_id = "python-agent-1";
  user = "developer";
  cwd = "/demo";
  llm_url = "http://127.0.0.1:8080/v1/chat/completions";
  model = "local-model";
  task = "Read customer-7";
  loads = loads_one;
  dumps = λ fs. "{}";
}

abbrev chat_answer : Fields
chat_answer = dict (
    (
      "choices",
      arr (
          cons
            (obj (
              dict
                (("message", obj (dict (("content", str "{\"key\":\"customer-7\"}") ∷ []))) ∷ [])))
            nil),
    )
    ∷ [])

abbrev allowing : Fields
allowing = dict (("session", obj end) ∷ ("decision", str "ALLOW") ∷ ("ok", bool true) ∷ [])

abbrev outside : Outside
outside log local_model payload = ok (200, chat_answer)
outside log (connector path) payload = ok (200, allowing)

run_agent-Guarded_example : Guarded settings (run_agent outside settings []).1
run_agent-Guarded_example = run_agent-Guarded outside settings

run_agent-ends_example : Ended outside settings (run_agent outside settings [])
run_agent-ends_example = run_agent-ends outside settings 200 allowing refl refl

-- a run with eleven calls, the fifth last of them the call of the database
run_agent_test :
    ((run_agent outside settings []).0 ≡ ok 0)
    × (map (λ c. is_execution c.peer) (run_agent outside settings []).1
        ≡ false ∷ false ∷ false ∷ false ∷ true ∷ false ∷ false ∷ false ∷ false ∷ false ∷ false ∷ [])
unfolding run_agent parse_proposal lower str_of lookup take_chars strip eq_json join_texts
run_agent_test = (refl, refl)

resolve_model_test :
    resolve_model
      (λ url.
        if url == "http://127.0.0.1:8080/v1/models"
        then ok (200, dict (("data", arr (items (obj (dict (("id", str "qwen") ∷ [])) ∷ []))) ∷ []))
        else raised "URLError: refused")
      "http://127.0.0.1:8080/v1/chat/completions"
      "auto"
    ≡ "qwen"
unfolding resolve_model
resolve_model_test = refl
