-- ===== src/LocalPoc/Bridge/Tools.antt =====
-- `convert_tools`, `convert_tool_choice` and `explicitly_requested_single_tool` of
-- local_poc/ccbridge.py.
use laptop_bap_demo.Base.{
  Bool, List, Option, String, [], false, if◌then◌else◌, none, some, ◌&&◌, ◌++◌, ◌<>◌, ◌==◌, ◌∷◌,
}
use laptop_bap_demo.Base.Json.{
  Fields, Items, Json, arr, cons, dict, end, eq_json, get, get_or, nil, obj, or_else, str, truthy,
}
use laptop_bap_demo.Base.Json.Repr.{str_of}
use laptop_bap_demo.Base.Run.{Except, ok, raised}
use laptop_bap_demo.Base.Text.{take_chars}
use laptop_bap_demo.LocalPoc.Bridge.Config.{iterate}
use laptop_bap_demo.LocalPoc.Bridge.Requests.{requests}

-- an entry of the tools that are offered to the local model
pub record Tool : Type 0 where
  pub name : String
  pub description : String
  pub parameters : Json

abbrev pub tool_json : Tool → Json
tool_json t = obj (
    dict (
      ("type", str "function")
      ∷ (
        "function",
        obj (
            dict (
              ("name", str t.name)
              ∷ ("description", str t.description)
              ∷ ("parameters", t.parameters)
              ∷ [])),
      )
      ∷ []))

abbrev bash_description : String
bash_description =
    "Execute a shell command in the current Windows project directory. "
    <> "When the user supplies an exact command, preserve it character-for-character."

abbrev pub describe : String → String → String
describe name description = if name == "Bash" then bash_description else take_chars 1200 description

abbrev pub convert_tool : Fields → Tool
convert_tool tool =
    let name = str_of (get tool "name") in
    record {
      name = name;
      description = describe name (str_of (get_or tool "description" (str "")));
      parameters =
          or_else (get tool "input_schema")
            (obj (dict (("type", str "object") ∷ ("properties", obj end) ∷ [])));
    }

unfoldable pub tools_of : Items → List Tool
tools_of nil = []
tools_of (cons (obj tool) rest) =
    (if truthy (get tool "name") then convert_tool tool ∷ [] else []) ++ tools_of rest
tools_of (cons v rest) = tools_of rest

abbrev pub map_ok : {A B : Type 0} → (A → B) → Except A → Except B
map_ok f (ok a) = ok (f a)
map_ok f (raised e) = raised e

unfoldable pub convert_tools : Fields → Except (List Tool)
unfolding tools_of iterate
convert_tools request = map_ok tools_of (iterate (get_or request "tools" (arr nil)))

-- `{"type": "function", "function": {"name": name}}`
abbrev pub function_choice : String → Json
function_choice name =
    obj (dict (("type", str "function") ∷ ("function", obj (dict (("name", str name) ∷ []))) ∷ []))

unfoldable pub convert_tool_choice : Json → Json
convert_tool_choice (obj value) =
    let choice_type = get_or value "type" (str "auto") in
    if eq_json choice_type (str "any")
    then str "required"
    else if eq_json choice_type (str "tool") && truthy (get value "name")
    then function_choice (str_of (get value "name"))
    else str "auto"
convert_tool_choice value = str "auto"

-- `messages[-1]`
abbrev pub last_message : List Json → Option Json
last_message [] = none
last_message (m ∷ []) = some m
last_message (m ∷ ms) = last_message ms

abbrev pub asks : String → Json → Bool
asks name (obj message) =
    eq_json (get message "role") (str "user")
    && requests name (str_of (get_or message "content" (str "")))
asks name v = false

abbrev pub asked_by : Tool → Option Json → Option Json
asked_by t none = none
asked_by t (some message) = if asks t.name message then some (function_choice t.name) else none

unfoldable pub explicitly_requested_single_tool : List Json → List Tool → Option Json
unfolding requests
explicitly_requested_single_tool messages (t ∷ []) = asked_by t (last_message messages)
explicitly_requested_single_tool messages tools = none
