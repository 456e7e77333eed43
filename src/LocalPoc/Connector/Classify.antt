-- ===== src/LocalPoc/Connector/Classify.antt =====
-- `LaptopConnectorState._classify` and `_client_metadata`, local_poc/laptop_connector.py.
use laptop_bap_demo.Base.{
  Bool, List, Option, String, [], if◌then◌else◌, none, not, some, starts_with, ◌&&◌, ◌<>◌, ◌==◌,
  ◌||◌, ◌∷◌,
}
use laptop_bap_demo.Base.Json.{
  Fields, Json, as_dict, bool, dict, end, field, get, get_or, int, obj, str, truthy,
}
use laptop_bap_demo.Base.Json.Repr.{str_of}
use laptop_bap_demo.Base.Lists.{contains}
use laptop_bap_demo.Base.Run.{Except, ok, raised}
use laptop_bap_demo.Base.Text.{is_in, lower, replace_char, take_chars}
use laptop_bap_demo.LocalPoc.World.{Classified, bypass, guarded, local}

abbrev is_operation : String → Bool
is_operation op = contains ("read" ∷ "write" ∷ "delete" ∷ []) op

-- `action_map[operation]`, in both of its places
abbrev pub action_of : String → String
action_of op =
    if op == "write"
    then "database.write"
    else if op == "delete"
    then "database.delete"
    else "database.read"

unfoldable pub classify_structured : Fields → Classified
classify_structured tool_input =
    let operation = lower (str_of (get_or tool_input "operation" (str ""))) in
    let resource = str_of (get_or tool_input "resource" (str "dev-customer-db")) in
    if not (is_operation operation)
      || not (contains ("dev-customer-db" ∷ "prod-customer-db" ∷ []) resource)
    then guarded "database.unknown" resource operation "invalid structured database request"
    else guarded (action_of operation) resource operation
        (action_of operation <> " on " <> resource)

-- the loop over the candidates, which ends at the first that occurs
abbrev first_candidate : String → List String → String
first_candidate padded [] = "read"
first_candidate padded (c ∷ cs) =
    let later = first_candidate padded cs in if is_in (" " <> c) padded then c else later

abbrev or_text : String → String → String
or_text s t = if s == "" then t else s

unfoldable pub classify_command : String → Classified
classify_command command =
    let lowered = replace_char "\\" "/" (lower command) in
    if is_in "direct_db_client.py" lowered
    then bypass "attempted direct MockDB access"
    else if not (is_in "db_client.py" lowered)
    then local (or_text (take_chars 160 command) "local shell command")
    else let operation =
        first_candidate (" " <> lowered) ("delete" ∷ "write" ∷ "prod-read" ∷ "read" ∷ []) in
      let resource = if operation == "prod-read" then "prod-customer-db" else "dev-customer-db" in
      guarded (action_of operation) resource
        (if operation == "prod-read" then "read" else operation)
        (action_of operation <> " on " <> resource)

unfoldable pub classify : String → Fields → Classified
unfolding classify_structured classify_command
classify tool_name tool_input =
    if tool_name == "AgentDatabase"
    then classify_structured tool_input
    else if not (contains ("Bash" ∷ "PowerShell" ∷ []) tool_name)
    then (if starts_with tool_name "mcp__"
        then guarded "mcp.invoke" tool_name "invoke" ("MCP call " <> tool_name)
        else local ("Local Claude tool " <> tool_name))
    else classify_command (str_of (get_or tool_input "command" (str "")))

abbrev reads_input : String → Bool
reads_input tool_name = contains ("AgentDatabase" ∷ "Bash" ∷ "PowerShell" ∷ []) tool_name

-- `_classify` on `tool_input or {}`: a truthy value other than an object has no `get`
unfoldable pub classify_value : String → Json → Except Classified
classify_value tool_name (obj tool_input) = ok (classify tool_name tool_input)
classify_value tool_name v =
    if truthy v && reads_input tool_name
    then raised "AttributeError"
    else ok (classify tool_name end)

abbrev pub classified_fields : Classified → Fields
classified_fields (local summary) = dict (("category", str "LOCAL") ∷ ("summary", str summary) ∷ [])
classified_fields (bypass summary) =
    dict (("category", str "BYPASS") ∷ ("summary", str summary) ∷ [])
classified_fields (guarded action resource operation summary) = dict (
    ("category", str "PROTECTED")
    ∷ ("action", str action)
    ∷ ("resource", str resource)
    ∷ ("operation", str operation)
    ∷ ("summary", str summary)
    ∷ [])

-- the keys that `_client_metadata` lets through
abbrev metadata_keys : List String
metadata_keys =
    "schema_version" ∷ "event_id" ∷ "emitted_at" ∷ "product" ∷ "version" ∷ "build_flavor"
    ∷ "hook_action" ∷ "host" ∷ "user" ∷ "process_id" ∷ "process_architecture" ∷ "runtime"
    ∷ "executable_path" ∷ []

abbrev scalar : Json → Option Json
scalar (str s) = some (str (take_chars 500 s))
scalar (int z) = some (int z)
scalar (bool b) = some (bool b)
scalar _ = none

abbrev keep_field : String → Option Json → Fields → Fields
keep_field k none rest = rest
keep_field k (some v) rest = if contains metadata_keys k then field k v rest else rest

pub filter_metadata : Fields → Fields
filter_metadata end = end
filter_metadata (field k v fs) = keep_field k (scalar v) (filter_metadata fs)

unfoldable pub client_metadata : Fields → Fields
unfolding filter_metadata
client_metadata payload = filter_metadata (as_dict (get payload "client_metadata"))
