-- ===== src/LocalPoc/Bridge/Stream.antt =====
-- `streaming_events` of local_poc/ccbridge.py, on the message that `anthropic_response` returns.
pub mod Assembly
use laptop_bap_demo.Base.{List, String, [], map, ℕ, ◌++◌, ◌+◌, ◌<>◌, ◌∷◌}
use laptop_bap_demo.Base.Json.{
  Fields, Json, arr, dict, end, get, int, nat, nil, null, obj, or_else, str, update,
}
use laptop_bap_demo.Base.Json.Repr.{str_of}
use laptop_bap_demo.LocalPoc.Bridge.Config.{Config}
use laptop_bap_demo.LocalPoc.Bridge.Response.{
  Block, Message, block_json, message_json, text_block, tool_use,
}

abbrev pub start_message : Message → Fields
start_message m = update (message_json m) (
    dict (
      ("content", arr nil)
      ∷ ("stop_reason", null)
      ∷ ("stop_sequence", null)
      ∷ ("usage", obj (dict (("input_tokens", int m.input_tokens) ∷ ("output_tokens", nat 0) ∷ [])))
      ∷ []))

abbrev pub message_start : Message → Fields
message_start m = dict (("type", str "message_start") ∷ ("message", obj (start_message m)) ∷ [])

-- `start_block` and `delta`
abbrev pub start_block : Block → Fields
start_block (text_block t) = dict (("type", str "text") ∷ ("text", str "") ∷ [])
start_block (tool_use id name input) =
    update (block_json (tool_use id name input)) (dict (("input", obj end) ∷ []))

abbrev pub delta_of : (Json → String) → Block → Fields
delta_of dumps (text_block t) = dict (("type", str "text_delta") ∷ ("text", str t) ∷ [])
delta_of dumps (tool_use id name input) = dict (
    ("type", str "input_json_delta")
    ∷ ("partial_json", str (dumps (or_else (obj input) (obj end))))
    ∷ [])

-- the three events of a block
abbrev pub block_events : (Json → String) → ℕ → Block → List Fields
block_events dumps index block =
    dict (
      ("type", str "content_block_start")
      ∷ ("index", nat index)
      ∷ ("content_block", obj (start_block block))
      ∷ [])
    ∷ dict (
        ("type", str "content_block_delta")
        ∷ ("index", nat index)
        ∷ ("delta", obj (delta_of dumps block))
        ∷ [])
    ∷ dict (("type", str "content_block_stop") ∷ ("index", nat index) ∷ [])
    ∷ []

-- `enumerate(message["content"])`
unfoldable pub content_events : (Json → String) → ℕ → List Block → List Fields
unfolding update
content_events dumps index [] = []
content_events dumps index (block ∷ blocks) =
    block_events dumps index block ++ content_events dumps (index + 1) blocks

abbrev pub message_delta : Message → Fields
message_delta m = dict (
    ("type", str "message_delta")
    ∷ ("delta", obj (dict (("stop_reason", str m.stop_reason) ∷ ("stop_sequence", null) ∷ [])))
    ∷ ("usage", obj (dict (("output_tokens", int m.output_tokens) ∷ [])))
    ∷ [])

abbrev pub message_stop : Fields
message_stop = dict (("type", str "message_stop") ∷ [])

-- `events`
unfoldable pub events_of : (Json → String) → Message → List Fields
unfolding content_events
events_of dumps m =
    message_start m ∷ (content_events dumps 0 m.content ++ message_delta m ∷ message_stop ∷ [])

-- the text of an event
abbrev pub event_text : (Json → String) → Fields → String
event_text dumps_compact event =
    "event: "
    <> (str_of (get event "type") <> ("\ndata: " <> (dumps_compact (obj event) <> "\n\n")))

unfoldable pub streaming_events : Config → Message → List String
unfolding events_of
streaming_events c m = map (event_text c.dumps_compact) (events_of c.dumps m)
