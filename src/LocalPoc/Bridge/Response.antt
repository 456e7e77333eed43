-- ===== src/LocalPoc/Bridge/Response.antt =====
-- `anthropic_response` of local_poc/ccbridge.py. The message of an `AttributeError` or a `TypeError`
-- is the name of its class.
pub mod Blocks
use laptop_bap_demo.Base.{
  List, Option, String, [], if◌then◌else◌, map, none, some, ◌++◌, ◌<>◌, ◌==◌, ◌∷◌,
}
use laptop_bap_demo.Base.Int.{ℤ}
use laptop_bap_demo.Base.Json.{
  Fields, Json, arr, cons, dict, end, eq_json, get, get_or, int, items, listed, lookup, nat, nil,
  null, obj, or_else, str, truthy,
}
use laptop_bap_demo.Base.Json.Number.{int_of}
use laptop_bap_demo.Base.Json.Repr.{str_of}
use laptop_bap_demo.Base.Run.{Except, Run, lift, ok, pure, raised, ◌>>=◌, ◌>>◌}
use laptop_bap_demo.Base.Text.{strip}
use laptop_bap_demo.LocalPoc.Bridge.Calls.{calls_in, drop_calls, find_calls, without_calls}
use laptop_bap_demo.LocalPoc.Bridge.Config.{BridgeState, Config, draw_hex, iterate}
use laptop_bap_demo.LocalPoc.Bridge.Content.{text_or_empty}
use laptop_bap_demo.LocalPoc.Bridge.Inputs.{normalize_tool_input}

-- a block of the content
pub data Block : Type 0 where
  text_block : String → Block
  tool_use : String → String → Fields → Block

abbrev pub block_json : Block → Fields
block_json (text_block t) = dict (("type", str "text") ∷ ("text", str t) ∷ [])
block_json (tool_use id name input) =
    dict
      (("type", str "tool_use") ∷ ("id", str id) ∷ ("name", str name) ∷ ("input", obj input) ∷ [])

-- the dict that is returned, whose other entries are constants
pub record Message : Type 0 where
  pub id : String
  pub model : Json
  pub content : List Block
  pub stop_reason : String
  pub input_tokens : ℤ
  pub output_tokens : ℤ

abbrev pub message_json : Message → Fields
message_json m = dict (
    ("id", str m.id)
    ∷ ("type", str "message")
    ∷ ("role", str "assistant")
    ∷ ("model", m.model)
    ∷ ("content", arr (items (map (λ b. obj (block_json b)) m.content)))
    ∷ ("stop_reason", str m.stop_reason)
    ∷ ("stop_sequence", null)
    ∷ (
      "usage",
      obj (
          dict
            (("input_tokens", int m.input_tokens) ∷ ("output_tokens", int m.output_tokens) ∷ [])),
    )
    ∷ [])

-- `v.get`, for a value that is meant to be a dict
abbrev pub dict_of : Json → Except Fields
dict_of (obj fs) = ok fs
dict_of v = raised "AttributeError"

abbrev pub and_then : {A B : Type 0} → Except A → (A → Except B) → Except B
and_then (ok a) f = f a
and_then (raised e) f = raised e

-- `v[k]` and `v[0]`
abbrev pub item_of : String → Json → Except Json
item_of k (obj fs) = elim (lookup fs k) [ none ↦ raised ("'" <> k <> "'") | some v ↦ ok v ]
item_of k v = raised "TypeError"

abbrev pub first_of : Json → Except Json
first_of (arr (cons v vs)) = ok v
first_of (arr nil) = raised "list index out of range"
first_of (obj fs) = raised "0"
first_of (str s) = elim (iterate (str s)) [
  | ok (cons v vs) ↦ ok v
  | _ ↦ raised "string index out of range"
]
first_of v = raised "TypeError"

-- `openai_data["choices"][0]`
abbrev pub first_choice : Json → Except Json
first_choice v = and_then (item_of "choices" v) first_of

-- `openai_data.get("usage") or {}`
abbrev pub usage_of : Fields → Except Fields
usage_of openai_data = dict_of (or_else (get openai_data "usage") (obj end))

abbrev pub text_blocks : String → List Block
text_blocks content = if content == "" then [] else text_block content ∷ []

-- `if not blocks`
abbrev pub or_empty_text : List Block → List Block
or_empty_text [] = text_block "" ∷ []
or_empty_text blocks = blocks

abbrev pub stop_reason_of : List Json → Json → String
stop_reason_of [] finish_reason =
    if eq_json finish_reason (str "length") then "max_tokens" else "end_turn"
stop_reason_of calls finish_reason = "tool_use"

-- the dict of the answer
abbrev pub message_of : Fields → Fields → List Block → List Json → String → ℤ → ℤ → Message
message_of request choice blocks calls hex input_tokens output_tokens = record {
  id = "msg_local_" <> hex;
  model = get_or request "model" (str "local-model");
  content = or_empty_text blocks;
  stop_reason = stop_reason_of calls (get choice "finish_reason");
  input_tokens = input_tokens;
  output_tokens = output_tokens;
}

module _ (c : Config) where
  -- a call that the model wrote as text
  abbrev pub call_json : Fields → String → Json
  call_json parsed hex = obj (
      dict (
        ("id", str ("call_" <> hex))
        ∷ ("type", str "function")
        ∷ (
          "function",
          obj (
              dict (
                ("name", str (str_of (get parsed "name")))
                ∷ (
                  "arguments",
                  str (c.dumps (get_or parsed "arguments" (get_or parsed "input" (obj end)))),
                )
                ∷ [])),
        )
        ∷ []))

  abbrev pub written_call : Fields → Run BridgeState (List Json)
  written_call parsed =
      if truthy (get parsed "name")
      then (do hex ← draw_hex c 12; pure (call_json parsed hex ∷ []))
      else pure []

  abbrev pub read_call : Option Json → Run BridgeState (List Json)
  read_call none = pure []
  read_call (some v) = lift (dict_of v) >>= written_call

  unfoldable pub written_calls : List String → Run BridgeState (List Json)
  written_calls [] = pure []
  written_calls (group ∷ groups) = do
    first ← read_call (c.loads group)
    rest ← written_calls groups
    pure (first ++ rest)

  -- the text and the calls, from those that the answer names
  abbrev pub split_content : String → List Json → Run BridgeState (String × List Json)
  split_content content [] = if content == "" then pure (content, []) else (do
    calls ← written_calls (calls_in content)
    pure (strip (without_calls content), calls))
  split_content content calls = pure (content, calls)

  abbrev pub id_or_draw : Json → Run BridgeState String
  id_or_draw id =
      if truthy id then pure (str_of id) else (do hex ← draw_hex c 12; pure ("toolu_" <> hex))

  -- the block of one call
  abbrev pub block_of : Json → Run BridgeState Block
  block_of v = do
    call ← lift (dict_of v)
    function ← lift (dict_of (or_else (get call "function") (obj end)))
    let tool_name = str_of (get_or function "name" (str ""))
    let arguments =
        normalize_tool_input c.loads tool_name (or_else (get function "arguments") (str "{}"))
    id ← id_or_draw (get call "id")
    pure (tool_use id tool_name arguments)

  unfoldable pub blocks_of : List Json → Run BridgeState (List Block)
  unfolding normalize_tool_input
  blocks_of [] = pure []
  blocks_of (call ∷ calls) = do first ← block_of call; rest ← blocks_of calls; pure (first ∷ rest)

  abbrev pub finish : Fields → Fields → Fields → List Block → List Json → Run BridgeState Message
  finish request openai_data choice blocks calls = do
    usage ← lift (usage_of openai_data)
    hex ← draw_hex c 12
    input_tokens ← lift (int_of (get_or usage "prompt_tokens" (nat 0)))
    output_tokens ← lift (int_of (get_or usage "completion_tokens" (nat 0)))
    pure (message_of request choice blocks calls hex input_tokens output_tokens)

  unfoldable pub anthropic_response : Fields → Json → Run BridgeState Message
  unfolding blocks_of written_calls find_calls drop_calls strip iterate
  anthropic_response request v = do
    choice_json ← lift (first_choice v)
    choice ← lift (dict_of choice_json)
    message ← lift (dict_of (or_else (get choice "message") (obj end)))
    named ← lift (iterate (or_else (get message "tool_calls") (arr nil)))
    (content, calls) ← split_content (text_or_empty (get message "content")) (listed named)
    blocks ← blocks_of calls
    openai_data ← lift (dict_of v)
    finish request openai_data choice (text_blocks content ++ blocks) calls
