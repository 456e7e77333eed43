-- ===== src/LocalPoc/Bridge/Proxy.antt =====
-- The routes of local_poc/ccbridge.py. The body of a request is an object.
pub mod Bounds
use Prim.Native.String.{count}
use laptop_bap_demo.Base.{
  List, Option, String, [], eqb, false, if◌then◌else◌, map, none, not, some, true, ℕ, ◌/◌, ◌<>◌,
  ◌==◌, ◌∷◌,
}
use laptop_bap_demo.Base.Int.{ltb_ℤ, ℤ}
use laptop_bap_demo.Base.Json.{
  Fields, Json, arr, bool, dict, get, get_or, insert, int, items, nat, nil, obj, or_else, str,
  truthy,
}
use laptop_bap_demo.Base.Json.Number.{int_of}
use laptop_bap_demo.Base.Json.Repr.{str_of}
use laptop_bap_demo.Base.Lists.{max_ℕ}
use laptop_bap_demo.Base.Run.{Except, Run, lift, observe, ok, pure, raised, ◌>>=◌, ◌>>◌}
use laptop_bap_demo.Base.Text.{decimal, take_chars}
use laptop_bap_demo.LocalPoc.Bridge.Config.{BridgeState, Config, HttpReply, iterate}
use laptop_bap_demo.LocalPoc.Bridge.Messages.{convert_messages}
use laptop_bap_demo.LocalPoc.Bridge.Response.{
  Message, and_then, anthropic_response, dict_of, first_of, item_of, message_json,
}
use laptop_bap_demo.LocalPoc.Bridge.Stream.{streaming_events}
use laptop_bap_demo.LocalPoc.Bridge.Tools.{
  Tool, convert_tool_choice, convert_tools, explicitly_requested_single_tool, map_ok, tool_json,
}

abbrev pub no_models : String
no_models = "Local LLM /v1/models returned no models"

-- `models[0]["id"]`
abbrev pub first_id : Json → Except String
first_id models =
    if truthy models
    then map_ok str_of (and_then (first_of models) (item_of "id"))
    else raised no_models

unfoldable pub model_id : Config → Except String
unfolding iterate
model_id c =
    if not (c.local_llm_model == "")
    then ok c.local_llm_model
    else and_then c.get_models
        λ v. and_then (dict_of v) λ fs. first_id (or_else (get fs "data") (arr nil))

-- `min(a, b)`
abbrev pub min_ℤ : ℤ → ℤ → ℤ
min_ℤ a b = if ltb_ℤ b a then b else a

abbrev pub choose : Option Json → Json → Json
choose (some requested) tool_choice = requested
choose none tool_choice = convert_tool_choice tool_choice

-- the tools, if there are any
unfoldable pub with_tools : Fields → List Json → List Tool → Fields → Fields
unfolding insert explicitly_requested_single_tool convert_tool_choice
with_tools request messages [] payload = payload
with_tools request messages (t ∷ ts) payload =
    insert "tool_choice"
      (choose (explicitly_requested_single_tool messages (t ∷ ts)) (get request "tool_choice"))
      (insert "tools" (arr (items (map tool_json (t ∷ ts)))) payload)

abbrev pub base_payload : Config → Fields → String → List Json → ℤ → Fields
base_payload c request model messages max_tokens = dict (
    ("model", str model)
    ∷ ("messages", arr (items messages))
    ∷ ("temperature", get_or request "temperature" c.default_temperature)
    ∷ ("max_tokens", int (min_ℤ max_tokens c.max_output_tokens))
    ∷ ("stream", bool false)
    ∷ [])

-- the payload for the local model
unfoldable pub payload_of : Config → Fields → Run BridgeState Fields
unfolding with_tools convert_messages convert_tools model_id
payload_of c request = do
  model ← lift (model_id c)
  messages ← convert_messages c request
  max_tokens ← lift (int_of (get_or request "max_tokens" (int c.max_output_tokens)))
  tools ← lift (convert_tools request)
  pure (with_tools request messages tools (base_payload c request model messages max_tokens))

-- `client.post`
abbrev pub post_chat : Config → Fields → Run BridgeState HttpReply
post_chat c payload st = (c.post_chat payload, record st { posted = payload ∷ st.posted })

pub data Reply : Type 0 where
  json_reply : ℕ → Fields → Reply
  stream_reply : List String → Reply

abbrev pub api_error : String → Reply
api_error message = json_reply 502 (
    dict (
      ("type", str "error")
      ∷ ("error", obj (dict (("type", str "api_error") ∷ ("message", str message) ∷ [])))
      ∷ []))

abbrev pub answer_with : Config → Fields → Message → Reply
answer_with c request converted =
    if truthy (get request "stream")
    then stream_reply (streaming_events c converted)
    else json_reply 200 (message_json converted)

-- from the reply of the local model on
abbrev pub convert_reply : Config → Fields → HttpReply → Run BridgeState Reply
convert_reply c request response =
    if not (eqb response.status_code 200)
    then pure (
        api_error (
          "Local LLM returned HTTP "
          <> (decimal response.status_code <> (": " <> take_chars 1000 response.text))))
    else (do
      body ← lift response.body
      converted ← anthropic_response c request body
      pure (answer_with c request converted))

abbrev pub ask_model : Config → Fields → Run BridgeState Reply
ask_model c request = do
  payload ← payload_of c request
  response ← post_chat c payload
  convert_reply c request response

-- `except Exception as exc`
abbrev pub or_error : Except Reply → Run BridgeState Reply
or_error (ok reply) = pure reply
or_error (raised exc) = pure (api_error exc)

-- POST /v1/messages
unfoldable pub messages_proxy : Config → Fields → Run BridgeState Reply
unfolding payload_of anthropic_response streaming_events
messages_proxy c request = observe (ask_model c request) or_error

-- POST /v1/messages/count_tokens: `max(1, len(serialized) // 4)`
unfoldable pub count_tokens : Config → Fields → Fields
count_tokens c request =
    let serialized =
      c.dumps (get_or request "system" (str "")) <> c.dumps (get_or request "messages" (arr nil)) in
    dict (("input_tokens", nat (max_ℕ 1 (count serialized / 4))) ∷ [])

-- GET /health, or the exception that becomes a 500
unfoldable pub health : Config → String → Except Fields
unfolding model_id
health c base =
    map_ok (λ model. dict (("ok", bool true) ∷ ("local_llm", str base) ∷ ("model", str model) ∷ []))
      (model_id c)
