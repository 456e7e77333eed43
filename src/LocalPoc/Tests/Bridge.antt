-- ===== src/LocalPoc/Tests/Bridge.antt =====
-- The theorems about the bridge at concrete inputs.
use Prim.Native.String.{count}
use laptop_bap_demo.Base.{
  ◌≤◌, ◌<◌, ◌⊎◌, ◌+◌, ◌/◌, Option, String, [], arith, if◌then◌else◌, map, none, refl, some, ◌+◌,
  ◌==◌, ◌∷◌, ◌≡◌,
}
use laptop_bap_demo.Base.Int.{pos}
use laptop_bap_demo.Base.Json.{
  Fields, Items, Json, arr, cons, dict, end, eq_json, items, lookup, nat, nil, null, obj, str,
  truthy,
}
use laptop_bap_demo.Base.Json.Number.{int_of}
use laptop_bap_demo.Base.Json.Repr.{str_of}
use laptop_bap_demo.Base.Run.{ok, raised}
use laptop_bap_demo.Base.Text.{strip}
use laptop_bap_demo.LocalPoc.Bridge.Calls.{drop_calls, find_calls}
use laptop_bap_demo.LocalPoc.Bridge.Config.{BridgeState, Config, iterate}
use laptop_bap_demo.LocalPoc.Bridge.Content.{compact_system_prompt, text_at_content}
use laptop_bap_demo.LocalPoc.Bridge.Content.Compaction.{Cut, count-compact_system_prompt}
use laptop_bap_demo.LocalPoc.Bridge.Inputs.{normalize_tool_input}
use laptop_bap_demo.LocalPoc.Bridge.Inputs.Encoding.{encode, normalize_tool_input-encode}
use laptop_bap_demo.LocalPoc.Bridge.Messages.{user_messages}
use laptop_bap_demo.LocalPoc.Bridge.Messages.Transcript.{
  answers, content_text, pieces, results, script, user_messages-kept,
}
use laptop_bap_demo.LocalPoc.Bridge.Proxy.{Reply, messages_proxy}
use laptop_bap_demo.LocalPoc.Bridge.Proxy.Bounds.{AllBounded, IsReply, messages_proxy-bounded}
use laptop_bap_demo.LocalPoc.Bridge.Response.{
  Message, anthropic_response, block_json, blocks_of, text_block, tool_use, written_calls,
}
use laptop_bap_demo.LocalPoc.Bridge.Response.Blocks.{IsCoherent, anthropic_response-IsCoherent}
use laptop_bap_demo.LocalPoc.Bridge.Stream.{events_of}
use laptop_bap_demo.LocalPoc.Bridge.Stream.Assembly.{events_of-assembled, initial, receive_all}

-- a `json` that knows the empty object and its encodings
abbrev dumps_some : Json → String
dumps_some (str s) = if s == "{}" then "\"{}\"" else "\"\\\"{}\\\"\""
dumps_some v = "{}"

abbrev loads_some : String → Option Json
loads_some s =
    if s == "{}"
    then some (obj end)
    else if s == "\"{}\""
    then some (str "{}")
    else if s == "\"\\\"{}\\\"\""
    then some (str "\"{}\"")
    else none

abbrev chat_reply : Json
chat_reply = obj (
    dict (
      (
        "choices",
        arr (
            cons
              (obj (
                dict (
                  ("message", obj (dict (("content", str "hi <tool_call>{}</tool_call>") ∷ [])))
                  ∷ ("finish_reason", str "stop")
                  ∷ [])))
              nil),
      )
      ∷ []))

abbrev bridge : Config
bridge = record {
  local_llm_model = "local";
  max_output_tokens = pos 1024;
  max_system_chars = 12000;
  default_temperature = null;
  token_hex = λ bytes n. "00";
  loads = loads_some;
  dumps = dumps_some;
  dumps_compact = dumps_some;
  get_models = raised "unused";
  post_chat = λ payload. ok (record { status_code = 200; text = ""; body = ok chat_reply });
}

abbrev fresh : BridgeState
fresh = record { draws = 0; posted = [] }

abbrev blocks : Items
blocks = items (
    obj (dict (("type", str "text") ∷ ("text", str "first") ∷ []))
    ∷ obj (
        dict (
          ("type", str "tool_result")
          ∷ ("tool_use_id", str "toolu_1")
          ∷ ("content", str "done")
          ∷ []))
    ∷ obj (dict (("type", str "text") ∷ ("text", str "last") ∷ []))
    ∷ [])

abbrev chat_request : Fields
chat_request = dict (
    ("max_tokens", nat 4096)
    ∷ ("messages", arr (cons (obj (dict (("content", arr blocks) ∷ []))) nil))
    ∷ [])

abbrev message : Message
message = record {
  id = "msg_1";
  model = str "local";
  content = text_block "hello" ∷ tool_use "toolu_1" "Bash" end ∷ [];
  stop_reason = "tool_use";
  input_tokens = pos 1;
  output_tokens = pos 2;
}

normalize_tool_input-encode_example :
    normalize_tool_input loads_some "Bash" (encode dumps_some loads_some end 3) ≡ end
normalize_tool_input-encode_example =
    normalize_tool_input-encode dumps_some loads_some end "Bash" 3 (omega arith)
      (refl, ((λ e. cc), (refl, ((λ e. cc), (refl, ((λ e. cc), tt))))))

count-compact_system_prompt_example :
    ((count "0123456789" ≤ 4) × (compact_system_prompt 4 "0123456789" ≡ "0123456789"))
    ⊎ ((4 < count "0123456789")
        × Cut (4 / 2) "0123456789" (compact_system_prompt 4 "0123456789")
        × (count (compact_system_prompt 4 "0123456789") ≡ 4 / 2 + 4 / 2 + 87))
count-compact_system_prompt_example = count-compact_system_prompt 4 "0123456789" (omega arith)

events_of-assembled_example :
    (receive_all loads_some initial (events_of dumps_some message)).complete
    ≡ map (λ b. obj (block_json b)) message.content
events_of-assembled_example = events_of-assembled dumps_some loads_some message (tt, (refl, tt))

user_messages-kept_example :
    (script (map content_text (user_messages [] blocks)) ≡ script (pieces blocks))
    × (answers (user_messages [] blocks) ≡ results blocks)
user_messages-kept_example = user_messages-kept blocks

messages_proxy-bounded_example :
    AllBounded bridge (messages_proxy bridge chat_request fresh).1
    × ((reply : Reply) × (((messages_proxy bridge chat_request fresh).0 ≡ ok reply)
          × IsReply reply))
messages_proxy-bounded_example = messages_proxy-bounded bridge chat_request fresh tt

abbrev answered : Message
answered = record {
  id = "msg_local_00";
  model = str "local-model";
  content = text_block "hi" ∷ [];
  stop_reason = "end_turn";
  input_tokens = pos 0;
  output_tokens = pos 0;
}

anthropic_response-IsCoherent_example : IsCoherent answered
unfolding anthropic_response lookup str_of truthy iterate int_of eq_json written_calls blocks_of
    find_calls drop_calls strip
anthropic_response-IsCoherent_example =
    anthropic_response-IsCoherent bridge chat_request chat_reply fresh answered refl

pieces_test : pieces blocks ≡ "first" ∷ "done" ∷ "last" ∷ []
unfolding pieces lookup str_of eq_json text_at_content
pieces_test = refl
