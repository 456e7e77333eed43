-- ===== src/LocalPoc/Bridge/Messages.antt =====
-- `convert_messages` of local_poc/ccbridge.py.
pub mod Transcript
use laptop_bap_demo.Base.{List, String, [], if◌then◌else◌, ◌++◌, ◌<>◌, ◌==◌, ◌∷◌}
use laptop_bap_demo.Base.Json.{
  Fields, Items, Json, arr, cons, dict, end, get, get_or, insert, items, nil, obj, or_else, str,
}
use laptop_bap_demo.Base.Json.Repr.{str_of}
use laptop_bap_demo.Base.Run.{Run, lift, pure, raise, ◌>>=◌, ◌>>◌}
use laptop_bap_demo.Base.Text.{join}
use laptop_bap_demo.LocalPoc.Bridge.Config.{BridgeState, Config, draw_hex, iterate}
use laptop_bap_demo.LocalPoc.Bridge.Content.{
  compact_system_prompt, is_kind, text_at_content, text_from_content, text_of_block,
}

abbrev pub text_message : String → String → Json
text_message role content = obj (dict (("role", str role) ∷ ("content", str content) ∷ []))

-- the texts gathered so far, as a message of the user, if there are any
abbrev pub flush : List String → List Json
flush [] = []
flush texts = text_message "user" (join "\n" texts) ∷ []

abbrev pub tool_message : Fields → Json
tool_message block = obj (
    dict (
      ("role", str "tool")
      ∷ ("tool_call_id", str (str_of (get_or block "tool_use_id" (str ""))))
      ∷ ("content", str (text_at_content block))
      ∷ []))

-- the blocks of a message of the user: the texts gathered go out before a result, and at the end
unfoldable pub user_messages : List String → Items → List Json
unfolding text_at_content
user_messages texts nil = flush texts
user_messages texts (cons (obj block) blocks) =
    let at_result = flush texts ++ tool_message block ∷ user_messages [] blocks in
    let at_text = user_messages (texts ++ text_of_block block ∷ []) blocks in
    let at_other = user_messages texts blocks in
    if is_kind block "tool_result"
    then at_result
    else if is_kind block "text"
    then at_text
    else at_other
user_messages texts (cons v blocks) = user_messages texts blocks

abbrev pub tool_call : Config → Fields → String → Json
tool_call c block hex = obj (
    dict (
      ("id", str (str_of (get_or block "id" (str ("call_" <> hex)))))
      ∷ ("type", str "function")
      ∷ (
        "function",
        obj (
            dict (
              ("name", str (str_of (get_or block "name" (str ""))))
              ∷ ("arguments", str (c.dumps (or_else (get block "input") (obj end))))
              ∷ [])),
      )
      ∷ []))

-- the texts and the calls of a message of the assistant. The default of `block.get("id", …)` is drawn
-- whether or not the block has an ID.
unfoldable pub assistant_parts : Config → Items → Run BridgeState (List String × List Json)
assistant_parts c nil = pure ([], [])
assistant_parts c (cons (obj block) blocks) =
    let at_text = (do
      (texts, calls) ← assistant_parts c blocks
      pure (text_of_block block ∷ texts, calls)) in
    let at_call = (do
      hex ← draw_hex c 8
      (texts, calls) ← assistant_parts c blocks
      pure (texts, tool_call c block hex ∷ calls)) in
    let at_other = assistant_parts c blocks in
    if is_kind block "text" then at_text else if is_kind block "tool_use" then at_call else at_other
assistant_parts c (cons v blocks) = assistant_parts c blocks

abbrev pub with_calls : List Json → Fields → Fields
with_calls [] fs = fs
with_calls calls fs = insert "tool_calls" (arr (items calls)) fs

abbrev pub assistant_message : List String × List Json → List Json
assistant_message (texts, calls) =
    obj (
      with_calls calls (dict (("role", str "assistant") ∷ ("content", str (join "\n" texts)) ∷ [])))
    ∷ []

-- one message of the request, by its content
abbrev pub convert_content : Config → String → Json → Run BridgeState (List Json)
convert_content c role (arr blocks) =
    if role == "assistant"
    then (do parts ← assistant_parts c blocks; pure (assistant_message parts))
    else pure (user_messages [] blocks)
convert_content c role content = pure (text_message role (str_of content) ∷ [])

unfoldable pub convert_message : Config → Json → Run BridgeState (List Json)
unfolding assistant_parts user_messages insert
convert_message c (obj source) =
    convert_content c (str_of (get_or source "role" (str "user")))
      (get_or source "content" (str ""))
convert_message c v = raise "AttributeError"

unfoldable pub convert_all : Config → Items → Run BridgeState (List Json)
unfolding convert_message
convert_all c nil = pure []
convert_all c (cons source sources) = do
  first ← convert_message c source
  rest ← convert_all c sources
  pure (first ++ rest)

abbrev pub system_messages : String → List Json
system_messages system = if system == "" then [] else text_message "system" system ∷ []

unfoldable pub convert_messages : Config → Fields → Run BridgeState (List Json)
unfolding convert_all compact_system_prompt text_from_content iterate
convert_messages c request = do
  let system =
      compact_system_prompt c.max_system_chars
        (text_from_content (get_or request "system" (str "")))
  sources ← lift (iterate (get_or request "messages" (arr nil)))
  rest ← convert_all c sources
  pure (system_messages system ++ rest)
