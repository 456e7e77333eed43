-- ===== src/LocalPoc/Bridge/Messages/Transcript.antt =====
-- What a message of the user becomes: nothing of it is lost, and nothing changes places.
use text.Mathlib.TextLemmas.{nil-append, append_assoc as text_assoc}
use laptop_bap_demo.Base.{
  Bool-cases, List, String, [], ap, append-nil, append_assoc, if◌then◌else◌, inl, inr, map, refl,
  sym, ◌++◌, ◌<>◌, ◌==◌, ◌∙◌, ◌∷◌, ◌≡◌,
}
use laptop_bap_demo.Base.Json.{
  Fields, Items, Json, arr, as_dict, bool, cons, get, get_or, int, lookup, nil, null, obj, str,
}
use laptop_bap_demo.Base.Json.Repr.{str_of}
use laptop_bap_demo.Base.Text.{join}
use laptop_bap_demo.LocalPoc.Bridge.Content.{is_kind, text_at_content, text_of_block}
use laptop_bap_demo.LocalPoc.Bridge.Messages.{flush, tool_message, user_messages}

-- the texts one under the other, each with its end of line
unfoldable pub script : List String → String
script [] = ""
script (s ∷ rest) = s <> ("\n" <> script rest)

-- the texts and the results of the blocks, in their order
unfoldable pub pieces : Items → List String
pieces nil = []
pieces (cons (obj block) blocks) =
    (if is_kind block "tool_result"
      then text_at_content block ∷ []
      else if is_kind block "text"
      then text_of_block block ∷ []
      else [])
    ++ pieces blocks
pieces (cons v blocks) = pieces blocks

-- a result, with the ID of its tool use
abbrev pub result_of : Fields → String × String
result_of block = (str_of (get_or block "tool_use_id" (str "")), text_at_content block)

-- the results of the blocks, in their order
unfoldable pub results : Items → List (String × String)
results nil = []
results (cons (obj block) blocks) =
    (if is_kind block "tool_result" then result_of block ∷ [] else []) ++ results blocks
results (cons v blocks) = results blocks

abbrev pub content_text : Json → String
content_text message = str_of (get (as_dict message) "content")

-- what a message of the tool answers, and to which call
abbrev pub answer_of : Json → List (String × String)
answer_of message =
    if str_of (get (as_dict message) "role") == "tool"
    then (str_of (get (as_dict message) "tool_call_id"), content_text message) ∷ []
    else []

unfoldable pub answers : List Json → List (String × String)
answers [] = []
answers (m ∷ ms) = answer_of m ++ answers ms

script-append : (xs ys : List String) → script (xs ++ ys) ≡ script xs <> script ys
unfolding script
script-append [] ys = sym (nil-append (script ys))
script-append (x ∷ xs) ys = simp (script-append xs ys, text_assoc)

script-join : (s : String) (rest : List String) → join "\n" (s ∷ rest) <> "\n" ≡ script (s ∷ rest)
unfolding script join
script-join s [] = refl
script-join s (t ∷ rest) =
    text_assoc s ("\n" <> join "\n" (t ∷ rest)) "\n"
    ∙ ap (λ u. s <> u)
        (text_assoc "\n" (join "\n" (t ∷ rest)) "\n" ∙ ap (λ u. "\n" <> u) (script-join t rest))

script-flush : (texts : List String) → script (map content_text (flush texts)) ≡ script texts
unfolding lookup str_of script
script-flush [] = refl
script-flush (s ∷ rest) = script-join s rest

answers-flush : (texts : List String) (ms : List Json) → answers (flush texts ++ ms) ≡ answers ms
unfolding answers lookup str_of
answers-flush [] ms = refl
answers-flush (s ∷ rest) ms = refl

script-flush_then :
    (texts : List String) (m : Json) (ms : List Json)
    → script (map content_text (flush texts ++ m ∷ ms))
      ≡ script texts <> script (content_text m ∷ map content_text ms)
unfolding lookup str_of script
script-flush_then [] m ms = sym (nil-append _)
script-flush_then (s ∷ rest) m ms =
    sym (text_assoc (join "\n" (s ∷ rest)) "\n" (script (content_text m ∷ map content_text ms)))
    ∙ ap (λ u. u <> script (content_text m ∷ map content_text ms)) (script-join s rest)

user_messages-script :
    (texts : List String) (blocks : Items)
    → script (map content_text (user_messages texts blocks)) ≡ script (texts ++ pieces blocks)
unfolding user_messages pieces lookup str_of script
user_messages-script texts nil = script-flush texts ∙ ap script (sym (append-nil texts))
user_messages-script texts (cons (obj block) blocks) =
    elim (Bool-cases (is_kind block "tool_result")) [
      | inl result ↦
          rw (result, script-flush_then texts (tool_message block) (user_messages [] blocks))
            (rw script-append (
              ap (λ u. script texts <> (text_at_content block <> ("\n" <> u)))
                (user_messages-script [] blocks)))
      | inr other ↦ elim (Bool-cases (is_kind block "text")) [
        | inl text ↦
            rw (other, text)
              (user_messages-script (texts ++ text_of_block block ∷ []) blocks
                ∙ ap script (append_assoc texts (text_of_block block ∷ []) (pieces blocks)))
        | inr skip ↦ rw (other, skip) (user_messages-script texts blocks)
      ]
    ]
user_messages-script texts (cons null blocks) = user_messages-script texts blocks
user_messages-script texts (cons (bool b) blocks) = user_messages-script texts blocks
user_messages-script texts (cons (int z) blocks) = user_messages-script texts blocks
user_messages-script texts (cons (str s) blocks) = user_messages-script texts blocks
user_messages-script texts (cons (arr vs) blocks) = user_messages-script texts blocks

user_messages-answers :
    (texts : List String) (blocks : Items) → answers (user_messages texts blocks) ≡ results blocks
unfolding user_messages results lookup str_of answers
user_messages-answers texts nil = rw (← append-nil (flush texts)) (answers-flush texts [])
user_messages-answers texts (cons (obj block) blocks) =
    elim (Bool-cases (is_kind block "tool_result")) [
      | inl result ↦ rw result (
          answers-flush texts (tool_message block ∷ user_messages [] blocks)
          ∙ ap (λ rest. result_of block ∷ rest) (user_messages-answers [] blocks))
      | inr other ↦ elim (Bool-cases (is_kind block "text")) [
        | inl text ↦
            rw (other, text) (user_messages-answers (texts ++ text_of_block block ∷ []) blocks)
        | inr skip ↦ rw (other, skip) (user_messages-answers texts blocks)
      ]
    ]
user_messages-answers texts (cons null blocks) = user_messages-answers texts blocks
user_messages-answers texts (cons (bool b) blocks) = user_messages-answers texts blocks
user_messages-answers texts (cons (int z) blocks) = user_messages-answers texts blocks
user_messages-answers texts (cons (str s) blocks) = user_messages-answers texts blocks
user_messages-answers texts (cons (arr vs) blocks) = user_messages-answers texts blocks

-- The messages that the blocks of a message of the user become hold its texts and the results of its
-- tool uses line for line in their order; and the messages of the tool are those results, one message
-- for each in their order, each with the ID of its own tool use and with nothing but its text.
pub user_messages-kept :
    (blocks : Items)
    → (script (map content_text (user_messages [] blocks)) ≡ script (pieces blocks))
      × (answers (user_messages [] blocks) ≡ results blocks)
user_messages-kept blocks = (user_messages-script [] blocks, user_messages-answers [] blocks)
