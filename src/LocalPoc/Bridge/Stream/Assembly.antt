-- ===== src/LocalPoc/Bridge/Stream/Assembly.antt =====
-- What a client of the stream reads: it puts the blocks together from their deltas, as Anthropic's
-- documentation of the events says.
use text.Mathlib.TextLemmas.{nil-append}
use laptop_bap_demo.Base.{
  Bool, ap, List, arith, eqb, true, Option, String, [], append-nil, append_assoc, if◌then◌else◌,
  map, refl, some, sym, ℕ, ◌++◌, ◌+◌, ◌<>◌, ◌==◌, ◌∙◌, ◌∷◌, ◌≡◌,
}
use laptop_bap_demo.Base.Json.{
  Fields, Json, as_dict, end, eq_json, field, get, insert, lookup, nat, null, obj, or_else, str,
  truthy, update, value_or,
}
use laptop_bap_demo.Base.Json.Repr.{str_of}
use laptop_bap_demo.Base.Lists.{All, length, length-append}
use laptop_bap_demo.LocalPoc.Bridge.Response.{Block, Message, block_json, text_block, tool_use}
use laptop_bap_demo.LocalPoc.Bridge.Stream.{
  block_events, content_events, events_of, message_delta, message_stop,
}

-- the blocks that are complete, and the one that is open with the JSON text read so far
pub record Assembly : Type 0 where
  pub complete : List Json
  pub open_block : Fields
  pub partial_json : String

abbrev pub initial : Assembly
initial = record { complete = []; open_block = end; partial_json = "" }

abbrev dict_at : Fields → String → Fields
dict_at event k = as_dict (get event k)

abbrev text_at : Fields → String → String
text_at event k = str_of (get event k)

abbrev pub apply_delta : Fields → Assembly → Assembly
apply_delta delta a =
    if text_at delta "type" == "text_delta"
    then record a {
      open_block =
          insert "text" (str (text_at a.open_block "text" <> text_at delta "text")) a.open_block;
    }
    else record a { partial_json = a.partial_json <> text_at delta "partial_json" }

-- at the end of a block the JSON text becomes the input of a tool's use
abbrev pub close_block : (String → Option Json) → Fields → String → Fields
close_block loads block partial =
    if text_at block "type" == "tool_use"
    then insert "input" (value_or null (loads partial)) block
    else block

-- an event is for the block that follows the complete ones, by its index
abbrev pub is_next : Fields → Assembly → Bool
is_next event a = eq_json (get event "index") (nat (length a.complete))

-- what an event of a block does to it
abbrev pub take_event : (String → Option Json) → Assembly → Fields → Assembly
take_event loads a event =
    if text_at event "type" == "content_block_start"
    then record a { open_block = dict_at event "content_block"; partial_json = "" }
    else if text_at event "type" == "content_block_delta"
    then apply_delta (dict_at event "delta") a
    else if text_at event "type" == "content_block_stop"
    then record a {
      complete = a.complete ++ obj (close_block loads a.open_block a.partial_json) ∷ [];
    }
    else a

-- An event that is not for the next block is passed over.
unfoldable pub receive : (String → Option Json) → Assembly → Fields → Assembly
unfolding lookup insert str_of eq_json
receive loads a event = if is_next event a then take_event loads a event else a

abbrev pub receive_all : (String → Option Json) → Assembly → List Fields → Assembly
receive_all loads a [] = a
receive_all loads a (event ∷ events) = receive_all loads (receive loads a event) events

-- `json.loads` reads what `json.dumps` wrote of the input
abbrev pub IsReadable : (Json → String) → (String → Option Json) → Block → Type 0
IsReadable dumps loads (text_block t) = Unit
IsReadable dumps loads (tool_use id name input) = loads (dumps (obj input)) ≡ some (obj input)

eqb-of-path : (a b : ℕ) → a ≡ b → eqb a b ≡ true
eqb-of-path a b e = ground arith

module _ (dumps : Json → String) (loads : String → Option Json) where
  or_else_empty : (fs : Fields) → or_else (obj fs) (obj end) ≡ obj fs
  unfolding truthy
  or_else_empty end = refl
  or_else_empty (field k v fs) = refl

  received_next :
      (a : Assembly) (event : Fields)
      → is_next event a ≡ true
      → receive loads a event ≡ take_event loads a event
  unfolding receive
  received_next a event next = rw next refl

  three_events :
      (a : Assembly) (start delta stop : Fields)
      → is_next start a ≡ true
      → is_next delta (take_event loads a start) ≡ true
      → is_next stop (take_event loads (take_event loads a start) delta) ≡ true
      → receive_all loads a (start ∷ delta ∷ stop ∷ [])
        ≡ take_event loads (take_event loads (take_event loads a start) delta) stop
  three_events a start delta stop p q r =
      ap (λ b. receive loads (receive loads b delta) stop) (received_next a start p)
      ∙ ap (λ b. receive loads b stop) (received_next (take_event loads a start) delta q)
      ∙ received_next (take_event loads (take_event loads a start) delta) stop r

  blocks-received :
      (a : Assembly) (index : ℕ) (block : Block)
      → eqb index (length a.complete) ≡ true
      → IsReadable dumps loads block
      → (receive_all loads a (block_events dumps index block)).complete
        ≡ a.complete ++ obj (block_json block) ∷ []
  unfolding update insert lookup str_of eq_json
  blocks-received a index (text_block t) next readable =
      ap (λ b. b.complete) (three_events a _ _ _ next next next) ∙ rw (nil-append t) refl
  blocks-received a index (tool_use id name input) next readable =
      ap (λ b. b.complete) (three_events a _ _ _ next next next)
      ∙ rw (nil-append (dumps (or_else (obj input) (obj end))), or_else_empty input, readable) refl

  content-received :
      (m : Message) (blocks : List Block) (a : Assembly) (index : ℕ)
      → index ≡ length a.complete
      → All (IsReadable dumps loads) blocks
      → (receive_all loads a
          (content_events dumps index blocks ++ message_delta m ∷ message_stop ∷ [])).complete
        ≡ a.complete ++ map (λ b. obj (block_json b)) blocks
  unfolding content_events receive update insert lookup str_of eq_json
  content-received m [] a index next readable = sym (append-nil a.complete)
  content-received m (block ∷ blocks) a index next (first, rest) =
      let after = receive_all loads a (block_events dumps index block) in
      let received =
        blocks-received a index block (eqb-of-path index (length a.complete) next) first in
      let following : index + 1 ≡ length after.complete =
        rw received (omega (arith, next, length-append a.complete (obj (block_json block) ∷ []))) in
      content-received m blocks after (index + 1) following rest
      ∙ (rw received (append_assoc a.complete _ _))

  -- From the events of a message a client that goes by the index of each event, and passes over an event
  -- with the index of another block than the next, puts together the very content of the message, where `json.loads` undoes `json.dumps` on the inputs of its tool calls.
  pub events_of-assembled :
      (m : Message)
      → All (IsReadable dumps loads) m.content
      → (receive_all loads initial (events_of dumps m)).complete
        ≡ map (λ b. obj (block_json b)) m.content
  unfolding events_of receive update insert lookup str_of eq_json
  events_of-assembled m readable = content-received m m.content initial 0 refl readable
