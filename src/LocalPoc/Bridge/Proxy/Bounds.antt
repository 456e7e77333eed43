-- ===== src/LocalPoc/Bridge/Proxy/Bounds.antt =====
-- What the bridge sends to the local model.
use laptop_bap_demo.Base.{
  Bool-cases, List, String, [], arith, false, inl, inr, refl, some, true, ◌++◌, ◌+◌, ◌==◌, ◌∷◌, ◌≡◌,
  ◌⊎◌,
}
use laptop_bap_demo.Base.Int.{leb_ℤ, negsuc, pos, ℤ}
use laptop_bap_demo.Base.Json.{
  Fields, Items, Json, arr, bool, cons, get, get_or, insert, int, lookup, nil, null, obj, str,
  truthy,
}
use laptop_bap_demo.Base.Json.Lookup.{lookup-insert}
use laptop_bap_demo.Base.Json.Number.{int_of}
use laptop_bap_demo.Base.Json.Repr.{str_of}
use laptop_bap_demo.Base.Lists.{All}
use laptop_bap_demo.Base.Run.{
  Any, Except, OfOk, OfOk-Any, Yields, Yields-Any_bind, Yields-bind, Yields-if, Yields-lift_bind,
  Yields-pure, Yields-raise, ok, raised,
}
use laptop_bap_demo.LocalPoc.Bridge.Config.{BridgeState, Config, HttpReply, draw_hex, iterate}
use laptop_bap_demo.LocalPoc.Bridge.Content.{text_of_block}
use laptop_bap_demo.LocalPoc.Bridge.Messages.{
  assistant_message, assistant_parts, convert_all, convert_content, convert_message,
  convert_messages, tool_call,
}
use laptop_bap_demo.LocalPoc.Bridge.Proxy.{
  Reply, answer_with, api_error, ask_model, base_payload, convert_reply, json_reply, messages_proxy,
  min_ℤ, model_id, or_error, payload_of, post_chat, stream_reply, with_tools,
}
use laptop_bap_demo.LocalPoc.Bridge.Response.{Message, anthropic_response}
use laptop_bap_demo.LocalPoc.Bridge.Response.Blocks.{anthropic_response-Yields, draw_hex-Yields}
use laptop_bap_demo.LocalPoc.Bridge.Tools.{Tool, convert_tools}

-- the payload asks for no more tokens than the limit of the configuration, and for no stream
pub record IsBounded (c : Config) (payload : Fields) : Type 0 where
  pub max_tokens : ℤ
  pub asked : lookup payload "max_tokens" ≡ some (int max_tokens)
  pub within : leb_ℤ max_tokens c.max_output_tokens ≡ true
  pub no_stream : lookup payload "stream" ≡ some (bool false)

min_ℤ-le : (a b : ℤ) → leb_ℤ (min_ℤ a b) b ≡ true
min_ℤ-le (pos a) (pos b) = ground arith
min_ℤ-le (pos a) (negsuc b) = ground arith
min_ℤ-le (negsuc a) (pos b) = ground arith
min_ℤ-le (negsuc a) (negsuc b) = ground arith

base_payload-IsBounded :
    (c : Config) (request : Fields) (model : String) (messages : List Json) (n : ℤ)
    → IsBounded c (base_payload c request model messages n)
unfolding lookup
base_payload-IsBounded c request model messages n = record {
  max_tokens = min_ℤ n c.max_output_tokens;
  asked = refl;
  within = min_ℤ-le n c.max_output_tokens;
  no_stream = refl;
}

insert-IsBounded :
    (c : Config) (k : String) (v : Json) (payload : Fields)
    → (k == "max_tokens") ≡ false
    → (k == "stream") ≡ false
    → IsBounded c payload
    → IsBounded c (insert k v payload)
insert-IsBounded c k v payload other other' b = record {
  max_tokens = b.max_tokens;
  asked = rw (lookup-insert, other) b.asked;
  within = b.within;
  no_stream = rw (lookup-insert, other') b.no_stream;
}

with_tools-IsBounded :
    (c : Config) (request : Fields) (messages : List Json) (tools : List Tool) (payload : Fields)
    → IsBounded c payload
    → IsBounded c (with_tools request messages tools payload)
unfolding with_tools
with_tools-IsBounded c request messages [] payload b = b
with_tools-IsBounded c request messages (t ∷ ts) payload b =
    insert-IsBounded c "tool_choice" _ _ refl refl
      (insert-IsBounded c "tools" _ payload refl refl b)

-- A property of the state that the draws keep.
module _ (c : Config) (P : BridgeState → Type 0)
    (drawn : (st : BridgeState) → P st → P (record st { draws = st.draws + 1 })) where
  assistant_parts-Yields :
      (blocks : Items) → Yields P (Any {A = List String × List Json}) (assistant_parts c blocks)
  unfolding assistant_parts
  assistant_parts-Yields nil = Yields-pure _ tt
  assistant_parts-Yields (cons (obj block) blocks) =
      Yields-if _ _ _
        (Yields-Any_bind (assistant_parts c blocks) _ (assistant_parts-Yields blocks)
          λ (texts, calls). Yields-pure (text_of_block block ∷ texts, calls) tt)
        (Yields-if _ _ _
          (Yields-Any_bind (draw_hex c 8) _ (draw_hex-Yields c P drawn 8) λ hex.
            Yields-Any_bind (assistant_parts c blocks) _ (assistant_parts-Yields blocks)
              λ (texts, calls). Yields-pure (texts, tool_call c block hex ∷ calls) tt)
          (assistant_parts-Yields blocks))
  assistant_parts-Yields (cons null blocks) = assistant_parts-Yields blocks
  assistant_parts-Yields (cons (bool b) blocks) = assistant_parts-Yields blocks
  assistant_parts-Yields (cons (int z) blocks) = assistant_parts-Yields blocks
  assistant_parts-Yields (cons (str s) blocks) = assistant_parts-Yields blocks
  assistant_parts-Yields (cons (arr vs) blocks) = assistant_parts-Yields blocks

  content-Yields :
      (role : String) (content : Json)
      → Yields P (Any {A = List Json}) (convert_content c role content)
  content-Yields role (arr blocks) =
      Yields-if _ _ _
        (Yields-Any_bind (assistant_parts c blocks) _ (assistant_parts-Yields blocks)
          λ parts. Yields-pure (assistant_message parts) tt)
        (Yields-pure _ tt)
  content-Yields role null = Yields-pure _ tt
  content-Yields role (bool b) = Yields-pure _ tt
  content-Yields role (int z) = Yields-pure _ tt
  content-Yields role (str s) = Yields-pure _ tt
  content-Yields role (obj fs) = Yields-pure _ tt

  message-Yields : (source : Json) → Yields P (Any {A = List Json}) (convert_message c source)
  unfolding convert_message
  message-Yields (obj source) =
      content-Yields (str_of (get_or source "role" (str "user"))) (get_or source "content" (str ""))
  message-Yields null = Yields-raise _
  message-Yields (bool b) = Yields-raise _
  message-Yields (int z) = Yields-raise _
  message-Yields (str s) = Yields-raise _
  message-Yields (arr vs) = Yields-raise _

  convert_all-Yields : (sources : Items) → Yields P (Any {A = List Json}) (convert_all c sources)
  unfolding convert_all
  convert_all-Yields nil = Yields-pure _ tt
  convert_all-Yields (cons source sources) =
      Yields-Any_bind (convert_message c source) _ (message-Yields source) λ first.
        Yields-Any_bind (convert_all c sources) _ (convert_all-Yields sources)
          λ rest. Yields-pure (first ++ rest) tt

  convert_messages-Yields :
      (request : Fields) → Yields P (Any {A = List Json}) (convert_messages c request)
  unfolding convert_messages
  convert_messages-Yields request =
      Yields-lift_bind (iterate (get_or request "messages" (arr nil))) _ λ sources.
        Yields-Any_bind (convert_all c sources) _ (convert_all-Yields sources)
          λ rest. Yields-pure _ tt

  payload_of-Yields : (request : Fields) → Yields P (IsBounded c) (payload_of c request)
  unfolding payload_of
  payload_of-Yields request = Yields-lift_bind (model_id c) _ λ model.
      Yields-Any_bind (convert_messages c request) _ (convert_messages-Yields request) λ messages.
        Yields-lift_bind (int_of (get_or request "max_tokens" (int c.max_output_tokens))) _ λ n.
          Yields-lift_bind (convert_tools request) _ λ tools.
            Yields-pure
              (with_tools request messages tools (base_payload c request model messages n))
              (with_tools-IsBounded c request messages tools _
                (base_payload-IsBounded c request model messages n))

-- every payload that was sent is bounded
abbrev pub AllBounded : Config → BridgeState → Type 0
AllBounded c st = All (IsBounded c) st.posted

-- a reply with one of the two statuses
abbrev pub IsReply : Reply → Type 0
IsReply (json_reply status fields) = (status ≡ 200) ⊎ (status ≡ 502)
IsReply (stream_reply events) = Unit

module _ (c : Config) (request : Fields) where
  answer-IsReply : (converted : Message) → IsReply (answer_with c request converted)
  answer-IsReply converted = elim (Bool-cases (truthy (get request "stream"))) [
    | inl stream ↦ rw stream tt
    | inr whole ↦ rw whole (inl refl)
  ]

  convert_reply-Yields :
      (response : HttpReply) → Yields (AllBounded c) IsReply (convert_reply c request response)
  convert_reply-Yields response = Yields-if _ _ _ (Yields-pure _ (inr refl)) (
      Yields-lift_bind response.body _ λ body.
        Yields-bind (anthropic_response c request body) _
          (anthropic_response-Yields c (AllBounded c) (λ st p. p) request body)
          λ converted _. Yields-pure (answer_with c request converted) (answer-IsReply converted))

  ask_model-Yields : Yields (AllBounded c) IsReply (ask_model c request)
  ask_model-Yields =
      Yields-bind (payload_of c request) _ (payload_of-Yields c (AllBounded c) (λ st p. p) request)
        λ payload bounded.
          Yields-bind {Q = Any {A = HttpReply}} (post_chat c payload) _
            (record {
              after = λ st p. (bounded, p);
              result = λ st p. OfOk-Any (c.post_chat payload);
            })
            λ response _. convert_reply-Yields response

  or_error-replies :
      (r : Except Reply) (st : BridgeState)
      → OfOk IsReply r
      → (reply : Reply) × ((or_error r st ≡ (ok reply, st)) × IsReply reply)
  or_error-replies (ok reply) st h = (reply, (refl, h))
  or_error-replies (raised e) st h = (api_error e, (refl, inr refl))

  -- Whatever a request for a message holds and whatever the local model answers or fails with, every
  -- payload that the bridge has sent to the model asks for no stream and for `max_tokens` that are at
  -- most its limit, if this held before; and it replies: with status 200 or 502, or with a stream.
  pub messages_proxy-bounded :
      (st : BridgeState)
      → AllBounded c st
      → AllBounded c (messages_proxy c request st).1
        × ((reply : Reply) × (((messages_proxy c request st).0 ≡ ok reply) × IsReply reply))
  unfolding messages_proxy
  messages_proxy-bounded st p =
      let (reply, (e, h)) =
        or_error-replies (ask_model c request st).0 (ask_model c request st).1
          (ask_model-Yields.result st p) in
      (rw e (ask_model-Yields.after st p), (reply, (rw e refl, h)))
