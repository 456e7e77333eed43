-- ===== src/LocalPoc/Bridge/Response/Blocks.antt =====
-- What `anthropic_response` answers with.
use laptop_bap_demo.Base.{
  Bool, Bool-cases, List, Option, String, [], false, inl, inr, none, refl, some, sym, true, ℕ, ◌++◌,
  ◌+◌, ◌<>◌, ◌==◌, ◌||◌, ◌∙◌, ◌∷◌, ◌≡◌,
}
use laptop_bap_demo.Base.Json.{
  Fields, Json, arr, end, eq_json, get, get_or, listed, nat, nil, obj, or_else, str,
}
use laptop_bap_demo.Base.Json.Number.{int_of}
use laptop_bap_demo.Base.Run.{
  Any, OfOk-Any, Yields, Yields-Any_bind, Yields-bind, Yields-if, Yields-lift, Yields-lift_bind,
  Yields-pure, lift, ok,
}
use laptop_bap_demo.Base.Text.{strip}
use laptop_bap_demo.LocalPoc.Bridge.Calls.{calls_in, without_calls}
use laptop_bap_demo.LocalPoc.Bridge.Config.{BridgeState, Config, draw_hex, iterate}
use laptop_bap_demo.LocalPoc.Bridge.Content.{text_or_empty}
use laptop_bap_demo.LocalPoc.Bridge.Response.{
  Block, Message, anthropic_response, block_of, blocks_of, call_json, dict_of, finish, first_choice,
  id_or_draw, message_of, or_empty_text, read_call, split_content, stop_reason_of, text_block,
  text_blocks, tool_use, usage_of, written_call, written_calls,
}

abbrev pub is_tool_use : Block → Bool
is_tool_use (text_block t) = false
is_tool_use (tool_use id name input) = true

abbrev pub has_tool_use : List Block → Bool
has_tool_use [] = false
has_tool_use (b ∷ bs) = is_tool_use b || has_tool_use bs

abbrev pub is_some : {A : Type 0} → List A → Bool
is_some [] = false
is_some (x ∷ xs) = true

-- There is a block, and the reason to stop is the use of a tool exactly when there is such a block.
pub record IsCoherent (m : Message) : Type 0 where
  pub some_block : is_some m.content ≡ true
  pub reason : (m.stop_reason == "tool_use") ≡ has_tool_use m.content

-- A property of the state that the draws keep.
module _ (c : Config) (P : BridgeState → Type 0)
    (drawn : (st : BridgeState) → P st → P (record st { draws = st.draws + 1 })) where
  pub draw_hex-Yields : (bytes : ℕ) → Yields P (Any {A = String}) (draw_hex c bytes)
  draw_hex-Yields bytes = record { after = λ st p. drawn st p; result = λ st p. tt }

  written_call-Yields : (parsed : Fields) → Yields P (Any {A = List Json}) (written_call c parsed)
  written_call-Yields parsed =
      Yields-if _ _ _
        (Yields-bind _ _ (draw_hex-Yields 12) λ hex _. Yields-pure (call_json c parsed hex ∷ []) tt)
        (Yields-pure [] tt)

  read_call-Yields : (v : Option Json) → Yields P (Any {A = List Json}) (read_call c v)
  read_call-Yields none = Yields-pure [] tt
  read_call-Yields (some v) =
      Yields-bind (lift (dict_of v)) (written_call c)
        (Yields-lift (dict_of v) (OfOk-Any (dict_of v))) λ parsed _. written_call-Yields parsed

  written_calls-Yields :
      (groups : List String) → Yields P (Any {A = List Json}) (written_calls c groups)
  unfolding written_calls
  written_calls-Yields [] = Yields-pure [] tt
  written_calls-Yields (group ∷ groups) =
      Yields-bind _ _ (read_call-Yields (c.loads group))
        λ first _. Yields-bind _ _ (written_calls-Yields groups) λ rest _. Yields-pure _ tt

  split_content-Yields :
      (content : String) (calls : List Json)
      → Yields P (Any {A = String × List Json}) (split_content c content calls)
  split_content-Yields content [] = Yields-if _ _ _ (Yields-pure _ tt) (
      Yields-bind _ _ (written_calls-Yields (calls_in content))
        λ calls _. Yields-pure (strip (without_calls content), calls) tt)
  split_content-Yields content (call ∷ calls) = Yields-pure _ tt

  id_or_draw-Yields : (id : Json) → Yields P (Any {A = String}) (id_or_draw c id)
  id_or_draw-Yields id =
      Yields-if _ _ _ (Yields-pure _ tt)
        (Yields-bind _ _ (draw_hex-Yields 12) λ hex _. Yields-pure ("toolu_" <> hex) tt)

  block_of-Yields : (v : Json) → Yields P (λ b. is_tool_use b ≡ true) (block_of c v)
  block_of-Yields v = Yields-lift_bind (dict_of v) _ λ call.
      Yields-lift_bind (dict_of (or_else (get call "function") (obj end))) _ λ function.
        Yields-Any_bind (id_or_draw c (get call "id")) _ (id_or_draw-Yields (get call "id"))
          λ id. Yields-pure _ refl

  blocks_of-Yields :
      (calls : List Json) → Yields P (λ bs. has_tool_use bs ≡ is_some calls) (blocks_of c calls)
  unfolding blocks_of
  blocks_of-Yields [] = Yields-pure [] refl
  blocks_of-Yields (call ∷ calls) = Yields-bind _ _ (block_of-Yields call) λ first is_use.
      Yields-bind _ _ (blocks_of-Yields calls) λ rest _. Yields-pure (first ∷ rest) (rw is_use refl)

has_tool_use-text_blocks :
    (content : String) (bs : List Block)
    → has_tool_use (text_blocks content ++ bs) ≡ has_tool_use bs
has_tool_use-text_blocks content bs = elim (Bool-cases (content == "")) [
  | inl blank ↦ rw blank refl
  | inr other ↦ rw other refl
]

or_empty_text-some : (bs : List Block) → is_some (or_empty_text bs) ≡ true
or_empty_text-some [] = refl
or_empty_text-some (b ∷ bs) = refl

or_empty_text-uses : (bs : List Block) → has_tool_use (or_empty_text bs) ≡ has_tool_use bs
or_empty_text-uses [] = refl
or_empty_text-uses (b ∷ bs) = refl

stop_reason-uses :
    (calls : List Json) (finish_reason : Json)
    → (stop_reason_of calls finish_reason == "tool_use") ≡ is_some calls
stop_reason-uses [] finish_reason = elim (Bool-cases (eq_json finish_reason (str "length"))) [
  | inl long ↦ rw long refl
  | inr other ↦ rw other refl
]
stop_reason-uses (call ∷ calls) finish_reason = refl

module _ (c : Config) (P : BridgeState → Type 0)
    (drawn : (st : BridgeState) → P st → P (record st { draws = st.draws + 1 })) where
  finish-Yields :
      (request openai_data choice : Fields) (content : String) (bs : List Block) (calls : List Json)
      → has_tool_use bs ≡ is_some calls
      → Yields P IsCoherent (finish c request openai_data choice (text_blocks content ++ bs) calls)
  finish-Yields request openai_data choice content bs calls uses =
      Yields-lift_bind (usage_of openai_data) _ λ usage.
        Yields-Any_bind (draw_hex c 12) _ (draw_hex-Yields c P drawn 12) λ hex.
          Yields-lift_bind (int_of (get_or usage "prompt_tokens" (nat 0))) _ λ input_tokens.
            Yields-lift_bind (int_of (get_or usage "completion_tokens" (nat 0))) _ λ output_tokens.
              Yields-pure
                (message_of request choice (text_blocks content ++ bs) calls hex input_tokens
                  output_tokens)
                (record {
                  some_block = or_empty_text-some (text_blocks content ++ bs);
                  reason =
                      stop_reason-uses calls (get choice "finish_reason")
                      ∙ sym uses
                      ∙ sym (has_tool_use-text_blocks content bs)
                      ∙ sym (or_empty_text-uses (text_blocks content ++ bs));
                })

  pub anthropic_response-Yields :
      (request : Fields) (v : Json) → Yields P IsCoherent (anthropic_response c request v)
  unfolding anthropic_response
  anthropic_response-Yields request v = Yields-lift_bind (first_choice v) _ λ choice_json.
      Yields-lift_bind (dict_of choice_json) _ λ choice.
        Yields-lift_bind (dict_of (or_else (get choice "message") (obj end))) _ λ message.
          Yields-lift_bind (iterate (or_else (get message "tool_calls") (arr nil))) _ λ named.
            Yields-Any_bind (split_content c (text_or_empty (get message "content")) (listed named))
              _
              (split_content-Yields c P drawn (text_or_empty (get message "content"))
                (listed named))
              λ (content, calls).
                Yields-bind (blocks_of c calls) _ (blocks_of-Yields c P drawn calls) λ bs uses.
                  Yields-lift_bind (dict_of v) _
                    λ openai_data. finish-Yields request openai_data choice content bs calls uses

-- A message that the bridge answers with has a block, and its reason to stop is the use of a tool
-- exactly when one of its blocks is a tool's use, whatever the local model wrote.
pub anthropic_response-IsCoherent :
    (c : Config) (request : Fields) (v : Json) (st : BridgeState) (m : Message)
    → (anthropic_response c request v st).0 ≡ ok m
    → IsCoherent m
anthropic_response-IsCoherent c request v st m e =
    rw e at ((anthropic_response-Yields c Any (λ st p. tt) request v).result st tt)
