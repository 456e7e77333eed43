-- ===== src/LocalPoc/Bridge/Config.antt =====
-- What local_poc/ccbridge.py takes from outside: its environment, json, random draws and the local
-- model behind httpx.
use laptop_bap_demo.Base.{List, Option, String, ℕ, ◌+◌}
use laptop_bap_demo.Base.Int.{ℤ}
use laptop_bap_demo.Base.Json.{Fields, Items, Json, arr, cons, end, field, nil, obj, str}
use laptop_bap_demo.Base.Run.{Except, Run, ok, raised}

-- The answer of `client.post`: `body` is what `response.json()` gives or raises.
pub record HttpReply : Type 0 where
  pub status_code : ℕ
  pub text : String
  pub body : Except Json

-- `get_models` is the JSON of GET /models, or the exception of `client.get`, of `raise_for_status` or
-- of `json`. `default_temperature` is the number 0.2, since the values of the model hold no fractions.
-- `loads` is `none` where `json.loads` raises a `JSONDecodeError`. A limit on the characters of the
-- system prompt is taken not to be negative.
pub record Config : Type 0 where
  pub local_llm_model : String
  pub max_output_tokens : ℤ
  pub max_system_chars : ℕ
  pub default_temperature : Json
  pub token_hex : ℕ → ℕ → String
  pub loads : String → Option Json
  pub dumps : Json → String
  pub dumps_compact : Json → String
  pub get_models : Except Json
  pub post_chat : Fields → Except HttpReply

-- the number of random draws made, and the payloads sent to the local model, newest first
pub record BridgeState : Type 0 where
  pub draws : ℕ
  pub posted : List Fields

-- `secrets.token_hex(bytes)`
abbrev pub draw_hex : Config → ℕ → Run BridgeState String
draw_hex c bytes st = (ok (c.token_hex bytes st.draws), record st { draws = st.draws + 1 })

characters : String → Items
characters String.[] = nil
characters (String.◌∷◌ c s) = cons (str (String.◌∷◌ c "")) (characters s)

keys : Fields → Items
keys end = nil
keys (field k v fs) = cons (str k) (keys fs)

-- `for x in v`: the items of a list, the characters of a text, the keys of a dict
unfoldable pub iterate : Json → Except Items
unfolding characters keys
iterate (arr vs) = ok vs
iterate (str s) = ok (characters s)
iterate (obj fs) = ok (keys fs)
iterate v = raised "TypeError"
