-- ===== src/LocalPoc/Bridge/Inputs/Encoding.antt =====
-- A tool input that was encoded again and again.
use laptop_bap_demo.Base.{
  Bool-cases, Option, String, arith, false, inl, inr, refl, some, suc, zero, ℕ, ◌≡◌, ◌≢◌, ◌≤◌,
}
use laptop_bap_demo.Base.Json.{Fields, Json, eq_json, eq_json-str, obj, str}
use laptop_bap_demo.LocalPoc.Bridge.Inputs.{normalize_tool_input, rounds}

module _ (dumps : Json → String) (loads : String → Option Json) (fs : Fields) where
  -- the input after n encodings
  abbrev pub encode : ℕ → Json
  encode zero = obj fs
  encode (suc n) = str (dumps (encode n))

  -- `json.loads` reads what `json.dumps` wrote of the input, up to n encodings, and a text is not its
  -- own encoding
  abbrev pub Decodable : ℕ → Type 0
  Decodable zero = Unit
  Decodable (suc n) =
      (loads (dumps (encode n)) ≡ some (encode n)) × ((encode n ≢ encode (suc n)) × Decodable n)

  module _ (tool_name : String) where
    other_text : (n : ℕ) → encode n ≢ encode (suc n) → eq_json (encode n) (encode (suc n)) ≡ false
    other_text n other = elim (Bool-cases (eq_json (encode n) (encode (suc n)))) [
      | inl same ↦ absurd (other (eq_json-str (encode n) (dumps (encode n)) same))
      | inr differ ↦ differ
    ]

    rounds-encode :
        (n fuel : ℕ) → n ≤ fuel → Decodable n → rounds loads tool_name fuel (encode n) ≡ fs
    unfolding rounds
    rounds-encode zero zero bound d = refl
    rounds-encode zero (suc fuel) bound d = refl
    rounds-encode (suc n) zero bound d = absurd (omega arith)
    rounds-encode (suc n) (suc fuel) bound (reads, (other, d)) =
        rw (reads, other_text n other, rounds) (rounds-encode n fuel (omega arith) d)

  -- An input that the local model encoded as JSON at most three times is decoded to the input, where
  -- `json.loads` undoes `json.dumps`, whatever the tool.
  pub normalize_tool_input-encode :
      (tool_name : String) (n : ℕ)
      → n ≤ 3
      → Decodable n
      → normalize_tool_input loads tool_name (encode n) ≡ fs
  unfolding normalize_tool_input
  normalize_tool_input-encode tool_name n bound d = rounds-encode tool_name n 3 bound d
