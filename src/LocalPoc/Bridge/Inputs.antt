-- ===== src/LocalPoc/Bridge/Inputs.antt =====
-- `normalize_tool_input` of local_poc/ccbridge.py.
pub mod Encoding
use laptop_bap_demo.Base.{
  Option, String, [], false, if◌then◌else◌, none, some, suc, true, zero, ℕ, ◌==◌, ◌∷◌,
}
use laptop_bap_demo.Base.Json.{Fields, Json, dict, end, eq_json, obj, str}

module _ (loads : String → Option Json) (tool_name : String) where
  -- a text that is no JSON
  abbrev pub wrap : String → Fields
  wrap s =
      if tool_name == "Bash" then dict (("command", str s) ∷ []) else dict (("value", str s) ∷ [])

  -- after the loop
  abbrev pub settle : Json → Fields
  settle (obj fs) = fs
  settle (str s) = if tool_name == "Bash" then dict (("command", str s) ∷ []) else end
  settle v = end

  -- the rounds left of `for _ in range(3)`
  unfoldable pub rounds : ℕ → Json → Fields
  rounds zero v = settle v
  rounds (suc n) (obj fs) = fs
  rounds (suc n) (str s) = elim (loads s) [
    | none ↦ wrap s
    | some decoded ↦ elim (eq_json decoded (str s)) [
      | true ↦ settle (str s)
      | false ↦ rounds n decoded
    ]
  ]
  rounds (suc n) v = settle v

  unfoldable pub normalize_tool_input : Json → Fields
  unfolding rounds
  normalize_tool_input raw_arguments = rounds 3 raw_arguments
