-- ===== src/LocalPoc/Bridge/Content.antt =====
-- `text_from_content` and `compact_system_prompt` of local_poc/ccbridge.py.
pub mod Compaction
use Prim.Native.String.{count}
use laptop_bap_demo.Base.{
  Bool, List, String, [], eqb, if◌then◌else◌, leb, ℕ, ◌++◌, ◌-◌, ◌/◌, ◌<>◌, ◌==◌, ◌∷◌,
}
use laptop_bap_demo.Base.Json.{
  Fields, Items, Json, arr, cons, end, eq_json, field, get, get_or, nil, obj, str, truthy,
}
use laptop_bap_demo.Base.Json.Repr.{str_of}
use laptop_bap_demo.Base.Text.{drop_chars, join, take_chars}

-- `str(content or "")`
abbrev pub text_or_empty : Json → String
text_or_empty v = if truthy v then str_of v else ""

-- `[part] if part else []`
abbrev pub part_of : String → List String
part_of part = if part == "" then [] else part ∷ []

-- `block.get("type") == kind`
abbrev pub is_kind : Fields → String → Bool
is_kind block kind = eq_json (get block "type") (str kind)

abbrev pub text_of_block : Fields → String
text_of_block block = str_of (get_or block "text" (str ""))

unfoldable mutual
  pub text_from_content : Json → String
  text_from_content (str s) = s
  text_from_content (arr blocks) = join "\n" (parts_of blocks)
  text_from_content v = text_or_empty v

  -- the parts that are not empty
  pub parts_of : Items → List String
  parts_of nil = []
  parts_of (cons (obj block) blocks) =
      (if is_kind block "text"
        then part_of (text_of_block block)
        else if is_kind block "tool_result"
        then part_of (text_at_content block)
        else [])
      ++ parts_of blocks
  parts_of (cons v blocks) = parts_of blocks

  -- `text_from_content(block.get("content", ""))`
  pub text_at_content : Fields → String
  text_at_content end = ""
  text_at_content (field k v fs) =
      if k == "content" then text_from_content v else text_at_content fs

abbrev pub notice : String
notice =
    "\n\n[Claude Code system prompt compacted by the local bridge for the 8K model context.]\n\n"

-- `s[-n:]`, which is the whole text at n = 0
abbrev pub last_chars : ℕ → String → String
last_chars n s = if eqb n 0 then s else drop_chars (count s - n) s

unfoldable pub compact_system_prompt : ℕ → String → String
compact_system_prompt limit system =
    if leb (count system) limit
    then system
    else take_chars (limit / 2) system <> (notice <> last_chars (limit / 2) system)
