-- ===== src/LocalPoc/PythonAgent.antt =====
-- The action schema of the demo agent, `parse_proposal` of local_poc/python_agent.py. `json.loads` is a
-- parameter: a value, or `none` where it raises a `JSONDecodeError`.
pub mod Models
pub mod Proposals
pub mod Session
use Prim.Native.Char.{Char, code}
use Prim.Native.String.{[], ◌∷◌, count}
use laptop_bap_demo.Base.{
  Bool, Option, String, eqb, if◌then◌else◌, leb, none, some, true, ◌&&◌, ◌==◌, ◌||◌,
}
use laptop_bap_demo.Base.Json.{Json, end, get_or, obj, str}
use laptop_bap_demo.Base.Json.Repr.{str_of}
use laptop_bap_demo.Base.Text.{lower, take_chars}

-- `{"operation": …, "key": …, "reason": …}`
pub record Proposal : Type 0 where
  pub operation : String
  pub key : String
  pub reason : String

-- what follows the first `{`, with it
unfoldable pub from_brace : String → Option String
from_brace [] = none
from_brace (c ∷ s) = let rest = from_brace s in if eqb (code c) 123 then some (c ∷ s) else rest

-- what precedes the last `}`, with it
abbrev closes : Char → Option String → Option String
closes c (some rest) = some (c ∷ rest)
closes c none = if eqb (code c) 125 then some (c ∷ []) else none

unfoldable pub to_brace : String → Option String
to_brace [] = none
to_brace (c ∷ s) = closes c (to_brace s)

abbrev to_last : Option String → Option String
to_last none = none
to_last (some s) = to_brace s

-- `re.search(r"\{.*\}", text, flags=re.DOTALL)`: the first `{` to the last `}`
abbrev pub braces : String → Option String
braces text = to_last (from_brace text)

-- `match.group(0) if match else text`
abbrev pub candidate : Option String → String → String
candidate none text = text
candidate (some group) text = group

-- `[A-Za-z0-9._-]`
abbrev pub is_key_char : Char → Bool
is_key_char c =
    (leb 65 (code c) && leb (code c) 90)
    || (leb 97 (code c) && leb (code c) 122)
    || (leb 48 (code c) && leb (code c) 57)
    || eqb (code c) 46
    || eqb (code c) 95
    || eqb (code c) 45

-- `re.fullmatch(r"[A-Za-z0-9._-]{1,80}", key)`
unfoldable pub all_key_chars : String → Bool
all_key_chars [] = true
all_key_chars (c ∷ s) = is_key_char c && all_key_chars s

abbrev pub is_key : String → Bool
is_key key = leb 1 (count key) && leb (count key) 80 && all_key_chars key

-- `value`: `{}` where there is no JSON
abbrev pub loaded : Option Json → Json
loaded none = obj end
loaded (some v) = v

-- `str(value.get(name, "")) if isinstance(value, dict) else ""`
abbrev pub text_at : Json → String → String
text_at (obj fs) name = str_of (get_or fs name (str ""))
text_at v name = ""

abbrev pub fallback : Proposal × Option String
fallback = (
  record {
    operation = "read";
    key = "customer-123";
    reason = "Safe demo fallback after an invalid model proposal";
  },
  some "Model output did not match the read-only action schema; used the bounded demo default",
)

-- from the value on
abbrev pub bounded : Json → Proposal × Option String
bounded value =
    let operation = lower (text_at value "operation") in
    let key = text_at value "key" in
    if operation == "read" && is_key key
    then (
      record { operation = operation; key = key; reason = take_chars 200 (text_at value "reason") },
      none,
    )
    else fallback

unfoldable pub parse_proposal : (String → Option Json) → String → Proposal × Option String
unfolding from_brace to_brace all_key_chars
parse_proposal loads text = bounded (loaded (loads (candidate (braces text) text)))
