-- ===== src/LocalPoc/Bridge/Calls.antt =====
-- The regular expressions of `anthropic_response` of local_poc/ccbridge.py, which find tool calls
-- that a model writes as text: `<tool_call>\s*(\{.*?\})\s*</tool_call>` and `<tool_call>.*?</tool_call>`,
-- where a point is any character. Each search recurs on the text left to read.
use Prim.Native.Char.{Char, code}
use Prim.Native.String.{[], ◌∷◌, count}
use laptop_bap_demo.Base.{
  List, Option, String, eqb, if◌then◌else◌, none, refl, some, suc, zero, ℕ, ◌≡◌,
}
use laptop_bap_demo.LocalPoc.Bridge.Requests.{after_prefix, is_blank}

-- `\s*`
unfoldable pub skip_blanks : String → String
skip_blanks [] = []
skip_blanks (c ∷ s) = let rest = skip_blanks s in if is_blank c then rest else c ∷ s

abbrev pub closing : String
closing = "</tool_call>"

-- what follows `\s*</tool_call>`
abbrev pub after_closing : String → Option String
after_closing s = after_prefix closing (skip_blanks s)

abbrev pub push_front : Char → Option (String × String) → Option (String × String)
push_front c none = none
push_front c (some (group, rest)) = some (c ∷ group, rest)

-- the shortest text up to a `}` that the end of the call follows, and what follows that
unfoldable pub to_closing : String → Option (String × String)
unfolding skip_blanks after_prefix
to_closing [] = none
to_closing (c ∷ s) =
    let later = push_front c (to_closing s) in
    if eqb (code c) 125
    then elim (after_closing s) [ none ↦ later | some rest ↦ some (c ∷ [], rest) ]
    else later

-- `\{.*?\}` and the end of the call
abbrev pub object_at : String → Option (String × String)
object_at [] = none
object_at (c ∷ s) = if eqb (code c) 123 then push_front c (to_closing s) else none

-- the group of a match at the front, and what follows the match
abbrev pub call_at : String → Option (String × String)
call_at s = elim (after_prefix "<tool_call>" s) [
  | none ↦ none
  | some rest ↦ object_at (skip_blanks rest)
]

-- `re.finditer`: the groups of the matches, which do not overlap. Each round reads a character or a
-- match, so as many rounds as there are characters are enough.
unfoldable pub find_calls : ℕ → String → List String
unfolding to_closing skip_blanks after_prefix
find_calls zero s = List.[]
find_calls (suc fuel) [] = List.[]
find_calls (suc fuel) (c ∷ s) = elim (call_at (c ∷ s)) [
  | none ↦ find_calls fuel s
  | some (group, rest) ↦ List.◌∷◌ group (find_calls fuel rest)
]

abbrev pub calls_in : String → List String
calls_in s = find_calls (count s) s

-- what follows the first place where a text stands
unfoldable pub after_first : String → String → Option String
after_first t [] = after_prefix t []
after_first t (c ∷ s) = elim (after_prefix t (c ∷ s)) [
  | none ↦ after_first t s
  | some rest ↦ some rest
]

-- what follows a match of the second expression at the front
abbrev pub after_call : String → Option String
after_call s = elim (after_prefix "<tool_call>" s) [
  | none ↦ none
  | some rest ↦ after_first closing rest
]

-- `re.sub` with the empty text
unfoldable pub drop_calls : ℕ → String → String
unfolding after_first after_prefix
drop_calls zero s = s
drop_calls (suc fuel) [] = []
drop_calls (suc fuel) (c ∷ s) = elim (after_call (c ∷ s)) [
  | none ↦ c ∷ drop_calls fuel s
  | some rest ↦ drop_calls fuel rest
]

abbrev pub without_calls : String → String
without_calls s = drop_calls (count s) s

calls_in_test :
    calls_in "x <tool_call> {\"a\":{}} </tool_call><tool_call>{}</tool_call>"
    ≡ List.◌∷◌ "{\"a\":{}}" (List.◌∷◌ "{}" List.[])
unfolding find_calls
calls_in_test = refl

without_calls_test : without_calls "a<tool_call>{</tool_call>b" ≡ "ab"
unfolding drop_calls
without_calls_test = refl
