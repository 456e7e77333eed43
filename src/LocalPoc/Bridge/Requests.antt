-- ===== src/LocalPoc/Bridge/Requests.antt =====
-- The regular expression of `explicitly_requested_single_tool` of local_poc/ccbridge.py,
-- `\b(?:call|use|run)(?:\s+the)?\s+NAME\b` with case ignored. No character outside ASCII counts as
-- a letter or a space.
use Prim.Native.Char.{Char, code}
use Prim.Native.String.{[], ◌∷◌}
use laptop_bap_demo.Base.{
  Bool, List, Option, String, eqb, false, if◌then◌else◌, leb, none, not, refl, some, true, ◌&&◌,
  ◌||◌, ◌≡◌,
}
use laptop_bap_demo.Base.Text.{lower}

-- `\w`
abbrev pub is_word : Char → Bool
is_word c =
    (leb 48 (code c) && leb (code c) 57)
    || (leb 65 (code c) && leb (code c) 90)
    || (leb 97 (code c) && leb (code c) 122)
    || eqb (code c) 95

-- `\s`
abbrev pub is_blank : Char → Bool
is_blank c =
    eqb (code c) 32 || (leb 9 (code c) && leb (code c) 13) || (leb 28 (code c) && leb (code c) 31)

-- what follows a text that stands at the front
unfoldable pub after_prefix : String → String → Option String
after_prefix [] s = some s
after_prefix (c ∷ p) [] = none
after_prefix (c ∷ p) (d ∷ s) =
    let rest = after_prefix p s in if eqb (code c) (code d) then rest else none

-- `\s+`: what can follow one blank or more
unfoldable pub after_blanks : String → List String
after_blanks [] = List.[]
after_blanks (c ∷ s) =
    let rest = List.◌∷◌ s (after_blanks s) in if is_blank c then rest else List.[]

unfoldable pub any : (String → Bool) → List String → Bool
any p List.[] = false
any p (List.◌∷◌ s rest) = p s || any p rest

abbrev pub starts_word : String → Bool
starts_word [] = false
starts_word (c ∷ s) = is_word c

unfoldable pub ends_word : String → Bool
ends_word [] = false
ends_word (c ∷ []) = is_word c
ends_word (c ∷ s) = ends_word s

-- `\b` behind the name
abbrev pub at_boundary : String → String → Bool
at_boundary before after = if ends_word before then not (starts_word after) else starts_word after

abbrev pub name_at : String → String → Bool
name_at name s = elim (after_prefix name s) [ none ↦ false | some rest ↦ at_boundary name rest ]

-- `\s+NAME\b`
abbrev pub spaced_name : String → String → Bool
spaced_name name s = any (name_at name) (after_blanks s)

-- `\s+the`, and then the name
abbrev pub article_at : String → String → Bool
article_at name s = elim (after_prefix "the" s) [ none ↦ false | some rest ↦ spaced_name name rest ]

abbrev pub verb_at : String → String → String → Bool
verb_at name verb s = elim (after_prefix verb s) [
  | none ↦ false
  | some rest ↦ any (article_at name) (after_blanks rest) || spaced_name name rest
]

abbrev pub match_at : String → String → Bool
match_at name s = verb_at name "call" s || verb_at name "use" s || verb_at name "run" s

-- from each place on; `inside` tells that a word character stands before it
unfoldable pub search_from : Bool → String → String → Bool
search_from inside name [] = false
search_from inside name (c ∷ s) =
    (not inside && match_at name (c ∷ s)) || search_from (is_word c) name s

-- `re.search(pattern, prompt, flags=re.IGNORECASE)`
unfoldable pub requests : String → String → Bool
unfolding search_from ends_word any after_blanks after_prefix lower
requests name prompt = search_from false (lower name) (lower prompt)

requests_test : requests "Bash" "Please USE the  bash tool" ≡ true
unfolding requests
requests_test = refl

no_request_test : requests "Bash" "reuse bash, use bashful" ≡ false
unfolding requests
no_request_test = refl
