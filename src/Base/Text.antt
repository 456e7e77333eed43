-- ===== src/Base/Text.antt =====
-- Python's `str`, as far as the services use it. Letters outside ASCII keep their case.
use mathlib.Core.Option
use text.Mathlib.Text.{◌==◌}
use mathlib.Core.Option.{Option, some}
use Prim.Native.Nat.{◌+◌, ◌*◌, ℕ, zero, suc, ◌-◌, ◌/◌, ◌%◌, ◌≤◌}
use Prim.Native.Char.{Char, code}
use Prim.Native.String.{String, [], ◌∷◌, ◌++◌, char_at, count}
use mathlib.Core.Path.{◌≡◌, ap, refl}
use mathlib.Core.Bool.{Bool, true, false, ◌&&◌, ◌||◌, not, false≢true}
use mathlib.Core.Logic.{inl, inr}
use mathlib.Core.Option.{none}
use mathlib.Core.List.{List}
use native.Mathlib.Omega.{arith}
use text.Mathlib.Text.{find?}
use text.Mathlib.TextLemmas.{length-nil, length-cons, nil-append, cons-append}
use laptop_bap_demo.Base.Tests.{Bool-cases, if◌then◌else◌, ltb, leb, eqb}

-- `s[:n]`
unfoldable pub take_chars : ℕ → String → String
take_chars zero s = []
take_chars (suc n) [] = []
take_chars (suc n) (c ∷ s) = c ∷ take_chars n s

-- A slice `s[:n]` has at most n characters.
pub count-take_chars : (n : ℕ) (s : String) → count (take_chars n s) ≤ n
unfolding take_chars
count-take_chars zero s = rw length-nil (omega arith)
count-take_chars (suc n) [] = rw length-nil (omega arith)
count-take_chars (suc n) (c ∷ s) = rw length-cons (omega (arith, count-take_chars n s))

-- `s[n:]`
unfoldable pub drop_chars : ℕ → String → String
drop_chars zero s = s
drop_chars (suc n) [] = []
drop_chars (suc n) (c ∷ s) = drop_chars n s

-- `t in s`
abbrev pub is_in : String → String → Bool
is_in t s = elim (find? s t) [ none ↦ false | some _ ↦ true ]

lower_char : Char → Char
lower_char c =
    if leb 65 (code c) && leb (code c) 90
    then char_at "abcdefghijklmnopqrstuvwxyz" (code c - 65)
    else c

-- `s.lower()`
unfoldable pub lower : String → String
unfolding lower_char
lower [] = []
lower (c ∷ s) = lower_char c ∷ lower s

-- A slice of a text in lower case is the slice in lower case.
pub lower-take_chars : (n : ℕ) (s : String) → lower (take_chars n s) ≡ take_chars n (lower s)
unfolding lower take_chars
lower-take_chars zero s = refl
lower-take_chars (suc n) [] = refl
lower-take_chars (suc n) (c ∷ s) = ap (λ t. lower_char c ∷ t) (lower-take_chars n s)

upper_char : Char → Char
upper_char c =
    if leb 97 (code c) && leb (code c) 122
    then char_at "ABCDEFGHIJKLMNOPQRSTUVWXYZ" (code c - 97)
    else c

-- `s.upper()`
unfoldable pub upper : String → String
unfolding upper_char
upper [] = []
upper (c ∷ s) = upper_char c ∷ upper s

-- `s.replace(c, r)`, for a text c of one character
unfoldable pub replace_char : Char → String → String → String
replace_char d r [] = []
replace_char d r (c ∷ s) =
    if eqb (code c) (code d) then r ++ replace_char d r s else c ∷ replace_char d r s

-- `sep.join(parts)`
unfoldable pub join : String → List String → String
join sep List.[] = []
join sep (List.◌∷◌ s List.[]) = s
join sep (List.◌∷◌ s rest) = s ++ (sep ++ join sep rest)

-- `s.split(c)`, for a text c of one character
abbrev extend_head : Char → List String → List String
extend_head c List.[] = List.◌∷◌ (c ∷ []) List.[]
extend_head c (List.◌∷◌ s rest) = List.◌∷◌ (c ∷ s) rest

unfoldable pub split_char : Char → String → List String
split_char d [] = List.◌∷◌ [] List.[]
split_char d (c ∷ s) =
    let rest = split_char d s in
    if eqb (code c) (code d) then List.◌∷◌ [] rest else extend_head c rest

digit : ℕ → String
digit n = char_at "0123456789" n ∷ []

decimal_loop : ℕ → ℕ → String → String
decimal_loop zero n out = out
decimal_loop (suc f) n out =
    let rest = decimal_loop f (n / 10) (digit (n % 10) ++ out) in
    if ltb n 10 then digit n ++ out else rest

-- `str(n)` of a number that is not negative
unfoldable pub decimal : ℕ → String
unfolding decimal_loop digit
decimal n = decimal_loop (suc n) n []

is_space : Char → Bool
is_space c =
    eqb (code c) 32 || leb 9 (code c) && leb (code c) 13 || leb 28 (code c) && leb (code c) 31

lstrip : String → String
lstrip [] = []
lstrip (c ∷ s) = let rest = lstrip s in if is_space c then rest else c ∷ s

rstrip : String → String
rstrip [] = []
rstrip (c ∷ s) = let rest = rstrip s in if rest == "" && is_space c then "" else c ∷ rest

-- `s.strip()`
unfoldable pub strip : String → String
unfolding lstrip rstrip is_space
strip s = lstrip (rstrip s)

-- the digits of `int(s)`; an underscore may stand between two of them
digits_value : ℕ → Bool → String → Option ℕ
digits_value n true [] = some n
digits_value n false [] = none
digits_value n after_digit (c ∷ s) =
    if leb 48 (code c) && leb (code c) 57
    then digits_value (n * 10 + (code c - 48)) true s
    else if after_digit && eqb (code c) 95
    then digits_value n false s
    else none

-- `int(s)`: the sign and the size of the number; `none` where it raises a `ValueError`
signed_value : String → Option (Bool × ℕ)
unfolding digits_value
signed_value [] = none
signed_value (c ∷ s) =
    if eqb (code c) 45
    then Option.map (λ n. (true, n)) (digits_value 0 false s)
    else if eqb (code c) 43
    then Option.map (λ n. (false, n)) (digits_value 0 false s)
    else Option.map (λ n. (false, n)) (digits_value 0 false (c ∷ s))

unfoldable pub parse_int : String → Option (Bool × ℕ)
unfolding signed_value strip
parse_int s = signed_value (strip s)

parse_int_test : parse_int " -1_20 " ≡ some (true, 120)
unfolding parse_int
parse_int_test = refl

decimal_test : decimal 10203 ≡ "10203"
unfolding decimal
decimal_test = refl

case_test : lower "Bash X" ≡ "bash x"
unfolding lower
case_test = refl

-- `c not in s`
abbrev pub lacks : Char → String → Bool
lacks d [] = true
lacks d (c ∷ s) = not (eqb (code c) (code d)) && lacks d s

pub split_char-lacks :
    (d : Char) (s : String) → lacks d s ≡ true → split_char d s ≡ List.◌∷◌ s List.[]
unfolding split_char
split_char-lacks d [] h = refl
split_char-lacks d (c ∷ s) h = elim (Bool-cases (eqb (code c) (code d))) [
  | inl same ↦ absurd (false≢true (rw same at h))
  | inr other ↦ rw (other, split_char-lacks d s (rw other at h))
]

-- A part without the separator ends at the first separator.
pub split_char-append :
    (d : Char) (s t : String)
    → lacks d s ≡ true
    → split_char d (s ++ ((d ∷ []) ++ t)) ≡ List.◌∷◌ s (split_char d t)
unfolding split_char
split_char-append d [] t h =
    let same : eqb (code d) (code d) ≡ true = ground arith in
    simp (nil-append, cons-append) (rw same)
split_char-append d (c ∷ s) t h = elim (Bool-cases (eqb (code c) (code d))) [
  | inl same ↦ absurd (false≢true (rw same at h))
  | inr other ↦ rw (cons-append c s, other, split_char-append d s t (rw other at h))
]
