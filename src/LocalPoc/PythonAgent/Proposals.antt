-- ===== src/LocalPoc/PythonAgent/Proposals.antt =====
-- What the agent can be led to propose.
use Prim.Native.Char.{Char, code}
use Prim.Native.String.{count, [], ◌∷◌, ◌++◌, String}
use text.Mathlib.TextLemmas.{nil-append, cons-append}
use text.Mathlib.TextEquality.{eq_iff}
use laptop_bap_demo.Base.{
  Bool, Bool-cases, Option, and_both, arith, eqb, false≢true, inl, inr, none, refl, some, true,
  false, leb, leb→le, ℕ, ◌&&◌, ◌||◌, ◌==◌, ◌≡◌, ◌≤◌, ◌⊎◌,
}
use laptop_bap_demo.Base.Json.{Json}
use laptop_bap_demo.Base.Text.{count-take_chars, lacks, lower, take_chars}
use laptop_bap_demo.LocalPoc.PythonAgent.{
  Proposal, all_key_chars, is_key_char, bounded, braces, candidate, from_brace, is_key, loaded,
  parse_proposal, text_at, to_brace,
}

-- a letter, a digit, a dot, an underscore or a dash, by their code points
abbrev pub IsAllowed : Char → Type 0
IsAllowed c =
    ((65 ≤ code c) × (code c ≤ 90))
    ⊎ (((97 ≤ code c) × (code c ≤ 122))
        ⊎ (((48 ≤ code c) × (code c ≤ 57)) ⊎ ((code c ≡ 46) ⊎ ((code c ≡ 95) ⊎ (code c ≡ 45)))))

abbrev pub AllAllowed : String → Type 0
AllAllowed [] = Unit
AllAllowed (c ∷ s) = IsAllowed c × AllAllowed s

-- the bounds of an action
abbrev pub IsBounded : Proposal → Type 0
IsBounded p =
    (p.operation ≡ "read")
    × ((1 ≤ count p.key) × (count p.key ≤ 80) × AllAllowed p.key)
    × (count p.reason ≤ 200)

eqb→path : (a b : ℕ) → eqb a b ≡ true → a ≡ b
eqb→path a b h = ground arith

or_cases : (a b : Bool) → (a || b) ≡ true → (a ≡ true) ⊎ (b ≡ true)
or_cases true b h = inl refl
or_cases false b h = inr h

between : (a n b : ℕ) → (leb a n && leb n b) ≡ true → (a ≤ n) × (n ≤ b)
between a n b h =
    (leb→le _ _ (and_both (leb a n) (leb n b) h).0, leb→le _ _ (and_both (leb a n) (leb n b) h).1)

is_key_char-IsAllowed : (c : Char) → is_key_char c ≡ true → IsAllowed c
is_key_char-IsAllowed c h = elim (or_cases _ _ h) [
  | inr dash ↦ inr (inr (inr (inr (inr (eqb→path (code c) 45 dash)))))
  | inl h ↦ elim (or_cases _ _ h) [
    | inr under ↦ inr (inr (inr (inr (inl (eqb→path (code c) 95 under)))))
    | inl h ↦ elim (or_cases _ _ h) [
      | inr dot ↦ inr (inr (inr (inl (eqb→path (code c) 46 dot))))
      | inl h ↦ elim (or_cases _ _ h) [
        | inr digit ↦ inr (inr (inl (between 48 (code c) 57 digit)))
        | inl h ↦ elim (or_cases _ _ h) [
          | inl upper ↦ inl (between 65 (code c) 90 upper)
          | inr small ↦ inr (inl (between 97 (code c) 122 small))
        ]
      ]
    ]
  ]
]

all_key_chars-AllAllowed : (s : String) → all_key_chars s ≡ true → AllAllowed s
unfolding all_key_chars
all_key_chars-AllAllowed [] h = tt
all_key_chars-AllAllowed (c ∷ s) h =
    let (first, rest) = and_both (is_key_char c) (all_key_chars s) h in
    (is_key_char-IsAllowed c first, all_key_chars-AllAllowed s rest)

is_key-bounds :
    (key : String) → is_key key ≡ true → (1 ≤ count key) × (count key ≤ 80) × AllAllowed key
is_key-bounds key h =
    let (size, chars) = and_both (leb 1 (count key) && leb (count key) 80) (all_key_chars key) h in
    let (low, high) = between 1 (count key) 80 size in
    (low, high, all_key_chars-AllAllowed key chars)

-- the action as the model proposed it
abbrev pub proposed : Json → Proposal
proposed value = record {
  operation = lower (text_at value "operation");
  key = text_at value "key";
  reason = take_chars 200 (text_at value "reason");
}

-- the model's answer meets the action schema
abbrev pub matches : Json → Bool
matches value = lower (text_at value "operation") == "read" && is_key (text_at value "key")

proposed-IsBounded : (value : Json) → matches value ≡ true → IsBounded (proposed value)
proposed-IsBounded value h =
    let (read, key) =
      and_both (lower (text_at value "operation") == "read") (is_key (text_at value "key")) h in
    (
      (eq_iff (lower (text_at value "operation")) "read").0 read,
      is_key-bounds (text_at value "key") key,
      count-take_chars 200 (text_at value "reason"),
    )

bounded-IsBounded : (value : Json) → IsBounded (bounded value).0
unfolding all_key_chars
bounded-IsBounded value = elim (Bool-cases (matches value)) [
  | inl matching ↦ rw matching (proposed-IsBounded value matching)
  | inr other ↦ rw other (refl, is_key-bounds "customer-123" refl, omega arith)
]

from_brace-append :
    (before s : String) → lacks "{" before ≡ true → from_brace (before ++ s) ≡ from_brace s
unfolding from_brace
from_brace-append [] s h = rw (nil-append s) refl
from_brace-append (c ∷ before) s h = elim (Bool-cases (eqb (code c) 123)) [
  | inl brace ↦ absurd (false≢true (rw brace at h))
  | inr other ↦ rw (cons-append c before, other) (from_brace-append before s (rw other at h))
]

to_brace-lacks : (after : String) → lacks "}" after ≡ true → to_brace after ≡ none
unfolding to_brace
to_brace-lacks [] h = refl
to_brace-lacks (c ∷ after) h = elim (Bool-cases (eqb (code c) 125)) [
  | inl brace ↦ absurd (false≢true (rw brace at h))
  | inr other ↦ rw (to_brace-lacks after (rw other at h), other) refl
]

to_brace-append :
    (body after : String)
    → lacks "}" after ≡ true
    → to_brace (body ++ ("}" ++ after)) ≡ some (body ++ "}")
unfolding to_brace
to_brace-append [] after h =
    rw
      (
        nil-append ("}" ++ after),
        cons-append "}" "" after,
        nil-append after,
        to_brace-lacks after h,
      )
      refl
to_brace-append (c ∷ body) after h =
    rw (cons-append c body ("}" ++ after), cons-append c body "}", to_brace-append body after h)
      refl

opened : (s r : String) → to_brace s ≡ some r → braces ("{" ++ s) ≡ some ("{" ++ r)
unfolding from_brace to_brace
opened s r e = rw (cons-append "{" "" s, nil-append s, e, cons-append "{" "" r, nil-append r) refl

braces-append :
    (before body after : String)
    → lacks "{" before ≡ true
    → lacks "}" after ≡ true
    → braces (before ++ ("{" ++ (body ++ ("}" ++ after)))) ≡ some ("{" ++ (body ++ "}"))
unfolding from_brace to_brace
braces-append before body after p q =
    rw (from_brace-append before ("{" ++ (body ++ ("}" ++ after))) p)
      (opened (body ++ ("}" ++ after)) (body ++ "}") (to_brace-append body after q))

-- Whatever the model answers, the agent proposes a read of a key of 1 to 80 letters, digits, dots,
-- underscores and dashes, with a reason of at most 200 characters.
pub parse_proposal-IsBounded :
    (loads : String → Option Json) (text : String) → IsBounded (parse_proposal loads text).0
unfolding parse_proposal
parse_proposal-IsBounded loads text =
    bounded-IsBounded (loaded (loads (candidate (braces text) text)))

-- The text around the object of a model's answer does not matter, where no brace opens before it and
-- none closes after it.
parse_proposal-surrounded :
    (loads : String → Option Json) (before body after : String)
    → lacks "{" before ≡ true
    → lacks "}" after ≡ true
    → parse_proposal loads (before ++ ("{" ++ (body ++ ("}" ++ after))))
      ≡ parse_proposal loads ("{" ++ (body ++ "}"))
unfolding parse_proposal
parse_proposal-surrounded loads before body after p q =
    rw
      (
        braces-append before body after p q,
        opened (body ++ "}") (body ++ "}") (to_brace-append body "" refl),
      )
      refl
