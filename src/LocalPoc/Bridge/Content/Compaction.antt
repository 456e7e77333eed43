-- ===== src/LocalPoc/Bridge/Content/Compaction.antt =====
-- What a compacted system prompt holds, and how long it is.
use Prim.Native.String.{[], ◌∷◌, count}
use text.Mathlib.TextLemmas.{length-nil, length-cons, length-append, nil-append, cons-append}
use laptop_bap_demo.Base.{
  Bool-cases, String, arith, eqb, false, inl, inr, leb, leb-false→lt, leb→le, refl, ap, sym, ◌∙◌,
  ◌<◌, ◌⊎◌, suc, zero, ℕ, ◌+◌, ◌-◌, ◌/◌, ◌<>◌, ◌≡◌, ◌≤◌,
}
use laptop_bap_demo.Base.Text.{drop_chars, take_chars}
use laptop_bap_demo.LocalPoc.Bridge.Content.{compact_system_prompt, last_chars, notice}

count-take_short : (n : ℕ) (s : String) → n ≤ count s → count (take_chars n s) ≡ n
unfolding take_chars
count-take_short zero s h = refl
count-take_short (suc n) [] h = absurd (omega (arith, h, length-nil))
count-take_short (suc n) (c ∷ s) h =
    rw length-cons (omega (arith, count-take_short n s (omega (arith, rw length-cons at h))))

count-drop_chars : (n : ℕ) (s : String) → count (drop_chars n s) ≡ count s - n
unfolding drop_chars
count-drop_chars zero s = omega arith
count-drop_chars (suc n) [] = rw length-nil (omega arith)
count-drop_chars (suc n) (c ∷ s) = rw length-cons (omega (arith, count-drop_chars n s))

count-last_chars : (n : ℕ) (s : String) → 1 ≤ n → n ≤ count s → count (last_chars n s) ≡ n
count-last_chars n s least h =
    let e : eqb n 0 ≡ false = ground arith in rw e (omega (arith, count-drop_chars (count s - n) s))

long_count :
    (half : ℕ) (system : String)
    → 1 ≤ half
    → half ≤ count system
    → count (take_chars half system <> (notice <> last_chars half system)) ≡ half + half + 87
long_count half system least h = omega (
  arith,
  length-append (take_chars half system) (notice <> last_chars half system),
  length-append notice (last_chars half system),
  count-take_short half system h,
  count-last_chars half system least h,
)

take-drop : (n : ℕ) (s : String) → take_chars n s <> drop_chars n s ≡ s
unfolding take_chars drop_chars
take-drop zero s = nil-append s
take-drop (suc n) [] = nil-append []
take-drop (suc n) (c ∷ s) =
    cons-append c (take_chars n s) (drop_chars n s) ∙ ap (λ t. c ∷ t) (take-drop n s)

drop_chars-nil : (n : ℕ) → drop_chars n [] ≡ []
unfolding drop_chars
drop_chars-nil zero = refl
drop_chars-nil (suc n) = refl

drop-drop : (a b : ℕ) (s : String) → drop_chars a (drop_chars b s) ≡ drop_chars (b + a) s
unfolding drop_chars
drop-drop a zero s = ap (λ n. drop_chars n s) (omega arith)
drop-drop a (suc b) [] = drop_chars-nil a ∙ sym (drop_chars-nil (suc b + a))
drop-drop a (suc b) (c ∷ s) =
    let n : suc b + a ≡ suc (b + a) = omega arith in
    drop-drop a b s ∙ ap (λ k. drop_chars k (c ∷ s)) (sym n)

-- the prompt is a head, a middle and a tail, and the result is the head, the notice and the tail
abbrev pub Cut : ℕ → String → String → Type 0
Cut half system result =
    (head : String) × (middle : String) × (tail : String) × (system ≡ head <> (middle <> tail))
    × (result ≡ head <> (notice <> tail))
    × (count head ≡ half)
    × (count tail ≡ half)

last_chars-drop :
    (half : ℕ) (system : String)
    → 1 ≤ half
    → half + half ≤ count system
    → last_chars half system ≡ drop_chars (count system - half - half) (drop_chars half system)
last_chars-drop half system least h =
    let e : eqb half 0 ≡ false = ground arith in
    let n : count system - half ≡ half + (count system - half - half) = omega arith in
    rw e
      (ap (λ k. drop_chars k system) n ∙ sym (drop-drop (count system - half - half) half system))

long-Cut :
    (half : ℕ) (system : String)
    → 1 ≤ half
    → half + half ≤ count system
    → Cut half system (take_chars half system <> (notice <> last_chars half system))
long-Cut half system least h =
    let rest = drop_chars half system in
    let parts = take-drop (count system - half - half) rest in
    (
      take_chars half system,
      take_chars (count system - half - half) rest,
      last_chars half system,
      sym (take-drop half system)
          ∙ ap (λ t. take_chars half system <> t)
              (sym parts
                ∙ ap (λ t. take_chars (count system - half - half) rest <> t)
                    (sym (last_chars-drop half system least h))),
      refl,
      count-take_short half system (omega arith),
      count-last_chars half system least (omega arith),
    )

-- A system prompt of at most `limit` characters is kept. A longer one is cut to its first and its last
-- `limit / 2` characters, with the notice between them, which makes it 87 characters longer than the
-- two halves. A limit of 0 or 1 is left out, where `system[-0:]` is the whole prompt.
pub count-compact_system_prompt :
    (limit : ℕ) (system : String)
    → 2 ≤ limit
    → ((count system ≤ limit) × (compact_system_prompt limit system ≡ system))
      ⊎ ((limit < count system)
          × Cut (limit / 2) system (compact_system_prompt limit system)
          × (count (compact_system_prompt limit system) ≡ limit / 2 + limit / 2 + 87))
unfolding compact_system_prompt
count-compact_system_prompt limit system bound = elim (Bool-cases (leb (count system) limit)) [
  | inl short ↦ rw short (inl (leb→le (count system) limit short, refl))
  | inr long ↦
      let over = leb-false→lt (count system) limit long in
      let half : limit / 2 + limit / 2 ≤ count system = omega arith in
      let least : 1 ≤ limit / 2 = omega arith in
      rw long (
        inr (
          over,
          long-Cut (limit / 2) system least half,
          long_count (limit / 2) system least (omega arith),
        ))
]
