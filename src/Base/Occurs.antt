-- ===== src/Base/Occurs.antt =====
-- Where one text stands in another: a text that stands in a slice `s[:n]` stands in s.
use Prim.Native.Nat.{◌≤◌, ◌+◌, ℕ, zero, suc, Ordering, compare as compare_ℕ}
use Prim.Native.Char.{Char, code, len_utf8}
use Prim.Native.String.find
use Prim.Native.String.len
use Prim.Native.String.{String, [], ◌∷◌, len, find, same, begins}
use mathlib.Core.Path.{◌≡◌, refl}
use mathlib.Core.Bool.{true}
use mathlib.Core.Logic.{◌⊎◌, inl, inr}
use native.Mathlib.Omega.{arith}
use text.Mathlib.TextFind.{begins_cases}
use laptop_bap_demo.Base.Text.{is_in, take_chars}

begins_same :
    (o : Ordering) (a b k k' y : ℕ)
    → ((a ≡ y) × (b ≡ y)) ⊎ (a ≡ k)
    → ((same o a k ≡ y) × (same o b k' ≡ y)) ⊎ (same o a k ≡ k)
begins_same Ordering.lt a b k k' y h = inr refl
begins_same Ordering.eq a b k k' y h = h
begins_same Ordering.gt a b k k' y h = inr refl

begins-take_chars :
    (n : ℕ) (s t : String) (y k k' : ℕ)
    → ((begins (take_chars n s) t y k ≡ y) × (begins s t y k' ≡ y))
      ⊎ (begins (take_chars n s) t y k ≡ k)
unfolding take_chars
begins-take_chars n s [] y k k' = inl (refl, refl)
begins-take_chars zero s (d ∷ t) y k k' = inr refl
begins-take_chars (suc n) [] (d ∷ t) y k k' = inr refl
begins-take_chars (suc n) (c ∷ s) (d ∷ t) y k k' =
    begins_same (compare_ℕ (code c) (code d)) _ _ k k' y (begins-take_chars n s t y k k')

find-empty : (s : String) → find s [] ≡ 0
find-empty [] = find.nil []
find-empty (c ∷ s) = find.cons c s []

find_step : (c : Char) (s t : String) → find s t ≤ len s → find (c ∷ s) t ≤ len (c ∷ s)
find_step c s t h = elim (begins_cases (c ∷ s) t 0 (len_utf8 c + find s t)) [
  | inl (now, _) ↦ rw (find.cons c s t, now) (omega arith)
  | inr later ↦ rw (find.cons c s t, later, len.cons c s) (omega (arith, h))
]

pub find-take_chars :
    (n : ℕ) (s t : String) → find (take_chars n s) t ≤ len (take_chars n s) → find s t ≤ len s
unfolding take_chars
find-take_chars zero s [] h = rw (find-empty s) (omega arith)
find-take_chars zero s (d ∷ t) h = omega (arith, rw (find.nil (d ∷ t), len.nil) at h)
find-take_chars (suc n) [] t h = h
find-take_chars (suc n) (c ∷ s) t h =
    elim (begins-take_chars (suc n) (c ∷ s) t 0 (len_utf8 c + find (take_chars n s) t)
      (len_utf8 c + find s t)) [
        | inl (_, now) ↦ rw (find.cons c s t, now) (omega arith)
        | inr later ↦ find_step c s t (
            find-take_chars n s t (
              omega (
                arith,
                rw (find.cons c (take_chars n s) t, later, len.cons c (take_chars n s)) at h,
              )))
      ]

pub is_in-take_chars : (n : ℕ) (s t : String) → is_in t (take_chars n s) ≡ true → is_in t s ≡ true
is_in-take_chars n s t h = ground (arith, find-take_chars n s t)
