-- ===== src/Enterprise/Dashboard/Bounds.antt =====
-- What the dashboard reads from a query string.
use mathlib.Core.Option.{some-injective}
use laptop_bap_demo.Base.{
  Bool, Bool-cases, List, Option-cases, String, [], and_both, ap, arith, eq_iff, false, false≢true,
  inl, inr, not, refl, some, sym, true, ℕ, ◌==◌, ◌∙◌, ◌∷◌, ◌≡◌, ◌≢◌, ◌≤◌, ◌⊎◌,
}
use laptop_bap_demo.Base.Dict.{find}
use laptop_bap_demo.Base.Int.{negsuc, pos, ℤ}
use laptop_bap_demo.Base.Json.Number.{int_of-str}
use laptop_bap_demo.Base.Lists.{All, contains}
use laptop_bap_demo.Base.Run.{Except, ok, raised}
use laptop_bap_demo.Enterprise.Audit.Search.{clamp_limit, clamp_offset}
use laptop_bap_demo.Enterprise.Dashboard.{
  Filters, Query, clamped, filters_of, first_value, int_at, is_filter, or_default, query_filters,
  with_bounds,
}

-- `parse_qs` gives no key without a value.
abbrev pub IsParsed : Query → Type 0
IsParsed parsed = All (λ r. r.1 ≢ []) parsed

abbrev IsFilter : String × String → Type 0
IsFilter r = (r.1 ≢ "") × (contains ("limit" ∷ "offset" ∷ []) r.0 ≡ false)

abbrev pub IsClamped : Filters → Type 0
IsClamped f =
    ((n : ℕ) × (f.limit ≡ pos n) × (1 ≤ n) × (n ≤ 1000))
    × ((n : ℕ) × (f.offset ≡ pos n))
    × All IsFilter f.filters

not-true : {b : Bool} → not b ≡ true → b ≡ false
not-true {b = true} h = sym h
not-true {b = false} h = refl

is_filter-IsFilter :
    (key : String) (values : List String)
    → is_filter key values ≡ true
    → IsFilter (key, first_value values)
is_filter-IsFilter key [] h = absurd (cc h)
is_filter-IsFilter key (value ∷ values) h =
    let (named, filled) =
      and_both (not (contains ("limit" ∷ "offset" ∷ []) key)) (not (value == "")) h in
    (λ e. false≢true (sym (not-true filled) ∙ (eq_iff value "").1 e), not-true named)

filters_of-IsFilter : (parsed : Query) → All IsFilter (filters_of parsed)
unfolding filters_of
filters_of-IsFilter [] = tt
filters_of-IsFilter ((key, values) ∷ parsed) = elim (Bool-cases (is_filter key values)) [
  | inl kept ↦ rw kept (is_filter-IsFilter key values kept, filters_of-IsFilter parsed)
  | inr left ↦ rw left (filters_of-IsFilter parsed)
]

clamp_limit-bounds : (limit : ℤ) → (1 ≤ clamp_limit limit) × (clamp_limit limit ≤ 1000)
clamp_limit-bounds (pos n) = (ground arith, ground arith)
clamp_limit-bounds (negsuc n) = (omega arith, omega arith)

find-IsParsed : (parsed : Query) (k : String) → IsParsed parsed → find parsed k ≢ some []
unfolding find
find-IsParsed [] k h e = absurd (cc e)
find-IsParsed ((j, values) ∷ parsed) k (first, rest) e = elim (Bool-cases (j == k)) [
  | inl same ↦ first (some-injective values [] (rw same at e))
  | inr other ↦ find-IsParsed parsed k rest (rw other at e)
]

int_at-read :
    (default k : String) (parsed : Query)
    → IsParsed parsed
    → ((z : ℤ) × (int_at default (find parsed k) ≡ ok z))
      ⊎ (int_at default (find parsed k) ≡ raised "ValueError")
int_at-read default k parsed h = elim (Option-cases (find parsed k)) [
  | inl missing ↦ rw missing (int_of-str default)
  | inr ([], found) ↦ absurd (find-IsParsed parsed k h found)
  | inr (value ∷ values, found) ↦ rw found (int_of-str value)
]

abbrev Reads : Except ℤ → Type 0
Reads r = ((z : ℤ) × (r ≡ ok z)) ⊎ (r ≡ raised "ValueError")

or_default-clamped :
    (r s : Except ℤ)
    → Reads r
    → Reads s
    → (n k : ℕ) × (or_default (clamped r s) ≡ ok (pos n, pos k)) × (1 ≤ n) × (n ≤ 1000)
or_default-clamped r s (inl (limit, hr)) (inl (offset, hs)) =
    let (low, high) = clamp_limit-bounds limit in
    (clamp_limit limit, clamp_offset offset, rw (hr, hs) refl, low, high)
or_default-clamped r s (inl (limit, hr)) (inr hs) =
    (300, 0, rw (hr, hs) refl, omega arith, omega arith)
or_default-clamped r s (inr hr) hs = (300, 0, rw hr refl, omega arith, omega arith)

-- A query string that was parsed gives filters whose limit lies between 1 and 1000 and whose offset is
-- not negative, also where a number cannot be read; a filter has a value and is neither the limit nor
-- the offset.
pub query_filters-IsClamped :
    (parsed : Query) → IsParsed parsed → (f : Filters) × (query_filters parsed ≡ ok f) × IsClamped f
unfolding query_filters
query_filters-IsClamped parsed h =
    let (n, k, bounds, low, high) =
      or_default-clamped _ _ (int_at-read "300" "limit" parsed h)
        (int_at-read "0" "offset" parsed h) in
    (
      record { filters = filters_of parsed; limit = pos n; offset = pos k },
      ap (with_bounds (filters_of parsed)) bounds,
      ((n, refl, low, high), (k, refl), filters_of-IsFilter parsed),
    )
