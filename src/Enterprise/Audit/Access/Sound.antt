-- ===== src/Enterprise/Audit/Access/Sound.antt =====
-- What a search of the access requests answers.
use laptop_bap_demo.Base.{
  Bool, Bool-cases, List, String, [], arith, eq_iff, false, if◌then◌else◌, inl, inr, refl, some,
  subst, sym, true, ℕ, ◌==◌, ◌∙◌, ◌∷◌, ◌≡◌, ◌≤◌,
}
use laptop_bap_demo.Base.Dict.{Dict, find}
use laptop_bap_demo.Base.Int.{ℤ}
use laptop_bap_demo.Base.Json.{Fields, eq_json, get, lookup, str}
use laptop_bap_demo.Base.Lists.{
  All, All-filter, All-imp, All-take, contains, count_if, count_if-filter, count_if-map,
  count_if-take, filter, length, length-take,
}
use laptop_bap_demo.Enterprise.Audit.Access.{
  access_columns, access_matches, access_row, access_view, by_time, leb_requested, place,
  request_of, requests_from, search_access,
}
use laptop_bap_demo.Enterprise.Audit.Search.{clamp_limit}
use laptop_bap_demo.Enterprise.Audit.Search.Sound.{clause-column, clauses-find}
use laptop_bap_demo.Enterprise.World.{AuditRow}

module _ (p : Fields → Bool) where
  count_if-place : (a : Fields) (bs : List Fields) → count_if p (place a bs) ≡ count_if p (a ∷ bs)
  unfolding place
  count_if-place a [] = refl
  count_if-place a (b ∷ bs) = ground (arith, count_if-place a bs)

  count_if-by_time : (rows : List Fields) → count_if p (by_time rows) ≡ count_if p rows
  unfolding by_time
  count_if-by_time [] = refl
  count_if-by_time (a ∷ rows) =
      count_if-place a (by_time rows) ∙ omega (arith, count_if-by_time rows)

module _ (P : Fields → Type 0) where
  All-place : (a : Fields) (bs : List Fields) → P a → All P bs → All P (place a bs)
  unfolding place
  All-place a [] h hs = (h, tt)
  All-place a (b ∷ bs) h (first, rest) = elim (Bool-cases (leb_requested b a)) [
    | inl before ↦ rw before (h, (first, rest))
    | inr behind ↦ rw behind (first, All-place a bs h rest)
  ]

  All-by_time : (rows : List Fields) → All P rows → All P (by_time rows)
  unfolding by_time
  All-by_time [] h = tt
  All-by_time (a ∷ rows) (first, rest) = All-place a (by_time rows) first (All-by_time rows rest)

count_if-requests_from :
    (request : String) (events : List AuditRow) (seen : List String) (rows : List AuditRow)
    → count_if (λ r. r == request) (requests_from events seen rows)
      ≤ (if contains seen request then 0 else 1)
unfolding requests_from
count_if-requests_from request events seen [] = ground arith
count_if-requests_from request events seen (row ∷ rows) = ground (
  arith,
  eq_iff (request_of row) request,
  eq_iff request (request_of row),
  count_if-requests_from request events seen rows,
  count_if-requests_from request events (request_of row ∷ seen) rows,
)

abbrev pub rows_for : String → List Fields → ℕ
rows_for request rows = count_if (λ row. eq_json (get row "request_id") (str request)) rows

rows_for-access_view :
    (request : String) (events : List AuditRow) → rows_for request (access_view events) ≤ 1
unfolding access_view access_row eq_json lookup
rows_for-access_view request events =
    subst (λ n. n ≤ 1) (sym (count_if-map _ _ (requests_from events [] events)))
      (count_if-requests_from request events [] events)

access_matches-column :
    (filters : Dict String) (k v : String) (row : Fields)
    → find filters k ≡ some v
    → contains access_columns k ≡ true
    → (v == "") ≡ false
    → access_matches filters row ≡ true
    → get row k ≡ str v
access_matches-column filters k v row found named filled met =
    clause-column access_columns row k v named filled
      (clauses-find access_columns row filters k v met found)

-- A search of the access requests answers with rows that have, in each column that a filter with a
-- value names, that value. No request has two rows, and there are no more rows than the limit, which
-- is cut to lie between 1 and 1000.
pub search_access_sound :
    (filters : Dict String) (limit : ℤ) (events : List AuditRow)
    → ((k v : String)
        → find filters k ≡ some v
        → contains access_columns k ≡ true
        → (v == "") ≡ false
        → All (λ row. get row k ≡ str v) (search_access filters limit events))
      × ((request : String) → rows_for request (search_access filters limit events) ≤ 1)
      × (length (search_access filters limit events) ≤ clamp_limit limit)
unfolding search_access
search_access_sound filters limit events =
    let listed = filter (access_matches filters) (access_view events) in
    (
      λ k v found named filled.
          All-imp (λ row. access_matches-column filters k v row found named filled) _
            (All-take _ (clamp_limit limit) _
              (All-by_time _ listed (All-filter (access_matches filters) (access_view events)))),
      λ request.
          let is_its : Fields → Bool = λ row. eq_json (get row "request_id") (str request) in
          omega (
            arith,
            count_if-take is_its (clamp_limit limit) (by_time listed),
            count_if-by_time is_its listed,
            count_if-filter is_its (access_matches filters) (access_view events),
            rows_for-access_view request events,
          ),
      rw length-take (ground arith),
    )
