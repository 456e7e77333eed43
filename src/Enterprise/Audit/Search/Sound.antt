-- ===== src/Enterprise/Audit/Search/Sound.antt =====
-- What a search of the audit log answers.
use mathlib.Core.Option.{some-injective}
use laptop_bap_demo.Base.{
  Bool, Bool-cases, List, String, [], and_both, ap, eq_iff, false, false≢true, inl, inr, refl,
  reverse, some, subst, suc, sym, true, ◌&&◌, ◌-◌, ◌==◌, ◌∙◌, ◌∷◌, ◌≡◌,
}
use laptop_bap_demo.Base.Dict.{Dict, find}
use laptop_bap_demo.Base.Int.{ℤ}
use laptop_bap_demo.Base.Json.{Fields, Json, eq_json-str, get, insert, remove, str}
use laptop_bap_demo.Base.Json.Lookup.{lookup-insert, lookup-remove}
use laptop_bap_demo.Base.Lists.{
  All, All-drop, All-filter, All-take, contains, count_if, count_if-reverse, length, length-drop,
  length-filter, length-take, min_ℕ,
}
use laptop_bap_demo.Base.Run.{Except, ok, raised}
use laptop_bap_demo.Enterprise.Audit.Search.{
  clamp_limit, clamp_offset, clause, clauses, cons_ok, matches, public_event, public_events,
  row_dict, search_events, searchable, select_events, with_details,
}
use laptop_bap_demo.Enterprise.World.{AuditRow, Machine}

contains-searchable_ne :
    (k j : String) → contains searchable k ≡ true → contains searchable j ≡ false → (j == k) ≡ false
contains-searchable_ne k j h other = elim (Bool-cases (j == k)) [
  | inr ne ↦ ne
  | inl same ↦ absurd (false≢true (sym other ∙ ap (contains searchable) ((eq_iff j k).0 same) ∙ h))
]

pub clauses-find :
    (allowed : List String) (row : Fields) (filters : Dict String) (k v : String)
    → clauses allowed row filters ≡ true
    → find filters k ≡ some v
    → clause allowed row k v ≡ true
unfolding find
clauses-find allowed row [] k v met found = absurd (cc found)
clauses-find allowed row ((j, w) ∷ filters) k v met found =
    let (first, rest) = and_both (clause allowed row j w) (clauses allowed row filters) met in
    elim (Bool-cases (j == k)) [
      | inr other ↦ clauses-find allowed row filters k v rest (rw other at found)
      | inl same ↦
          let value : w ≡ v = some-injective w v (rw same at found) in
          subst (λ u. clause allowed row k u ≡ true) value
            (subst (λ u. clause allowed row u w ≡ true) ((eq_iff j k).0 same) first)
    ]

pub clause-column :
    (allowed : List String) (row : Fields) (k v : String)
    → contains allowed k ≡ true
    → (v == "") ≡ false
    → clause allowed row k v ≡ true
    → get row k ≡ str v
clause-column allowed row k v named filled h = eq_json-str (get row k) v (rw (named, filled) at h)

and_first : (a b c : Bool) → (a && b && c) ≡ true → a ≡ true
and_first true b c h = refl
and_first false b c h = h

or_nil : Except (List Fields) → List Fields
or_nil (ok es) = es
or_nil (raised x) = []

ok_injective : {es fs : List Fields} → ok es ≡ ok fs → es ≡ fs
unfolding or_nil
ok_injective e = ap or_nil e

cons_ok-eq :
    (r : Except Fields) (rs : Except (List Fields)) (es : List Fields)
    → cons_ok r rs ≡ ok es
    → (e : Fields) × (others : List Fields) × (r ≡ ok e) × (rs ≡ ok others) × (es ≡ e ∷ others)
cons_ok-eq (ok e) (ok others) es h = (e, others, refl, refl, sym (ok_injective h))
cons_ok-eq (ok e) (raised x) es h = absurd (cc h)
cons_ok-eq (raised x) rs es h = absurd (cc h)

length-public_events :
    (m : Machine) (rows : List AuditRow) (es : List Fields)
    → public_events m rows ≡ ok es
    → length es ≡ length rows
unfolding public_events
length-public_events m [] es shown = ap length (sym (ok_injective shown))
length-public_events m (row ∷ rows) es shown =
    let (e, others, one, rest_ok, both) =
      cons_ok-eq (public_event m (row_dict row)) (public_events m rows) es shown in
    ap length both ∙ ap suc (length-public_events m rows others rest_ok)

-- the column of a filter
module _ (filters : Dict String) (k v : String) (found : find filters k ≡ some v)
    (named : contains searchable k ≡ true) (filled : (v == "") ≡ false) where
  matches-column : (row : AuditRow) → matches filters row ≡ true → get row.columns k ≡ str v
  unfolding matches
  matches-column row h = clause-column searchable row.columns k v named filled (
      clauses-find searchable row.columns filters k v
        (and_first (clauses searchable row.columns filters) _ _ h) found)

  with_details-ok :
      (row e : Fields) (r : Except Json)
      → with_details row r ≡ ok e
      → (details : Json) × (e ≡ insert "details" details row)
  with_details-ok row e (ok details) h = (details, cc)
  with_details-ok row e (raised x) h = absurd (cc h)

  shown-column :
      (row : AuditRow) (details : Json)
      → get (insert "details" details (remove "details_json" (row_dict row))) k ≡ get row.columns k
  shown-column row details =
      rw
        (
          lookup-insert,
          lookup-remove,
          lookup-insert,
          lookup-insert,
          contains-searchable_ne k "details" named refl,
          contains-searchable_ne k "details_json" named refl,
          contains-searchable_ne k "event_hash" named refl,
          contains-searchable_ne k "sequence" named refl,
        )
        refl

  public_event-column :
      (m : Machine) (row : AuditRow) (e : Fields)
      → get row.columns k ≡ str v
      → public_event m (row_dict row) ≡ ok e
      → get e k ≡ str v
  unfolding public_event
  public_event-column m row e h shown =
      let (details, same) = with_details-ok (remove "details_json" (row_dict row)) e _ shown in
      rw (same, shown-column row details) h

  public_events-column :
      (m : Machine) (rows : List AuditRow) (es : List Fields)
      → All (λ row. matches filters row ≡ true) rows
      → public_events m rows ≡ ok es
      → All (λ e. get e k ≡ str v) es
  unfolding public_events
  public_events-column m [] es met shown =
      subst (All (λ e. get e k ≡ str v)) (ok_injective shown) tt
  public_events-column m (row ∷ rows) es (first, rest) shown =
      let (e, others, one, rest_ok, both) =
        cons_ok-eq (public_event m (row_dict row)) (public_events m rows) es shown in
      subst (All (λ e. get e k ≡ str v)) (sym both) (
        public_event-column m row e (matches-column row first) one,
        public_events-column m rows others rest rest_ok,
      )

select_events-matches :
    (filters : Dict String) (limit offset : ℤ) (events : List AuditRow)
    → All (λ row. matches filters row ≡ true) (select_events filters limit offset events)
unfolding select_events
select_events-matches filters limit offset events =
    All-take (λ row. matches filters row ≡ true) (clamp_limit limit) _
      (All-drop (λ row. matches filters row ≡ true) (clamp_offset offset) _
        (All-filter (matches filters) (reverse events)))

length-select_events :
    (filters : Dict String) (limit offset : ℤ) (events : List AuditRow)
    → length (select_events filters limit offset events)
      ≡ min_ℕ (clamp_limit limit) (count_if (matches filters) events - clamp_offset offset)
unfolding select_events
length-select_events filters limit offset events =
    rw (length-take, length-drop, length-filter, count_if-reverse) refl

-- A search of the audit log answers with events that have, in each column that a filter with a value
-- names, that value. There are as many as match in the whole log, less those that the offset passes
-- over, up to the limit, which is cut to lie between 1 and 1000.
pub search_events_sound :
    (m : Machine) (filters : Dict String) (limit offset : ℤ) (events : List AuditRow)
    (es : List Fields)
    → search_events m filters limit offset events ≡ ok es
    → ((k v : String)
        → find filters k ≡ some v
        → contains searchable k ≡ true
        → (v == "") ≡ false
        → All (λ e. get e k ≡ str v) es)
      × (length es
          ≡ min_ℕ (clamp_limit limit) (count_if (matches filters) events - clamp_offset offset))
unfolding search_events
search_events_sound m filters limit offset events es shown = (
  λ k v found named filled.
      public_events-column filters k v found named filled m
        (select_events filters limit offset events) es
        (select_events-matches filters limit offset events) shown,
  length-public_events m (select_events filters limit offset events) es shown
      ∙ length-select_events filters limit offset events,
)
