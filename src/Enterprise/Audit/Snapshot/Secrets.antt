-- ===== src/Enterprise/Audit/Snapshot/Secrets.antt =====
-- What a snapshot keeps back.
use laptop_bap_demo.Base.{List, [], ap, map, none, refl, reverse, subst, ◌∷◌, ◌≡◌}
use laptop_bap_demo.Base.Dict.{Dict}
use laptop_bap_demo.Base.Int.{ℤ}
use laptop_bap_demo.Base.Json.{Fields, get, insert, lookup, obj, remove, str}
use laptop_bap_demo.Base.Json.Lookup.{lookup-remove}
use laptop_bap_demo.Base.Lists.{
  All, All-map, length, length-map, length-reverse, length-take, min_ℕ, take,
}
use laptop_bap_demo.Base.Run.{Except, OfOk, ok, raised}
use laptop_bap_demo.Enterprise.Audit.{verify_chain}
use laptop_bap_demo.Enterprise.Audit.Snapshot.{
  dicts, grant_dict, newest, shown_grants, snapshot, snapshot_with, without_token,
}
use laptop_bap_demo.Enterprise.World.{GrantRow, Machine, World}

abbrev pub HasNoToken : Fields → Type 0
HasNoToken fs = (lookup fs "token" ≡ none) × (lookup fs "token_hash" ≡ none)

without_token-HasNoToken : (fs : Fields) → HasNoToken (without_token fs)
without_token-HasNoToken fs = (rw lookup-remove refl, rw (lookup-remove, lookup-remove) refl)

shown_grants-HasNoToken : (grants : Dict GrantRow) → All HasNoToken (shown_grants grants)
unfolding shown_grants
shown_grants-HasNoToken grants =
    All-map HasNoToken _ (λ r. without_token-HasNoToken (grant_dict r.0 r.1)) (newest grants)

length-shown_grants :
    (grants : Dict GrantRow) → length (shown_grants grants) ≡ min_ℕ 50 (length grants)
unfolding shown_grants
length-shown_grants grants = rw (length-map, length-take, length-reverse) refl

shown_ids :
    (rows : Dict GrantRow)
    → map (λ d. get d "grant_id") (map (λ r. without_token (grant_dict r.0 r.1)) rows)
      ≡ map (λ r. str r.0) rows
unfolding lookup remove insert
shown_ids [] = refl
shown_ids (r ∷ rows) = ap (λ ids. str r.0 ∷ ids) (shown_ids rows)

shown_grants-ids :
    (grants : Dict GrantRow)
    → map (λ d. get d "grant_id") (shown_grants grants)
      ≡ map (λ r. str r.0) (take 50 (reverse grants))
unfolding shown_grants
shown_grants-ids grants = shown_ids (newest grants)

abbrev Shows : Machine → World → Fields → Type 0
Shows m w s =
    (get s "grants" ≡ dicts (shown_grants w.grants))
    × (get s "integrity" ≡ obj (verify_chain m w.events))

snapshot_with-Shows :
    (m : Machine) (w : World) (events : Except (List Fields)) (s : Fields)
    → snapshot_with m w events ≡ ok s
    → Shows m w s
unfolding lookup
snapshot_with-Shows m w (raised e) s h = absurd (cc h)
snapshot_with-Shows m w (ok events) s h = subst (OfOk (Shows m w)) h (refl, refl)

-- A snapshot shows the last 50 grants at most, the newest first, each under its own ID, and none of
-- them with its token or the hash of its token; and it ends with the verdict of `verify_chain` on the same log.
pub snapshot-HasNoToken :
    (m : Machine) (limit : ℤ) (w : World) (s : Fields)
    → snapshot m limit w ≡ ok s
    → (get s "grants" ≡ dicts (shown_grants w.grants))
      × All HasNoToken (shown_grants w.grants)
      × (map (λ d. get d "grant_id") (shown_grants w.grants)
          ≡ map (λ r. str r.0) (take 50 (reverse w.grants)))
      × (length (shown_grants w.grants) ≡ min_ℕ 50 (length w.grants))
      × (get s "integrity" ≡ obj (verify_chain m w.events))
unfolding snapshot
snapshot-HasNoToken m limit w s h =
    let (grants, integrity) = snapshot_with-Shows m w _ s h in
    (
      grants,
      shown_grants-HasNoToken w.grants,
      shown_grants-ids w.grants,
      length-shown_grants w.grants,
      integrity,
    )
