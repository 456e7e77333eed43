-- ===== src/LocalPoc/MockBap/Grants.antt =====
-- The life of a grant: `_mint_grant`, then `validate` until it expires, and `revoke_session`.
use laptop_bap_demo.Base.{String, [], if◌then◌else◌, ltb, refl, some, true, ℕ, ◌+◌, ◌<>◌, ◌∷◌, ◌≡◌}
use laptop_bap_demo.Base.Dict.{find-put_self, put}
use laptop_bap_demo.Base.Int.{pos}
use laptop_bap_demo.Base.Json.{
  Fields, Json, bool, dict, end, eq_json-str_self, field, get, get_or, lookup, nat, obj, str,
  truthy,
}
use laptop_bap_demo.Base.Json.Number.{int_of}
use laptop_bap_demo.Base.Json.Repr.{str_of}
use laptop_bap_demo.Base.Run.{ok}
use laptop_bap_demo.LocalPoc.MockBap.{claims_of, invalid, judge, mint_grant, validate}
use laptop_bap_demo.LocalPoc.MockBap.Signatures.{IsReadable, verify-sign}
use laptop_bap_demo.LocalPoc.MockBap.Token.{sign}
use laptop_bap_demo.LocalPoc.World.{Host, World}

abbrev pub grant_id_at : Host → World → String
grant_id_at h w = "gnt-" <> h.token_hex 4 w.draws

abbrev pub minted_claims : Host → World → Fields → String → Fields
minted_claims h w request approved_by = claims_of request approved_by (grant_id_at h w) w.now

abbrev pub minted_token : Host → World → Fields → String → String
minted_token h w request approved_by =
    sign h w.bap.signing_key (minted_claims h w request approved_by)

-- The same world at another second.
abbrev pub at_second : ℕ → World → World
at_second second w = record w { now = second }

-- What a request says of the action, the resource and the run, as texts.
pub record Names (request : Fields) (action resource agent_run : String) : Type 0 where
  pub names_action : get request "action" ≡ str action
  pub names_resource : get request "resource" ≡ str resource
  pub names_run : get request "agent_run" ≡ str agent_run

truthy_of_lookup :
    (d : Fields) (k : String) (v : Json) → lookup d k ≡ some v → truthy (obj d) ≡ true
unfolding lookup truthy
truthy_of_lookup end k v e = cc
truthy_of_lookup (field j u fs) k v e = refl

module _ (h : Host) (w : World) (request : Fields) (approved_by : String) where
  grant_of_mint :
      (g : Fields) × ((mint_grant h request approved_by w).0 ≡ ok g)
      × (get g "token" ≡ str (minted_token h w request approved_by))
      × (truthy (obj g) ≡ true)
      × ((mint_grant h request approved_by w).1.bap.grants ≡ put (grant_id_at h w) g w.bap.grants)
  unfolding mint_grant lookup truthy
  grant_of_mint = (_, refl, refl, refl, refl)

  module _ {action resource agent_run : String} (names : Names request action resource agent_run)
      (decoded : Fields)
      (readable : IsReadable h w.bap.signing_key
        (minted_claims h w request approved_by)
        decoded) where
    pub decoded_full : truthy (obj decoded) ≡ true
    unfolding lookup
    decoded_full = truthy_of_lookup decoded "iat" (nat w.now) (readable.same_entries "iat")

    pub decoded_id : str_of (get_or decoded "grant_id" (str "")) ≡ grant_id_at h w
    unfolding lookup str_of
    decoded_id = rw (readable.same_entries "grant_id")

    decoded_expiry : int_of (get_or decoded "exp" (nat 0)) ≡ ok (pos (w.now + 60))
    unfolding lookup int_of
    decoded_expiry = rw (readable.same_entries "exp")

    claims_judged :
        (second : ℕ)
        → judge decoded (pos (w.now + 60)) second action resource agent_run ≡ (
            if ltb (w.now + 60) second
            then invalid "Grant expired"
            else dict (("valid", bool true) ∷ ("claims", obj decoded) ∷ []))
    unfolding lookup
    claims_judged second = rw (
      readable.same_entries "action",
      readable.same_entries "resource",
      readable.same_entries "agent_run",
      names.names_action,
      names.names_resource,
      names.names_run,
      eq_json-str_self action,
      eq_json-str_self resource,
      eq_json-str_self agent_run,
    )

    -- A grant that has just been minted for a request is accepted for the action, the resource and
    -- the run of that request up to and including the sixtieth second after it, and is refused as
    -- expired in every later second.
    pub validate-mint :
        (second : ℕ)
        → (validate h
            (minted_token h w request approved_by)
            action
            resource
            agent_run
            (at_second second (mint_grant h request approved_by w).1)).0
          ≡ ok (
              if ltb (w.now + 60) second
              then invalid "Grant expired"
              else dict (("valid", bool true) ∷ ("claims", obj decoded) ∷ []))
    unfolding validate mint_grant truthy
    validate-mint second = rw (
      verify-sign h w.bap.signing_key _ decoded readable,
      decoded_full,
      decoded_id,
      find-put_self,
      decoded_expiry,
      claims_judged second,
    )
