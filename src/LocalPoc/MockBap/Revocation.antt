-- ===== src/LocalPoc/MockBap/Revocation.antt =====
-- `revoke_session` against the table of the grants.
use laptop_bap_demo.Base.{
  Bool, List, Option, String, [], arith, eq_iff, false, if◌then◌else◌, none, refl, some, ◌∷◌, ◌≡◌,
}
use laptop_bap_demo.Base.Dict.{
  Dict, NodupKeys, erase, find, find-erase, find-put_self, put-NodupKeys,
}
use laptop_bap_demo.Base.Json.{Fields, eq_json, eq_json-str_self, get, lookup, str}
use laptop_bap_demo.Base.Lists.{contains}
use laptop_bap_demo.Base.Run.{ok}
use laptop_bap_demo.LocalPoc.MockBap.{
  ids_of_run, invalid, mint_grant, pop_all, revoke_session, validate,
}
use laptop_bap_demo.LocalPoc.MockBap.Grants.{
  Names, decoded_full, decoded_id, grant_id_at, minted_claims, minted_token,
}
use laptop_bap_demo.LocalPoc.MockBap.Signatures.{IsReadable, verify-sign}
use laptop_bap_demo.LocalPoc.World.{Host, World}

-- Whether a grant, if there is one, belongs to a run.
abbrev pub belongs : String → Option Fields → Bool
belongs agent_run none = false
belongs agent_run (some grant) = eq_json (get grant "agent_run") (str agent_run)

find-pop_all :
    (ids : List String) (d : Dict Fields) (k : String)
    → find (pop_all ids d) k ≡ (if contains ids k then none else find d k)
unfolding pop_all
find-pop_all [] d k = refl
find-pop_all (i ∷ ids) d k =
    ground (arith, find-pop_all ids (erase i d) k, find-erase k i d, eq_iff i k, eq_iff k i)

contains-ids_of_run :
    (agent_run : String) (d : Dict Fields) (k : String)
    → NodupKeys d
    → contains (ids_of_run agent_run d) k ≡ belongs agent_run (find d k)
unfolding ids_of_run find
contains-ids_of_run agent_run [] k u = refl
contains-ids_of_run agent_run ((j, v) ∷ d) k (fresh, u) = ground (
  arith,
  contains-ids_of_run agent_run d k u,
  contains-ids_of_run agent_run d j u,
  eq_iff j k,
  eq_iff k j,
)

module _ (h : Host) (agent_run : String) (w : World) (unique : NodupKeys w.bap.grants) where
  -- Revoking a run removes exactly the grants of that run.
  find-revoke_session :
      (k : String)
      → find (revoke_session h agent_run w).1.bap.grants k
        ≡ (if belongs agent_run (find w.bap.grants k) then none else find w.bap.grants k)
  unfolding revoke_session
  find-revoke_session k = rw (find-pop_all, contains-ids_of_run agent_run w.bap.grants k unique)

-- A grant that was minted for a run is refused, before it expires too, once the run is revoked.
pub validate-revoke_session :
    (h : Host) (w : World) (request : Fields) (approved_by : String) (decoded : Fields)
    (action resource agent_run : String)
    → Names request action resource agent_run
    → IsReadable h w.bap.signing_key (minted_claims h w request approved_by) decoded
    → NodupKeys w.bap.grants
    → (validate h
        (minted_token h w request approved_by)
        action
        resource
        agent_run
        (revoke_session h agent_run (mint_grant h request approved_by w).1).1).0
      ≡ ok (invalid "Grant was revoked or is not active")
unfolding validate mint_grant lookup revoke_session
validate-revoke_session h w request approved_by decoded action resource agent_run names readable
      unique =
    rw (
      verify-sign h w.bap.signing_key _ decoded readable,
      decoded_full h w request approved_by names decoded readable,
      decoded_id h w request approved_by names decoded readable,
      find-pop_all,
      contains-ids_of_run agent_run _ (grant_id_at h w) (put-NodupKeys _ _ _ unique),
      find-put_self,
      names.names_run,
      eq_json-str_self,
    )
