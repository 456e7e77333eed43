-- ===== src/LocalPoc/MockBap/Approvals.antt =====
-- `approve`: what a human approval grants, and that it can be used once.
use laptop_bap_demo.Base.{
  Bool-cases, Option-cases, String, [], false, inl, inr, none, refl, ◌∷◌, ◌≡◌,
}
use laptop_bap_demo.Base.Dict.{find, find-erase_self}
use laptop_bap_demo.Base.Json.{Fields, bool, dict, obj, str, truthy}
use laptop_bap_demo.Base.Run.{ok}
use laptop_bap_demo.LocalPoc.MockBap.{approve, mint_grant}
use laptop_bap_demo.LocalPoc.World.{Host, World}

abbrev pub not_found : Fields
not_found = dict (("ok", bool false) ∷ ("reason", str "Approval request not found") ∷ [])

module _ (h : Host) (request_id : String) where
  pending-approve :
      (approver : String) (w : World)
      → find (approve h request_id approver w).1.bap.pending request_id ≡ none
  unfolding approve mint_grant
  pending-approve approver w = elim (Option-cases (find w.bap.pending request_id)) [
    | inl missing ↦ rw (missing, approve) (find-erase_self request_id w.bap.pending)
    | inr (request, found) ↦ elim (Bool-cases (truthy (obj request))) [
      | inl full ↦ rw (found, approve, full) (find-erase_self request_id w.bap.pending)
      | inr empty ↦ rw (found, approve, empty) (find-erase_self request_id w.bap.pending)
    ]
  ]

  approve_missing :
      (approver : String) (w : World)
      → find w.bap.pending request_id ≡ none
      → ((approve h request_id approver w).0 ≡ ok not_found)
        × ((approve h request_id approver w).1.bap.grants ≡ w.bap.grants)
  unfolding approve
  approve_missing approver w e = rw (e, approve) (refl, refl)

  -- An approval request is good for one approval: a second call with the same request ID, by whomever
  -- and whatever the first one answered, finds no request and leaves the grants as they are.
  pub approve_once :
      (approver approver' : String) (w : World)
      → ((approve h request_id approver' (approve h request_id approver w).1).0 ≡ ok not_found)
        × ((approve h request_id approver' (approve h request_id approver w).1).1.bap.grants
            ≡ (approve h request_id approver w).1.bap.grants)
  approve_once approver approver' w =
      approve_missing approver' (approve h request_id approver w).1 (pending-approve approver w)
