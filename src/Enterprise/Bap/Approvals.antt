-- ===== src/Enterprise/Bap/Approvals.antt =====
-- The claim of an approval, what a second approval meets, and the steps of `approve` that add no grant.
use laptop_bap_demo.Base.{Bool, Option, String, false, inr, none, refl, some, true, ◌==◌, ◌||◌, ◌≡◌}
use laptop_bap_demo.Base.Dict.{find, find-put_self}
use laptop_bap_demo.Base.Json.{Fields, get_or, str}
use laptop_bap_demo.Base.Json.Repr.{str_of}
use laptop_bap_demo.Base.Run.{
  Except, Preserves, Preserves-bind, Preserves-if, Preserves-pure, Preserves-raise, Run, ok, raised,
}
use laptop_bap_demo.Enterprise.Audit.{emit}
use laptop_bap_demo.Enterprise.Bap.Approve.{
  after_claim, approve, claim_block, conclude, is_pending, reevaluation_unavailable, set_status,
}
use laptop_bap_demo.Enterprise.Bap.Authorize.{Trace}
use laptop_bap_demo.Enterprise.Bap.Entitlement.{SameGrants, emit_then}
use laptop_bap_demo.Enterprise.Policy.{Bundle, PolicyDecision}
use laptop_bap_demo.Enterprise.World.{
  ApprovalRow, Machine, World, close_connection, with_connection,
}

abbrev pub id_of : Fields → String
id_of payload = str_of (get_or payload "request_id" (str ""))

abbrev pub approver_of : Fields → String
approver_of payload = str_of (get_or payload "approver" (str ""))

abbrev pub evaluating : ApprovalRow → ApprovalRow
evaluating row = record row { status = "EVALUATING" }

abbrev locked : String
locked = "OperationalError: database is locked"

module _ (m : Machine) (b : Bundle) (replica_id id approver : String) (w : World) where
  pub claim_pending :
      (row : ApprovalRow)
      → find w.approvals id ≡ some row
      → (row.status == "PENDING") ≡ true
      → (claim_block m b replica_id id approver w).0 ≡ ok (inr (evaluating row))
  claim_pending row found pending = rw (found, pending, find-put_self) refl

  pub claim_refused :
      is_pending (find w.approvals id) ≡ false
      → ((claim_block m b replica_id id approver w).0 ≡ raised locked)
        × ((claim_block m b replica_id id approver w).1.grants ≡ w.grants)
        × ((claim_block m b replica_id id approver w).1.approvals ≡ w.approvals)
  unfolding emit
  claim_refused other = rw (other, after_claim, emit) (refl, refl, refl)

module _ (m : Machine) (b : Bundle) (replica_id : String) (payload : Fields) (w : World)
    (named : (id_of payload == "" || approver_of payload == "") ≡ false) where
  -- A call that names an approval and an approver, where the approval is missing or no longer pending,
  -- leaves the grants and the approvals as they are: the event of the refusal cannot be written while
  -- the block of the claim holds the write lock, so the call ends with SQLite's error.
  pub approve-not_pending :
      is_pending (find w.approvals (id_of payload)) ≡ false
      → ((approve m b replica_id payload w).0 ≡ raised "OperationalError: database is locked")
        × ((approve m b replica_id payload w).1.grants ≡ w.grants)
        × ((approve m b replica_id payload w).1.approvals ≡ w.approvals)
  unfolding approve
  approve-not_pending other =
      let (error, grants, approvals) =
        claim_refused m b replica_id (id_of payload) (approver_of payload) w other in
      rw (named, error) (refl, grants, approvals)

closed_grants :
    {A : Type 0} (w before : World) (r : Except A) (v : World)
    → SameGrants w before
    → SameGrants w v
    → SameGrants w (close_connection before r v).1
closed_grants w before (ok a) v p q = q
closed_grants w before (raised e) v p q = p

with_connection-Preserves :
    {A : Type 0} (w : World) (body : Run World A)
    → Preserves (SameGrants w) body
    → Preserves (SameGrants w) (with_connection body)
with_connection-Preserves w body p = record {
  after = λ v e. closed_grants w v (body v).0 (body v).1 e (p.after v e);
}

module _ (m : Machine) (b : Bundle) (replica_id : String) (w : World) where
  pub set_status-Preserves : (id status : String) → Preserves (SameGrants w) (set_status id status)
  unfolding set_status
  set_status-Preserves id status = record { after = λ v e. e }

  after_claim-Preserves :
      (id approver : String) (claimed : Bool) (row : Option ApprovalRow)
      → Preserves (SameGrants w) (after_claim m b replica_id id approver claimed row)
  after_claim-Preserves id approver true (some row) = Preserves-pure _
  after_claim-Preserves id approver true none = emit_then m w _ _ _ _ _ _ (Preserves-pure _)
  after_claim-Preserves id approver false row = emit_then m w _ _ _ _ _ _ (Preserves-pure _)

  pub claim_block-Preserves :
      (id approver : String) → Preserves (SameGrants w) (claim_block m b replica_id id approver)
  claim_block-Preserves id approver =
      with_connection-Preserves w _
        (record { after = λ v e. (after_claim-Preserves id approver _ _).after _ e })

  pub unavailable-Preserves :
      (original : Fields) (id approver : String) (t : Trace) (error : String)
      → Preserves
          (SameGrants w)
          (reevaluation_unavailable m b replica_id original id approver t error)
  unavailable-Preserves original id approver t error = Preserves-if _ _ _ (Preserves-raise error) (
      emit_then m w _ _ _ _ _ _
        (Preserves-bind _ _ (set_status-Preserves id _) (λ _. Preserves-pure _)))

  pub refused-Preserves :
      (row : ApprovalRow) (id approver : String) (t : Trace) (evidence : Fields)
      (p : PolicyDecision)
      → Preserves (SameGrants w) (conclude m b replica_id row id approver t evidence p false)
  refused-Preserves row id approver t evidence p =
      emit_then m w _ _ _ _ _ _
        (Preserves-bind _ _ (set_status-Preserves id _) (λ _. Preserves-pure _))
