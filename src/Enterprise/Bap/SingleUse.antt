-- ===== src/Enterprise/Bap/SingleUse.antt =====
-- An approval is good for one call of `approve`.
use laptop_bap_demo.Base.{
  Bool, Bool-cases, Option, Option-cases, String, [], ap, false, inl, inr, none, refl, some, true,
  ℕ, ◌<>◌, ◌==◌, ◌||◌, ◌∙◌, ◌∷◌, ◌≡◌, ◌⊎◌,
}
use laptop_bap_demo.Base.Dict.{find, find-put_self}
use laptop_bap_demo.Base.Json.{Fields, Json, dict, str, update}
use laptop_bap_demo.Base.Run.{
  Except, Preserves, Preserves-bind, Preserves-if, Preserves-pure, Preserves-raise, Run, bind_after,
  ok, pure, raised, ◌>>◌,
}
use laptop_bap_demo.Enterprise.Audit.{emit}
use laptop_bap_demo.Enterprise.Audit.Frame.{emit-SameBut, or_drawn-SameBut}
use laptop_bap_demo.Enterprise.Bap.Approvals.{approve-not_pending, approver_of, evaluating, id_of}
use laptop_bap_demo.Enterprise.Bap.Approve.{
  after_claim, after_evaluation, approve, approve_claimed, claim_block, conclude, is_allow,
  is_pending, reevaluation_of, reevaluation_unavailable, set_status, with_status,
}
use laptop_bap_demo.Enterprise.Bap.Authorize.{Trace}
use laptop_bap_demo.Enterprise.Bap.Issue.{insert_grant, issue_grant, store_grant}
use laptop_bap_demo.Enterprise.Policy.{Bundle, PolicyDecision, evaluate}
use laptop_bap_demo.Enterprise.World.{
  ApprovalRow, GrantRow, Machine, Response, World, draw, or_drawn,
}

-- The approval `id` is not, or no longer, waiting.
abbrev pub Settled : String → World → Type 0
Settled id w = is_pending (find w.approvals id) ≡ false

module _ (id : String) where
  emit-Settled :
      (m : Machine) (source kind message : String) (details : Fields) (level : String)
      → Preserves (Settled id) (emit m source kind message details level)
  emit-Settled m source kind message details level = record {
    after = λ v e.
        ap (λ approvals. is_pending (find approvals id))
          (emit-SameBut m source kind message details level v).approvals
        ∙ e;
  }

  event_then :
      {A : Type 0} (m : Machine) (source kind message : String) (details : Fields) (level : String)
      (n : Run World A)
      → Preserves (Settled id) n
      → Preserves (Settled id) (emit m source kind message details level >> n)
  event_then m source kind message details level n p =
      Preserves-bind _ _ (emit-Settled m source kind message details level) (λ _. p)

  or_drawn-Settled :
      (m : Machine) (value : Json) (prefix : String) (bytes : ℕ)
      → Preserves (Settled id) (or_drawn m value prefix bytes)
  or_drawn-Settled m value prefix bytes = record {
    after = λ v e.
        ap (λ approvals. is_pending (find approvals id))
          (or_drawn-SameBut m value prefix bytes v).approvals
        ∙ e;
  }

  draw-Settled : (m : Machine) (bytes : ℕ) → Preserves (Settled id) (draw m bytes)
  draw-Settled m bytes = record { after = λ v e. e }

  insert_grant-Settled :
      (grant_id : String) (row : GrantRow) → Preserves (Settled id) (insert_grant grant_id row)
  unfolding insert_grant
  insert_grant-Settled grant_id row = record {
    after = λ v e. elim (Option-cases (find v.grants grant_id)) [
      | inl fresh ↦ rw fresh e
      | inr (known, found) ↦ rw found e
    ];
  }

  store_grant-Settled :
      (m : Machine) (replica : String) (claims : Fields) (grant_id token : String)
      (p : PolicyDecision) (row : GrantRow)
      → Preserves (Settled id) (store_grant m replica claims grant_id token p row)
  unfolding store_grant
  store_grant-Settled m replica claims grant_id token p row =
      Preserves-bind _ _ (insert_grant-Settled grant_id row) λ _.
        event_then m _ _ _ _ "success"
          (pure (update (dict (("grant_id", str grant_id) ∷ ("token", str token) ∷ [])) claims))
          (Preserves-pure _)

  issue_grant-Settled :
      (m : Machine) (replica user agent_run action resource approver : String) (p : PolicyDecision)
      (trace_id request_id decision_id : String)
      → Preserves (Settled id) (
          issue_grant m replica user agent_run action resource approver p trace_id request_id
            decision_id)
  unfolding issue_grant
  issue_grant-Settled m replica user agent_run action resource approver p trace_id request_id
        decision_id =
      record { after = λ v e. (store_grant-Settled m replica _ _ _ p _).after _ e }

  set_status-Settled :
      (status : String)
      → (status == "PENDING") ≡ false
      → Preserves (Settled id) (set_status id status)
  unfolding set_status
  set_status-Settled status other = record {
    after = λ v e. elim (Option-cases (find v.approvals id)) [
      | inl missing ↦ rw (missing, with_status, missing) refl
      | inr (row, found) ↦ rw (found, with_status, find-put_self) other
    ];
  }

module _ (m : Machine) (b : Bundle) (replica_id id approver : String) where
  conclude-Settled :
      (row : ApprovalRow) (t : Trace) (evidence : Fields) (p : PolicyDecision) (allowed : Bool)
      → Preserves (Settled id) (conclude m b replica_id row id approver t evidence p allowed)
  conclude-Settled row t evidence p false = event_then id m _ _ _ _ _ _ (
      Preserves-bind _ _ (set_status-Settled id "APPROVED_POLICY_DENIED" refl)
        λ _. Preserves-pure _)
  conclude-Settled row t evidence p true =
      Preserves-bind _ _ (issue_grant-Settled id m replica_id _ _ _ _ approver p _ _ _) λ grant.
        Preserves-bind _ _ (set_status-Settled id "APPROVED" refl)
          λ _. event_then id m _ _ _ _ _ _ (Preserves-pure _)

  unavailable-Settled :
      (original : Fields) (t : Trace) (error : String)
      → Preserves
          (Settled id)
          (reevaluation_unavailable m b replica_id original id approver t error)
  unavailable-Settled original t error = Preserves-if _ _ _ (Preserves-raise error) (
      event_then id m _ _ _ _ _ _ (
        Preserves-bind _ _ (set_status-Settled id "POLICY_ERROR_DENIED" refl)
          λ _. Preserves-pure _))

  evaluation-Settled :
      (row : ApprovalRow) (t : Trace) (r : Except PolicyDecision)
      → Preserves (Settled id) (after_evaluation m b replica_id row id approver t r)
  evaluation-Settled row t (raised error) = unavailable-Settled row.request_json t error
  evaluation-Settled row t (ok p) = event_then id m _ _ _ _ _ _ (
      conclude-Settled row t (reevaluation_of m b replica_id row.request_json id approver t p) p
        (is_allow p.effect))

  claimed-Settled :
      (claimed : Response ⊎ ApprovalRow)
      → Preserves (Settled id) (approve_claimed m b replica_id id approver claimed)
  claimed-Settled (inl early) = Preserves-pure _
  claimed-Settled (inr row) = Preserves-bind _ _ (or_drawn-Settled id m _ _ _) λ trace_id.
      Preserves-bind _ _ (or_drawn-Settled id m _ _ _) λ request_id.
        Preserves-bind _ _ (draw-Settled id m 12) λ hex.
          evaluation-Settled row
            (record { trace_id = trace_id; request_id = request_id; decision_id = "dec-" <> hex })
            (evaluate m b row.request_json true)

  row_claim-Settled :
      (w : World) (row : Option ApprovalRow)
      → find w.approvals id ≡ row
      → Settled id (claim_block m b replica_id id approver w).1
  unfolding emit
  row_claim-Settled w none found = rw (found, after_claim, emit) (ap is_pending found)
  row_claim-Settled w (some row) found = elim (Bool-cases (row.status == "PENDING")) [
    | inl pending ↦
        rw (found, pending, find-put_self)
          (ap is_pending (find-put_self id (evaluating row) w.approvals))
    | inr other ↦ rw (found, other, after_claim, emit) (ap is_pending found ∙ other)
  ]

  -- the claim itself settles the approval
  claim-Settled : (w : World) → Settled id (claim_block m b replica_id id approver w).1
  claim-Settled w = row_claim-Settled w _ refl

module _ (m : Machine) (b : Bundle) (replica_id : String) (payload : Fields) (w : World)
    (named : (id_of payload == "" || approver_of payload == "") ≡ false) where
  not_pending-grants :
      Settled (id_of payload) w → (approve m b replica_id payload w).1.grants ≡ w.grants
  unfolding approve emit
  not_pending-grants other = rw (named, other, after_claim, emit) refl

module _ (m : Machine) (b : Bundle) (replica_id : String) (payload : Fields) (w : World)
    (named : (id_of payload == "" || approver_of payload == "") ≡ false) where
  approve-Settled : Settled (id_of payload) (approve m b replica_id payload w).1
  unfolding approve
  approve-Settled = rw named (
      bind_after {P = Settled (id_of payload)}
        (claim_block m b replica_id (id_of payload) (approver_of payload))
        (approve_claimed m b replica_id (id_of payload) (approver_of payload)) w
        (claim-Settled m b replica_id (id_of payload) (approver_of payload) w)
        (claimed-Settled m b replica_id (id_of payload) (approver_of payload)))

  settled :
      (again : Fields)
      → id_of again ≡ id_of payload
      → Settled (id_of again) (approve m b replica_id payload w).1
  settled again same = rw same approve-Settled

  -- Once `approve` was called for an approval, with an ID and an approver and whatever came of it, a
  -- second call for the same ID, by whatever approver, issues no grant: it ends with SQLite's error,
  -- since the approval no longer waits.
  pub approve-once :
      (again : Fields)
      → (id_of again == "" || approver_of again == "") ≡ false
      → id_of again ≡ id_of payload
      → ((approve m b replica_id again (approve m b replica_id payload w).1).0
          ≡ raised "OperationalError: database is locked")
        × ((approve m b replica_id again (approve m b replica_id payload w).1).1.grants
            ≡ (approve m b replica_id payload w).1.grants)
  approve-once again named' same = (
    (approve-not_pending m b replica_id again (approve m b replica_id payload w).1 named'
        (settled again same)).0,
    not_pending-grants m b replica_id again _ named' (settled again same),
  )
