-- ===== src/Enterprise/Bap/Approved.antt =====
-- What must hold before `approve` adds a grant.
use laptop_bap_demo.Base.{
  Bool, Bool-cases, Option, String, false, inl, inr, none, refl, some, subst, sym, true, ◌==◌, ◌||◌,
  ◌∙◌, ◌≡◌, ◌⊎◌,
}
use laptop_bap_demo.Base.Dict.{find}
use laptop_bap_demo.Base.Json.{Fields, get}
use laptop_bap_demo.Base.Run.{Except, Preserves, Preserves-pure, Run, bind_cases, ok, raised, ◌>>=◌}
use laptop_bap_demo.Enterprise.Audit.{emit}
use laptop_bap_demo.Enterprise.Bap.Approvals.{
  approver_of, claim_block-Preserves, claim_pending, claim_refused, evaluating, id_of,
  refused-Preserves, unavailable-Preserves,
}
use laptop_bap_demo.Enterprise.Bap.Approve.{
  after_evaluation, approve, approve_claimed, claim_block, conclude, is_allow, is_pending,
  reevaluation_of, refuse_unnamed,
}
use laptop_bap_demo.Enterprise.Bap.Authorize.{Trace}
use laptop_bap_demo.Enterprise.Bap.Entitlement.{
  SameGrants, emit-Preserves, emit_then, or_drawn-Preserves,
}
use laptop_bap_demo.Enterprise.Policy.{
  Bundle, Effect, PolicyDecision, allow, deny, evaluate, require_approval,
}
use laptop_bap_demo.Enterprise.Policy.Decisions.{Justified, evaluate-Justified}
use laptop_bap_demo.Enterprise.World.{ApprovalRow, Machine, Response, World, or_drawn}

allow_of : (e : Effect) → is_allow e ≡ true → e ≡ allow
allow_of allow t = refl
allow_of deny t = cc
allow_of require_approval t = cc

pending_row :
    (found : Option ApprovalRow)
    → is_pending found ≡ true
    → (row : ApprovalRow) × (found ≡ some row) × ((row.status == "PENDING") ≡ true)
pending_row none p = cc
pending_row (some row) p = (row, refl, p)

ok_path : {A : Type 0} {a c : A} → ok a ≡ ok c → a ≡ c
ok_path e = cc

-- Why an approval has added a grant.
pub record Approved (m : Machine) (b : Bundle) (payload : Fields) (w : World) : Type 0 where
  pub row : ApprovalRow
  pub found : find w.approvals (id_of payload) ≡ some row
  pub pending : (row.status == "PENDING") ≡ true
  pub decision : PolicyDecision
  pub decided : evaluate m b row.request_json true ≡ ok decision
  pub justified : Justified m row.request_json true allow

module _ (m : Machine) (b : Bundle) (replica_id : String) (payload : Fields) (w : World) where
  record Entitled (r : Except Response × World) : Type 0 where
    outcome : SameGrants w r.1 ⊎ Approved m b payload w

  kept :
      (n : Run World Response) (v : World)
      → Preserves (SameGrants w) n
      → SameGrants w v
      → Entitled (n v)
  kept n v p e = record { outcome = inl (p.after v e) }

  stopped : (e : String) (v : World) → SameGrants w v → Entitled (raised e, v)
  stopped e v s = record { outcome = inl s }

  module _ (row : ApprovalRow) (found : find w.approvals (id_of payload) ≡ some row)
      (pending : (row.status == "PENDING") ≡ true) where
    conclude-Entitled :
        (t : Trace) (evidence : Fields) (p : PolicyDecision) (allowed : Bool) (v : World)
        → evaluate m b row.request_json true ≡ ok p
        → is_allow p.effect ≡ allowed
        → SameGrants w v
        → Entitled (
            conclude m b replica_id
              (evaluating row)
              (id_of payload)
              (approver_of payload)
              t
              evidence
              p
              allowed
              v)
    conclude-Entitled t evidence p false v e a s =
        kept _ v
          (refused-Preserves m b replica_id w (evaluating row) (id_of payload) (approver_of payload)
            t evidence p)
          s
    conclude-Entitled t evidence p true v e a s = record {
      outcome = inr (record {
        row = row;
        found = found;
        pending = pending;
        decision = p;
        decided = e;
        justified =
            subst (Justified m row.request_json true) (allow_of p.effect a)
              (evaluate-Justified m b row.request_json true p e);
      });
    }

    evaluation_Entitled :
        (t : Trace) (r : Except PolicyDecision) (v : World)
        → evaluate m b row.request_json true ≡ r
        → SameGrants w v
        → Entitled (
            after_evaluation m b replica_id
              (evaluating row)
              (id_of payload)
              (approver_of payload)
              t
              r
              v)
    evaluation_Entitled t (raised error) v e s =
        kept _ v (unavailable-Preserves m b replica_id w _ _ _ t error) s
    evaluation_Entitled t (ok p) v e s =
        bind_cases Entitled (emit m replica_id "AUTHORIZATION_DECISION" _ _ _) _ v
          (λ x _. stopped x _ ((emit-Preserves m w _ _ _ _ _).after v s))
          λ _ _.
            conclude-Entitled t
              (reevaluation_of m b replica_id row.request_json (id_of payload) (approver_of payload)
                t p)
              p (is_allow p.effect) _ e refl ((emit-Preserves m w _ _ _ _ _).after v s)

    claimed_Entitled :
        (v : World)
        → SameGrants w v
        → Entitled (
            approve_claimed m b replica_id
              (id_of payload)
              (approver_of payload)
              (inr (evaluating row))
              v)
    claimed_Entitled v s =
        bind_cases Entitled (or_drawn m (get row.request_json "trace_id") "trc-" 12) _ v
          (λ x _. stopped x _ ((or_drawn-Preserves m w _ _ _).after v s))
          λ trace_id _.
            let t =
              (or_drawn-Preserves m w (get row.request_json "trace_id") "trc-" 12).after v s in
            bind_cases Entitled (or_drawn m (get row.request_json "request_id") "req-" 12) _ _
              (λ x _. stopped x _ ((or_drawn-Preserves m w _ _ _).after _ t))
              λ request_id _.
                evaluation_Entitled _ _ _ refl
                  ((or_drawn-Preserves m w (get row.request_json "request_id") "req-" 12).after _ t)

  of_claim :
      (claimed : Response ⊎ ApprovalRow)
      → (claim_block m b replica_id (id_of payload) (approver_of payload) w).0 ≡ ok claimed
      → Entitled (
          approve_claimed m b replica_id
            (id_of payload)
            (approver_of payload)
            claimed
            (claim_block m b replica_id (id_of payload) (approver_of payload) w).1)
  of_claim claimed e = elim (Bool-cases (is_pending (find w.approvals (id_of payload)))) [
    | inr other ↦ absurd (
        cc (sym (claim_refused m b replica_id (id_of payload) (approver_of payload) w other).0 ∙ e))
    | inl waiting ↦
        let (row, found, pending) = pending_row (find w.approvals (id_of payload)) waiting in
        let same : inr (evaluating row) ≡ claimed = ok_path (
          sym
            (claim_pending m b replica_id (id_of payload) (approver_of payload) w row found pending)
          ∙ e) in
        subst
          (λ c. Entitled (
            approve_claimed m b replica_id (id_of payload) (approver_of payload) c
              (claim_block m b replica_id (id_of payload) (approver_of payload) w).1))
          same
          (claimed_Entitled row found pending _
            ((claim_block-Preserves m b replica_id w _ _).after w refl))
  ]

  block_Entitled :
      (named : (id_of payload == "" || approver_of payload == "") ≡ false)
      → Entitled (
          (claim_block m b replica_id (id_of payload) (approver_of payload)
              >>= approve_claimed m b replica_id (id_of payload) (approver_of payload))
            w)
  block_Entitled named =
      bind_cases Entitled (claim_block m b replica_id (id_of payload) (approver_of payload)) _ w
        (λ x _. stopped x _ ((claim_block-Preserves m b replica_id w _ _).after w refl))
        λ claimed e. of_claim claimed e

  unnamed-Preserves :
      (id approver : String) → Preserves (SameGrants w) (refuse_unnamed m b replica_id id approver)
  unnamed-Preserves id approver = emit_then m w _ _ _ _ _ _ (Preserves-pure _)

  -- `approve` changes the table of the grants only for a request that is waiting for its approval, and
  -- only where the policy engine, asked again about the stored request with the approval, decides
  -- ALLOW, for which Cedar must have printed a line ALLOW.
  pub approve-Approved : SameGrants w (approve m b replica_id payload w).1 ⊎ Approved m b payload w
  unfolding approve
  approve-Approved = elim (Bool-cases (id_of payload == "" || approver_of payload == "")) [
    | inl unnamed ↦
        rw unnamed (inl ((unnamed-Preserves (id_of payload) (approver_of payload)).after w refl))
    | inr named ↦ rw named (block_Entitled named).outcome
  ]
