-- ===== src/Enterprise/Bap/Entitlement.antt =====
-- What must hold before `authorize` adds a grant.
use laptop_bap_demo.Base.{
  Bool-cases, List, Option-cases, true, String, [], false, inl, inr, refl, subst, ℕ, ◌∙◌, ◌∷◌, ◌≡◌,
  ◌⊎◌,
}
use laptop_bap_demo.Base.Dict.{find}
use laptop_bap_demo.Base.Json.{Fields, Json, get, truthy}
use laptop_bap_demo.Base.Lists.{All}
use laptop_bap_demo.Base.Run.{
  Except, Preserves, Preserves-bind, Preserves-if, Preserves-pure, Preserves-raise, Run, bind_cases,
  ok, raised, ◌>>◌,
}
use laptop_bap_demo.Enterprise.Audit.{emit}
use laptop_bap_demo.Enterprise.Audit.Frame.{emit-SameBut, or_drawn-SameBut}
use laptop_bap_demo.Enterprise.Bap.Authorize.{
  Trace, act_on, authorize, authorize_complete, authorize_traced, decide, evidence_of,
  insert_approval, missing_keys, policy_unavailable, request_approval, required,
}
use laptop_bap_demo.Enterprise.Policy.{
  Bundle, Effect, PolicyDecision, allow, deny, evaluate, require_approval,
}
use laptop_bap_demo.Enterprise.Policy.Decisions.{Justified, evaluate-Justified}
use laptop_bap_demo.Enterprise.World.{ApprovalRow, Machine, Response, World, draw, or_drawn}

-- The grants of `w`, at another state.
abbrev pub SameGrants : World → World → Type 0
SameGrants w v = v.grants ≡ w.grants

module _ (m : Machine) (w : World) where
  pub emit-Preserves :
      (source kind message : String) (details : Fields) (level : String)
      → Preserves (SameGrants w) (emit m source kind message details level)
  emit-Preserves source kind message details level = record {
    after = λ v e. (emit-SameBut m source kind message details level v).grants ∙ e;
  }

  -- an event, then what preserves the grants too
  pub emit_then :
      {A : Type 0} (source kind message : String) (details : Fields) (level : String)
      (n : Run World A)
      → Preserves (SameGrants w) n
      → Preserves (SameGrants w) (emit m source kind message details level >> n)
  emit_then source kind message details level n p =
      Preserves-bind _ _ (emit-Preserves source kind message details level) (λ _. p)

  pub draw-Preserves : (bytes : ℕ) → Preserves (SameGrants w) (draw m bytes)
  draw-Preserves bytes = record { after = λ v e. e }

  pub or_drawn-Preserves :
      (value : Json) (prefix : String) (bytes : ℕ)
      → Preserves (SameGrants w) (or_drawn m value prefix bytes)
  or_drawn-Preserves value prefix bytes = record {
    after = λ v e. (or_drawn-SameBut m value prefix bytes v).grants ∙ e;
  }

module _ (w : World) where
  insert_approval-Preserves :
      (id : String) (row : ApprovalRow) → Preserves (SameGrants w) (insert_approval id row)
  unfolding insert_approval
  insert_approval-Preserves id row = record {
    after = λ v e. elim (Option-cases (find v.approvals id)) [
      | inl fresh ↦ rw fresh e
      | inr (known, found) ↦ rw found e
    ];
  }

module _ (m : Machine) (b : Bundle) (replica_id : String) (w : World) where
  unavailable-Preserves :
      (evidence : Fields) (t : Trace) (error : String)
      → Preserves (SameGrants w) (policy_unavailable m b replica_id evidence t error)
  unavailable-Preserves evidence t error =
      Preserves-if _ _ _ (Preserves-raise error)
        (emit_then m w _ _ _ _ _ _ (emit_then m w _ _ _ _ _ _ (Preserves-pure _)))

  module _ (payload : Fields) where
    approval-Preserves :
        (t : Trace) (evidence : Fields) (p : PolicyDecision) (hex : String)
        → Preserves (SameGrants w) (request_approval m b replica_id payload t evidence p hex)
    approval-Preserves t evidence p hex =
        Preserves-bind _ _ (insert_approval-Preserves w _ _)
          λ _. emit_then m w _ _ _ _ _ _ (emit_then m w _ _ _ _ _ _ (Preserves-pure _))

    -- the seven fields that a request must name, each with a value that is not empty
    abbrev pub NamesAll : Type 0
    NamesAll =
        All (λ key. truthy (get payload key) ≡ true)
          ("user" ∷ "device" ∷ "agent" ∷ "agent_run" ∷ "task" ∷ "action" ∷ "resource" ∷ [])

    none_missing :
        (keys : List String)
        → missing_keys payload keys ≡ []
        → All (λ key. truthy (get payload key) ≡ true) keys
    unfolding missing_keys
    none_missing [] h = tt
    none_missing (key ∷ keys) h = elim (Bool-cases (truthy (get payload key))) [
      | inl given ↦ (given, none_missing keys (rw given at h))
      | inr absent ↦ absurd (cc (rw absent at h))
    ]

    -- a new grant, or none
    record Entitled (r : Except Response × World) : Type 0 where
      outcome :
          SameGrants w r.1
          ⊎ (NamesAll
              × (p : PolicyDecision) × (evaluate m b payload false ≡ ok p)
              × (p.effect ≡ allow))

    kept :
        (n : Run World Response) (v : World)
        → Preserves (SameGrants w) n
        → SameGrants w v
        → Entitled (n v)
    kept n v p e = record { outcome = inl (p.after v e) }

    act_Entitled :
        (t : Trace) (evidence : Fields) (p : PolicyDecision) (effect : Effect) (v : World)
        → evaluate m b payload false ≡ ok p
        → p.effect ≡ effect
        → NamesAll
        → SameGrants w v
        → Entitled (act_on m b replica_id payload t evidence p effect v)
    act_Entitled t evidence p allow v e a given s = record { outcome = inr (given, p, e, a) }
    act_Entitled t evidence p deny v e a given s =
        kept _ v (emit_then m w _ _ _ _ _ _ (emit_then m w _ _ _ _ _ _ (Preserves-pure _))) s
    act_Entitled t evidence p require_approval v e a given s =
        kept (request_approval m b replica_id payload t evidence p (m.token_hex 6 v.draws))
          (draw m 6 v).1 (approval-Preserves t evidence p (m.token_hex 6 v.draws)) s

    decide-Entitled :
        (t : Trace) (evidence : Fields) (r : Except PolicyDecision) (v : World)
        → evaluate m b payload false ≡ r
        → NamesAll
        → SameGrants w v
        → Entitled (decide m b replica_id payload t evidence r v)
    decide-Entitled t evidence (raised error) v e given s =
        kept _ v (unavailable-Preserves evidence t error) s
    decide-Entitled t evidence (ok p) v e given s =
        bind_cases Entitled (emit m replica_id "POLICY_MATCHED" _ _ _) _ v
          (λ x _. record { outcome = inl ((emit-Preserves m w _ _ _ _ _).after v s) })
          λ _ _.
            act_Entitled t _ p p.effect _ e refl given ((emit-Preserves m w _ _ _ _ _).after v s)

    complete_Entitled :
        (subject : String) (t : Trace) (v : World)
        → NamesAll
        → SameGrants w v
        → Entitled (authorize_complete m b replica_id payload subject t v)
    complete_Entitled subject t v given s =
        bind_cases Entitled (emit m replica_id "AUTHORIZATION_REQUEST" _ _ _) _ v
          (λ x _. record { outcome = inl ((emit-Preserves m w _ _ _ _ _).after v s) })
          λ _ _.
            decide-Entitled t (evidence_of m b replica_id payload subject t) _ _ refl given
              ((emit-Preserves m w _ _ _ _ _).after v s)

    traced_Entitled :
        (subject : String) (t : Trace) (missing : List String) (v : World)
        → missing_keys payload required ≡ missing
        → SameGrants w v
        → Entitled (authorize_traced m b replica_id payload subject t missing v)
    traced_Entitled subject t [] v e s = complete_Entitled subject t v (none_missing required e) s
    traced_Entitled subject t (key ∷ keys) v e s =
        kept _ v (emit_then m w _ _ _ _ _ _ (Preserves-pure _)) s

    started : (subject : String) → Entitled (authorize m b replica_id payload subject w)
    unfolding authorize
    started subject =
        bind_cases Entitled (or_drawn m (get payload "trace_id") "trc-" 12) _ w
          (λ x _. record { outcome = inl ((or_drawn-Preserves m w _ _ _).after w refl) })
          λ trace_id _.
            bind_cases Entitled (or_drawn m (get payload "request_id") "req-" 12) _ _
              (λ x _. record {
                outcome = inl (
                    (or_drawn-Preserves m w _ _ _).after _
                      ((or_drawn-Preserves m w (get payload "trace_id") "trc-" 12).after w refl));
              })
              λ request_id _. traced_Entitled subject _ _ _ refl (
                (or_drawn-Preserves m w (get payload "request_id") "req-" 12).after _
                  ((or_drawn-Preserves m w (get payload "trace_id") "trc-" 12).after w refl))

    justify :
        {S : Type 0}
        → S
          ⊎ (NamesAll
              × (p : PolicyDecision) × (evaluate m b payload false ≡ ok p)
              × (p.effect ≡ allow))
        → S
          ⊎ (NamesAll
              × (p : PolicyDecision) × (evaluate m b payload false ≡ ok p)
              × (p.effect ≡ allow)
              × Justified m payload false allow)
    justify (inl s) = inl s
    justify (inr (given, p, e, a)) = inr (
      given,
      p,
      e,
      a,
      subst (Justified m payload false) a (evaluate-Justified m b payload false p e),
    )

    -- `authorize` changes the table of the grants only where each of the seven fields is given and the
    -- policy engine has decided ALLOW for the request, for which Cedar must have printed a line ALLOW.
    -- So the table is as it was where a field is missing, and where the engine decides otherwise or
    -- raises.
    pub authorize-entitled :
        (subject : String)
        → SameGrants w (authorize m b replica_id payload subject w).1
          ⊎ (NamesAll
              × (p : PolicyDecision) × (evaluate m b payload false ≡ ok p)
              × (p.effect ≡ allow)
              × Justified m payload false allow)
    unfolding authorize
    authorize-entitled subject = justify (started subject).outcome
