-- ===== src/Enterprise/Gateway/Mediation.antt =====
-- What must hold before the resource gateway asks the protected resource.
use laptop_bap_demo.Base.{
  Bool, Bool-cases, List, Option, [], ◌∷◌, String, ap, false, inl, inr, none, refl, some, sym, true,
  ◌∙◌, ◌≡◌, ◌⊎◌,
}
use laptop_bap_demo.Base.Json.{Fields, eq_json, get, get_or, item, str}
use laptop_bap_demo.Base.Json.Repr.{str_of}
use laptop_bap_demo.Base.Run.{Except, bind_cases, lift, ok, pure, raised, ◌>>◌}
use laptop_bap_demo.Enterprise.Audit.{emit}
use laptop_bap_demo.Enterprise.Audit.Frame.{
  SameBut, SameBut-refl, SameBut-trans, draw-SameBut, emit-SameBut, or_drawn-SameBut, same_then,
}
use laptop_bap_demo.Enterprise.Bap.Binding.{
  HasActiveRow, SameBinding, SignedInTime, active_grant-HasActiveRow, verify_grant-SignedInTime,
}
use laptop_bap_demo.Enterprise.Bap.Validate.{active_grant, bound_fields}
use laptop_bap_demo.Enterprise.Gateway.{
  Ids, Upstream, base_of, execute, execute_active, execute_bound, execute_valid, execute_verified,
  expected_action, ids_for, mismatch,
}
use laptop_bap_demo.Enterprise.Grants.{verify_grant}
use laptop_bap_demo.Enterprise.World.{Machine, Response, World, or_drawn}

-- A grant stands behind a request: its token is signed by the BAP and has not expired at the second of
-- the request, the row of its ID is there and not revoked, its claims name the action, the resource and the run of the request, and
-- its action is the one of the operation.
pub record Granted (m : Machine) (payload : Fields) (w : World) : Type 0 where
  pub claims : Fields
  pub verified : SignedInTime m w.now (str_of (get_or payload "token" (str ""))) claims
  pub same_fields : SameBinding claims payload
  pub active : HasActiveRow (get claims "grant_id") w.grants
  pub same_action :
      eq_json
        (expected_action (str_of (get_or payload "operation" (str "read"))))
        (get claims "action")
      ≡ true

-- no bound field differs
mismatch_cons :
    (payload claims : Fields) (name : String) (names : List String)
    → mismatch payload claims (name ∷ names) ≡ none
    → (eq_json (get claims name) (get payload name) ≡ true) × (mismatch payload claims names ≡ none)
mismatch_cons payload claims name names h =
    elim (Bool-cases (eq_json (get claims name) (get payload name))) [
      | inl same ↦ (same, rw same at h)
      | inr other ↦ absurd (cc (rw other at h))
    ]

mismatch-same_fields :
    (payload claims : Fields)
    → mismatch payload claims bound_fields ≡ none
    → SameBinding claims payload
mismatch-same_fields payload claims h =
    let (action, h1) = mismatch_cons payload claims "action" ("resource" ∷ "agent_run" ∷ []) h in
    let (resource, h2) = mismatch_cons payload claims "resource" ("agent_run" ∷ []) h1 in
    let (run, _) = mismatch_cons payload claims "agent_run" [] h2 in
    record { same_action = action; same_resource = resource; same_run = run }

module _ (m : Machine) (upstream : Upstream) (payload : Fields) (w : World) where
  -- how a run of the gateway may end
  record Mediated (r : Except Response × World) : Type 0 where
    outcome : (r.1.rows ≡ w.rows) ⊎ Granted m payload w

  stopped : (e : String) (v : World) → SameBut v w → Mediated (raised e, v)
  stopped e v s = record { outcome = inl s.rows }

  -- an event, then an answer
  refused :
      (kind message : String) (details : Fields) (level : String) (answer : Response) (v : World)
      → SameBut v w
      → Mediated ((emit m "RESOURCE GATEWAY" kind message details level >> pure answer) v)
  refused kind message details level answer v s =
      same_then Mediated w stopped (emit m "RESOURCE GATEWAY" kind message details level) _ v
        (emit-SameBut m "RESOURCE GATEWAY" kind message details level v) s
        λ _ _ u t. record { outcome = inl t.rows }

  module _ (claims base : Fields) (i : Ids)
      (verified : verify_grant m w.now (str_of (get_or payload "token" (str ""))) ≡ ok (inr claims))
      (same_fields : mismatch payload claims bound_fields ≡ none) where
    valid_Mediated :
        (v : World)
        → active_grant (get claims "grant_id") w.grants ≡ ok true
        → SameBut v w
        → Mediated (
            execute_valid m upstream payload base i claims
              (str_of (get_or payload "operation" (str "read")))
              v)
    valid_Mediated v active s =
        bind_cases Mediated (lift (item claims "grant_id")) _ v (λ e _. stopped e v s)
          λ grant_id _.
            same_then Mediated w stopped (emit m "RESOURCE GATEWAY" "GRANT_VALID" _ _ _) _ v
              (emit-SameBut m "RESOURCE GATEWAY" "GRANT_VALID" _ _ _ v) s
              λ _ _ u t.
                elim (Bool-cases (
                  eq_json (expected_action (str_of (get_or payload "operation" (str "read"))))
                    (get claims "action"))) [
                      | inl equal ↦ record {
                        outcome = inr (record {
                          claims = claims;
                          verified = verify_grant-SignedInTime m _ _ claims verified;
                          same_fields = mismatch-same_fields payload claims same_fields;
                          active = active_grant-HasActiveRow _ w.grants active;
                          same_action = equal;
                        });
                      }
                      | inr other ↦ rw other (refused _ _ _ _ _ u t)
                    ]

    active_Mediated :
        (v : World) (active : Bool)
        → active_grant (get claims "grant_id") w.grants ≡ ok active
        → SameBut v w
        → Mediated (execute_active m upstream payload base i claims active v)
    active_Mediated v true e s = valid_Mediated v e s
    active_Mediated v false e s = refused _ _ _ _ _ v s

  bound_Mediated :
      (claims base : Fields) (i : Ids) (name : Option String) (v : World)
      → verify_grant m w.now (str_of (get_or payload "token" (str ""))) ≡ ok (inr claims)
      → mismatch payload claims bound_fields ≡ name
      → SameBut v w
      → Mediated (execute_bound m upstream payload base i claims name v)
  bound_Mediated claims base i (some name) v e n s = refused _ _ _ _ _ v s
  bound_Mediated claims base i none v e n s =
      bind_cases Mediated (lift (active_grant (get claims "grant_id") v.grants)) _ v
        (λ x _. stopped x v s)
        λ active a.
          active_Mediated claims base i e n v active
            (ap (active_grant (get claims "grant_id")) (sym s.grants) ∙ a) s

  verified_Mediated :
      (base : Fields) (i : Ids) (r : String ⊎ Fields) (v : World)
      → verify_grant m w.now (str_of (get_or payload "token" (str ""))) ≡ ok r
      → SameBut v w
      → Mediated (execute_verified m upstream payload base i r v)
  verified_Mediated base i (inl reason) v e s = refused _ _ _ _ _ v s
  verified_Mediated base i (inr claims) v e s = bound_Mediated claims base i _ v e refl s

  -- A request to the gateway leaves the rows of the protected resource as they are, unless a grant
  -- stands behind it: the BAP's public key verifies the signature of its token over the first two
  -- parts, its claims expire after the second of the request, its row is in the table and not revoked, its claims name the action, the resource and the run of the request, and its action is
  -- that of the operation. This holds whatever the protected resource does when it is asked.
  pub execute-Granted :
      (subject : String)
      → ((execute m upstream payload subject w).1.rows ≡ w.rows) ⊎ Granted m payload w
  unfolding execute
  execute-Granted subject =
      (same_then Mediated w stopped (or_drawn m (get payload "trace_id") "trc-" 12) _ w
        (or_drawn-SameBut m _ _ _ w) (SameBut-refl w)
        λ trace_id _ u s.
          same_then Mediated w stopped (or_drawn m (get payload "request_id") "req-" 12) _ u
            (or_drawn-SameBut m _ _ _ u) s
            λ request_id _ v t.
              bind_cases Mediated
                (lift (verify_grant m v.now (str_of (get_or payload "token" (str ""))))) _ _
                (λ e _. stopped e _ (SameBut-trans (draw-SameBut m 12 v) t))
                λ r e.
                  let i = ids_for payload trace_id request_id (m.token_hex 12 v.draws) in
                  verified_Mediated (base_of m upstream payload subject i) i r _
                    (ap (λ now. verify_grant m now (str_of (get_or payload "token" (str ""))))
                        (sym t.now)
                      ∙ e)
                    (SameBut-trans (draw-SameBut m 12 v) t)).outcome
