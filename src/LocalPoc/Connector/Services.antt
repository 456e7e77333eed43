-- ===== src/LocalPoc/Connector/Services.antt =====
-- The connector over the two services that the process starts.
use laptop_bap_demo.LocalPoc.MockBap
use laptop_bap_demo.Base.{Bool-cases, Option-cases, String, ap, inl, inr, refl, ℕ, ◌∙◌, ◌≡◌, ◌⊎◌}
use laptop_bap_demo.Base.Dict.{find}
use laptop_bap_demo.Base.Json.{Fields, Json, get_or, lookup, obj, str, truthy}
use laptop_bap_demo.Base.Json.Repr.{str_of}
use laptop_bap_demo.Base.Run.{Except, continue, ok, pure, raised}
use laptop_bap_demo.LocalPoc.Connector.Database.{execute_database}
use laptop_bap_demo.LocalPoc.Connector.Mediation.{
  Evidence, LeavesRows, Since, execute_database-Evidence, question,
}
use laptop_bap_demo.LocalPoc.Connector.Network.{services}
use laptop_bap_demo.LocalPoc.MockBap.{
  Decision, allow, approve, classify_policy, authorize, authorize_as, deny, mint_grant,
  require_approval, revoke_session, validate,
}
use laptop_bap_demo.LocalPoc.MockBap.Table.{Preserves-do_post, world-validate}
use laptop_bap_demo.LocalPoc.MockBap.Validation.{IsAccepted, validate_sound}
use laptop_bap_demo.LocalPoc.World.{Host, Response, World}

-- the rows and the clock of `w`, at another state
abbrev Same : World → World → Type 0
Same w v = (v.rows ≡ w.rows) × (v.now ≡ w.now)

Same-trans : (u v w : World) → Same v u → Same w v → Same w u
Same-trans u v w (rows, now) (rows', now') = (rows ∙ rows', now ∙ now')

authorize_as-Same :
    (h : Host) (decision : Decision) (reason : String) (request : Fields) (w : World)
    → Same w (authorize_as h decision reason request w).1
unfolding mint_grant
authorize_as-Same h allow reason request w = (refl, refl)
authorize_as-Same h deny reason request w = (refl, refl)
authorize_as-Same h require_approval reason request w = (refl, refl)

approve-Same : (h : Host) (id approver : String) (w : World) → Same w (approve h id approver w).1
unfolding approve mint_grant
approve-Same h id approver w = elim (Option-cases (find w.bap.pending id)) [
  | inl missing ↦ rw (missing, approve) (refl, refl)
  | inr (request, found) ↦ elim (Bool-cases (truthy (obj request))) [
    | inl full ↦ rw (found, approve, full) (refl, refl)
    | inr empty ↦ rw (found, approve, empty) (refl, refl)
  ]
]

answered_with :
    (r : Except Fields) (status : Fields → ℕ) (w : World) (body : Fields)
    → (continue {B = Response} r (λ result. pure (status result, result)) w).0 ≡ ok (200, body)
    → r ≡ ok body
answered_with (ok result) status w body e =
    ap {A = Except Response} (λ a. elim a [ ok x ↦ ok (x.1) | raised x ↦ raised x ]) e
answered_with (raised x) status w body e = cc

module _ (h : Host) where
  do_post-Same :
      (path : String) (payload : Fields) (w : World) → Same w (MockBap.do_post h path payload w).1
  unfolding authorize revoke_session
  do_post-Same path payload w =
      (Preserves-do_post h payload {P = Same w} path
          (record {
            after = λ v e.
                Same-trans
                  (authorize_as h
                    (classify_policy (str_of (get_or payload "action" (str "unknown")))
                      (str_of (get_or payload "resource" (str "unknown")))).0
                    (classify_policy (str_of (get_or payload "action" (str "unknown")))
                      (str_of (get_or payload "resource" (str "unknown")))).1
                    payload v).1
                  v w (authorize_as-Same h _ _ payload v) e;
          })
          (λ id approver. record {
            after =
                λ v e. Same-trans (approve h id approver v).1 v w (approve-Same h id approver v) e;
          })
          (λ token action resource run. record {
            after = λ v e. (
              ap (λ u. u.rows) (world-validate h action resource run v token) ∙ e.0,
              ap (λ u. u.now) (world-validate h action resource run v token) ∙ e.1,
            );
          })
          (λ run. record { after = λ v e. e })).after
        w (refl, refl)

  pub services-LeavesRows : LeavesRows (services h)
  services-LeavesRows = record { same_rows = λ path payload w. (do_post-Same path payload w).0 }

  -- in the process of the demo no time passes between the states of a call
  same_clock : (w v : World) → Since (services h) w v → v.now ≡ w.now
  same_clock w v (inl (bap, now)) = now
  same_clock w v (inr (request, start, (_, now), (_, then_now))) =
      then_now ∙ (do_post-Same "/approve" request start).1 ∙ now

  -- A 200 answer of the mock BAP to a validation is the answer of `validate`.
  validate_answer :
      (token : Json) (action resource agent_run : String) (w : World) (body : Fields)
      → (MockBap.do_post h "/validate" (question token action resource agent_run) w).0
        ≡ ok (200, body)
      → (validate h (str_of token) action resource agent_run w).0 ≡ ok body
  unfolding MockBap.do_post lookup str_of
  validate_answer token action resource agent_run w body e = answered_with _ _ _ _ e

  -- In the process of the demo a call of `execute_database` leaves the rows as they are, unless the
  -- session of the call is registered and holds an authorization, the operation that is asked for is
  -- the one that was classified, and the mock BAP then accepted a token for the classified action and
  -- resource and the session's own run: it carries the BAP's authentication code, its grant is
  -- active, and at the time of the call it has not expired.
  pub execute_database-IsAccepted :
      (payload : Fields) (w : World)
      → ((execute_database h (services h) payload w).1.rows ≡ w.rows)
        ⊎ ((e : Evidence (services h) payload w) × (e.asked.now ≡ w.now)
            × (claims : Fields) × IsAccepted h e.asked
                (str_of e.token)
                e.action
                e.resource
                e.session.agent_run
                claims)
  execute_database-IsAccepted payload w =
      elim (execute_database-Evidence h (services h) services-LeavesRows payload w) [
        | inl same ↦ inl same
        | inr e ↦
            let (claims, accepted) =
              validate_sound h e.asked (str_of e.token) e.action e.resource e.session.agent_run
                e.body
                (validate_answer e.token e.action e.resource e.session.agent_run e.asked e.body
                  e.answered)
                e.valid in
            inr (e, same_clock w e.asked e.since, claims, accepted)
      ]
