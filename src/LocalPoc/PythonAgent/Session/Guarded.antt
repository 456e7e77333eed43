-- ===== src/LocalPoc/PythonAgent/Session/Guarded.antt =====
-- Which calls lead to the database.
use laptop_bap_demo.Base.{
  Bool-cases, List, Option, String, [], eqb, false, false≢true, inl, inr, none, refl, some, sym,
  true, ℕ, ◌==◌, ◌∙◌, ◌∷◌, ◌≡◌,
}
use laptop_bap_demo.Base.Json.{Fields, Json, eq_json, get, lookup, str}
use laptop_bap_demo.Base.Run.{
  Except, Preserves, Preserves-bind, Preserves-observe, Preserves-pure, Preserves-raise, Run,
  continue, observe, ok, pure, raised, ◌>>=◌,
}
use laptop_bap_demo.LocalPoc.PythonAgent.{Proposal, bounded, parse_proposal}
use laptop_bap_demo.LocalPoc.PythonAgent.Proposals.{IsBounded, parse_proposal-IsBounded}
use laptop_bap_demo.LocalPoc.PythonAgent.Session.{
  Call, Outside, Settings, accept, act_on, after_start, after_work, attempt, authorization_payload,
  connector, connector_post, execution_payload, ignoring, json_request, local_chat, propose,
  report_result, require_session, run_agent, work,
}
use laptop_bap_demo.LocalPoc.PythonAgent.Session.Stable.{
  accept-Preserves, is_execution, local_chat-Preserves, post-Preserves, report-Preserves,
}
use laptop_bap_demo.LocalPoc.World.{Response}

module _ (s : Settings) where
  -- the connector allowed this action, by its answer to a call of the log
  pub data Allowed (p : Proposal) : List Call → Type 0 where
    now :
        (status : ℕ) (authorization : Fields) (log : List Call)
        → eqb status 200 ≡ true
        → eq_json (get authorization "decision") (str "ALLOW") ≡ true
        → Allowed p (
            record {
              peer = connector "/agent/authorize";
              payload = authorization_payload s p;
              answer = ok (status, authorization);
            }
            ∷ log)
    later : (call : Call) (log : List Call) → Allowed p log → Allowed p (call ∷ log)

  -- a call of the database is the action that was allowed before
  abbrev pub Backed : Call → List Call → Type 0
  Backed call log =
      (is_execution call.peer ≡ true)
      → (p : Proposal) × ((call.payload ≡ execution_payload s p) × (IsBounded p × Allowed p log))

  abbrev pub Guarded : List Call → Type 0
  Guarded [] = Unit
  Guarded (call ∷ log) = Backed call log × Guarded log

module _ (out : Outside) (s : Settings) where
  Guarded-stable :
      (call : Call) (log : List Call)
      → is_execution call.peer ≡ false
      → Guarded s log
      → Guarded s (call ∷ log)
  Guarded-stable call log other here = ((λ e. absurd (false≢true (sym other ∙ e))), here)

  abbrev Ready : Proposal → List Call → Type 0
  Ready p log = Guarded s log × Allowed s p log

  Ready-stable :
      (p : Proposal) (call : Call) (log : List Call)
      → is_execution call.peer ≡ false
      → Ready p log
      → Ready p (call ∷ log)
  Ready-stable p call log other (here, allowed) =
      (Guarded-stable call log other here, later call log allowed)

  -- an allowed action may be executed
  execute-Ready :
      (p : Proposal)
      → IsBounded p
      → Preserves
          (Ready p)
          (connector_post out s "/db/execute" (execution_payload s p) >>= report_result out s p)
  execute-Ready p bounded =
      Preserves-bind (connector_post out s "/db/execute" (execution_payload s p)) _
        (Preserves-bind (json_request out (connector "/db/execute") (execution_payload s p)) accept
          (record {
            after = λ log (here, allowed).
                (((λ _. (p, (refl, (bounded, allowed)))), here), later _ log allowed);
          })
          (accept-Preserves (Ready p)))
        (report-Preserves out s (Ready p) (Ready-stable p) p)

  abbrev asked : Proposal → Except Response → Call
  asked p r = record {
    peer = connector "/agent/authorize";
    payload = authorization_payload s p;
    answer = r;
  }

  -- the two checks of the connector's answer
  answered :
      (p : Proposal) (r : Except Response) (log : List Call)
      → IsBounded p
      → Guarded s log
      → Guarded s (((λ w. continue r accept w) >>= act_on out s p) (asked p r ∷ log)).1
  answered p (raised e) log bounded here = Guarded-stable (asked p (raised e)) log refl here
  answered p (ok (status, result)) log bounded here = elim (Bool-cases (eqb status 200)) [
    | inr other ↦ rw other (Guarded-stable (asked p (ok (status, result))) log refl here)
    | inl fine ↦ elim (Bool-cases (eq_json (get result "decision") (str "ALLOW"))) [
      | inr unequal ↦
          rw (fine, unequal) (Guarded-stable (asked p (ok (status, result))) log refl here)
      | inl allowed ↦
          rw (fine, allowed)
            ((execute-Ready p bounded).after (asked p (ok (status, result)) ∷ log) (
              Guarded-stable (asked p (ok (status, result))) log refl here,
              now status result log fine allowed,
            )).0
    ]
  ]

  attempt-Guarded : (p : Proposal) → IsBounded p → Preserves (Guarded s) (attempt out s p)
  attempt-Guarded p bounded = record {
    after = λ log here.
        answered p (out log (connector "/agent/authorize") (authorization_payload s p)) log bounded
          here;
  }

  abbrev Keeps : {A : Type 0} → Run (List Call) A → Type 0
  Keeps m = Preserves (Guarded s) m

  post-Keeps :
      (path : String) (payload : Fields)
      → (path == "/db/execute") ≡ false
      → Keeps (connector_post out s path payload)
  post-Keeps = post-Preserves out s (Guarded s) Guarded-stable

  propose-Keeps :
      (proposal_text : String) (proposal : Proposal × Option String)
      → IsBounded proposal.0
      → Keeps (propose out s proposal_text proposal)
  propose-Keeps proposal_text (p, normalization) bounded =
      Preserves-bind (connector_post out s "/agent/event" _) (λ _. attempt out s p)
        (post-Keeps "/agent/event" _ refl) (λ _. attempt-Guarded p bounded)

  session-Keeps : (session : Option Json) → Keeps (require_session out s session)
  session-Keeps none = Preserves-raise _
  session-Keeps (some session) = Preserves-pure tt

  work-Keeps : (registration : Fields) → Keeps (work out s registration)
  work-Keeps registration =
      Preserves-bind (require_session out s (lookup registration "session")) _
        (session-Keeps (lookup registration "session"))
        λ _. Preserves-bind (connector_post out s "/intent" _) _ (post-Keeps "/intent" _ refl) λ _.
          Preserves-bind (connector_post out s "/agent/event" _) _
            (post-Keeps "/agent/event" _ refl)
            λ _.
              Preserves-bind (local_chat out s _ s.task) _
                (local_chat-Preserves out s (Guarded s) Guarded-stable _ s.task)
                λ text.
                  propose-Keeps text (parse_proposal s.loads text)
                    (parse_proposal-IsBounded s.loads text)

  ignoring-Keeps : (m : Run (List Call) Fields) → Keeps m → Keeps (ignoring out s m)
  ignoring-Keeps m p = Preserves-observe m (λ _. pure tt) p (λ _. Preserves-pure tt)

  after_work-Keeps : (r : Except (Unit {0})) → Keeps (after_work out s r)
  after_work-Keeps (ok _) = Preserves-pure 0
  after_work-Keeps (raised exc) =
      Preserves-bind (ignoring out s (connector_post out s "/agent/event" _)) (λ _. pure 1)
        (ignoring-Keeps _ (post-Keeps "/agent/event" _ refl)) (λ _. Preserves-pure 1)

  after_start-Keeps : (r : Except Fields) → Keeps (after_start out s r)
  after_start-Keeps (raised exc) = Preserves-pure 1
  after_start-Keeps (ok registration) =
      Preserves-bind (observe (work out s registration) (after_work out s)) _
        (Preserves-observe _ _ (work-Keeps registration) after_work-Keeps)
        λ code.
          Preserves-bind (ignoring out s (connector_post out s "/session/end" _)) (λ _. pure code)
            (ignoring-Keeps _ (post-Keeps "/session/end" _ refl)) (λ _. Preserves-pure code)

  -- Whatever the connector and the model answer, every call of the database in a run of the agent is a
  -- read of a bounded key, for the session of the run, and the connector answered ALLOW, with status
  -- 200, to an earlier authorization call of the run for that very operation and key.
  pub run_agent-Guarded : Guarded s (run_agent out s []).1
  unfolding run_agent
  run_agent-Guarded =
      (Preserves-observe _ (after_start out s) (post-Keeps "/session/start" _ refl)
          after_start-Keeps).after
        [] tt
