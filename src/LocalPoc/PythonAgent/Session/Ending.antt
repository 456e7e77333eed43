-- ===== src/LocalPoc/PythonAgent/Session/Ending.antt =====
-- How a run of the agent ends.
use laptop_bap_demo.Base.{Bool-cases, List, [], ap, eqb, inl, inr, refl, true, ℕ, ◌∷◌, ◌≡◌}
use laptop_bap_demo.Base.Json.{Fields, dict, str}
use laptop_bap_demo.Base.Run.{Except, continue, ok, pure, raised, ◌>>=◌}
use laptop_bap_demo.LocalPoc.PythonAgent.Session.{
  Call, Outside, Settings, accept, after_work, connector, connector_post, ignoring, made, run_agent,
  start_payload, work,
}
use laptop_bap_demo.LocalPoc.World.{Response}

accepted_log : (r : Response) (log : List Call) → (accept r log).1 ≡ log
accepted_log (status, result) log = elim (Bool-cases (eqb status 200)) [
  | inl fine ↦ rw fine refl
  | inr other ↦ rw other refl
]

answered_log : (r : Except Response) (log : List Call) → (continue r accept log).1 ≡ log
answered_log (raised e) log = refl
answered_log (ok response) log = accepted_log response log

module _ (out : Outside) (s : Settings) where
  abbrev pub goodbye : Fields
  goodbye = dict (("session_id", str s.session_id) ∷ [])

  -- a run that ended with an exit code, and whose last call was the end of the session
  abbrev pub Ended : Except ℕ × List Call → Type 0
  Ended r =
      (code : ℕ) × (log : List Call) × (answer : Except Response) × (r ≡ (
        ok code,
        record { peer = connector "/session/end"; payload = goodbye; answer = answer } ∷ log,
      ))

  ended :
      (code : ℕ) (log : List Call)
      → Ended
          ((ignoring out s (connector_post out s "/session/end" goodbye) >>= λ _. pure code) log)
  ended code log = (
    code,
    log,
    out log (connector "/session/end") goodbye,
    ap (λ l. (ok code, l))
        (answered_log (out log (connector "/session/end") goodbye)
          (made out (connector "/session/end") goodbye log ∷ log)),
  )

  closed :
      (r : Except (Unit {0})) (log : List Call)
      → Ended (
          (after_work out s r >>= λ code.
          ignoring out s (connector_post out s "/session/end" goodbye) >>= λ _. pure code)
            log)
  closed (ok _) log = ended 0 log
  closed (raised exc) log = ended 1 _

  -- A run of the agent whose session was registered exits, with the end of the session as its last
  -- call, whatever the connector and the model answer and however the work went.
  pub run_agent-ends :
      (status : ℕ) (registration : Fields)
      → out [] (connector "/session/start") (start_payload s) ≡ ok (status, registration)
      → eqb status 200 ≡ true
      → Ended (run_agent out s [])
  unfolding run_agent
  run_agent-ends status registration e fine =
      rw (e, fine) (closed (work out s registration _).0 (work out s registration _).1)
