-- ===== src/LocalPoc/Connector/Mediation.antt =====
-- `execute_database` stands between a caller and the rows: what must have happened before it
-- changes one.
use laptop_bap_demo.Base.{
  Bool, Bool-cases, Option, String, [], ap, arith, eq_iff, eqb, false, if◌then◌else◌, inl, inr,
  none, not, refl, some, subst, sym, true, ℕ, ◌&&◌, ◌==◌, ◌||◌, ◌∙◌, ◌∷◌, ◌≡◌, ◌⊎◌,
}
use laptop_bap_demo.Base.Dict.{find}
use laptop_bap_demo.Base.Json.{Fields, Json, dict, eq_json, get, get_or, item, str, truthy}
use laptop_bap_demo.Base.Json.Repr.{str_of}
use laptop_bap_demo.Base.Run.{Except, Run, bind_cases, lift, ok}
use laptop_bap_demo.LocalPoc.Connector.Database.{
  after_approval, execute_authorized, execute_database, execute_decided, execute_known, item_of,
  validate_and_forward, with_grant,
}
use laptop_bap_demo.LocalPoc.Connector.Network.{Network}
use laptop_bap_demo.LocalPoc.Connector.Sessions.{session_id_of}
use laptop_bap_demo.LocalPoc.World.{
  Authorization, Classified, Host, Response, Session, World, bypass, guarded, local,
}

abbrev operation_asked : Fields → String
operation_asked payload = str_of (get_or payload "operation" (str "read"))

abbrev pub question : Json → String → String → String → Fields
question token action resource agent_run = dict (
    ("token", token)
    ∷ ("action", str action)
    ∷ ("resource", str resource)
    ∷ ("agent_run", str agent_run)
    ∷ [])

-- The BAP and its transport do not write to the database.
pub record LeavesRows (net : Network) : Type 0 where
  pub same_rows :
      (path : String) (request : Fields) (w : World) → (net.bap path request w).1.rows ≡ w.rows

-- The BAP's state and the clock are those of `w`, but for one approval at most.
abbrev pub Since : Network → World → World → Type 0
Since net w v =
    ((v.bap ≡ w.bap) × (v.now ≡ w.now))
    ⊎ ((request : Fields) × (start : World) × ((start.bap ≡ w.bap) × (start.now ≡ w.now))
        × ((v.bap ≡ (net.bap "/approve" request start).1.bap)
            × (v.now ≡ (net.bap "/approve" request start).1.now)))

-- What stands behind a request that reached the database: a registered session, an authorization
-- of that session whose classified operation is the one that is asked for, and the BAP's answer
-- 200, valid, to the question about a token for the classified action and resource and for the
-- session's own run. `asked` is the state in which the BAP was asked: since the call began, the BAP
-- has been asked for one approval at most, and no time has passed but for that.
pub record Evidence (net : Network) (payload : Fields) (w : World) : Type 0 where
  pub session : Session
  pub known : find w.connector.sessions (session_id_of payload) ≡ some session
  pub authorization : Authorization
  pub authorized : find w.connector.authorizations (session_id_of payload) ≡ some authorization
  pub action : String
  pub resource : String
  pub summary : String
  pub same_operation :
      authorization.classification ≡ guarded action resource (operation_asked payload) summary
  pub token : Json
  pub asked : World
  pub since : Since net w asked
  pub body : Fields
  pub answered :
      (net.bap "/validate" (question token action resource session.agent_run) asked).0
      ≡ ok (200, body)
  pub valid : truthy (get body "valid") ≡ true

pub refusal : (a b : Bool) {c : Bool} → a && b ≡ c → not a || not b ≡ not c
refusal a b {c} e = ground arith

module _ (h : Host) (net : Network) (frame : LeavesRows net) (payload : Fields) (w : World) where
  -- how a run of the gateway may end
  record Mediated (r : Except Response × World) : Type 0 where
    outcome : (r.1.rows ≡ w.rows) ⊎ Evidence net payload w

  kept : {r : Except Response × World} → r.1.rows ≡ w.rows → Mediated r
  kept e = record { outcome = inl e }

  if_Mediated :
      (b : Bool) (m n : Run World Response) (w' : World)
      → (b ≡ true → Mediated (m w'))
      → (b ≡ false → Mediated (n w'))
      → Mediated ((if b then m else n) w')
  if_Mediated true m n w' p q = p refl
  if_Mediated false m n w' p q = q refl

  module _ (session : Session)
      (known : find w.connector.sessions (session_id_of payload) ≡ some session) (a : Authorization)
      (authorized : find w.connector.authorizations (session_id_of payload) ≡ some a)
      (action resource summary : String)
      (same : a.classification ≡ guarded action resource (operation_asked payload) summary) where
    answer_Mediated :
        (token : Json) (asked : World) (since : Since net w asked) (status : ℕ) (body : Fields)
        (m n : Run World Response) (w' : World)
        → (net.bap "/validate" (question token action resource session.agent_run) asked).0
          ≡ ok (status, body)
        → Mediated (m w')
        → Mediated ((if not (eqb status 200) || not (truthy (get body "valid")) then m else n) w')
    answer_Mediated token asked since status body m n w' e p =
        if_Mediated _ m n w' (λ _. p)
          λ q. record {
            outcome = inr (record {
              session = session;
              known = known;
              authorization = a;
              authorized = authorized;
              action = action;
              resource = resource;
              summary = summary;
              same_operation = same;
              token = token;
              asked = asked;
              since = since;
              body = body;
              answered = e ∙ ap {A = ℕ} (λ s. ok (s, body)) (ground arith);
              valid = ground arith;
            });
          }

    validate_Mediated :
        (key : String) (grant : Json) (w' : World)
        → w'.rows ≡ w.rows
        → Since net w w'
        → Mediated (
            validate_and_forward h net payload session
              (guarded action resource (operation_asked payload) summary)
              (operation_asked payload)
              key
              grant
              w')
    unfolding validate_and_forward
    validate_Mediated key grant w' keep since =
        bind_cases Mediated (lift (item_of grant "token")) _ w' (λ _ _. kept keep)
          λ token _.
            bind_cases Mediated (lift (item_of grant "grant_id")) _ w' (λ _ _. kept keep)
              λ grant_id _.
                bind_cases Mediated (net.bap "/validate" _) _ _
                  (λ _ _. kept (frame.same_rows _ _ _ ∙ keep))
                  λ response e.
                    answer_Mediated token _ since response.0 response.1 _ _ _ e
                      (kept (frame.same_rows _ _ _ ∙ keep))

    grant_Mediated :
        (key : String) (bap : Fields) (w' : World)
        → w'.rows ≡ w.rows
        → Since net w w'
        → Mediated (
            with_grant h net payload session
              (guarded action resource (operation_asked payload) summary)
              (operation_asked payload)
              key
              bap
              w')
    grant_Mediated key bap w' keep since = elim (Bool-cases (truthy (get bap "grant"))) [
      | inl full ↦ rw full (validate_Mediated key (get bap "grant") w' keep since)
      | inr empty ↦ rw empty (kept keep)
    ]

    approval_Mediated :
        (key : String) (status : ℕ) (approval : Fields) (w' : World)
        → w'.rows ≡ w.rows
        → Since net w w'
        → Mediated (
            after_approval h net payload
              (session_id_of payload)
              (operation_asked payload)
              key
              session
              a
              (guarded action resource (operation_asked payload) summary)
              (status, approval)
              w')
    approval_Mediated key status approval w' keep since =
        elim (Bool-cases (eqb status 200 && truthy (get approval "ok"))) [
          | inl good ↦ rw (refusal _ _ good) (
              bind_cases Mediated (lift (item approval "grant")) _ _ (λ _ _. kept keep)
                λ grant _. grant_Mediated key _ _ keep since)
          | inr bad ↦ rw (refusal _ _ bad) (kept keep)
        ]

    decided_Mediated :
        (key : String) (w' : World)
        → w'.rows ≡ w.rows
        → (w'.bap ≡ w.bap) × (w'.now ≡ w.now)
        → Mediated (
            execute_decided h net payload
              (session_id_of payload)
              (operation_asked payload)
              key
              session
              a
              (guarded action resource (operation_asked payload) summary)
              w')
    decided_Mediated key w' keep unasked =
        elim (Bool-cases (eq_json (get a.bap "decision") (str "REQUIRE_APPROVAL"))) [
          | inl pending ↦ rw pending (
              bind_cases Mediated (net.bap "/approve" _) _ _
                (λ _ _. kept (frame.same_rows _ _ _ ∙ keep))
                λ response _.
                  approval_Mediated key response.0 response.1 _ (frame.same_rows _ _ _ ∙ keep)
                    (inr (_, _, unasked, (refl, refl))))
          | inr settled ↦ rw settled (grant_Mediated key a.bap w' keep (inl unasked))
        ]

  authorized_Mediated :
      (session : Session)
      → find w.connector.sessions (session_id_of payload) ≡ some session
      → (a : Authorization) → find w.connector.authorizations (session_id_of payload) ≡ some a
      → (key : String) (classified : Classified) → a.classification ≡ classified
      → Mediated (
          execute_authorized h net payload
            (session_id_of payload)
            (operation_asked payload)
            key
            session
            a
            classified
            w)
  authorized_Mediated session known a authorized key (local summary) same = kept refl
  authorized_Mediated session known a authorized key (bypass summary) same = kept refl
  authorized_Mediated session known a authorized key (guarded action resource operation summary)
        same =
      elim (Bool-cases (operation_asked payload == operation)) [
        | inl equal ↦
            let path = (eq_iff (operation_asked payload) operation).0 equal in
            rw equal (
              subst
                (λ op. Mediated (
                  execute_decided h net payload (session_id_of payload) (operation_asked payload)
                    key session a (guarded action resource op summary) w))
                path
                (decided_Mediated session known a authorized action resource summary
                  (same ∙ ap (λ op. guarded action resource op summary) (sym path)) key w refl
                  (refl, refl)))
        | inr other ↦ rw other (kept refl)
      ]

  known_Mediated :
      (key : String) (session : Option Session)
      → find w.connector.sessions (session_id_of payload) ≡ session
      → (a : Option Authorization) → find w.connector.authorizations (session_id_of payload) ≡ a
      → Mediated (
          execute_known h net payload
            (session_id_of payload)
            (operation_asked payload)
            key
            session
            a
            w)
  known_Mediated key none known a authorized = kept refl
  known_Mediated key (some session) known none authorized = kept refl
  known_Mediated key (some session) known (some a) authorized =
      authorized_Mediated session known a authorized key a.classification refl

  -- Where the BAP does not itself write to the database, a call of `execute_database` leaves the rows
  -- as they are, unless the session of the call is registered and holds an authorization, the
  -- operation that is asked for is the one that was classified, and the BAP has answered 200, valid,
  -- to the question about a token for the classified action and resource and the session's own run.
  pub execute_database-Evidence :
      ((execute_database h net payload w).1.rows ≡ w.rows) ⊎ Evidence net payload w
  unfolding execute_database
  execute_database-Evidence =
      (known_Mediated (str_of (get_or payload "key" (str "customer-123"))) _ refl _ refl).outcome
