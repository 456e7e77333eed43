-- ===== src/LocalPoc/Connector/FailClosed.antt =====
-- `authorize_tool` fails closed, and `inspect_external_grant` forwards nothing.
use laptop_bap_demo.Base.{
  Bool-cases, Option, String, ap, arith, eqb, inl, inr, none, refl, some, sym, ℕ, ◌&&◌, ◌∙◌, ◌≡◌,
  ◌≢◌, ◌⊎◌,
}
use laptop_bap_demo.Base.Dict.{find}
use laptop_bap_demo.Base.Json.{Fields, field, get, get_or, lookup, str, truthy}
use laptop_bap_demo.Base.Json.Repr.{str_of}
use laptop_bap_demo.Base.Run.{Except, bind_cases, lift, ok, raised}
use laptop_bap_demo.LocalPoc.Connector.Classify.{classify_value}
use laptop_bap_demo.LocalPoc.Connector.Mediation.{LeavesRows, refusal}
use laptop_bap_demo.LocalPoc.Connector.Network.{Network}
use laptop_bap_demo.LocalPoc.Connector.Sessions.{session_id_of}
use laptop_bap_demo.LocalPoc.Connector.Tools.{
  after_request, authorize_classified, authorize_in, authorize_tool, bap_request, decide,
  inspect_external_grant,
}
use laptop_bap_demo.LocalPoc.World.{
  Classified, Host, Response, Session, World, bypass, guarded, local,
}

-- What an answer other than DENY rests on: the session is registered, and the call was classified as
-- local and the answer is ALLOW, or the BAP has answered 200 to the request for the classified action
-- and resource, in the state and at the time of the call, and the answer's decision is the BAP's.
pub record Because (net : Network) (payload : Fields) (w : World) (d : Fields) : Type 0 where
  pub session : Session
  pub known : find w.connector.sessions (session_id_of payload) ≡ some session
  pub classified : Classified
  pub same_class :
      classify_value (str_of (get_or payload "tool_name" (str ""))) (get payload "tool_input")
      ≡ ok classified
  pub reason :
      ((summary : String) × (classified ≡ local summary) × (get d "decision" ≡ str "ALLOW"))
      ⊎ ((action : String) × (resource : String) × (operation : String) × (summary : String)
          × (classified ≡ guarded action resource operation summary)
          × (asked : World) × ((asked.bap ≡ w.bap) × (asked.now ≡ w.now))
          × (result : Fields) × ((net.bap "/authorize"
                (bap_request session action resource)
                asked).0
              ≡ ok (200, result))
          × (get d "decision" ≡ str (str_of (get_or result "decision" (str "DENY")))))

-- a reply's decision
said :
    (s : String) (rest d : Fields)
    → ok (field "decision" (str s) rest) ≡ ok d
    → get d "decision" ≡ str s
unfolding lookup
said s rest d e =
    ap {A = Except Fields} (λ r. elim r [ ok f ↦ get f "decision" | raised _ ↦ str s ]) (sym e)

module _ (h : Host) (net : Network) (payload : Fields) (w : World) where
  -- if a run answers other than DENY, there is a reason
  record Explained (r : Except Fields × World) : Type 0 where
    explain : (d : Fields) → r.0 ≡ ok d → get d "decision" ≢ str "DENY" → Because net payload w d

  denied : (rest : Fields) (w' : World) → Explained (ok (field "decision" (str "DENY") rest), w')
  denied rest w' = record { explain = λ d e other. absurd (other (said "DENY" rest d e)) }

  raised_Explained : (x : String) (w' : World) → Explained (raised x, w')
  raised_Explained x w' = record { explain = λ d e a. absurd (cc e) }

  module _ (session : Session)
      (known : find w.connector.sessions (session_id_of payload) ≡ some session) where
    module _ (action resource operation summary : String)
        (class : classify_value
            (str_of (get_or payload "tool_name" (str "")))
            (get payload "tool_input")
          ≡ ok (guarded action resource operation summary)) where
      decide_Explained :
          (asked : World) (response : Response) (w' : World)
          → (asked.bap ≡ w.bap) × (asked.now ≡ w.now)
          → (net.bap "/authorize" (bap_request session action resource) asked).0 ≡ ok response
          → Explained (
              decide h net payload
                (session_id_of payload)
                (guarded action resource operation summary)
                response
                w')
      decide_Explained asked (status, result) w' same_state e = elim (Bool-cases (eqb status 200)) [
        | inr other ↦ rw other (denied _ w')
        | inl success ↦ rw success (record {
          explain = λ d r a. record {
            session = session;
            known = known;
            classified = guarded action resource operation summary;
            same_class = class;
            reason = inr (
              action,
              resource,
              operation,
              summary,
              refl,
              asked,
              same_state,
              result,
              e ∙ ap {A = ℕ} (λ s. ok (s, result)) (ground arith),
              said _ _ d r,
            );
          };
        })
      ]

      asked_Explained :
          (asked : World) (r : Except Response) (w' : World)
          → (asked.bap ≡ w.bap) × (asked.now ≡ w.now)
          → (net.bap "/authorize" (bap_request session action resource) asked).0 ≡ r
          → Explained (
              after_request h net payload
                (session_id_of payload)
                (guarded action resource operation summary)
                (bap_request session action resource)
                r
                w')
      asked_Explained asked (ok response) w' same_state e =
          decide_Explained asked response w' same_state e
      asked_Explained asked (raised x) w' same_state e = denied _ _

    class_Explained :
        (classified : Classified) (w' : World)
        → (w'.bap ≡ w.bap) × (w'.now ≡ w.now)
        → classify_value (str_of (get_or payload "tool_name" (str ""))) (get payload "tool_input")
          ≡ ok classified
        → Explained
            (authorize_classified h net payload (session_id_of payload) session classified w')
    class_Explained (local summary) w' same_state class = record {
      explain = λ d e a. record {
        session = session;
        known = known;
        classified = local summary;
        same_class = class;
        reason = inl (summary, refl, said "ALLOW" _ d e);
      };
    }
    class_Explained (bypass summary) w' same_state class = denied _ _
    class_Explained (guarded action resource operation summary) w' same_state class =
        asked_Explained action resource operation summary class w' _ _ same_state refl

  known_Explained :
      (session : Option Session)
      → find w.connector.sessions (session_id_of payload) ≡ session
      → Explained (
          authorize_in h net payload
            (session_id_of payload)
            (str_of (get_or payload "tool_name" (str "")))
            session
            w)
  known_Explained none known = denied _ _
  known_Explained (some session) known =
      bind_cases Explained
        (lift (
          classify_value (str_of (get_or payload "tool_name" (str ""))) (get payload "tool_input")))
        _ w (λ x _. raised_Explained x _)
        λ classified class. class_Explained session known classified _ (refl, refl) class

  -- `authorize_tool` answers other than DENY only if the session is registered, and either the call is
  -- classified as local and the answer is ALLOW, or the BAP has answered the request for the classified
  -- action and resource with 200, and the answer's decision is the BAP's. So a guarded call is answered
  -- DENY, if at all, where the BAP cannot be reached or answers with another status.
  pub authorize_tool-Because :
      (d : Fields)
      → (authorize_tool h net payload w).0 ≡ ok d
      → get d "decision" ≢ str "DENY"
      → Because net payload w d
  unfolding authorize_tool
  authorize_tool-Because d e a = (known_Explained _ refl).explain d e a

module _ (h : Host) (net : Network) (frame : LeavesRows net) (payload : Fields) (w : World) where
  -- what a refusal looks like: the rows are as they were, and an answer has the status 403
  record Refused (r : Except Response × World) : Type 0 where
    rows_kept : r.1.rows ≡ w.rows
    status : (status : ℕ) (body : Fields) → r.0 ≡ ok (status, body) → status ≡ 403

  answer_403 : (body : Fields) (w' : World) → w'.rows ≡ w.rows → Refused (ok (403, body), w')
  answer_403 body w' e = record {
    rows_kept = e;
    status =
        λ s b p. sym (ap {A = Except Response} (λ r. elim r [ ok x ↦ x.0 | raised x ↦ 403 ]) p);
  }

  unanswered_Refused : (x : String) (w' : World) → w'.rows ≡ w.rows → Refused (raised x, w')
  unanswered_Refused x w' e = record { rows_kept = e; status = λ s b p. absurd (cc p) }

  inspected : Refused (inspect_external_grant h net payload w)
  unfolding inspect_external_grant
  inspected =
      bind_cases Refused (net.bap "/validate" _) _ _
        (λ x _. unanswered_Refused x _ (frame.same_rows _ _ _))
        λ response _. elim (Bool-cases (eqb response.0 200 && truthy (get response.1 "valid"))) [
          | inl good ↦ rw (refusal _ _ good) (answer_403 _ _ (frame.same_rows _ _ _))
          | inr bad ↦ rw (refusal _ _ bad) (answer_403 _ _ (frame.same_rows _ _ _))
        ]

  -- A grant that the caller itself presents is never used, valid or not: the rows stay as they are,
  -- and the answer, if the BAP can be asked at all, is 403.
  inspect_external_grant-refuses :
      ((inspect_external_grant h net payload w).1.rows ≡ w.rows)
      × ((status : ℕ) (body : Fields)
          → (inspect_external_grant h net payload w).0 ≡ ok (status, body)
          → status ≡ 403)
  inspect_external_grant-refuses = (inspected.rows_kept, inspected.status)
