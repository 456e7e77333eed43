-- ===== src/LocalPoc/PythonAgent/Session/Stable.antt =====
-- The calls of anything but the database keep whatever is kept by one more such call.
use laptop_bap_demo.Base.{
  Bool, List, Option, String, eqb, false, none, not, refl, some, ◌==◌, ◌∷◌, ◌≡◌,
}
use laptop_bap_demo.Base.Json.{Fields, Json}
use laptop_bap_demo.Base.Run.{
  Except, Preserves, Preserves-bind, Preserves-if, Preserves-observe, Preserves-pure,
  Preserves-raise, observe, ok, pure, raise, raised,
}
use laptop_bap_demo.LocalPoc.PythonAgent.{Proposal}
use laptop_bap_demo.LocalPoc.PythonAgent.Session.{
  Call, Outside, Peer, Settings, accept, chat_error, chat_payload, connector, connector_post,
  content_of, json_request, local_chat, local_model, made, read_chat, read_content, report_result,
  result_payload, summary_or_note,
}
use laptop_bap_demo.LocalPoc.World.{Response}

abbrev pub is_execution : Peer → Bool
is_execution (connector path) = path == "/db/execute"
is_execution local_model = false

pub accept-Preserves : (P : List Call → Type 0) (r : Response) → Preserves P (accept r)
accept-Preserves P (status, result) =
    Preserves-if (eqb status 200) (pure result) _ (Preserves-pure result) (Preserves-raise _)

content-Preserves :
    (P : List Call → Type 0) (content : Option Json) → Preserves P (read_content content)
content-Preserves P none = Preserves-raise _
content-Preserves P (some content) = Preserves-pure _

chat-Preserves :
    (P : List Call → Type 0) (llm_url : String) (r : Response) → Preserves P (read_chat llm_url r)
chat-Preserves P llm_url (status, result) =
    Preserves-if (not (eqb status 200)) (raise (chat_error llm_url status result))
      (read_content (content_of result)) (Preserves-raise _)
      (content-Preserves P (content_of result))

-- A property of the log that the calls of anything but the database keep.
module _ (out : Outside) (s : Settings) (P : List Call → Type 0)
    (stable : (call : Call) (log : List Call)
      → is_execution call.peer ≡ false
      → P log
      → P (call ∷ log)) where
  call-Preserves :
      (peer : Peer) (payload : Fields)
      → is_execution peer ≡ false
      → Preserves P (json_request out peer payload)
  call-Preserves peer payload other = record {
    after = λ log here. stable (made out peer payload log) log other here;
  }

  pub post-Preserves :
      (path : String) (payload : Fields)
      → (path == "/db/execute") ≡ false
      → Preserves P (connector_post out s path payload)
  post-Preserves path payload other =
      Preserves-bind (json_request out (connector path) payload) accept
        (call-Preserves (connector path) payload other) (accept-Preserves P)

  pub local_chat-Preserves : (system user : String) → Preserves P (local_chat out s system user)
  local_chat-Preserves system user =
      Preserves-bind (json_request out local_model (chat_payload s.model system user))
        (read_chat s.llm_url) (call-Preserves local_model _ refl) (chat-Preserves P s.llm_url)

  summary-Preserves : (p : Proposal) (r : Except String) → Preserves P (summary_or_note out s p r)
  summary-Preserves p (ok summary) = Preserves-pure _
  summary-Preserves p (raised exc) = Preserves-pure _

  pub report-Preserves :
      (p : Proposal) (result : Fields) → Preserves P (report_result out s p result)
  report-Preserves p result =
      Preserves-bind (connector_post out s "/agent/action/result" (result_payload s p result)) _
        (post-Preserves "/agent/action/result" _ refl)
        λ _.
          Preserves-bind (observe (local_chat out s _ (s.dumps result)) (summary_or_note out s p)) _
            (Preserves-observe _ _ (local_chat-Preserves _ (s.dumps result)) (summary-Preserves p))
            λ summary.
              Preserves-bind (connector_post out s "/agent/event" _) _
                (post-Preserves "/agent/event" _ refl) (λ _. Preserves-pure tt)
