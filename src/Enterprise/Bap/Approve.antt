-- ===== src/Enterprise/Bap/Approve.antt =====
-- `BAPApplication.approve`, enterprise_demo/enterprise_bap/app.py: an approval goes from PENDING to
-- EVALUATING and then to its end.
use laptop_bap_demo.Base.{
  Bool, List, Option, String, [], false, if◌then◌else◌, inl, inr, none, not, some, true, ◌++◌, ◌<>◌,
  ◌==◌, ◌||◌, ◌∷◌, ◌⊎◌,
}
use laptop_bap_demo.Base.Dict.{Dict, find, put}
use laptop_bap_demo.Base.Json.{Fields, Json, bool, dict, get, get_or, insert, obj, str, update}
use laptop_bap_demo.Base.Json.Repr.{str_of}
use laptop_bap_demo.Base.Run.{Except, Run, gets, modify, ok, pure, raise, raised, ◌>>=◌, ◌>>◌}
use laptop_bap_demo.Enterprise.Audit.{emit}
use laptop_bap_demo.Enterprise.Bap.Authorize.{Trace, policy_fields, trace_fields}
use laptop_bap_demo.Enterprise.Bap.Issue.{issue_grant}
use laptop_bap_demo.Enterprise.Policy.{Bundle, Effect, PolicyDecision, allow, effect_text, evaluate}
use laptop_bap_demo.Enterprise.World.{
  ApprovalRow, Machine, Response, World, draw, is_policy_error, message_of, or_drawn,
  with_connection,
}

-- `UPDATE approvals SET status=? WHERE request_id=?`
abbrev pub with_status : String → String → Option ApprovalRow → Dict ApprovalRow → Dict ApprovalRow
with_status id status none approvals = approvals
with_status id status (some row) approvals = put id (record row { status = status }) approvals

unfoldable pub set_status : String → String → Run World (Unit {0})
set_status id status = with_connection (
    modify λ w. record w {
      approvals = with_status id status (find w.approvals id) w.approvals;
      writing = true;
    })

abbrev pub is_pending : Option ApprovalRow → Bool
is_pending none = false
is_pending (some row) = row.status == "PENDING"

-- `UPDATE … SET status='EVALUATING' WHERE request_id=? AND status='PENDING'`, which takes the write
-- lock whether or not a row is found, and tells whether one was
abbrev pub claim : String → Run World Bool
claim id w =
    let pending = is_pending (find w.approvals id) in
    (
      ok pending,
      record w {
        approvals =
            if pending
            then with_status id "EVALUATING" (find w.approvals id) w.approvals
            else w.approvals;
        writing = true;
      },
    )

abbrev pub is_allow : Effect → Bool
is_allow allow = true
is_allow _ = false

abbrev approval_reason : String
approval_reason = "Approval request is missing or no longer pending"

abbrev denial : String → String → String → List (String × Json)
denial id approver reason =
    ("approval_request_id", str id)
    ∷ ("approver_id", str approver)
    ∷ ("decision", str "DENY")
    ∷ ("decision_reason", str reason)
    ∷ ("outcome", str "DENIED")
    ∷ []

module _ (m : Machine) (b : Bundle) (replica_id : String) where
  -- the block that claims the approval: a row to go on with, or an answer. The event of the refusal is
  -- sent while the block's connection holds the write lock.
  abbrev pub after_claim :
      String → String → Bool → Option ApprovalRow → Run World (Response ⊎ ApprovalRow)
  after_claim id approver true (some row) = pure (inr row)
  after_claim id approver claimed row = do
    emit m replica_id "APPROVAL_DECISION" approval_reason
        (dict (denial id approver approval_reason)) "error"
    pure (inl (404, dict (("ok", bool false) ∷ ("reason", str approval_reason) ∷ [])))

  abbrev pub claim_block : String → String → Run World (Response ⊎ ApprovalRow)
  claim_block id approver = with_connection do
    claimed ← claim id
    row ← gets (λ w. find w.approvals id)
    after_claim id approver claimed row

  abbrev identify : Fields → String → String → Trace → List (String × Json)
  identify original id approver t =
      trace_fields t ++ ("approval_request_id", str id) ∷ ("approver_id", str approver) ∷ []

  abbrev pub reevaluation_unavailable :
      Fields → String → String → Trace → String → Run World Response
  reevaluation_unavailable original id approver t error =
      if not (is_policy_error error) then raise error else (do
        let reason : String =
            "Approval re-evaluation failed closed because policy was unavailable or invalid"
        emit m replica_id "AUTHORIZATION_DECISION" reason
            (update original (
              dict (
                identify original id approver t
                ++ ("decision", str "DENY")
                  ∷ ("decision_reason", str reason)
                  ∷ ("outcome", str "DENIED")
                  ∷ ("error", str (message_of error))
                  ∷ [])))
            "error"
        set_status id "POLICY_ERROR_DENIED"
        pure (503, dict (("ok", bool false) ∷ ("reason", str reason) ∷ [])))

  abbrev pub reevaluation_of : Fields → String → String → Trace → PolicyDecision → Fields
  reevaluation_of original id approver t p = update original (
      dict (
        identify original id approver t
        ++ ("decision", str (effect_text p.effect))
          ∷ ("decision_reason", str p.reason)
          ∷ (policy_fields p
              ++ ("outcome", str (if is_allow p.effect then "AUTHORIZED" else "DENIED"))
                ∷ ("phase", str "approval-re-evaluation")
                ∷ [])))

  -- what follows the re-evaluation
  abbrev pub conclude :
      ApprovalRow → String → String → Trace → Fields → PolicyDecision → Bool → Run World Response
  conclude row id approver t reevaluation p false = do
    emit m replica_id "APPROVAL_POLICY_REJECTED"
        ("Approval " <> id <> " did not satisfy current Cedar policy") reevaluation "error"
    set_status id "APPROVED_POLICY_DENIED"
    pure (
      403,
      dict (
          ("ok", bool false)
          ∷ ("reason", str "Current Cedar policy does not permit the approved action")
          ∷ []),
    )
  conclude row id approver t reevaluation p true = do
    grant ←
        issue_grant m replica_id row.user_id row.agent_run row.action row.resource approver p
          t.trace_id t.request_id t.decision_id
    set_status id "APPROVED"
    emit m replica_id "HUMAN_APPROVED" (approver <> " approved " <> id)
        (insert "grant_id" (get grant "grant_id") reevaluation) "success"
    pure (200, dict (("ok", bool true) ∷ ("grant", obj grant) ∷ trace_fields t))

  abbrev pub after_evaluation :
      ApprovalRow → String → String → Trace → Except PolicyDecision → Run World Response
  after_evaluation row id approver t (raised error) =
      reevaluation_unavailable row.request_json id approver t error
  after_evaluation row id approver t (ok p) = do
    let reevaluation = reevaluation_of row.request_json id approver t p
    emit m replica_id "AUTHORIZATION_DECISION"
        ("Approval re-evaluation returned " <> effect_text p.effect <> " under " <> p.rule_id)
        reevaluation (if is_allow p.effect then "success" else "error")
    conclude row id approver t reevaluation p (is_allow p.effect)

  abbrev pub approve_claimed : String → String → Response ⊎ ApprovalRow → Run World Response
  approve_claimed id approver (inl early) = pure early
  approve_claimed id approver (inr row) = do
    trace_id ← or_drawn m (get row.request_json "trace_id") "trc-" 12
    request_id ← or_drawn m (get row.request_json "request_id") "req-" 12
    hex ← draw m 12
    let t : Trace = record {
      trace_id = trace_id;
      request_id = request_id;
      decision_id = "dec-" <> hex;
    }
    after_evaluation row id approver t (evaluate m b row.request_json true)

  -- an ID or an approver is missing
  abbrev pub refuse_unnamed : String → String → Run World Response
  refuse_unnamed id approver = do
    let reason : String = "Approval request ID and approver are required"
    emit m replica_id "APPROVAL_DECISION" reason (dict (denial id approver reason)) "error"
    pure (400, dict (("ok", bool false) ∷ ("reason", str reason) ∷ []))

  unfoldable pub approve : Fields → Run World Response
  unfolding emit issue_grant evaluate insert update set_status
  approve payload = do
    let id = str_of (get_or payload "request_id" (str ""))
    let approver = str_of (get_or payload "approver" (str ""))
    if id == "" || approver == ""
        then refuse_unnamed id approver
        else (do claimed ← claim_block id approver; approve_claimed id approver claimed)
