-- ===== src/Enterprise/Policy/Decisions.antt =====
-- What a decision of the policy engine rests on.
use mathlib.Core.Bool.{false≢true}
use laptop_bap_demo.Base.{
  Bool, Bool-cases, List, Option, String, ap, arith, eq_iff, false, if◌then◌else◌, inl, inr, none,
  not, refl, some, subst, sym, true, ◌&&◌, ◌==◌, ◌≡◌,
}
use laptop_bap_demo.Base.Json.{Fields, get_or, str}
use laptop_bap_demo.Base.Json.Repr.{str_of}
use laptop_bap_demo.Base.Lists.{contains}
use laptop_bap_demo.Base.Run.{Except, ok, raised}
use laptop_bap_demo.Base.Text.{strip}
use laptop_bap_demo.Enterprise.Policy.{
  Bundle, Effect, PolicyDecision, action_id, after_approval, after_direct, allow, cedar_authorize,
  cedar_request, combined_output, denied, deny, evaluate, evaluate_action, judge_lines,
  output_lines, read_outcome, require_approval, then_read,
}
use laptop_bap_demo.Enterprise.World.{Machine}

-- Cedar has been asked this question and has answered with a line ALLOW.
pub record CedarAllows (m : Machine) (request : Fields) (cedar_action : String)
    (human_approved : Bool) : Type 0 where
  pub outputs : String × String
  pub printed : m.cedar (cedar_request request cedar_action human_approved) ≡ ok outputs
  pub allow_line : contains (output_lines outputs) "ALLOW" ≡ true

abbrev pub asked_action : Fields → String
asked_action request = str_of (get_or request "action" (str ""))

abbrev allows_of : Except (Bool × String) → Bool
allows_of (ok x) = x.0
allows_of (raised e) = false

judged :
    (lines : List String) (combined : String) (rules : List String) (error rule : String)
    → judge_lines lines combined rules error ≡ ok (true, rule)
    → contains lines "ALLOW" ≡ true
judged lines combined rules error rule e = elim (Bool-cases (contains lines "ALLOW")) [
  | inl found ↦ found
  | inr missing ↦ elim (Bool-cases (contains lines "DENY")) [
    | inl deny_line ↦
        absurd
          (false≢true (ap {A = Except (Bool × String)} allows_of (rw (missing, deny_line) at e)))
    | inr nothing ↦
        absurd (false≢true (ap {A = Except (Bool × String)} allows_of (rw (missing, nothing) at e)))
  ]
]

module _ (m : Machine) (b : Bundle) where
  read_allows :
      (request : Fields) (cedar_action : String) (approved : Bool) (rule : String)
      (printed : Except (String × String))
      → m.cedar (cedar_request request cedar_action approved) ≡ printed
      → then_read b.rule_ids printed ≡ ok (true, rule)
      → CedarAllows m request cedar_action approved
  unfolding read_outcome
  read_allows request cedar_action approved rule (raised x) e r = absurd (cc r)
  read_allows request cedar_action approved rule (ok outputs) e r = record {
    outputs = outputs;
    printed = e;
    allow_line =
        judged (output_lines outputs) (combined_output outputs) b.rule_ids
          (strip (if outputs.1 == "" then outputs.0 else outputs.1)) rule r;
  }

  authorize_allows :
      (request : Fields) (cedar_action : String) (approved : Bool) (rule : String)
      → cedar_authorize m b request cedar_action approved ≡ ok (true, rule)
      → CedarAllows m request cedar_action approved
  unfolding cedar_authorize
  authorize_allows request cedar_action approved rule e =
      read_allows request cedar_action approved rule _ refl e

-- What must hold for a decision of each effect.
abbrev pub Justified : Machine → Fields → Bool → Effect → Type 0
Justified m request human_approved deny = Unit
Justified m request human_approved allow =
    (cedar_action : String) × (action_id (asked_action request) ≡ some cedar_action)
    × CedarAllows m request cedar_action human_approved
Justified m request human_approved require_approval =
    (asked_action request ≡ "database.write")
    × (human_approved ≡ false)
    × CedarAllows m request "requestDatabaseWriteApproval" false

both : {c d : Bool} → c ≡ true → d ≡ false → c && not d ≡ true
both e f = ground arith

module _ (m : Machine) (b : Bundle) (request : Fields) (human_approved : Bool) where
  abbrev Result : Except PolicyDecision → Type 0
  Result (ok d) = Justified m request human_approved d.effect
  Result (raised e) = Unit

  approval_Justified :
      (rule : String) (r : Except (Bool × String))
      → cedar_authorize m b request "requestDatabaseWriteApproval" false ≡ r
      → asked_action request ≡ "database.write"
      → human_approved ≡ false
      → Result (after_approval m b rule r)
  approval_Justified rule (raised e) r write fresh = tt
  approval_Justified rule (ok (true, approval_rule)) r write fresh = (
    write,
    fresh,
    authorize_allows m b request "requestDatabaseWriteApproval" false approval_rule r,
  )
  approval_Justified rule (ok (false, approval_rule)) r write fresh = tt

  write_Justified :
      asked_action request == "database.write" ≡ true
      → human_approved ≡ false
      → (rule : String)
      → Result (after_direct m b request (asked_action request) human_approved (ok (false, rule)))
  write_Justified write fresh rule =
      let start : Result (
          after_approval m b rule
            (cedar_authorize m b request "requestDatabaseWriteApproval" false)) =
        approval_Justified rule _ refl ((eq_iff _ _).0 write) fresh in
      subst
        (λ t. Result (
          if t
          then after_approval m b rule
              (cedar_authorize m b request "requestDatabaseWriteApproval" false)
          else ok (denied m b rule)))
        (sym (both write fresh)) start

  direct_Justified :
      (cedar_action : String) (r : Except (Bool × String))
      → action_id (asked_action request) ≡ some cedar_action
      → cedar_authorize m b request cedar_action human_approved ≡ r
      → Result (after_direct m b request (asked_action request) human_approved r)
  direct_Justified cedar_action (raised e) known r = tt
  direct_Justified cedar_action (ok (true, rule)) known r =
      (cedar_action, known, authorize_allows m b request cedar_action human_approved rule r)
  direct_Justified cedar_action (ok (false, rule)) known r =
      elim (Bool-cases (asked_action request == "database.write")) [
        | inl write ↦ elim (Bool-cases human_approved) [
          | inl approved ↦ rw (write, approved) tt
          | inr fresh ↦ write_Justified write fresh rule
        ]
        | inr other ↦ rw other tt
      ]

  action_Justified :
      (cedar_action : Option String)
      → action_id (asked_action request) ≡ cedar_action
      → Result (evaluate_action m b request (asked_action request) human_approved cedar_action)
  action_Justified none known = tt
  action_Justified (some cedar_action) known = direct_Justified cedar_action _ known refl

  -- The policy engine allows an action only if the action is in the schema and Cedar has printed a
  -- line ALLOW for it, and asks for an approval only for a write without one, where Cedar has
  -- printed a line ALLOW for the request of an approval. So it fails closed: where the command raises
  -- or prints neither, nothing is allowed.
  pub evaluate-Justified :
      (d : PolicyDecision)
      → evaluate m b request human_approved ≡ ok d
      → Justified m request human_approved d.effect
  unfolding evaluate
  evaluate-Justified d e = subst Result e (action_Justified (action_id (asked_action request)) refl)
