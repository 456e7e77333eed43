-- ===== src/Enterprise/Policy.antt =====
-- `PolicyBundle` of enterprise_demo/enterprise_bap/policy_engine.py: `evaluate` and `_authorize`. The
-- Cedar command is a parameter; the loading and the digest of the bundle are the fields of `Bundle`.
pub mod Decisions
use laptop_bap_demo.Base.{
  Bool, List, Option, String, [], false, if◌then◌else◌, none, not, some, ◌&&◌, ◌<>◌, ◌==◌, ◌||◌,
  ◌∷◌,
}
use laptop_bap_demo.Base.Int.{ℤ}
use laptop_bap_demo.Base.Json.{Fields, bool, dict, get, get_or, obj, str, truthy}
use laptop_bap_demo.Base.Json.Repr.{str_of}
use laptop_bap_demo.Base.Lists.{contains}
use laptop_bap_demo.Base.Run.{Except, ok, raised}
use laptop_bap_demo.Base.Text.{is_in, join, replace_char, split_char, strip, take_chars}
use laptop_bap_demo.Enterprise.World.{Machine}

-- What a `PolicyBundle` has read from its files.
pub record Bundle : Type 0 where
  pub bundle_id : String
  pub revision : String
  pub bundle_sha256 : String
  pub grant_ttl_seconds : ℤ
  pub rule_ids : List String

-- "DENY", "ALLOW" and "REQUIRE_APPROVAL"
pub data Effect : Type 0 where
  deny allow require_approval : Effect

abbrev pub effect_text : Effect → String
effect_text deny = "DENY"
effect_text allow = "ALLOW"
effect_text require_approval = "REQUIRE_APPROVAL"

pub record PolicyDecision : Type 0 where
  pub effect : Effect
  pub reason : String
  pub rule_id : String
  pub bundle_id : String
  pub revision : String
  pub bundle_sha256 : String
  pub grant_ttl_seconds : ℤ

-- `ACTION_IDS`
abbrev pub action_id : String → Option String
action_id action =
    if action == "database.read"
    then some "databaseRead"
    else if action == "database.write"
    then some "databaseWrite"
    else if action == "database.delete"
    then some "databaseDelete"
    else none

-- `_entity_literal`
unfoldable pub entity_literal : String → String → String
unfolding replace_char
entity_literal entity_type entity_id =
    let escaped = replace_char "\"" "\\\"" (replace_char "\\" "\\\\" entity_id) in
    entity_type <> "::\"" <> escaped <> "\""

-- the request that `_authorize` writes for the command
unfoldable pub cedar_request : Fields → String → Bool → Fields
unfolding entity_literal
cedar_request request cedar_action human_approved = dict (
    ("principal", str (entity_literal "BAP::User" (str_of (get_or request "user" (str "unknown")))))
    ∷ ("action", str (entity_literal "BAP::Action" cedar_action))
    ∷ (
      "resource",
      str (entity_literal "BAP::DataStore" (str_of (get_or request "resource" (str "")))),
    )
    ∷ (
      "context",
      obj (
          dict (
            ("agent", str (str_of (get_or request "agent" (str "unknown"))))
            ∷ ("agentClass", str "laptop-agent")
            ∷ ("registered", bool (truthy (get request "agent_run")))
            ∷ ("deviceManaged", bool (truthy (get request "device")))
            ∷ ("humanApproved", bool human_approved)
            ∷ ("agentRun", str (str_of (get_or request "agent_run" (str ""))))
            ∷ ("task", str (take_chars 300 (str_of (get_or request "task" (str "")))))
            ∷ [])),
    )
    ∷ [])

-- `[part.strip() for part in parts if part.strip()]`
abbrev stripped : List String → List String
stripped [] = []
stripped (part ∷ parts) =
    let rest = stripped parts in if strip part == "" then rest else strip part ∷ rest

abbrev first_or : String → List String → String
first_or s [] = s
first_or s (x ∷ xs) = x

-- the IDs that occur in the output
pub ids_in : String → List String → List String
ids_in output [] = []
ids_in output (rule ∷ rules) =
    let rest = ids_in output rules in if is_in rule output then rule ∷ rest else rest

-- from the lines of the output on: one that is ALLOW or DENY is looked for
abbrev pub judge_lines : List String → String → List String → String → Except (Bool × String)
judge_lines lines combined rule_ids error =
    if not (contains lines "ALLOW" || contains lines "DENY")
    then raised ("ValueError: Cedar evaluation failed: " <> error)
    else ok (contains lines "ALLOW", first_or "no-applicable-policy" (ids_in combined rule_ids))

unfoldable pub combined_output : String × String → String
unfolding join strip
combined_output (stdout, stderr) = join "\n" (stripped (stdout ∷ stderr ∷ []))

-- the lines that `re.MULTILINE` sees
unfoldable pub output_lines : String × String → List String
unfolding split_char combined_output
output_lines outputs = split_char "\n" (combined_output outputs)

unfoldable pub read_outcome : List String → String × String → Except (Bool × String)
unfolding output_lines combined_output ids_in strip
read_outcome rule_ids outputs =
    judge_lines (output_lines outputs) (combined_output outputs) rule_ids
      (strip (if outputs.1 == "" then outputs.0 else outputs.1))

abbrev pub then_read : List String → Except (String × String) → Except (Bool × String)
then_read rule_ids (ok outputs) = read_outcome rule_ids outputs
then_read rule_ids (raised e) = raised e

module _ (m : Machine) (b : Bundle) where
  -- `_authorize`: whether Cedar allows, and the rule that it names
  unfoldable pub cedar_authorize : Fields → String → Bool → Except (Bool × String)
  unfolding cedar_request read_outcome
  cedar_authorize request cedar_action human_approved =
      then_read b.rule_ids (m.cedar (cedar_request request cedar_action human_approved))

  -- `_decision`
  abbrev pub decision : Effect → String → String → PolicyDecision
  decision effect rule_id reason = record {
    effect = effect;
    reason = reason;
    rule_id = rule_id;
    bundle_id = b.bundle_id;
    revision = b.revision;
    bundle_sha256 = b.bundle_sha256;
    grant_ttl_seconds = b.grant_ttl_seconds;
  }

  abbrev pub denied : String → PolicyDecision
  denied rule =
      decision deny (if rule == "no-applicable-policy" then "default-deny" else rule)
        "Cedar denied the requested action"

  -- the second question, for a write without an approval
  abbrev pub after_approval : String → Except (Bool × String) → Except PolicyDecision
  after_approval rule (raised e) = raised e
  after_approval rule (ok (allows, approval_rule)) =
      if allows
      then ok (
          decision require_approval approval_rule
            "Cedar permits requesting approval, but does not yet permit the write")
      else ok (denied rule)

  abbrev pub after_direct : Fields → String → Bool → Except (Bool × String) → Except PolicyDecision
  after_direct request action human_approved (raised e) = raised e
  after_direct request action human_approved (ok (allows, rule)) =
      if allows
      then ok (decision allow rule "Cedar permitted the requested action")
      else if action == "database.write" && not human_approved
      then after_approval rule (cedar_authorize request "requestDatabaseWriteApproval" false)
      else ok (denied rule)

  abbrev pub evaluate_action : Fields → String → Bool → Option String → Except PolicyDecision
  evaluate_action request action human_approved none =
      ok (decision deny "default-deny" "The requested action is not in the BAP Cedar schema")
  evaluate_action request action human_approved (some cedar_action) =
      after_direct request action human_approved
        (cedar_authorize request cedar_action human_approved)

  unfoldable pub evaluate : Fields → Bool → Except PolicyDecision
  unfolding cedar_authorize
  evaluate request human_approved =
      let action = str_of (get_or request "action" (str "")) in
      evaluate_action request action human_approved (action_id action)
