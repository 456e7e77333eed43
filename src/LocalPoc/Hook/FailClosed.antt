-- ===== src/LocalPoc/Hook/FailClosed.antt =====
-- The hook fails closed.
use mathlib.Core.Bool.{false≢true}
use laptop_bap_demo.Base.{
  Bool-cases, Option, String, [], ap, arith, eq_iff, eqb, false, inl, inr, none, refl, some, sym, ℕ,
  ◌==◌, ◌∙◌, ◌∷◌, ◌≡◌, ◌≢◌, ◌⊎◌,
}
use laptop_bap_demo.Base.Json.{Fields, Json, as_dict, get, get_or, insert, lookup, str}
use laptop_bap_demo.Base.Json.Repr.{str_of}
use laptop_bap_demo.Base.Run.{Except, Except-cases, ok, raised}
use laptop_bap_demo.LocalPoc.Hook.{
  Outcome, Post, after_handler, answer_for, bind_session, decide, hook_decision, main, pre_tool,
  tool_input_of,
}
use laptop_bap_demo.LocalPoc.World.{Host, Response, World}

-- the decision that a printed answer carries
abbrev pub permission : Fields → Json
permission output = get (as_dict (get output "hookSpecificOutput")) "permissionDecision"

permission-hook_decision :
    (decision reason : String) (updated : Option Fields)
    → permission (hook_decision decision reason updated) ≡ str decision
unfolding hook_decision lookup insert
permission-hook_decision decision reason none = refl
permission-hook_decision decision reason (some updated) = refl

abbrev text_of : Json → String
text_of (str s) = s
text_of v = ""

-- a printed decision other than "allow"
other_decision :
    (decision reason : String) (updated : Option Fields)
    → (decision == "allow") ≡ false
    → permission (hook_decision decision reason updated) ≢ str "allow"
other_decision decision reason updated other p = false≢true (
    sym other
    ∙ ap {A = Json} (λ v. text_of v == "allow")
        (sym (permission-hook_decision decision reason updated) ∙ p))

answer_allows :
    (decision reason : String) (updated : Fields)
    → permission (answer_for decision reason updated) ≡ str "allow"
    → decision ≡ "ALLOW"
answer_allows decision reason updated p = elim (Bool-cases (decision == "ALLOW")) [
  | inl allows ↦ (eq_iff decision "ALLOW").0 allows
  | inr other ↦ elim (Bool-cases (decision == "REQUIRE_APPROVAL")) [
    | inl asks ↦ absurd (other_decision "ask" reason (some updated) refl (rw (other, asks) at p))
    | inr denies ↦ absurd (other_decision "deny" reason none refl (rw (other, denies) at p))
  ]
]

answer_decides :
    (decision reason : String) (updated : Fields)
    → (permission (answer_for decision reason updated) ≡ str "allow")
      ⊎ ((permission (answer_for decision reason updated) ≡ str "ask")
          ⊎ (permission (answer_for decision reason updated) ≡ str "deny"))
answer_decides decision reason updated = elim (Bool-cases (decision == "ALLOW")) [
  | inl allows ↦ rw allows (inl (permission-hook_decision "allow" reason (some updated)))
  | inr other ↦ elim (Bool-cases (decision == "REQUIRE_APPROVAL")) [
    | inl asks ↦ rw (other, asks) (inr (inl (permission-hook_decision "ask" reason (some updated))))
    | inr denies ↦ rw (other, denies) (inr (inr (permission-hook_decision "deny" reason none)))
  ]
]

module _ (h : Host) (post : Post) (event : Fields) (w : World) where
  -- the connector has allowed the call
  abbrev pub ConnectorAllows : Type 0
  ConnectorAllows =
      (result : Fields) × ((post "/hook/pre-tool" event w).0 ≡ ok (200, result))
      × (str_of (get_or result "decision" (str "DENY")) ≡ "ALLOW")

  -- a run that exits with 0 and has printed one of the three decisions, which is "allow" only if the connector allows
  abbrev pub Decided : Except Outcome → Type 0
  Decided r =
      (output : Fields) × (r ≡ ok (0, some output))
      × ((permission output ≡ str "allow")
          ⊎ ((permission output ≡ str "ask") ⊎ (permission output ≡ str "deny")))
      × (permission output ≡ str "allow" → ConnectorAllows)

  denial : (reason : String) → Decided (ok (0, some (hook_decision "deny" reason none)))
  denial reason = (
    _,
    refl,
    inr (inr (permission-hook_decision "deny" reason none)),
    λ p. absurd (other_decision "deny" reason none refl p),
  )

  decide_cases :
      (r : Except Response) (v : World)
      → (post "/hook/pre-tool" event w).0 ≡ r
      → Decided (after_handler h post "authorize" (decide event r v).0 (decide event r v).1).0
  decide_cases (raised exc) v e = denial _
  decide_cases (ok (status, result)) v e = elim (Bool-cases (eqb status 200)) [
    | inr other ↦ rw other (denial _)
    | inl success ↦ elim (Except-cases (tool_input_of (get event "tool_input"))) [
      | inr (exc, malformed) ↦ rw (success, malformed) (denial _)
      | inl (updated, known) ↦
          rw (success, known)
            (
              _,
              refl,
              answer_decides (str_of (get_or result "decision" (str "DENY")))
                  (str_of (get_or result "reason" (str "No BAP decision reason supplied")))
                  (bind_session event updated),
              λ p. (
                result,
                e ∙ ap {A = ℕ} (λ s. ok (s, result)) (ground arith),
                answer_allows _ _ _ p,
              ),
            )
    ]
  ]

  -- Whatever the connector does, answers or raises, and whatever the event is, the hook "authorize"
  -- exits with 0 and prints "allow", "ask" or "deny", and the decision is "allow" only if the connector has answered
  -- the call with 200 and ALLOW.
  pub main-authorize : Decided (main h post ("authorize" ∷ []) (some event) w).0
  unfolding main pre_tool
  main-authorize =
      decide_cases (post "/hook/pre-tool" event w).0 (post "/hook/pre-tool" event w).1 refl
