-- ===== src/LocalPoc/MockBap/Validation.antt =====
-- What `validate` accepts, and that it accepts what `_mint_grant` made.
use mathlib.Core.Bool.{false≢true}
use laptop_bap_demo.Base.{
  Bool-cases, Option, String, [], ap, arith, false, inl, inr, none, refl, some, true, ℕ, ◌∙◌, ◌∷◌,
  ◌≡◌,
}
use laptop_bap_demo.Base.Dict.{find}
use laptop_bap_demo.Base.Int.{ltb_ℤ, pos, ℤ}
use laptop_bap_demo.Base.Json.{
  Fields, Json, bool, dict, eq_json, get, get_or, lookup, nat, obj, str, truthy,
}
use laptop_bap_demo.Base.Json.Number.{int_of}
use laptop_bap_demo.Base.Json.Repr.{str_of}
use laptop_bap_demo.Base.Run.{Except, ok, raised}
use laptop_bap_demo.LocalPoc.MockBap.{
  judge, judge_expiry, validate, validate_active, validate_decoded,
}
use laptop_bap_demo.LocalPoc.MockBap.Signatures.{IsSigned, verify-IsSigned}
use laptop_bap_demo.LocalPoc.MockBap.Token.{verify}
use laptop_bap_demo.LocalPoc.World.{Host, World}

-- Why a grant is accepted at a world for an action, a resource and a run.
pub record IsAccepted (h : Host) (w : World) (token action resource agent_run : String)
    (claims : Fields) : Type 0 where
  pub signed : IsSigned h w.bap.signing_key token (obj claims)
  pub grant : Fields
  pub active : find w.bap.grants (str_of (get_or claims "grant_id" (str ""))) ≡ some grant
  pub not_empty : truthy (obj grant) ≡ true
  pub expiry : ℤ
  pub expires : int_of (get_or claims "exp" (nat 0)) ≡ ok expiry
  pub in_time : ltb_ℤ expiry (pos w.now) ≡ false
  pub same_action : eq_json (get claims "action") (str action) ≡ true
  pub same_resource : eq_json (get claims "resource") (str resource) ≡ true
  pub same_run : eq_json (get claims "agent_run") (str agent_run) ≡ true

-- The comparisons that stand between an active grant and its acceptance.
abbrev Passes : Fields → ℤ → ℕ → String → String → String → Type 0
Passes claims exp now action resource agent_run =
    (ltb_ℤ exp (pos now) ≡ false)
    × (eq_json (get claims "action") (str action) ≡ true)
    × (eq_json (get claims "resource") (str resource) ≡ true)
    × (eq_json (get claims "agent_run") (str agent_run) ≡ true)

judge_sound :
    (claims : Fields) (exp : ℤ) (now : ℕ) (action resource agent_run : String)
    → truthy (get (judge claims exp now action resource agent_run) "valid") ≡ true
    → Passes claims exp now action resource agent_run
unfolding truthy lookup
judge_sound claims exp now action resource agent_run t =
    (ground arith, ground arith, ground arith, ground arith)

refuses {ℓ} :
    {X : Type ℓ} {reason : String} {result : Fields}
    → ok (dict (("valid", bool false) ∷ ("reason", str reason) ∷ [])) ≡ ok result
    → truthy (get result "valid") ≡ true
    → X
unfolding truthy lookup
refuses {reason} e t = absurd (
    false≢true (
      ap {A = Except Fields} (λ r. elim r [ ok d ↦ truthy (get d "valid") | raised _ ↦ false ]) e
      ∙ t))

raises {ℓ} : {X : Type ℓ} {x : String} {result : Fields} → raised x ≡ ok result → X
raises e = absurd (cc e)

module _ (h : Host) (w : World) (token action resource agent_run : String) where
  expiry_sound :
      (claims grant result : Fields) (expiry : Except ℤ)
      → IsSigned h w.bap.signing_key token (obj claims)
      → find w.bap.grants (str_of (get_or claims "grant_id" (str ""))) ≡ some grant
      → truthy (obj grant) ≡ true
      → int_of (get_or claims "exp" (nat 0)) ≡ expiry
      → (judge_expiry claims expiry action resource agent_run w).0 ≡ ok result
      → truthy (get result "valid") ≡ true
      → IsAccepted h w token action resource agent_run claims
  expiry_sound claims grant result (raised x) signed active full e r t = cc
  expiry_sound claims grant result (ok exp) signed active full e r t =
      let same : judge claims exp w.now action resource agent_run ≡ result = cc in
      let (p, q, u, v) = judge_sound claims exp w.now action resource agent_run (rw same t) in
      record {
        signed = signed;
        grant = grant;
        active = active;
        not_empty = full;
        expiry = exp;
        expires = e;
        in_time = p;
        same_action = q;
        same_resource = u;
        same_run = v;
      }

  active_sound :
      (claims result : Fields) (active_grant : Option Fields)
      → IsSigned h w.bap.signing_key token (obj claims)
      → find w.bap.grants (str_of (get_or claims "grant_id" (str ""))) ≡ active_grant
      → (validate_active claims active_grant action resource agent_run w).0 ≡ ok result
      → truthy (get result "valid") ≡ true
      → IsAccepted h w token action resource agent_run claims
  active_sound claims result none signed active r t = refuses r t
  active_sound claims result (some grant) signed active r t =
      elim (Bool-cases (truthy (obj grant))) [
        | inl full ↦ expiry_sound claims grant result _ signed active full refl (rw full at r) t
        | inr empty ↦ refuses (rw empty at r) t
      ]

  decoded_sound :
      (value : Option Json) (result : Fields)
      → verify h w.bap.signing_key token ≡ value
      → (validate_decoded h value action resource agent_run w).0 ≡ ok result
      → truthy (get result "valid") ≡ true
      → (claims : Fields) × IsAccepted h w token action resource agent_run claims
  decoded_sound none result e r t = refuses r t
  decoded_sound (some (obj claims)) result e r t = elim (Bool-cases (truthy (obj claims))) [
    | inl full ↦ (
      claims,
      active_sound claims result _ (verify-IsSigned h _ token (obj claims) e) refl (rw full at r) t,
    )
    | inr empty ↦ refuses (rw empty at r) t
  ]
  decoded_sound (some v) result e r t = elim (Bool-cases (truthy v)) [
    | inl full ↦ raises (rw full at r)
    | inr empty ↦ refuses (rw empty at r) t
  ]

  -- `validate` answers with valid claims only for a token that carries the authentication code under
  -- the signing key, whose grant is in the table, which has not expired, and whose claims name the
  -- action, the resource and the run that are asked for.
  pub validate_sound :
      (result : Fields)
      → (validate h token action resource agent_run w).0 ≡ ok result
      → truthy (get result "valid") ≡ true
      → (claims : Fields) × IsAccepted h w token action resource agent_run claims
  unfolding validate
  validate_sound result e t = decoded_sound (verify h w.bap.signing_key token) result refl e t
