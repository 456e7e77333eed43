-- ===== src/LocalPoc/MockBap/Table.antt =====
-- What the methods of the mock BAP keep, its handler keeps; and `validate` keeps everything.
use laptop_bap_demo.Base.{
  Bool, Option, String, false, if◌then◌else◌, none, not, refl, some, true, ◌≡◌,
}
use laptop_bap_demo.Base.Int.{ℤ}
use laptop_bap_demo.Base.Json.{Fields, Json, obj, truthy}
use laptop_bap_demo.Base.Run.{
  Except, Preserves, Preserves-bind, Preserves-if, Preserves-pure, Run, ok, raised,
}
use laptop_bap_demo.LocalPoc.MockBap.{
  approve, authorize, do_post, judge_expiry, revoke_session, validate, validate_active,
  validate_decoded,
}
use laptop_bap_demo.LocalPoc.MockBap.Token.{verify}
use laptop_bap_demo.LocalPoc.World.{Host, World}

module _ (h : Host) (action resource agent_run : String) (w : World) where
  -- `if b: return a` before the rest
  world-if :
      (b : Bool) (m n : Run World Fields)
      → (m w).1 ≡ w
      → (n w).1 ≡ w
      → ((if b then m else n) w).1 ≡ w
  world-if true m n p q = p
  world-if false m n p q = q

  world-judge_expiry :
      (claims : Fields) (expiry : Except ℤ)
      → (judge_expiry claims expiry action resource agent_run w).1 ≡ w
  world-judge_expiry claims (ok exp) = refl
  world-judge_expiry claims (raised x) = refl

  world-validate_active :
      (claims : Fields) (grant : Option Fields)
      → (validate_active claims grant action resource agent_run w).1 ≡ w
  world-validate_active claims none = refl
  world-validate_active claims (some grant) =
      world-if (not (truthy (obj grant))) _ _ refl (world-judge_expiry claims _)

  world-validate_decoded :
      (value : Option Json) → (validate_decoded h value action resource agent_run w).1 ≡ w
  world-validate_decoded none = refl
  world-validate_decoded (some (obj claims)) =
      world-if (not (truthy (obj claims))) _ _ refl (world-validate_active claims _)
  world-validate_decoded (some v) = world-if (not (truthy v)) _ _ refl refl

  -- `validate` reads the state and changes nothing.
  pub world-validate : (token : String) → (validate h token action resource agent_run w).1 ≡ w
  unfolding validate
  world-validate token = world-validate_decoded (verify h w.bap.signing_key token)

module _ (h : Host) (payload : Fields) where
  -- what each method preserves, the handler preserves
  pub Preserves-do_post :
      {P : World → Type 0} (path : String)
      → Preserves P (authorize h payload)
      → ((id approver : String) → Preserves P (approve h id approver))
      → ((token action resource agent_run : String)
          → Preserves P (validate h token action resource agent_run))
      → ((agent_run : String) → Preserves P (revoke_session h agent_run))
      → Preserves P (do_post h path payload)
  unfolding do_post
  Preserves-do_post path p q r s =
      Preserves-if _ _ _ (Preserves-bind _ _ p (λ _. Preserves-pure _)) (
        Preserves-if _ _ _ (Preserves-bind _ _ (q _ _) (λ _. Preserves-pure _)) (
          Preserves-if _ _ _ (Preserves-bind _ _ (r _ _ _ _) (λ _. Preserves-pure _)) (
            Preserves-if _ _ _ (Preserves-bind _ _ (s _) (λ _. Preserves-pure _))
              (Preserves-pure _))))
