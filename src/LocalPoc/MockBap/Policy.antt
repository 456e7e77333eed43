-- ===== src/LocalPoc/MockBap/Policy.antt =====
-- What `classify_policy` decides, for every action and resource.
use Prim.Native.String.{◌∷◌}
use text.Mathlib.TextEquality.{starts_with_iff}
use text.Mathlib.TextLemmas.{cons-append, head-eq_of_cons-eq}
use Prim.Native.Char.{code}
use laptop_bap_demo.Base.{
  Bool-cases, String, ap, arith, eq_iff, false, inl, inr, starts_with, sym, true, ◌<>◌, ◌↔◌, ◌∙◌,
  ◌≡◌,
}
use laptop_bap_demo.LocalPoc.MockBap.{allow, classify_policy, require_approval}

-- A text cannot begin with both prefixes.
dev_not_prod : (r : String) → starts_with r "dev-" ≡ true → starts_with r "prod-" ≡ false
dev_not_prod r h = elim (Bool-cases (starts_with r "prod-")) [
  | inl prod ↦
      let (u, p) = (starts_with_iff r "dev-").0 h in
      let (v, q) = (starts_with_iff r "prod-").0 prod in
      let heads : "d" ∷ ("ev-" <> u) ≡ "p" ∷ ("rod-" <> v) =
        sym (cons-append _ "ev-" u) ∙ p ∙ sym q ∙ cons-append _ "rod-" v in
      absurd (omega (arith, ap code (head-eq_of_cons-eq heads)))
  | inr other ↦ other
]

-- A request is allowed exactly if it reads a resource whose name begins with "dev-".
classify_policy-allow_iff :
    (action resource : String)
    → ((classify_policy action resource).0 ≡ allow)
      ↔ ((action ≡ "database.read") × (starts_with resource "dev-" ≡ true))
unfolding classify_policy
classify_policy-allow_iff action resource = (
  λ e. ground (
    arith,
    eq_iff action "database.read",
    eq_iff action "database.delete",
    eq_iff action "database.drop",
    eq_iff action "database.write",
  ),
  λ (read, dev). rw (read, dev_not_prod resource dev, dev),
)

-- A request waits for an approval exactly if it writes a resource whose name does not begin with
-- "prod-".
classify_policy-require_approval_iff :
    (action resource : String)
    → ((classify_policy action resource).0 ≡ require_approval)
      ↔ ((action ≡ "database.write") × (starts_with resource "prod-" ≡ false))
unfolding classify_policy
classify_policy-require_approval_iff action resource = (
  λ e. ground (
    arith,
    eq_iff action "database.read",
    eq_iff action "database.delete",
    eq_iff action "database.drop",
    eq_iff action "database.write",
  ),
  λ (write, other). rw (write, other),
)
