-- ===== src/Base/Run.antt =====
-- Methods that change a state and may raise. What was written before an exception stays written,
-- so the state comes back beside the exception too.
use Prim.Native.String.{String}
use mathlib.Core.Path.{◌≡◌, refl}
use mathlib.Core.Bool.{Bool, true, false}
use mathlib.Core.Logic.{◌⊎◌, inl, inr}
use laptop_bap_demo.Base.Tests.{if◌then◌else◌}

pub data Except {ℓ} (A : Type ℓ) : Type ℓ where
  ok : A → Except A
  raised : String → Except A

abbrev pub Run {ℓ} : Type ℓ → Type ℓ → Type ℓ
Run S A = S → Except A × S

module _ {ℓ} {S A : Type ℓ} where
  abbrev pub pure : A → Run S A
  pure a s = (ok a, s)

  abbrev pub raise : String → Run S A
  raise e s = (raised e, s)

  abbrev pub lift : Except A → Run S A
  lift r s = (r, s)

  abbrev pub gets : (S → A) → Run S A
  gets f s = (ok (f s), s)

module _ {ℓ} {S A B : Type ℓ} where
  -- `try: x = m` with the handlers and the rest as the two ways to go on
  abbrev pub observe : Run S A → (Except A → Run S B) → Run S B
  observe m f s = let (r, s') = m s in f r s'

  abbrev pub continue : Except A → (A → Run S B) → Run S B
  continue (ok a) f s = f a s
  continue (raised e) f s = (raised e, s)

  infixl 5 ◌>>=◌ ◌>>◌
  abbrev pub ◌>>=◌ : Run S A → (A → Run S B) → Run S B
  ◌>>=◌ m f s = let (r, s') = m s in continue r f s'

  abbrev pub ◌>>◌ : Run S A → Run S B → Run S B
  m >> n = m >>= λ _. n

abbrev pub modify : {S : Type 0} → (S → S) → Run S (Unit {0})
modify f s = (ok tt, f s)

module _ {S A B : Type 0} where
  continue_cases :
      (P : Except B × S → Type 0) (r r' : Except A) (f : A → Run S B) (s : S)
      → r ≡ r'
      → ((e : String) → r ≡ raised e → P (raised e, s))
      → ((a : A) → r ≡ ok a → P (f a s))
      → P (continue r' f s)
  continue_cases P r (ok a) f s e hr ho = ho a e
  continue_cases P r (raised x) f s e hr ho = hr x e

  -- A property of a sequence of two steps, from the two ways in which the first can end.
  pub bind_cases :
      (P : Except B × S → Type 0) (m : Run S A) (f : A → Run S B) (s : S)
      → ((e : String) → (m s).0 ≡ raised e → P (raised e, (m s).1))
      → ((a : A) → (m s).0 ≡ ok a → P (f a (m s).1))
      → P ((m >>= f) s)
  bind_cases P m f s hr ho = continue_cases P (m s).0 (m s).0 f (m s).1 refl hr ho

-- `m` preserves `P`, whether it returns or raises.
pub record Preserves {S A : Type 0} (P : S → Type 0) (m : Run S A) : Type 0 where
  pub after : (s : S) → P s → P (m s).1

module _ {S A : Type 0} {P : S → Type 0} where
  pub Preserves-pure : (a : A) → Preserves P (pure a)
  Preserves-pure a = record { after = λ s p. p }

  pub Preserves-raise : (e : String) → Preserves P (raise {A = A} e)
  Preserves-raise e = record { after = λ s p. p }

  pub Preserves-lift : (r : Except A) → Preserves P (lift r)
  Preserves-lift r = record { after = λ s p. p }

  pub Preserves-gets : (f : S → A) → Preserves P (gets f)
  Preserves-gets f = record { after = λ s p. p }

  pub Preserves-if :
      (b : Bool) (m n : Run S A) → Preserves P m → Preserves P n → Preserves P (if b then m else n)
  Preserves-if true m n p q = p
  Preserves-if false m n p q = q

module _ {S A B : Type 0} {P : S → Type 0} where
  continue_after :
      (r : Except A) (f : A → Run S B) (s : S)
      → P s
      → ((a : A) → Preserves P (f a))
      → P (continue r f s).1
  continue_after (ok a) f s p g = (g a).after s p
  continue_after (raised e) f s p g = p

  pub Preserves-bind :
      (m : Run S A) (f : A → Run S B)
      → Preserves P m
      → ((a : A) → Preserves P (f a))
      → Preserves P (m >>= f)
  Preserves-bind m f p g = record {
    after = λ s here. continue_after (m s).0 f (m s).1 (p.after s here) g;
  }

  pub Preserves-observe :
      (m : Run S A) (f : Except A → Run S B)
      → Preserves P m
      → ((r : Except A) → Preserves P (f r))
      → Preserves P (observe m f)
  Preserves-observe m f p g = record {
    after = λ s here. (g (m s).0).after (m s).1 (p.after s here);
  }

  continue-lift :
      (r : Except A) (f : A → Run S B)
      → ((a : A) → r ≡ ok a → Preserves P (f a))
      → (s : S) → P s
      → P (continue r f s).1
  continue-lift (ok a) f g s p = (g a refl).after s p
  continue-lift (raised e) f g s p = p

  -- a value that is read, with the equation for what is done with it
  pub Preserves-lift_bind :
      (r : Except A) (f : A → Run S B)
      → ((a : A) → r ≡ ok a → Preserves P (f a))
      → Preserves P (lift r >>= f)
  Preserves-lift_bind r f g = record { after = continue-lift r f g }

  -- A property that the first step brings about, whatever held before, and the second keeps.
  pub bind_after :
      (m : Run S A) (f : A → Run S B) (s : S)
      → P (m s).1
      → ((a : A) → Preserves P (f a))
      → P ((m >>= f) s).1
  bind_after m f s p g = continue_after (m s).0 f (m s).1 p g

pub Except-cases {ℓ} :
    {A : Type ℓ} (r : Except A) → ((a : A) × (r ≡ ok a)) ⊎ ((e : String) × (r ≡ raised e))
Except-cases (ok a) = inl (a, refl)
Except-cases (raised e) = inr (e, refl)

-- a property of what is returned, if anything is
abbrev pub OfOk {ℓ} : {A : Type ℓ} → (A → Type ℓ) → Except A → Type ℓ
OfOk Q (ok a) = Q a
OfOk Q (raised e) = Unit

-- From a state where `P` holds, `m` leads to one where it holds, and what it returns satisfies `Q`.
pub record Yields {S A : Type 0} (P : S → Type 0) (Q : A → Type 0) (m : Run S A) : Type 0 where
  pub after : (s : S) → P s → P (m s).1
  pub result : (s : S) → P s → OfOk Q (m s).0

module _ {S A : Type 0} {P : S → Type 0} {Q : A → Type 0} where
  pub Yields-pure : (a : A) → Q a → Yields P Q (pure a)
  Yields-pure a q = record { after = λ s p. p; result = λ s p. q }

  pub Yields-raise : (e : String) → Yields P Q (raise e)
  Yields-raise e = record { after = λ s p. p; result = λ s p. tt }

  pub Yields-lift : (r : Except A) → OfOk Q r → Yields P Q (lift r)
  Yields-lift r q = record { after = λ s p. p; result = λ s p. q }

  pub Yields-if :
      (b : Bool) (m n : Run S A) → Yields P Q m → Yields P Q n → Yields P Q (if b then m else n)
  Yields-if true m n p q = p
  Yields-if false m n p q = q

  pub Yields-Preserves : {m : Run S A} → Yields P Q m → Preserves P m
  Yields-Preserves y = record { after = y.after }

module _ {S A B : Type 0} {P : S → Type 0} {Q : A → Type 0} {R : B → Type 0} where
  continue-Yields :
      (r : Except A) (f : A → Run S B) (s : S)
      → P s
      → OfOk Q r
      → ((a : A) → Q a → Yields P R (f a))
      → P (continue r f s).1 × OfOk R (continue r f s).0
  continue-Yields (ok a) f s p q g = ((g a q).after s p, (g a q).result s p)
  continue-Yields (raised e) f s p q g = (p, tt)

  pub Yields-bind :
      (m : Run S A) (f : A → Run S B)
      → Yields P Q m
      → ((a : A) → Q a → Yields P R (f a))
      → Yields P R (m >>= f)
  Yields-bind m f y g = record {
    after = λ s p. (continue-Yields (m s).0 f (m s).1 (y.after s p) (y.result s p) g).0;
    result = λ s p. (continue-Yields (m s).0 f (m s).1 (y.after s p) (y.result s p) g).1;
  }

abbrev pub Any : {A : Type 0} → A → Type 0
Any a = Unit

pub OfOk-Any : {A : Type 0} (r : Except A) → OfOk (Any {A = A}) r
OfOk-Any (ok a) = tt
OfOk-Any (raised e) = tt

module _ {S A B : Type 0} {P : S → Type 0} {R : B → Type 0} where
  -- a value that is not looked into
  pub Yields-lift_bind :
      (r : Except A) (f : A → Run S B) → ((a : A) → Yields P R (f a)) → Yields P R (lift r >>= f)
  Yields-lift_bind r f g = Yields-bind (lift r) f (Yields-lift r (OfOk-Any r)) (λ a _. g a)

  pub Yields-Any_bind :
      (m : Run S A) (f : A → Run S B)
      → Yields P (Any {A = A}) m
      → ((a : A) → Yields P R (f a))
      → Yields P R (m >>= f)
  Yields-Any_bind m f y g = Yields-bind m f y (λ a _. g a)
