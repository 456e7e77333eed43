-- ===== src/Base/Dict.antt =====
-- Python's `dict` from texts to values of any type, in the order of insertion.
use Prim.Native.String.{String}
use mathlib.Core.Path.{◌≡◌, refl}
use mathlib.Core.Option.{Option, none, some}
use mathlib.Core.List.{List, [], ◌∷◌}
use native.Mathlib.Omega.{arith}
use text.Mathlib.Text.{◌==◌}
use text.Mathlib.TextEquality.{eq_iff}
use text.Mathlib.TextPositions.{eq_refl}
use laptop_bap_demo.Base.Tests.{if◌then◌else◌}

abbrev pub Dict {ℓ} : Type ℓ → Type ℓ
Dict V = List (String × V)

module _ {ℓ} {V : Type ℓ} where
  -- `d.get(k)`
  unfoldable pub find : Dict V → String → Option V
  find [] k = none
  find ((j, v) ∷ d) k = if j == k then some v else find d k

  -- `d[k] = v`
  unfoldable pub put : String → V → Dict V → Dict V
  put k v [] = (k, v) ∷ []
  put k v ((j, w) ∷ d) = if j == k then (k, v) ∷ d else (j, w) ∷ put k v d

  -- `d.pop(k, None)`
  unfoldable pub erase : String → Dict V → Dict V
  erase k [] = []
  erase k ((j, w) ∷ d) = let rest = erase k d in if j == k then rest else (j, w) ∷ rest

  pub find-put :
      (k j : String) (v : V) (d : Dict V)
      → find (put j v d) k ≡ (if j == k then some v else find d k)
  unfolding find put
  find-put k j v [] = refl
  find-put k j v ((i, w) ∷ d) = ground (arith, eq_iff j k, eq_iff i j, eq_iff i k, find-put k j v d)

  pub find-erase :
      (k j : String) (d : Dict V) → find (erase j d) k ≡ (if j == k then none else find d k)
  unfolding find erase
  find-erase k j [] = ground arith
  find-erase k j ((i, w) ∷ d) = ground (arith, eq_iff j k, eq_iff i j, eq_iff i k, find-erase k j d)

  pub find-put_self : (k : String) (v : V) (d : Dict V) → find (put k v d) k ≡ some v
  find-put_self k v d = simp (find-put, eq_refl)

  pub find-erase_self : (k : String) (d : Dict V) → find (erase k d) k ≡ none
  find-erase_self k d = simp (find-erase, eq_refl)

  -- Every key occurs once, as in a real dict.
  abbrev pub NodupKeys : Dict V → Type ℓ
  NodupKeys [] = Unit
  NodupKeys ((k, v) ∷ d) = (find d k ≡ none) × NodupKeys d

  pub put-NodupKeys : (k : String) (v : V) (d : Dict V) → NodupKeys d → NodupKeys (put k v d)
  unfolding find put
  put-NodupKeys k v [] u = (refl, tt)
  put-NodupKeys k v ((j, w) ∷ d) (fresh, u) =
      ground (arith, find-put j k v d, put-NodupKeys k v d u, eq_iff j k, eq_iff k j)
