-- ===== src/Base/Json/Lookup.antt =====
-- What a look-up finds after an insertion or a removal.
use Prim.Native.String.{String}
use mathlib.Core.Path.{◌≡◌, refl}
use mathlib.Core.Option.{none, some}
use native.Mathlib.Omega.{arith}
use text.Mathlib.Text.{◌==◌}
use text.Mathlib.TextEquality.{eq_iff}
use text.Mathlib.TextPositions.{eq_refl}
use laptop_bap_demo.Base.Tests.{if◌then◌else◌}
use laptop_bap_demo.Base.Json.{Json, Fields, end, field, lookup, get, insert, remove}

module _ (k : String) where
  pub lookup-insert :
      (j : String) (v : Json) (d : Fields)
      → lookup (insert j v d) k ≡ (if j == k then some v else lookup d k)
  unfolding lookup insert
  lookup-insert j v end = refl
  lookup-insert j v (field i w fs) =
      ground (arith, eq_iff j k, eq_iff i j, eq_iff i k, lookup-insert j v fs)

  pub get-insert_self : (v : Json) (d : Fields) → get (insert k v d) k ≡ v
  get-insert_self v d = rw (lookup-insert, eq_refl)

  pub lookup-remove :
      (j : String) (d : Fields) → lookup (remove j d) k ≡ (if j == k then none else lookup d k)
  unfolding lookup remove
  lookup-remove j end = ground arith
  lookup-remove j (field i w fs) =
      ground (arith, eq_iff j k, eq_iff i j, eq_iff i k, lookup-remove j fs)
