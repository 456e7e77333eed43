-- ===== src/Base/Json/Number.antt =====
-- `int(v)` of a JSON value.
use Prim.Native.Nat.{ℕ, zero, suc}
use Prim.Native.String.{String}
use mathlib.Core.Path.{◌≡◌, refl}
use mathlib.Core.Bool.{Bool, true, false}
use mathlib.Core.Option.{Option, none, some}
use mathlib.Core.Logic.{◌⊎◌, inl, inr}
use laptop_bap_demo.Base.Int.{ℤ, pos, negsuc}
use laptop_bap_demo.Base.Run.{Except, ok, raised}
use laptop_bap_demo.Base.Text.{parse_int}
use laptop_bap_demo.Base.Json.{Json, bool, int, str, bool_int}

signed : Bool × ℕ → ℤ
signed (false, n) = pos n
signed (true, zero) = pos zero
signed (true, suc n) = negsuc n

abbrev signed_or_error : Option (Bool × ℕ) → Except ℤ
signed_or_error none = raised "ValueError"
signed_or_error (some n) = ok (signed n)

-- `int(v)`
unfoldable pub int_of : Json → Except ℤ
unfolding signed bool_int parse_int
int_of (int z) = ok z
int_of (bool b) = ok (bool_int b)
int_of (str s) = signed_or_error (parse_int s)
int_of _ = raised "TypeError"

signed_or_error-cases :
    (o : Option (Bool × ℕ))
    → ((z : ℤ) × (signed_or_error o ≡ ok z)) ⊎ (signed_or_error o ≡ raised "ValueError")
signed_or_error-cases none = inr refl
signed_or_error-cases (some n) = inl (signed n, refl)

pub int_of-str :
    (s : String) → ((z : ℤ) × (int_of (str s) ≡ ok z)) ⊎ (int_of (str s) ≡ raised "ValueError")
unfolding int_of
int_of-str s = signed_or_error-cases (parse_int s)
