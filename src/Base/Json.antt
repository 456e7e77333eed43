-- ===== src/Base/Json.antt =====
-- JSON values, which are the payloads and the results of every service: `null` is Python's `None`.
-- Numbers are integers: no service reads a fraction.
pub mod Repr
pub mod Number
pub mod Lookup
use Prim.Native.Nat.{ℕ, zero, suc}
use Prim.Native.String.{String}
use mathlib.Core.Path.{◌≡◌, refl}
use mathlib.Core.Bool.{Bool, true, false, not, ◌&&◌}
use mathlib.Core.Option.{Option, none, some}
use mathlib.Core.List.{List, [], ◌∷◌}
use native.Mathlib.Omega.{arith}
use text.Mathlib.Text.{◌==◌}
use text.Mathlib.TextEquality.{eq_iff}
use text.Mathlib.TextPositions.{eq_refl}
use mathlib.Core.Path.{ap}
use mathlib.Core.Logic.{◌≢◌}
use laptop_bap_demo.Base.Tests.{if◌then◌else◌, eqb}
use laptop_bap_demo.Base.Int.{ℤ, pos, eqb_ℤ}
use laptop_bap_demo.Base.Run.{Except, ok, raised}

mutual
  pub data Json : Type 0 where
    null : Json
    bool : Bool → Json
    int : ℤ → Json
    str : String → Json
    arr : Items → Json
    obj : Fields → Json

  pub data Items : Type 0 where
    nil : Items
    cons : Json → Items → Items

  pub data Fields : Type 0 where
    end : Fields
    field : String → Json → Fields → Fields

abbrev pub nat : ℕ → Json
nat n = int (pos n)

-- A dict display `{"k": v, …}` whose keys differ.
abbrev pub dict : List (String × Json) → Fields
dict [] = end
dict ((k, v) ∷ rest) = field k v (dict rest)

abbrev pub items : List Json → Items
items [] = nil
items (v ∷ rest) = cons v (items rest)

-- `bool(v)`, the test of `if v`, `not v`, `v and …`, `v or …`
unfoldable pub truthy : Json → Bool
truthy null = false
truthy (bool b) = b
truthy (int (pos zero)) = false
truthy (int z) = true
truthy (str s) = not (s == "")
truthy (arr nil) = false
truthy (arr vs) = true
truthy (obj end) = false
truthy (obj fs) = true

abbrev pub listed : Items → List Json
listed nil = []
listed (cons v vs) = v ∷ listed vs

-- `a or b`
abbrev pub or_else : Json → Json → Json
or_else a b = if truthy a then a else b

unfoldable pub bool_int : Bool → ℤ
bool_int true = pos 1
bool_int false = pos 0

-- `d.get(k)`, `none` where the key is missing
unfoldable pub lookup : Fields → String → Option Json
lookup end k = none
lookup (field j v fs) k = if j == k then some v else lookup fs k

unfoldable pub count_fields : Fields → ℕ
count_fields end = 0
count_fields (field k v fs) = suc (count_fields fs)

-- `a == b`: a Boolean equals the number that it stands for, and a dict has no order.
unfoldable mutual
  unfolding bool_int lookup count_fields

  pub eq_json : Json → Json → Bool
  eq_json null null = true
  eq_json (bool a) (bool b) = if a then b else not b
  eq_json (bool a) (int z) = eqb_ℤ (bool_int a) z
  eq_json (int z) (bool b) = eqb_ℤ z (bool_int b)
  eq_json (int y) (int z) = eqb_ℤ y z
  eq_json (str s) (str t) = s == t
  eq_json (arr us) (arr vs) = eq_items us vs
  eq_json (obj fs) (obj gs) = eqb (count_fields fs) (count_fields gs) && eq_fields fs gs
  eq_json _ _ = false

  pub eq_items : Items → Items → Bool
  eq_items nil nil = true
  eq_items (cons u us) (cons v vs) = eq_json u v && eq_items us vs
  eq_items _ _ = false

  pub eq_fields : Fields → Fields → Bool
  eq_fields end gs = true
  eq_fields (field k v fs) gs =
      elim (lookup gs k) [ none ↦ false | some w ↦ eq_json v w ] && eq_fields fs gs

pub eq_json-str_self : (s : String) → eq_json (str s) (str s) ≡ true
unfolding eq_json
eq_json-str_self s = eq_refl s

pub eq_json-str : (v : Json) (s : String) → eq_json v (str s) ≡ true → v ≡ str s
unfolding eq_json
eq_json-str (str t) s e = ap str ((eq_iff t s).0 e)
eq_json-str null s e = cc
eq_json-str _ s e = cc

pub truthy-str : (s : String) → truthy (str s) ≡ true → s ≢ ""
unfolding truthy
truthy-str s e h = ground (arith, eq_iff s "")

abbrev pub value_or : Json → Option Json → Json
value_or v none = v
value_or v (some w) = w

-- `d.get(k)`
abbrev pub get : Fields → String → Json
get d k = value_or null (lookup d k)

-- `d.get(k, v)`
abbrev pub get_or : Fields → String → Json → Json
get_or d k v = value_or v (lookup d k)

abbrev or_missing : Option Json → Except Json
or_missing none = raised "KeyError"
or_missing (some v) = ok v

-- `d[k]`
abbrev pub item : Fields → String → Except Json
item d k = or_missing (lookup d k)

-- `d if isinstance(d, dict) else {}`
abbrev pub as_dict : Json → Fields
as_dict (obj fs) = fs
as_dict _ = end

-- `d[k] = v`, which keeps the place of a key that is there
unfoldable pub insert : String → Json → Fields → Fields
insert k v end = field k v end
insert k v (field j w fs) = if j == k then field k v fs else field j w (insert k v fs)

-- `{**d, **e}` and `d | e`
unfoldable pub update : Fields → Fields → Fields
unfolding insert
update d end = d
update d (field k v fs) = update (insert k v d) fs

-- `d.pop(k, None)`
unfoldable pub remove : String → Fields → Fields
remove k end = end
remove k (field j w fs) = let rest = remove k fs in if j == k then rest else field j w rest
