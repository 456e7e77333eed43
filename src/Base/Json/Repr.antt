-- ===== src/Base/Json/Repr.antt =====
-- `str(v)` of a JSON value.
use Prim.Native.Nat.{suc}
use Prim.Native.String.{String, ◌++◌}
use mathlib.Core.Path.{◌≡◌, refl}
use mathlib.Core.Bool.{true, false, not, ◌&&◌}
use mathlib.Core.List.{[], ◌∷◌}
use laptop_bap_demo.Base.Tests.{if◌then◌else◌}
use laptop_bap_demo.Base.Int.{ℤ, pos, negsuc}
use laptop_bap_demo.Base.Text.{decimal, replace_char, is_in}
use laptop_bap_demo.Base.Json.{
  Json, Items, Fields, null, bool, int, str, arr, obj, nil, cons, end, field, dict, items,
}

unfoldable pub str_ℤ : ℤ → String
unfolding decimal
str_ℤ (pos n) = decimal n
str_ℤ (negsuc n) = "-" ++ decimal (suc n)

-- `repr(s)`. Control characters other than the three that are escaped by name, and characters
-- that Unicode does not count as printable, are left as they are.
repr_str : String → String
unfolding replace_char
repr_str s =
    let t =
      replace_char "\t" "\\t"
        (replace_char "\r" "\\r" (replace_char "\n" "\\n" (replace_char "\\" "\\\\" s))) in
    if is_in "'" s && not (is_in "\"" s)
    then "\"" ++ (t ++ "\"")
    else "'" ++ (replace_char "'" "\\'" t ++ "'")

mutual
  repr : Json → String
  repr null = "None"
  repr (bool true) = "True"
  repr (bool false) = "False"
  repr (int z) = str_ℤ z
  repr (str s) = repr_str s
  repr (arr vs) = "[" ++ (repr_items vs ++ "]")
  repr (obj fs) = "{" ++ (repr_fields fs ++ "}")

  repr_items : Items → String
  repr_items nil = ""
  repr_items (cons v nil) = repr v
  repr_items (cons v vs) = repr v ++ (", " ++ repr_items vs)

  repr_fields : Fields → String
  repr_fields end = ""
  repr_fields (field k v end) = repr_str k ++ (": " ++ repr v)
  repr_fields (field k v fs) = repr_str k ++ (": " ++ (repr v ++ (", " ++ repr_fields fs)))

-- `str(v)`
unfoldable pub str_of : Json → String
unfolding repr repr_str str_ℤ
str_of (str s) = s
str_of v = repr v

str_of_test :
    str_of (obj (dict (("a", arr (items (null ∷ bool true ∷ []))) ∷ ("b'", int (negsuc 4)) ∷ [])))
    ≡ "{'a': [None, True], \"b'\": -5}"
unfolding str_of
str_of_test = refl
