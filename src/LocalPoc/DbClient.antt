-- ===== src/LocalPoc/DbClient.antt =====
-- local_poc/tools/db_client.py: the command-line client of the connector's database gateway, with the
-- connector as a parameter. Its result is the exit code; what it prints is left out.
use Prim.Native.String.{[], ◌∷◌}
use Prim.Native.Char.{Char, code}
use laptop_bap_demo.Base.{
  List, Option, String, eqb, if◌then◌else◌, none, refl, some, ℕ, ◌&&◌, ◌<>◌, ◌==◌, ◌≡◌,
}
use laptop_bap_demo.Base.Json.{Fields, dict, end, get, insert, item, items, obj, str, truthy}
use laptop_bap_demo.Base.Run.{Except, ok, raised}
use laptop_bap_demo.LocalPoc.World.{Response}

pub record Arguments : Type 0 where
  pub operation : String
  pub key : String
  pub assignments : List String
  pub bap_session : String

abbrev pub after_char : Char → Option (String × String) → Option (String × String)
after_char c none = none
after_char c (some (front, back)) = some (c ∷ front, back)

-- `item.split("=", 1)`; `none` where there is no "="
unfoldable pub split_item : String → Option (String × String)
split_item [] = none
split_item (c ∷ s) =
    let rest = split_item s in if eqb (code c) 61 then some ("", s) else after_char c rest

-- the loop of `parse_assignments`
unfoldable pub assign_all : Fields → List String → Except Fields
unfolding split_item insert
assign_all result List.[] = ok result
assign_all result (List.◌∷◌ item items) = elim (split_item item) [
  | none ↦ raised ("ValueError: Expected field=value, received: " <> item)
  | some (key, value) ↦ assign_all (insert key (str value) result) items
]

unfoldable pub parse_assignments : List String → Except Fields
unfolding assign_all
parse_assignments items = assign_all end items

abbrev pub database_operation : String → String
database_operation operation = if operation == "prod-read" then "read" else operation

-- the request to /db/execute
abbrev pub with_value : Fields → Except Fields → Except Fields
with_value payload (raised e) = raised e
with_value payload (ok value) = ok (insert "value" (obj value) payload)

unfoldable pub payload_of : Arguments → Except Fields
unfolding parse_assignments
payload_of args =
    let operation = database_operation args.operation in
    let payload = dict (
      List.◌∷◌ ("session_id", str args.bap_session)
        (List.◌∷◌ ("operation", str operation) (List.◌∷◌ ("key", str args.key) List.[]))) in
    if operation == "write"
    then with_value payload (parse_assignments args.assignments)
    else ok payload

abbrev pub exit_code : Except Response → ℕ
exit_code (raised e) = 2
exit_code (ok (status, result)) = if eqb status 200 && truthy (get result "ok") then 0 else 1

abbrev pub run_with : (Fields → Except Response) → Except Fields → ℕ
run_with post (raised e) = 2
run_with post (ok payload) = exit_code (post payload)

-- `main`
unfoldable pub run_client : (Fields → Except Response) → Arguments → ℕ
unfolding payload_of
run_client post args = run_with post (payload_of args)

parse_assignments_test :
    parse_assignments (List.◌∷◌ "name=Zoe" (List.◌∷◌ "note=a=b" List.[]))
    ≡ ok (dict (List.◌∷◌ ("name", str "Zoe") (List.◌∷◌ ("note", str "a=b") List.[])))
unfolding parse_assignments
parse_assignments_test = refl
