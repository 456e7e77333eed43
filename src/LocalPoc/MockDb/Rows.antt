-- ===== src/LocalPoc/MockDb/Rows.antt =====
-- What a query does to the rows: the one it names, and the others.
use laptop_bap_demo.Base.{
  Bool-cases, Option, String, [], ap, false, inl, inr, none, refl, some, true, ◌==◌, ◌∙◌, ◌∷◌, ◌≡◌,
  ◌⊎◌,
}
use laptop_bap_demo.Base.Dict.{Dict, find, find-erase, find-erase_self, find-put, find-put_self}
use laptop_bap_demo.Base.Json.{Fields, Json, bool, dict, get_or, lookup, null, obj, str, update}
use laptop_bap_demo.Base.Json.Repr.{str_of}
use laptop_bap_demo.Base.Run.{ok}
use laptop_bap_demo.LocalPoc.MockDb.{
  error_body, execute, finish, locked_part, or_empty, read_row, write_row,
}
use laptop_bap_demo.LocalPoc.World.{Host, Response, World}

-- The body of a query.
abbrev pub query : String → String → Json → Fields
query operation key value =
    dict (("operation", str operation) ∷ ("key", str key) ∷ ("value", value) ∷ [])

module _ (h : Host) (key : String) (w : World) where
  -- A row that is written can be read back: the read answers 200 with the old entries of the row,
  -- updated by the object that was written.
  execute-write_read :
      (value : Fields)
      → (execute h (query "read" key null) (execute h (query "write" key (obj value)) w).1).0
        ≡ ok (
          200,
          dict (
              ("ok", bool true)
              ∷ ("operation", str "read")
              ∷ ("key", str key)
              ∷ ("record", obj (update (or_empty (find w.rows key)) value))
              ∷ []),
        )
  unfolding execute locked_part lookup str_of
  execute-write_read value = rw find-put_self

  -- A row that is deleted is gone: the read answers 404.
  execute-delete_read :
      (execute h (query "read" key null) (execute h (query "delete" key null) w).1).0
      ≡ ok (404, error_body "record not found")
  unfolding execute locked_part lookup str_of
  execute-delete_read = rw find-erase_self

rows-finish :
    (h : Host) (operation key : String) (payload : Fields) (result : Response ⊎ Fields) (w : World)
    → (finish h operation key payload result w).1.rows ≡ w.rows
rows-finish h operation key payload (inl early) w = refl
rows-finish h operation key payload (inr response) w = refl

module _ (key k : String) (other : (key == k) ≡ false) (rows : Dict Fields) where
  find-read_row : (row : Option Fields) → find (read_row key rows row).0 k ≡ find rows k
  find-read_row none = refl
  find-read_row (some row) = refl

  find-write_row : (value : Json) → find (write_row key value rows).0 k ≡ find rows k
  find-write_row (obj value) = rw (find-put, other)
  find-write_row _ = rw (find-put, other)

  find-locked_part :
      (operation : String) (value : Json)
      → find (locked_part operation key value rows).0 k ≡ find rows k
  unfolding locked_part
  find-locked_part operation value = elim (Bool-cases (operation == "read")) [
    | inl read ↦ rw read (find-read_row (find rows key))
    | inr not_read ↦ elim (Bool-cases (operation == "write")) [
      | inl write ↦ rw (not_read, write) (find-write_row value)
      | inr not_write ↦ elim (Bool-cases (operation == "delete")) [
        | inl delete ↦ rw (not_read, not_write, delete) (rw (find-erase, other))
        | inr unknown ↦ rw (not_read, not_write, unknown) refl
      ]
    ]
  ]

-- No query, whatever it asks and whether it succeeds, changes a row other than the one it names.
execute-find_other :
    (h : Host) (payload : Fields) (w : World) (k : String)
    → (str_of (get_or payload "key" (str "customer-123")) == k) ≡ false
    → find (execute h payload w).1.rows k ≡ find w.rows k
unfolding execute
execute-find_other h payload w k other =
    ap (λ rows. find rows k) (rows-finish h _ _ payload _ _) ∙ find-locked_part _ k other w.rows _ _
