-- ===== src/Enterprise/Audit/Backfill.antt =====
-- The migration of `AuditStore`, enterprise_demo/common/audit_store.py: what `_initialize_schema` and
-- `_backfill_chain` do to the rows of an older log.
use laptop_bap_demo.Base.{
  Bool, List, String, [], ap, arith, eq_iff, eq_refl, false, if◌then◌else◌, map, refl, true, ℕ, ◌+◌,
  ◌<>◌, ◌||◌, ◌∙◌, ◌∷◌, ◌≡◌,
}
use laptop_bap_demo.Base.Json.{
  Fields, Json, bool, eq_json-str_self, get, insert, lookup, nat, null, or_else, str, truthy,
}
use laptop_bap_demo.Base.Json.Lookup.{get-insert_self, lookup-insert}
use laptop_bap_demo.Base.Lists.{contains, length}
use laptop_bap_demo.Enterprise.Audit.{hash_of, verify_chain, verify_from}
use laptop_bap_demo.Enterprise.World.{AuditRow, Machine}

-- A row as the migration may find it: its hash may be NULL, as any of its columns.
pub record LegacyRow : Type 0 where
  pub sequence : ℕ
  pub columns : Fields
  pub event_hash : Json

abbrev pub is_null : Json → Bool
is_null null = true
is_null v = false

-- `SELECT 1 FROM audit_events WHERE event_id IS NULL OR event_hash IS NULL LIMIT 1`
unfoldable pub needs_backfill : List LegacyRow → Bool
needs_backfill [] = false
needs_backfill (row ∷ rows) =
    is_null (get row.columns "event_id") || is_null row.event_hash || needs_backfill rows

-- `normalized`, without the hash
abbrev pub normalized : Json → String → Fields → Fields
normalized event_id previous columns = insert "previous_event_hash" (str previous) (
    insert "received_at_utc" (or_else (get columns "received_at_utc") (get columns "timestamp"))
      (insert "event_id" event_id columns))

-- a text of a column, which is not NULL in a row that needs no migration
abbrev pub text_of_hash : Json → String
text_of_hash (str s) = s
text_of_hash v = ""

abbrev pub as_row : LegacyRow → AuditRow
as_row row = record {
  sequence = row.sequence;
  columns = row.columns;
  event_hash = text_of_hash row.event_hash;
}

-- the columns that a migrated row keeps from the row as it was found
abbrev pub Keeps : LegacyRow → AuditRow → Type 0
Keeps old row =
    (row.sequence ≡ old.sequence)
    × ((k : String)
        → contains ("event_id" ∷ "received_at_utc" ∷ "previous_event_hash" ∷ []) k ≡ false
        → lookup row.columns k ≡ lookup old.columns k)

abbrev pub KeepAll : List LegacyRow → List AuditRow → Type 0
KeepAll [] [] = Unit
KeepAll (old ∷ olds) (row ∷ rows) = Keeps old row × KeepAll olds rows
KeepAll olds rows = ⊥

normalized-lookup :
    (event_id : Json) (previous : String) (columns : Fields) (k : String)
    → contains ("event_id" ∷ "received_at_utc" ∷ "previous_event_hash" ∷ []) k ≡ false
    → lookup (normalized event_id previous columns) k ≡ lookup columns k
normalized-lookup event_id previous columns k other =
    rw (lookup-insert, lookup-insert, lookup-insert)
      (ground (
        arith,
        eq_iff k "event_id",
        eq_iff k "received_at_utc",
        eq_iff k "previous_event_hash",
        eq_iff "event_id" k,
        eq_iff "received_at_utc" k,
        eq_iff "previous_event_hash" k,
      ))

module _ (m : Machine) where
  -- `value.get("event_id") or "evt-" + secrets.token_hex(16)`
  abbrev pub event_id_of : ℕ → Fields → Json
  event_id_of draws columns =
      or_else (get columns "event_id") (str ("evt-" <> m.token_hex 16 draws))

  abbrev pub draws_after : ℕ → Fields → ℕ
  draws_after draws columns = if truthy (get columns "event_id") then draws else draws + 1

  -- the row after its UPDATE
  abbrev pub linked_row : ℕ → String → LegacyRow → AuditRow
  linked_row draws previous row =
      let columns = normalized (event_id_of draws row.columns) previous row.columns in
      record { sequence = row.sequence; columns = columns; event_hash = hash_of m columns }

  -- the loop, on the number of draws made and the hash of the row before
  unfoldable pub backfill_from : ℕ → String → List LegacyRow → List AuditRow
  unfolding insert
  backfill_from draws previous [] = []
  backfill_from draws previous (row ∷ rows) =
      let linked = linked_row draws previous row in
      linked ∷ backfill_from (draws_after draws row.columns) linked.event_hash rows

  -- `_backfill_chain`
  unfoldable pub backfill_chain : ℕ → List LegacyRow → List AuditRow
  unfolding backfill_from
  backfill_chain draws rows = backfill_from draws "GENESIS" rows

  -- the rows that `_initialize_schema` leaves
  unfoldable pub initialize : ℕ → List LegacyRow → List AuditRow
  unfolding backfill_chain needs_backfill
  initialize draws rows = if needs_backfill rows then backfill_chain draws rows else map as_row rows

  backfill_from-verified :
      (rows : List LegacyRow) (draws checked : ℕ) (previous : String)
      → (get (verify_from m previous checked (backfill_from draws previous rows)) "ok" ≡ bool true)
        × (get (verify_from m previous checked (backfill_from draws previous rows)) "checked"
            ≡ nat (checked + length rows))
  unfolding backfill_from verify_from lookup
  backfill_from-verified [] draws checked previous =
      (refl, ap (λ n. nat n) {y = checked + 0} (omega arith))
  backfill_from-verified (row ∷ rows) draws checked previous =
      rw (get-insert_self, eq_json-str_self, eq_refl)
        (let (fine, counted) = backfill_from-verified rows _ (checked + 1) _ in
          (fine, counted ∙ ap (λ n. nat n) (omega arith)))

  backfill_from-KeepAll :
      (rows : List LegacyRow) (draws : ℕ) (previous : String)
      → KeepAll rows (backfill_from draws previous rows)
  unfolding backfill_from
  backfill_from-KeepAll [] draws previous = tt
  backfill_from-KeepAll (row ∷ rows) draws previous =
      ((refl, λ k other. normalized-lookup _ _ row.columns k other), backfill_from-KeepAll rows _ _)

  -- `verify_chain` accepts a log that was migrated, all of its rows, whatever it was before; and every
  -- row keeps its sequence and its columns other than the event's ID, the time of its receipt and the
  -- hash of the row before.
  pub backfill_chain-verify_chain :
      (draws : ℕ) (rows : List LegacyRow)
      → ((get (verify_chain m (backfill_chain draws rows)) "ok" ≡ bool true)
          × (get (verify_chain m (backfill_chain draws rows)) "checked" ≡ nat (length rows)))
        × KeepAll rows (backfill_chain draws rows)
  unfolding backfill_chain verify_chain
  backfill_chain-verify_chain draws rows =
      let (fine, counted) = backfill_from-verified rows draws 0 "GENESIS" in
      ((fine, counted ∙ ap (λ n. nat n) (omega arith)), backfill_from-KeepAll rows draws "GENESIS")
