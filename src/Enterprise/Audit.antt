-- ===== src/Enterprise/Audit.antt =====
-- `AuditStore` of enterprise_demo/common/audit_store.py: `emit`, `_hash` and `verify_chain` here, the other
-- methods in the modules below. The statements that create the tables are not modelled, nor the printed
-- line.
pub mod Redact
pub mod Redaction
pub mod Columns
pub mod Chain
pub mod Append
pub mod Frame
pub mod Backfill
pub mod Search
pub mod Access
pub mod Snapshot
use laptop_bap_demo.Base.{
  Bool, List, String, [], false, if◌then◌else◌, not, true, ℕ, ◌++◌, ◌+◌, ◌<>◌, ◌==◌, ◌∷◌,
}
use laptop_bap_demo.Base.Json.{
  Fields, bool, dict, eq_json, get, insert, nat, obj, remove, str, update,
}
use laptop_bap_demo.Base.Lists.{contains, length}
use laptop_bap_demo.Base.Run.{Run, gets, lift, modify, ok, raised, ◌>>=◌, ◌>>◌}
use laptop_bap_demo.Base.Text.{take_chars}
use laptop_bap_demo.Enterprise.World.{AuditRow, Machine, World, draw}

-- `_hash`: of the columns without the sequence and the hash of the event. The keys are sorted, so the
-- order of the columns does not matter, and a row keeps the order of `emit`.
abbrev pub hash_of : Machine → Fields → String
hash_of m columns = m.sha256 (m.dumps (obj (remove "event_hash" (remove "sequence" columns))))

abbrev pub is_level : String → Bool
is_level level = contains ("info" ∷ "success" ∷ "warning" ∷ "error" ∷ []) level

-- the hash of the last row, or `previous` where there is none
abbrev pub last_or : String → List AuditRow → String
last_or previous [] = previous
last_or previous (row ∷ rows) = last_or row.event_hash rows

-- `SELECT event_hash FROM audit_events ORDER BY sequence DESC LIMIT 1`, or "GENESIS"
abbrev pub last_hash : List AuditRow → String
last_hash rows = last_or "GENESIS" rows

abbrev pub next_sequence : List AuditRow → ℕ
next_sequence rows = length rows + 1

-- the row that `emit` builds before it is linked
abbrev pub row_of : Machine → String → String → String → String → Fields → String → String → Fields
row_of m event_id event_time source kind sanitized message level =
    update
      (dict (
        ("event_id", str event_id)
        ∷ ("timestamp", str event_time)
        ∷ ("received_at_utc", str event_time)
        ∷ ("source", str (take_chars 80 source))
        ∷ ("kind", str (take_chars 80 kind))
        ∷ ("message", str (take_chars 1000 message))
        ∷ ("level", str (if is_level level then level else "info"))
        ∷ ("details_json", str (m.dumps (obj sanitized)))
        ∷ []))
      (Columns.extract_fields sanitized)

module _ (m : Machine) where
  -- `BEGIN IMMEDIATE` waits for the writer, and gives up
  abbrev pub begin_immediate : Run World (Unit {0})
  begin_immediate w =
      if w.writing then (raised "OperationalError: database is locked", w) else (ok tt, w)

  -- from the last hash on: the row is linked, hashed and inserted
  abbrev pub insert_row : Fields → Run World (Unit {0})
  insert_row row = do
    events ← gets (λ w. w.events)
    let linked = insert "previous_event_hash" (str (last_hash events)) row
    stored ← lift (Columns.stored_columns m linked)
    modify λ w. record w {
      events =
          w.events
          ++ (record {
            sequence = next_sequence w.events;
            columns = stored;
            event_hash = hash_of m linked;
          }
              ∷ []);
    }

  -- `emit`, without its return value, which no service reads
  unfoldable pub emit : String → String → String → Fields → String → Run World (Unit {0})
  unfolding update
  emit source kind message details level = do
    now ← gets (λ w. w.now)
    let sanitized = Redact.redact_dict details
    hex ← draw m 16
    let row = row_of m ("evt-" <> hex) (m.timestamp now) source kind sanitized message level
    begin_immediate
    insert_row row

-- the loop of `verify_chain`
unfoldable pub verify_from : Machine → String → ℕ → List AuditRow → Fields
verify_from m previous checked [] =
    dict (("ok", bool true) ∷ ("checked", nat checked) ∷ ("head_hash", str previous) ∷ [])
verify_from m previous checked (row ∷ rows) =
    if not (eq_json (get row.columns "previous_event_hash") (str previous))
    then dict (
        ("ok", bool false)
        ∷ ("checked", nat checked)
        ∷ ("sequence", nat row.sequence)
        ∷ ("reason", str "previous hash mismatch")
        ∷ [])
    else if not (hash_of m row.columns == row.event_hash)
    then dict (
        ("ok", bool false)
        ∷ ("checked", nat checked)
        ∷ ("sequence", nat row.sequence)
        ∷ ("reason", str "event hash mismatch")
        ∷ [])
    else verify_from m row.event_hash (checked + 1) rows

unfoldable pub verify_chain : Machine → List AuditRow → Fields
unfolding verify_from
verify_chain m rows = verify_from m "GENESIS" 0 rows
