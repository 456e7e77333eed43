-- ===== src/Enterprise/Audit/Append.antt =====
-- `emit` extends the chain of the audit log.
use laptop_bap_demo.Base.{
  List, String, [], ap, eq_refl, false, refl, sym, ℕ, ◌++◌, ◌+◌, ◌<>◌, ◌∷◌, ◌≡◌,
}
use laptop_bap_demo.Base.Json.{Fields, Json, eq_json-str_self, get, insert, lookup, str}
use laptop_bap_demo.Base.Json.Lookup.{get-insert_self}
use laptop_bap_demo.Base.Run.{ok}
use laptop_bap_demo.Enterprise.Audit.{
  emit, hash_of, last_hash, last_or, row_of, verify_chain, verify_from,
}
use laptop_bap_demo.Enterprise.Audit.Chain.{VerifiedTo, text_of, verified_cons}
use laptop_bap_demo.Enterprise.Audit.Columns.{stored_columns}
use laptop_bap_demo.Enterprise.Audit.Redact.{redact_dict}
use laptop_bap_demo.Enterprise.World.{AuditRow, Machine, World}

module _ (m : Machine) where
  verified_link :
      (previous : String) (checked : ℕ) (head : String) (row : AuditRow) (rows : List AuditRow)
      → get row.columns "previous_event_hash" ≡ str previous
      → hash_of m row.columns ≡ row.event_hash
      → VerifiedTo m row.event_hash (checked + 1) rows head
      → VerifiedTo m previous checked (row ∷ rows) head
  unfolding verify_from
  verified_link previous checked head row rows p e v = rw (p, eq_json-str_self, e, eq_refl) v

  head-last_or :
      (rows : List AuditRow) (previous : String) (checked : ℕ) (head : String)
      → VerifiedTo m previous checked rows head
      → head ≡ last_or previous rows
  unfolding verify_from lookup
  head-last_or [] previous checked head v = sym (ap {A = Json} text_of v)
  head-last_or (row ∷ rows) previous checked head v =
      let (p, e, rest) = verified_cons m previous checked head row rows v in
      head-last_or rows row.event_hash (checked + 1) head rest

  -- a verified log and one row more, which names the log's last hash
  verified_append :
      (rows : List AuditRow) (row : AuditRow) (previous : String) (checked : ℕ) (head : String)
      → VerifiedTo m previous checked rows head
      → get row.columns "previous_event_hash" ≡ str (last_or previous rows)
      → hash_of m row.columns ≡ row.event_hash
      → VerifiedTo m previous checked (rows ++ row ∷ []) row.event_hash
  verified_append [] row previous checked head v p e =
      verified_link previous checked row.event_hash row [] p e
        (unfold verify_from in unfold lookup in refl)
  verified_append (first ∷ rows) row previous checked head v p e =
      let (p', e', rest) = verified_cons m previous checked head first rows v in
      verified_link previous checked row.event_hash first (rows ++ row ∷ []) p' e'
        (verified_append rows row first.event_hash (checked + 1) head rest p e)

  abbrev unlinked : String → String → String → Fields → String → World → Fields
  unlinked source kind message details level w =
      row_of m ("evt-" <> m.token_hex 16 w.draws) (m.timestamp w.now) source kind
        (redact_dict details) message level

  -- the columns that `emit` hashes and inserts
  abbrev pub next_columns : String → String → String → Fields → String → World → Fields
  next_columns source kind message details level w =
      insert "previous_event_hash" (str (last_hash w.events))
        (unlinked source kind message details level w)

  -- Where no other connection is writing, and SQLite keeps every column as it was bound, `emit` takes
  -- a log that `verify_chain` accepts to one that it accepts, whose head is the hash of the new row.
  pub emit-verify_chain :
      (source kind message : String) (details : Fields) (level : String) (w : World) (head : String)
      → w.writing ≡ false
      → stored_columns m (next_columns source kind message details level w)
        ≡ ok (next_columns source kind message details level w)
      → get (verify_chain m w.events) "head_hash" ≡ str head
      → ((emit m source kind message details level w).0 ≡ ok tt)
        × (get (verify_chain m (emit m source kind message details level w).1.events) "head_hash"
            ≡ str (hash_of m (next_columns source kind message details level w)))
  unfolding emit verify_chain
  emit-verify_chain source kind message details level w head idle kept v =
      rw (idle, emit, kept)
        (
          refl,
          verified_append w.events _ "GENESIS" 0 head v
              (get-insert_self "previous_event_hash" _
                (unlinked source kind message details level w))
              refl,
        )
