-- ===== src/Enterprise/Audit/Chain.antt =====
-- The hash chain of the audit log: what `emit` appends is verified, and a log that is verified up to
-- a known head holds the rows that were written.
use laptop_bap_demo.Base.{
  Bool-cases, List, String, [], ap, eq_iff, inl, inr, map, refl, subst, sym, ℕ, ◌+◌, ◌==◌, ◌∙◌, ◌∷◌,
  ◌≡◌, ◌≢◌,
}
use laptop_bap_demo.Base.Json.{
  Fields, Json, eq_json, eq_json-str, get, lookup, null, obj, remove, str,
}
use laptop_bap_demo.Base.Json.Lookup.{lookup-remove}
use laptop_bap_demo.Enterprise.Audit.{hash_of, verify_chain, verify_from}
use laptop_bap_demo.Enterprise.World.{AuditRow, Machine}

-- `verify_chain`, or its loop from a row on, accepts the rows and reports this head hash.
abbrev pub VerifiedTo : Machine → String → ℕ → List AuditRow → String → Type 0
VerifiedTo m previous checked rows head =
    get (verify_from m previous checked rows) "head_hash" ≡ str head

abbrev pub text_of : Json → String
text_of (str s) = s
text_of v = ""

no_head {ℓ} : {X : Type ℓ} {s : String} → null ≡ str s → X
no_head e = absurd (cc e)

module _ (m : Machine) where
  -- the first row of a verified log, and the rest
  pub verified_cons :
      (previous : String) (checked : ℕ) (head : String) (row : AuditRow) (rows : List AuditRow)
      → VerifiedTo m previous checked (row ∷ rows) head
      → (get row.columns "previous_event_hash" ≡ str previous)
        × (hash_of m row.columns ≡ row.event_hash)
        × VerifiedTo m row.event_hash (checked + 1) rows head
  unfolding verify_from lookup
  verified_cons previous checked head row rows v =
      elim (Bool-cases (eq_json (get row.columns "previous_event_hash") (str previous))) [
        | inr other ↦ no_head (rw other at v)
        | inl linked ↦ elim (Bool-cases (hash_of m row.columns == row.event_hash)) [
          | inr other ↦ no_head (rw (linked, other) at v)
          | inl hashed ↦ (eq_json-str _ _ linked, (eq_iff _ _).0 hashed, rw (linked, hashed) at v)
        ]
      ]

  -- The same, newest row first: each row has the hash of its columns, which name the hash of the row
  -- before it.
  abbrev Linked : List AuditRow → String → Type 0
  Linked [] head = head ≡ "GENESIS"
  Linked (row ∷ older) head =
      (head ≡ row.event_hash)
      × (hash_of m row.columns ≡ row.event_hash)
      × ((previous : String) × (get row.columns "previous_event_hash" ≡ str previous)
          × Linked older previous)

  abbrev pub onto : List AuditRow → List AuditRow → List AuditRow
  onto [] done = done
  onto (row ∷ rows) done = onto rows (row ∷ done)

  Linked-onto :
      (rows done : List AuditRow) (previous : String) (checked : ℕ) (head : String)
      → Linked done previous
      → VerifiedTo m previous checked rows head
      → Linked (onto rows done) head
  unfolding verify_from lookup
  Linked-onto [] done previous checked head l v = subst (Linked done) (ap {A = Json} text_of v) l
  Linked-onto (row ∷ rows) done previous checked head l v =
      let (prev, hash, rest) = verified_cons previous checked head row rows v in
      Linked-onto rows (row ∷ done) row.event_hash (checked + 1) head
        (refl, hash, (previous, prev, l)) rest

  -- what the hash of a row covers: its columns without the number and the hash itself
  abbrev pub hashed : AuditRow → Fields
  hashed row = remove "event_hash" (remove "sequence" row.columns)

  abbrev digest : AuditRow → String
  digest row = m.sha256 (m.dumps (obj (hashed row)))

  -- what the hash of a row covers, and the hash
  abbrev pub fingerprint : AuditRow → Fields × String
  fingerprint row = (hashed row, row.event_hash)

  -- SHA-256 has no collision between what it covers of the rows at the same distance from the newest
  -- row, and none of these digests is the text "GENESIS".
  abbrev pub NoCollision : List AuditRow → List AuditRow → Type 0
  NoCollision [] [] = Unit
  NoCollision (x ∷ xs) [] = digest x ≢ "GENESIS"
  NoCollision [] (y ∷ ys) = digest y ≢ "GENESIS"
  NoCollision (x ∷ xs) (y ∷ ys) = (digest x ≡ digest y → hashed x ≡ hashed y) × NoCollision xs ys

  covered :
      (row : AuditRow)
      → get (hashed row) "previous_event_hash" ≡ get row.columns "previous_event_hash"
  covered row = rw (lookup-remove, lookup-remove) refl

  same_columns :
      (xs ys : List AuditRow) (head : String)
      → Linked xs head
      → Linked ys head
      → NoCollision xs ys
      → map fingerprint xs ≡ map fingerprint ys
  same_columns [] [] head p q c = refl
  same_columns (x ∷ xs) [] head (e, hash, r) q c = absurd (c (hash ∙ sym e ∙ q))
  same_columns [] (y ∷ ys) head p (e, hash, r) c = absurd (c (hash ∙ sym e ∙ p))
  same_columns (x ∷ xs) (y ∷ ys) head (e, hash, (prev, named, l)) (e', hash', (prev', named', l'))
        (c, cs) =
      let same : hashed x ≡ hashed y = c (hash ∙ sym e ∙ e' ∙ sym hash') in
      let back : prev ≡ prev' = ap text_of (
        sym (covered x ∙ named)
        ∙ ap (λ d. get d "previous_event_hash") same
        ∙ covered y
        ∙ named') in
      let older : Linked ys prev = subst (Linked ys) (sym back) l' in
      ap {A = (Fields × String) × List (Fields × String)} (λ p. p.0 ∷ p.1)
        (λ i. ((same i, (sym e ∙ e') i), same_columns xs ys prev l older cs i))

  -- Two logs that are verified up to the same head hash have equally many rows, and these have, newest
  -- first, the same hashes and the same columns, but for the number of the row, which the hash does not
  -- cover; SHA-256 must have no collision among what it covers of them. So a log whose head is known
  -- cannot have been cut, extended or changed in any other column.
  pub verify_chain-tamper :
      (recorded present : List AuditRow) (head : String)
      → get (verify_chain m recorded) "head_hash" ≡ str head
      → get (verify_chain m present) "head_hash" ≡ str head
      → NoCollision (onto recorded []) (onto present [])
      → map fingerprint (onto recorded []) ≡ map fingerprint (onto present [])
  unfolding verify_chain
  verify_chain-tamper recorded present head p q c =
      same_columns (onto recorded []) (onto present []) head
        (Linked-onto recorded [] "GENESIS" 0 head refl p)
        (Linked-onto present [] "GENESIS" 0 head refl q) c
