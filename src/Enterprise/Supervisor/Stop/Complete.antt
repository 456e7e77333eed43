-- ===== src/Enterprise/Supervisor/Stop/Complete.antt =====
-- What becomes of each service of the list in a run of the script that ends without an exception.
use laptop_bap_demo.Base.{
  Bool-cases, List, String, [], false, inl, inr, refl, subst, sym, ◌∙◌, ◌==◌, ◌∷◌, ◌≡◌, ◌⊎◌,
}
use laptop_bap_demo.Base.Int.{ℤ}
use laptop_bap_demo.Base.Json.{Json}
use laptop_bap_demo.Base.Lists.{All}
use laptop_bap_demo.Base.Run.{Except, Except-cases, bind_cases, lift, ok, raised}
use laptop_bap_demo.Enterprise.Supervisor.Stop.{
  Shell, Tasks, expected_of, field_of, kill_entry, listed_in, passing, pid_of, services_of,
  stop_entries, stop_entry, stop_matching,
}
use laptop_bap_demo.Enterprise.Supervisor.Stop.Kept.{Among, stop_entries-Kept}
use laptop_bap_demo.Enterprise.World.{has_class}

abbrev pub Signalled : ℤ → List ℤ → Type 0
Signalled pid [] = ⊥
Signalled pid (p ∷ pids) = (pid ≡ p) ⊎ Signalled pid pids

module _ (t : Tasks) where
  -- why a service gets no signal: its process is gone, runs another executable, or takes none
  abbrev pub Passed : ℤ → String → Type 0
  Passed pid expected =
      ((e : String) × (t.executable_path pid ≡ raised e))
      ⊎ (((actual : String) × (t.executable_path pid ≡ ok actual)
            × ((t.resolve actual == t.resolve expected) ≡ false))
          ⊎ ((e : String) × (t.terminate_pid pid ≡ raised e)))

  abbrev pub Done : List ℤ → Json → Type 0
  Done killed entry =
      (pid : ℤ) × (expected : String) × (pid_of entry ≡ ok pid)
      × (expected_of entry ≡ ok expected)
      × (Signalled pid killed ⊎ Passed pid expected)

  abbrev pub Ended : {A : Type 0} → (List ℤ → Type 0) → Except A × Shell → Type 0
  Ended P r = ((e : String) × (r.0 ≡ raised e)) ⊎ P r.1.killed

  passing_keeps :
      (names : List String) (r : Except (Unit {0})) (s : Shell) → (passing names r s).1 ≡ s
  passing_keeps names (ok u) s = refl
  passing_keeps names (raised e) s = elim (Bool-cases (has_class names e)) [
    | inl caught ↦ rw caught refl
    | inr other ↦ rw other refl
  ]

  pub passing-Signalled :
      (pid : ℤ) (names : List String) (r : Except (Unit {0})) (s : Shell)
      → Signalled pid s.killed
      → Signalled pid (passing names r s).1.killed
  passing-Signalled pid names r s i =
      subst (λ v. Signalled pid v.killed) (sym (passing_keeps names r s)) i

  -- once SIGTERM is sent, the PID is in the list, whatever printing its name raises
  kill_entry-Signalled :
      (pid : ℤ) (entry : Json) (s : Shell)
      → t.terminate_pid pid ≡ ok tt
      → Signalled pid (kill_entry t pid entry s).1.killed
  kill_entry-Signalled pid entry s gone = elim (Except-cases (field_of "name" entry)) [
    | inl (name, known) ↦ rw (gone, known) (inl refl)
    | inr (e, unknown) ↦ rw (gone, unknown) (inl refl)
  ]

  matching_Done :
      (pid : ℤ) (expected : String) (entry : Json) (r : Except String) (s : Shell)
      → pid_of entry ≡ ok pid
      → expected_of entry ≡ ok expected
      → t.executable_path pid ≡ r
      → Ended (λ killed. Done killed entry) (stop_matching t pid expected entry r s)
  matching_Done pid expected entry (raised e) s p q found =
      elim (Bool-cases (has_class ("CalledProcessError" ∷ []) e)) [
        | inl caught ↦ rw caught (inr (pid, expected, p, q, inr (inl (e, found))))
        | inr other ↦ rw other (inl (e, refl))
      ]
  matching_Done pid expected entry (ok actual) s p q found =
      elim (Bool-cases (t.resolve actual == t.resolve expected)) [
        | inr other ↦ rw other (inr (pid, expected, p, q, inr (inr (inl (actual, found, other)))))
        | inl same ↦ rw same (
            inr (
              pid,
              expected,
              p,
              q,
              elim (Except-cases (t.terminate_pid pid)) [
                | inr (e, refused) ↦ inr (inr (inr (e, refused)))
                | inl (u, gone) ↦ inl (
                    passing-Signalled pid ("ProcessLookupError" ∷ []) (kill_entry t pid entry s).0
                      (kill_entry t pid entry s).1 (kill_entry-Signalled pid entry s gone))
              ],
            ))
      ]

  entry_Done : (entry : Json) (s : Shell) → Ended (λ ks. Done ks entry) (stop_entry t entry s)
  unfolding stop_entry
  entry_Done entry s =
      bind_cases (Ended (λ ks. Done ks entry)) (lift (pid_of entry)) _ s (λ e _. inl (e, refl))
        λ pid p.
          bind_cases (Ended (λ ks. Done ks entry)) (lift (expected_of entry)) _ s
            (λ e _. inl (e, refl))
            λ expected q. matching_Done pid expected entry (t.executable_path pid) s p q refl

  Done-grow :
      (old new : List ℤ) (entry : Json)
      → ((pid : ℤ) → Signalled pid old → Signalled pid new)
      → Done old entry
      → Done new entry
  Done-grow old new entry grow (pid, expected, p, q, inl i) =
      (pid, expected, p, q, inl (grow pid i))
  Done-grow old new entry grow (pid, expected, p, q, inr why) = (pid, expected, p, q, inr why)

  pub not_both {ℓ} :
      {X : Type ℓ} {A : Type 0} (r : Except A) (a : A) (e : String) → r ≡ ok a → r ≡ raised e → X
  not_both r a e p q = let clash : ok a ≡ raised e = sym p ∙ q in absurd (cc clash)

  module _ (state : Json) (entries : List Json)
      (listing_ok : listed_in (services_of state) ≡ ok entries) where
    -- the signals that were sent stay in the list
    pub still :
        (pid : ℤ) (es : List Json) (s : Shell)
        → All (λ e. Among e entries) es
        → Signalled pid s.killed
        → Signalled pid (stop_entries t es s).1.killed
    still pid es s among i =
        (stop_entries-Kept t state (Signalled pid) (λ p pids _ j. inr j) entries listing_ok es
            among).after
          s i

    pub entries_Done :
        (es : List Json) (s : Shell)
        → All (λ e. Among e entries) es
        → Ended (λ ks. All (Done ks) es) (stop_entries t es s)
    unfolding stop_entries
    entries_Done [] s among = inr tt
    entries_Done (entry ∷ es) s (first, rest) =
        bind_cases (Ended (λ ks. All (Done ks) (entry ∷ es))) (stop_entry t entry) _ s
          (λ e _. inl (e, refl))
          λ u returned. elim (entry_Done entry s) [
            | inl (e, raising) ↦ not_both (stop_entry t entry s).0 u e returned raising
            | inr done ↦ elim (entries_Done es (stop_entry t entry s).1 rest) [
              | inl (e, raising) ↦ inl (e, raising)
              | inr later ↦ inr (
                Done-grow _ _ entry (λ pid i. still pid es (stop_entry t entry s).1 rest i) done,
                later,
              )
            ]
          ]
