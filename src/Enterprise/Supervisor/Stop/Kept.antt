-- ===== src/Enterprise/Supervisor/Stop/Kept.antt =====
-- Which processes a run of the script sends SIGTERM to, and what else keeps about their list.
use laptop_bap_demo.Base.{Bool-cases, List, String, [], inl, inr, refl, true, ◌==◌, ◌∷◌, ◌≡◌, ◌⊎◌}
use laptop_bap_demo.Base.Int.{ℤ}
use laptop_bap_demo.Base.Json.{Json}
use laptop_bap_demo.Base.Json.Number.{int_of}
use laptop_bap_demo.Base.Lists.{All, All-imp}
use laptop_bap_demo.Base.Run.{
  Except, Preserves, Preserves-bind, Preserves-if, Preserves-lift, Preserves-lift_bind,
  Preserves-observe, Preserves-pure, Preserves-raise, ok, raised,
}
use laptop_bap_demo.Enterprise.Supervisor.Stop.{
  Shell, Tasks, expected_of, field_of, kill_entry, listed_in, passing, pid_of, sent, services_of,
  stop_all, stop_entries, stop_entry, stop_matching, stop_supervisor, supervisor_of,
}

abbrev pub Among : Json → List Json → Type 0
Among v [] = ⊥
Among v (w ∷ ws) = (v ≡ w) ⊎ Among v ws

pub All-Among : (vs : List Json) → All (λ v. Among v vs) vs
All-Among [] = tt
All-Among (v ∷ vs) = (inl refl, All-imp (λ w among. inr among) vs (All-Among vs))

module _ (t : Tasks) where
  -- A service of the list has this PID, and the process with the PID runs the executable of the service.
  pub record Matches (entries : List Json) (pid : ℤ) : Type 0 where
    pub entry : Json
    pub listed_entry : Among entry entries
    pub its_pid : pid_of entry ≡ ok pid
    pub expected : String
    pub its_command : expected_of entry ≡ ok expected
    pub actual : String
    pub found : t.executable_path pid ≡ ok actual
    pub same_file : (t.resolve actual == t.resolve expected) ≡ true

  -- the supervisor of the file, or a service of its list
  abbrev pub Allowed : Json → ℤ → Type 0
  Allowed state pid =
      (int_of (supervisor_of state) ≡ ok pid)
      ⊎ ((entries : List Json) × (listed_in (services_of state) ≡ ok entries) × Matches entries pid)

  -- A property of the list that an allowed PID more does not end.
  module _ (state : Json) (P : List ℤ → Type 0)
      (grow : (pid : ℤ) (pids : List ℤ) → Allowed state pid → P pids → P (pid ∷ pids)) where
    abbrev pub Kept : Shell → Type 0
    Kept s = P s.killed

    sent-Kept : (pid : ℤ) (r : Except (Unit {0})) → Allowed state pid → Preserves Kept (sent pid r)
    sent-Kept pid (raised e) allowed = record { after = λ s kept. kept }
    sent-Kept pid (ok u) allowed = record { after = λ s kept. grow pid s.killed allowed kept }

    passing-Kept : (names : List String) (r : Except (Unit {0})) → Preserves Kept (passing names r)
    passing-Kept names (ok u) = Preserves-pure tt
    passing-Kept names (raised e) = Preserves-if _ _ _ (Preserves-pure tt) (Preserves-raise e)

    kill_entry-Kept :
        (pid : ℤ) (entry : Json) → Allowed state pid → Preserves Kept (kill_entry t pid entry)
    kill_entry-Kept pid entry allowed =
        Preserves-bind _ _ (sent-Kept pid (t.terminate_pid pid) allowed) (λ _.
          Preserves-bind _ _ (Preserves-lift (field_of "name" entry)) (λ _. Preserves-pure tt))

    module _ (entries : List Json) (listing_ok : listed_in (services_of state) ≡ ok entries) where
      stop_matching-Kept :
          (pid : ℤ) (expected : String) (entry : Json) (r : Except String)
          → Among entry entries
          → pid_of entry ≡ ok pid
          → expected_of entry ≡ ok expected
          → t.executable_path pid ≡ r
          → Preserves Kept (stop_matching t pid expected entry r)
      stop_matching-Kept pid expected entry (raised e) among p q found =
          Preserves-if _ _ _ (Preserves-pure tt) (Preserves-raise e)
      stop_matching-Kept pid expected entry (ok actual) among p q found =
          elim (Bool-cases (t.resolve actual == t.resolve expected)) [
            | inr other ↦ rw other (Preserves-pure tt)
            | inl same ↦
                let allowed : Allowed state pid = inr (
                  entries,
                  listing_ok,
                  record {
                    entry = entry;
                    listed_entry = among;
                    its_pid = p;
                    expected = expected;
                    its_command = q;
                    actual = actual;
                    found = found;
                    same_file = same;
                  },
                ) in
                rw same (
                  Preserves-observe _ _ (kill_entry-Kept pid entry allowed)
                    (passing-Kept ("ProcessLookupError" ∷ [])))
          ]

      pub stop_entry-Kept :
          (entry : Json) → Among entry entries → Preserves Kept (stop_entry t entry)
      unfolding stop_entry
      stop_entry-Kept entry among = Preserves-lift_bind (pid_of entry) _ (λ pid p.
          Preserves-lift_bind (expected_of entry) _ (λ expected q.
            stop_matching-Kept pid expected entry (t.executable_path pid) among p q refl))

      pub stop_entries-Kept :
          (es : List Json) → All (λ e. Among e entries) es → Preserves Kept (stop_entries t es)
      unfolding stop_entries
      stop_entries-Kept [] among = Preserves-pure tt
      stop_entries-Kept (e ∷ es) (first, rest) =
          Preserves-bind _ _ (stop_entry-Kept e first) (λ _. stop_entries-Kept es rest)

    stop_supervisor-Kept : Preserves Kept (stop_supervisor t (supervisor_of state))
    stop_supervisor-Kept = Preserves-lift_bind (int_of (supervisor_of state)) _ (λ pid p.
        Preserves-observe _ _ (sent-Kept pid (t.terminate_pid pid) (inl p))
          (passing-Kept ("ProcessLookupError" ∷ "PermissionError" ∷ "OSError" ∷ [])))

    pub stop_all-Kept : Preserves Kept (stop_all t state)
    stop_all-Kept =
        Preserves-bind _ _ (Preserves-if _ _ _ stop_supervisor-Kept (Preserves-pure tt)) (λ _.
          Preserves-lift_bind (listed_in (services_of state)) _ (λ entries listing_ok.
            Preserves-bind _ _ (stop_entries-Kept entries listing_ok entries (All-Among entries))
              (λ _. record { after = λ s kept. kept })))
