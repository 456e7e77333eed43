-- ===== src/Enterprise/Supervisor/Returns.antt =====
-- That `main` of start_demo.py returns.
use laptop_bap_demo.Base.{
  Bool, Bool-cases, Option, [], arith, false, if◌then◌else◌, inl, inr, leb, leb-false→lt, none,
  refl, some, suc, zero, ℕ, ◌&&◌, ◌*◌, ◌+◌, ◌≡◌, ◌≢◌, ◌≤◌,
}
use laptop_bap_demo.Base.Lists.{all, contains}
use laptop_bap_demo.Base.Run.{Except, Run, continue, lift, modify, observe, ok, raised, ◌>>=◌}
use laptop_bap_demo.Enterprise.Supervisor.Services.{services, required, ports}
use laptop_bap_demo.Enterprise.Supervisor.{Host, System, later}
use laptop_bap_demo.Enterprise.Supervisor.Start.{
  archive_files, conclude, launch_all, main, some_ended, start, supervise, supervised, wait_guard,
  wait_http, write_pid_file,
}

-- the body does not go on for ever
record Returns (m : Run System (Option ℕ)) : Type 0 where
  at : (s : System) → (m s).0 ≢ ok none

continue-Returns :
    {A : Type 0} (r : Except A) (f : A → Run System (Option ℕ)) (s : System)
    → ((a : A) → Returns (f a))
    → (continue r f s).0 ≢ ok none
continue-Returns (ok a) f s rest = (rest a).at s
continue-Returns (raised e) f s rest = λ e. absurd (cc e)

bind-Returns :
    {A : Type 0} (m : Run System A) (f : A → Run System (Option ℕ))
    → ((a : A) → Returns (f a))
    → Returns (m >>= f)
bind-Returns m f rest = record { at = λ s. continue-Returns (m s).0 f (m s).1 rest }

module _ (h : Host) (t : ℕ) (due : h.interrupt ≡ some t) where
  supervise_once :
      (fuel : ℕ) (s : System)
      → (leb t s.now ≡ false → (supervise h fuel (later 500 s)).0 ≢ ok none)
      → (supervise h (suc fuel) s).0 ≢ ok none
  unfolding supervise
  supervise_once fuel s next = elim (Bool-cases (leb t s.now)) [
    | inl come ↦ rw (due, come) (λ e. absurd (cc e))
    | inr not_yet ↦
        rw (due, not_yet)
          (elim (Bool-cases (some_ended h s.processes s)) [
            | inl dead ↦ rw dead (λ e. absurd (cc e))
            | inr alive ↦ rw alive (next not_yet)
          ])
  ]

  supervise-Returns :
      (fuel : ℕ) (s : System) → t ≤ s.now + 500 * fuel → (supervise h (suc fuel) s).0 ≢ ok none
  supervise-Returns zero s enough =
      supervise_once zero s
        (λ not_yet. absurd (omega (arith, leb-false→lt t s.now not_yet, enough)))
  supervise-Returns (suc fuel) s enough =
      supervise_once (suc fuel) s (λ not_yet. supervise-Returns fuel (later 500 s) (omega arith))

  start-Returns : Returns (start h (suc t))
  start-Returns = bind-Returns (launch_all h (services h)) _ (λ _.
      bind-Returns (write_pid_file h) _ (λ _.
        bind-Returns (wait_http h "http://127.0.0.1:11501/health") _ (λ _.
          bind-Returns (wait_http h "http://127.0.0.1:11502/health") _ (λ _.
            bind-Returns (wait_http h "http://127.0.0.1:11600/health") _ (λ _.
              bind-Returns (wait_http h "http://127.0.0.1:11445/health") _ (λ _.
                bind-Returns (lift h.client_context) _ (λ _.
                  bind-Returns (wait_http h "https://127.0.0.1:11443/health") _ (λ _.
                    bind-Returns (wait_http h "https://127.0.0.1:11444/health") _ (λ _.
                      bind-Returns (wait_guard h) _
                        (λ _. record { at = λ s. supervise-Returns t s (omega arith) }))))))))))

  conclude-Returns :
      (r : Except (Option ℕ)) (s : System) → r ≢ ok none → (conclude h r s).0 ≢ ok none
  conclude-Returns (ok none) s returns = λ e. absurd (returns refl)
  conclude-Returns (ok (some code)) s returns = λ e. absurd (cc e)
  conclude-Returns (raised x) s returns = λ e. absurd (cc e)

  supervised-Returns : (reset_state : Bool) → Returns (supervised h reset_state (suc t))
  supervised-Returns reset_state =
      bind-Returns (modify (λ s. if reset_state then archive_files h s else s)) _ (λ _.
        bind-Returns (lift h.migrate) _ (λ _.
          bind-Returns (modify (λ s. record s { processes = [] }))
            (λ _. observe (start h (suc t)) (conclude h))
            (λ _. record {
              at = λ s.
                  conclude-Returns (start h (suc t) s).0 (start h (suc t) s).1 (start-Returns.at s);
            })))

  -- Where a signal comes at a time `t`, `main` does not go on supervising: it has returned or raised when
  -- its loop has made one more round than there are milliseconds up to the signal.
  pub main-Returns : (reset_state : Bool) (s : System) → (main h reset_state (suc t) s).0 ≢ ok none
  unfolding main
  main-Returns reset_state s =
      elim (Bool-cases (all (contains s.files) (required h) && all h.port_available (ports h))) [
        | inl fit ↦ rw fit ((supervised-Returns reset_state).at s)
        | inr unfit ↦ rw unfit (λ e. absurd (cc e))
      ]
