-- ===== src/Enterprise/Supervisor/Listed.antt =====
-- The variable `processes` of start_demo.py: it lists every process that was started, at any time of the
-- start, so that `terminate` reaches all of them.
use mathlib.Core.List.{map-append}
use laptop_bap_demo.Base.{
  Bool-cases, List, String, [], ap, eqb, inl, inr, ltb, map, refl, suc, sym, zero, ℕ, ◌++◌, ◌+◌,
  ◌∙◌, ◌∷◌, ◌≡◌,
}
use laptop_bap_demo.Base.Lists.{length}
use laptop_bap_demo.Base.Run.{
  Except-cases, Preserves, Preserves-bind, Preserves-gets, Preserves-lift, Preserves-pure, Run,
  modify, ◌>>=◌,
}
use laptop_bap_demo.Enterprise.Supervisor.Services.{services}
use laptop_bap_demo.Enterprise.Supervisor.{Host, System, by, later}
use laptop_bap_demo.Enterprise.Supervisor.Start.{
  add_process, guard_rounds, is_ready, launch, launch_all, listing, some_ended, start, supervise,
  wait_guard, wait_http, wait_rounds, write_pid_file,
}

-- `processes` lists every process that was started.
abbrev pub AreListed : System → Type 0
AreListed s = s.started ≡ map (λ p. p.pid) s.processes

-- a step that leaves the processes alone
abbrev KeepsProcesses : {A : Type 0} → Run System A → Type 0
KeepsProcesses m = (s : System) → ((m s).1.started ≡ s.started) × ((m s).1.processes ≡ s.processes)

KeepsProcesses-AreListed :
    {A : Type 0} (m : Run System A) → KeepsProcesses m → Preserves AreListed m
KeepsProcesses-AreListed m keeps = record {
  after = λ s known. ((keeps s).0 ∙ known ∙ ap (λ ps. map (λ p. p.pid) ps) (sym (keeps s).1));
}

module _ (h : Host) where
  wait_rounds-KeepsProcesses :
      (fuel : ℕ) (url : String) (deadline : ℕ) (error : String)
      → KeepsProcesses (wait_rounds h fuel url deadline error)
  unfolding wait_rounds
  wait_rounds-KeepsProcesses zero url deadline error s = (refl, refl)
  wait_rounds-KeepsProcesses (suc fuel) url deadline error s =
      elim (Bool-cases (ltb s.now deadline)) [
        | inr over ↦ rw over (refl, refl)
        | inl early ↦ rw early (elim (Bool-cases (is_ready h (h.request url s.now))) [
          | inl up ↦ rw up (refl, refl)
          | inr down ↦ rw down (wait_rounds-KeepsProcesses fuel url deadline _ _)
        ])
      ]

  guard_rounds-KeepsProcesses :
      (fuel deadline : ℕ) (error : String) → KeepsProcesses (guard_rounds h fuel deadline error)
  unfolding guard_rounds
  guard_rounds-KeepsProcesses zero deadline error s = (refl, refl)
  guard_rounds-KeepsProcesses (suc fuel) deadline error s = elim (Bool-cases (ltb s.now deadline)) [
    | inr over ↦ rw over (refl, refl)
    | inl early ↦ rw early (elim (Except-cases (h.guard_health s.now)) [
      | inr (e, failed) ↦ rw failed (refl, refl)
      | inl ((code, text), answered) ↦ rw answered (elim (Bool-cases (eqb code 0)) [
        | inl fine ↦ rw fine (refl, refl)
        | inr bad ↦ rw bad (guard_rounds-KeepsProcesses fuel deadline text _)
      ])
    ])
  ]

  supervise-KeepsProcesses : (fuel : ℕ) → KeepsProcesses (supervise h fuel)
  unfolding supervise
  supervise-KeepsProcesses zero s = (refl, refl)
  supervise-KeepsProcesses (suc fuel) s = elim (Bool-cases (by h.interrupt s.now)) [
    | inl stopped ↦ rw stopped (refl, refl)
    | inr on ↦ rw on (elim (Bool-cases (some_ended h s.processes s)) [
      | inl dead ↦ rw dead (refl, refl)
      | inr alive ↦ rw alive (supervise-KeepsProcesses fuel (later 500 s))
    ])
  ]

  add_process-AreListed :
      (name : String) (pid : ℕ) → Preserves AreListed (modify (add_process h name pid))
  add_process-AreListed name pid = record {
    after = λ s known.
        ap (λ xs. xs ++ (pid ∷ [])) known
        ∙ sym (map-append (λ p. p.pid) s.processes (record { name = name; pid = pid } ∷ []));
  }

  launch-AreListed :
      (name : String) (command : List String) → Preserves AreListed (launch h name command)
  launch-AreListed name command = Preserves-bind _ _ (Preserves-lift (h.open_log name)) (λ _.
      Preserves-bind _ _ (Preserves-gets (λ s. length s.started)) (λ number.
        Preserves-bind _ _ (Preserves-lift (h.spawn command number))
          (λ pid. add_process-AreListed name pid)))

  launch_all-AreListed :
      (rest : List (String × List String)) → Preserves AreListed (launch_all h rest)
  unfolding launch_all
  launch_all-AreListed [] = Preserves-pure tt
  launch_all-AreListed ((name, command) ∷ rest) =
      Preserves-bind (launch h name command) (λ _. launch_all h rest)
        (launch-AreListed name command) (λ _. launch_all-AreListed rest)

  write_pid_file-AreListed : Preserves AreListed (write_pid_file h)
  write_pid_file-AreListed = Preserves-bind _ _ (Preserves-gets (λ s. s.processes)) (λ processes.
      Preserves-bind _ _ (Preserves-lift (listing h (services h) processes))
        (λ entries. record { after = λ s known. known }))

  waits :
      {A : Type 0} {f : Unit {0} → Run System A} (url : String)
      → ((u : Unit {0}) → Preserves AreListed (f u))
      → Preserves AreListed (wait_http h url >>= f)
  waits url rest =
      Preserves-bind _ _
        (KeepsProcesses-AreListed (wait_http h url)
          (λ s. wait_rounds-KeepsProcesses 61 url (s.now + 12000) "None" s))
        rest

  pub start-AreListed : (fuel : ℕ) → Preserves AreListed (start h fuel)
  start-AreListed fuel = Preserves-bind _ _ (launch_all-AreListed (services h)) (λ _.
      Preserves-bind _ _ write_pid_file-AreListed (λ _. waits "http://127.0.0.1:11501/health" (λ _.
        waits "http://127.0.0.1:11502/health" (λ _. waits "http://127.0.0.1:11600/health" (λ _.
          waits "http://127.0.0.1:11445/health" (λ _.
            Preserves-bind _ _ (Preserves-lift h.client_context) (λ _.
              waits "https://127.0.0.1:11443/health" (λ _.
                waits "https://127.0.0.1:11444/health" (λ _.
                  Preserves-bind _ _
                    (KeepsProcesses-AreListed (wait_guard h)
                      (λ s. guard_rounds-KeepsProcesses 41 (s.now + 10000) "" s))
                    (λ _.
                      KeepsProcesses-AreListed (supervise h fuel)
                        (supervise-KeepsProcesses fuel)))))))))))
