-- ===== src/Enterprise/Supervisor/Shutdown.antt =====
-- What `main` of start_demo.py leaves.
use laptop_bap_demo.Base.{
  Bool, Bool-cases, Option, [], false, inl, inr, none, refl, some, subst, sym, true, ℕ, ◌&&◌, ◌∙◌,
  ◌≡◌, ◌⊎◌,
}
use laptop_bap_demo.Base.Lists.{All, All-of_map, all, contains}
use laptop_bap_demo.Base.Run.{Except, continue, modify, observe, ok, raised, ◌>>◌}
use laptop_bap_demo.Enterprise.Supervisor.Services.{required, ports}
use laptop_bap_demo.Enterprise.Supervisor.{Host, System, is_running, terminate}
use laptop_bap_demo.Enterprise.Supervisor.Listed.{AreListed, start-AreListed}
use laptop_bap_demo.Enterprise.Supervisor.Start.{archive_files, conclude, main, start, supervised}
use laptop_bap_demo.Enterprise.Supervisor.Terminated.{terminate-started, terminate-stopped}

module _ (h : Host) where
  -- what `main` may leave
  abbrev pub Cleaned : Except (Option ℕ) × System → Type 0
  Cleaned (ok none, s) = Unit
  Cleaned (ok (some code), s) =
      All (λ pid. is_running h pid s ≡ false) s.started × ((code ≡ 2) ⊎ (s.pid_file ≡ none))
  Cleaned (raised e, s) = s.started ≡ []

  terminate-none_runs :
      (s : System)
      → AreListed s
      → All
          (λ pid. is_running h pid (terminate h s.processes s) ≡ false)
          (terminate h s.processes s).started
  terminate-none_runs s known =
      let stopped = (terminate-stopped h s.processes s).0 in
      subst (All (λ pid. is_running h pid (terminate h s.processes s) ≡ false))
        (sym (terminate-started h s.processes s ∙ known))
        (All-of_map (λ pid. is_running h pid (terminate h s.processes s) ≡ false) (λ p. p.pid)
          s.processes stopped)

  conclude-Cleaned : (r : Except (Option ℕ)) (s : System) → AreListed s → Cleaned (conclude h r s)
  conclude-Cleaned (ok none) s known = tt
  conclude-Cleaned (ok (some code)) s known =
      (terminate-none_runs s known, inr (terminate-stopped h s.processes s).1)
  conclude-Cleaned (raised e) s known =
      (terminate-none_runs s known, inr (terminate-stopped h s.processes s).1)

  migrated-Cleaned :
      (r : Except (Unit {0})) (fuel : ℕ) (s : System)
      → s.started ≡ []
      → Cleaned (
          continue r
            (λ _. modify (λ v. record v { processes = [] }) >> observe (start h fuel) (conclude h))
            s)
  migrated-Cleaned (raised e) fuel s fresh = fresh
  migrated-Cleaned (ok u) fuel s fresh =
      let s' : System = record s { processes = [] } in
      conclude-Cleaned (start h fuel s').0 (start h fuel s').1
        ((start-AreListed h fuel).after s' fresh)

  supervised-Cleaned :
      (reset_state : Bool) (fuel : ℕ) (s : System)
      → s.started ≡ []
      → Cleaned (supervised h reset_state fuel s)
  supervised-Cleaned true fuel s fresh = migrated-Cleaned h.migrate fuel (archive_files h s) fresh
  supervised-Cleaned false fuel s fresh = migrated-Cleaned h.migrate fuel s fresh

  main-Cleaned :
      (reset_state : Bool) (fuel : ℕ) (s : System)
      → s.started ≡ []
      → Cleaned (main h reset_state fuel s)
  unfolding main
  main-Cleaned reset_state fuel s fresh =
      elim (Bool-cases (all (contains s.files) (required h) && all h.port_available (ports h))) [
        | inl fit ↦ rw fit (supervised-Cleaned reset_state fuel s fresh)
        | inr unfit ↦ rw (unfit, fresh) (tt, inl refl)
      ]

  -- However `main` returns, after a signal, the failure of a start, a service that does not become ready
  -- or one that ends, no process runs that it started, and the PID file is gone; only where something is
  -- missing or a port is taken, code 2, is an old PID file left. An exception that it does not catch
  -- comes before any process is started.
  pub main-leaves_none :
      (reset_state : Bool) (fuel : ℕ) (s s' : System) (r : Except (Option ℕ))
      → s.started ≡ []
      → main h reset_state fuel s ≡ (r, s')
      → Cleaned (r, s')
  main-leaves_none reset_state fuel s s' r fresh e =
      subst Cleaned e (main-Cleaned reset_state fuel s fresh)
