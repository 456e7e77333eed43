-- ===== src/Enterprise/Supervisor/Stop/Matching.antt =====
-- Which processes the script stops, and which it leaves.
use laptop_bap_demo.Base.{
  Bool, List, true, String, [], false, if◌then◌else◌, inl, inr, refl, some, subst, sym, ◌∷◌, ◌≡◌,
  ◌⊎◌,
}
use laptop_bap_demo.Base.Int.{ℤ}
use laptop_bap_demo.Base.Json.{Json, truthy}
use laptop_bap_demo.Base.Json.Number.{int_of}
use laptop_bap_demo.Base.Lists.{All}
use laptop_bap_demo.Base.Run.{Run, Except-cases, bind_cases, lift, ok, pure, raised}
use laptop_bap_demo.Enterprise.Supervisor.Stop.{
  Shell, Tasks, kill, listed_in, services_of, stop_all, stop_entries, stop_file, stop_main,
  stop_supervisor, supervisor_of,
}
use laptop_bap_demo.Enterprise.Supervisor.Stop.Complete.{
  Done, Ended, Signalled, entries_Done, not_both, passing-Signalled, still,
}
use laptop_bap_demo.Enterprise.Supervisor.Stop.Kept.{All-Among, Allowed, stop_all-Kept}

module _ (t : Tasks) (state : Json) where
  -- The file names no supervisor, or SIGTERM was sent to it or is refused for it.
  abbrev pub SupervisorDone : List ℤ → Type 0
  SupervisorDone killed =
      (truthy (supervisor_of state) ≡ false)
      ⊎ ((pid : ℤ) × (int_of (supervisor_of state) ≡ ok pid)
          × (Signalled pid killed ⊎ ((e : String) × (t.terminate_pid pid ≡ raised e))))

  abbrev pub Finished : List ℤ → Type 0
  Finished killed =
      SupervisorDone killed
      × (entries : List Json) × (listed_in (services_of state) ≡ ok entries)
      × All (Done t killed) entries

  SupervisorDone-grow :
      (old new : List ℤ)
      → ((pid : ℤ) → Signalled pid old → Signalled pid new)
      → SupervisorDone old
      → SupervisorDone new
  SupervisorDone-grow old new grow (inl absent) = inl absent
  SupervisorDone-grow old new grow (inr (pid, p, inl i)) = inr (pid, p, inl (grow pid i))
  SupervisorDone-grow old new grow (inr (pid, p, inr refused)) = inr (pid, p, inr refused)

  kill-Signalled :
      (pid : ℤ) (s : Shell) → t.terminate_pid pid ≡ ok tt → Signalled pid (kill t pid s).1.killed
  kill-Signalled pid s gone = rw gone (inl refl)

  -- on whether the file names a supervisor
  supervisor_cases :
      (named : Bool) (s : Shell)
      → truthy (supervisor_of state) ≡ named
      → Ended t SupervisorDone
          ((if named then stop_supervisor t (supervisor_of state) else pure tt) s)
  supervisor_cases false s e = inr (inl e)
  supervisor_cases true s e =
      bind_cases (Ended t SupervisorDone) (lift (int_of (supervisor_of state))) _ s
        (λ e _. inl (e, refl))
        λ pid p. inr (
          inr (
            pid,
            p,
            elim (Except-cases (t.terminate_pid pid)) [
              | inr (e, refused) ↦ inr (e, refused)
              | inl (u, gone) ↦ inl (
                  passing-Signalled t pid
                    ("ProcessLookupError" ∷ "PermissionError" ∷ "OSError" ∷ []) (kill t pid s).0
                    (kill t pid s).1 (kill-Signalled pid s gone))
            ],
          ))

  -- the first step of `stop_all`
  abbrev supervisor_step : Run Shell (Unit {0})
  supervisor_step =
      if truthy (supervisor_of state) then stop_supervisor t (supervisor_of state) else pure tt

  supervisor_Done : (s : Shell) → Ended t SupervisorDone (supervisor_step s)
  supervisor_Done s = supervisor_cases (truthy (supervisor_of state)) s refl

  stop_all-Ended : (s : Shell) → Ended t Finished (stop_all t state s)
  stop_all-Ended s =
      bind_cases (Ended t Finished) supervisor_step _ s (λ e _. inl (e, refl))
        λ u returned. elim (supervisor_Done s) [
          | inl (e, raising) ↦ not_both t (supervisor_step s).0 u e returned raising
          | inr first ↦
              bind_cases (Ended t Finished) (lift (listed_in (services_of state))) _ _
                (λ e _. inl (e, refl))
                λ entries listing_ok.
                  bind_cases (Ended t Finished) (stop_entries t entries) _ _ (λ e _. inl (e, refl))
                    λ v passed.
                      elim (entries_Done t state entries listing_ok entries (supervisor_step s).1
                        (All-Among entries)) [
                          | inl (e, raising) ↦
                              not_both t (stop_entries t entries (supervisor_step s).1).0 v e passed
                                raising
                          | inr all_done ↦ inr (
                            SupervisorDone-grow _ _
                                (λ pid i.
                                  still t state entries listing_ok pid entries (supervisor_step s).1
                                    (All-Among entries) i)
                                first,
                            entries,
                            listing_ok,
                            all_done,
                          )
                        ]
        ]

  -- The script sends SIGTERM to nothing but the supervisor that the PID file names, unchecked, and the
  -- services of its list whose PID now belongs to a process with the executable of the service. A run
  -- that ends without an exception has sent it to the supervisor, if one is named, and to every such
  -- service, but for those to which the system refuses to send it.
  pub stop_main-Allowed :
      (s : Shell)
      → s.killed ≡ []
      → s.pid_file ≡ some (ok state)
      → All (Allowed t state) (stop_main t s).1.killed × Ended t Finished (stop_main t s)
  unfolding stop_main
  stop_main-Allowed s none_yet read =
      let kept : All (Allowed t state) s.killed = subst (All (Allowed t state)) (sym none_yet) tt in
      let grow : (pid : ℤ) (pids : List ℤ)
          → Allowed t state pid
          → All (Allowed t state) pids
          → All (Allowed t state) (pid ∷ pids) =
        λ pid pids first rest. (first, rest) in
      (
        subst (λ f. All (Allowed t state) (stop_file t f s).1.killed) (sym read)
            ((stop_all-Kept t state (All (Allowed t state)) grow).after s kept),
        subst (λ f. Ended t Finished (stop_file t f s)) (sym read) (stop_all-Ended s),
      )
