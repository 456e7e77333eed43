-- ===== src/Enterprise/Supervisor/Terminated.antt =====
-- What `terminate` leaves: no process of its list runs.
use mathlib.Core.List.{reverse-reverse}
use laptop_bap_demo.Base.{
  Bool, Bool-cases, List, Option, [], ap, arith, eqb, false, false≢true, inl, inr, leb, none, not,
  refl, reverse, some, subst, sym, true, ℕ, ◌&&◌, ◌+◌, ◌||◌, ◌∙◌, ◌∷◌, ◌≡◌,
}
use laptop_bap_demo.Base.Lists.{All, All-imp, All-reverse, max_ℕ}
use laptop_bap_demo.Enterprise.Supervisor.{
  Host, Process, System, ask, ask_all, by, earliest, end_from, end_of, ends_after, ends_at,
  finish_all, finish_one, is_running, later, terminate, timeout_to, wait_or_kill,
}

by-earliest : (a b : Option ℕ) (time : ℕ) → by (earliest a b) time ≡ (by a time || by b time)
by-earliest none b time = refl
by-earliest (some t) none time = ground arith
by-earliest (some t) (some u) time = ground arith

by-later : (e : Option ℕ) (time d : ℕ) → by e time ≡ true → by e (time + d) ≡ true
by-later none time d h = h
by-later (some t) time d h = ground arith

by-reached : (e : Option ℕ) (time t : ℕ) → by e time ≡ true → by e (max_ℕ time t) ≡ true
by-reached none time t h = h
by-reached (some u) time t h = ground arith

by-max : (t time : ℕ) → leb t (max_ℕ time t) ≡ true
by-max t time = ground arith

by-end_from :
    (pid q t : ℕ) (ends : List (ℕ × ℕ)) (time : ℕ)
    → by (end_from pid ((q, t) ∷ ends)) time
      ≡ ((eqb q pid && leb t time) || by (end_from pid ends) time)
unfolding end_from
by-end_from pid q t ends time = elim (Bool-cases (eqb q pid)) [
  | inl same ↦ rw same (by-earliest (some t) (end_from pid ends) time)
  | inr other ↦ rw other refl
]

or_between : (a b c : Bool) → (a || b) ≡ true → (a || (c || b)) ≡ true
or_between true b c h = refl
or_between false true true h = refl
or_between false true false h = refl
or_between false false c h = absurd (false≢true h)

or_head : (a b : Bool) → (a || (true || b)) ≡ true
or_head true b = refl
or_head false b = refl

not-false : {b : Bool} → not b ≡ false → b ≡ true
not-false {b = true} h = refl
not-false {b = false} h = sym h

module _ (h : Host) where
  -- The process has ended.
  abbrev Ended : ℕ → System → Type 0
  Ended pid s = by (end_of h pid s) s.now ≡ true

  -- What has ended stays so.
  abbrev Grows : System → System → Type 0
  Grows s s' = (pid : ℕ) → Ended pid s → Ended pid s'

  Grows-later : (d : ℕ) (s : System) → Grows s (later d s)
  Grows-later d s pid ended = by-later (end_of h pid s) s.now d ended

  by-ends_at :
      (pid q t : ℕ) (s : System)
      → by (end_of h pid (ends_at q t s)) s.now ≡ (
          by (h.own_end pid) s.now
          || ((eqb q pid && leb t s.now) || by (end_from pid s.ends) s.now))
  by-ends_at pid q t s =
      by-earliest (h.own_end pid) (end_from pid ((q, t) ∷ s.ends)) s.now
      ∙ ap (λ b. by (h.own_end pid) s.now || b) (by-end_from pid q t s.ends s.now)

  Grows-ends_at : (q t : ℕ) (s : System) → Grows s (ends_at q t s)
  Grows-ends_at q t s pid ended =
      by-ends_at pid q t s
      ∙ or_between (by (h.own_end pid) s.now) (by (end_from pid s.ends) s.now)
          (eqb q pid && leb t s.now)
          (sym (by-earliest (h.own_end pid) (end_from pid s.ends) s.now) ∙ ended)

  -- a process that was killed at this moment
  Ended-ends_at : (pid : ℕ) (s : System) → Ended pid (ends_at pid s.now s)
  Ended-ends_at pid s =
      let same : (eqb pid pid && leb s.now s.now) ≡ true = ground arith in
      by-ends_at pid pid s.now s
      ∙ rw same (or_head (by (h.own_end pid) s.now) (by (end_from pid s.ends) s.now))

  Grows-ends_after : (pid : ℕ) (grace : Option ℕ) (s : System) → Grows s (ends_after pid grace s)
  Grows-ends_after pid none s q ended = ended
  Grows-ends_after pid (some d) s q ended = Grows-ends_at pid (s.now + d) s q ended

  wait_or_kill-Grows :
      (pid timeout : ℕ) (e : Option ℕ) (s : System) → Grows s (wait_or_kill pid timeout e s)
  wait_or_kill-Grows pid timeout none s q ended =
      Grows-ends_at pid (s.now + timeout) (later timeout s) q (Grows-later timeout s q ended)
  wait_or_kill-Grows pid timeout (some t) s q ended = elim (Bool-cases (leb t (s.now + timeout))) [
    | inl soon ↦ rw soon (by-reached (end_of h q s) s.now t ended)
    | inr late ↦
        rw late
          (Grows-ends_at pid (s.now + timeout) (later timeout s) q (Grows-later timeout s q ended))
  ]

  wait_or_kill-Ended :
      (pid timeout : ℕ) (e : Option ℕ) (s : System)
      → end_of h pid s ≡ e
      → Ended pid (wait_or_kill pid timeout e s)
  wait_or_kill-Ended pid timeout none s same = Ended-ends_at pid (later timeout s)
  wait_or_kill-Ended pid timeout (some t) s same = elim (Bool-cases (leb t (s.now + timeout))) [
    | inl soon ↦ rw (soon, same) (by-max t s.now)
    | inr late ↦ rw late (Ended-ends_at pid (later timeout s))
  ]

  ask-Grows : (p : Process) (s : System) → Grows s (ask h p s)
  ask-Grows p s q ended = elim (Bool-cases (is_running h p.pid s)) [
    | inl up ↦ rw up (Grows-ends_after p.pid (h.grace p.pid) s q ended)
    | inr down ↦ rw down ended
  ]

  ask_all-Grows : (ps : List Process) (s : System) → Grows s (ask_all h ps s)
  ask_all-Grows [] s q ended = ended
  ask_all-Grows (p ∷ ps) s q ended = ask_all-Grows ps (ask h p s) q (ask-Grows p s q ended)

  finish_one-Grows : (deadline : ℕ) (p : Process) (s : System) → Grows s (finish_one h deadline p s)
  finish_one-Grows deadline p s q ended = elim (Bool-cases (is_running h p.pid s)) [
    | inl up ↦
        rw up (wait_or_kill-Grows p.pid (timeout_to deadline s.now) (end_of h p.pid s) s q ended)
    | inr down ↦ rw down ended
  ]

  finish_all-Grows :
      (deadline : ℕ) (ps : List Process) (s : System) → Grows s (finish_all h deadline ps s)
  finish_all-Grows deadline [] s q ended = ended
  finish_all-Grows deadline (p ∷ ps) s q ended =
      finish_all-Grows deadline ps (finish_one h deadline p s) q
        (finish_one-Grows deadline p s q ended)

  Ended-is_running : (pid : ℕ) (s : System) → is_running h pid s ≡ false → Ended pid s
  unfolding is_running
  Ended-is_running pid s e = not-false e

  finish_one-Ended :
      (deadline : ℕ) (p : Process) (s : System) → Ended p.pid (finish_one h deadline p s)
  finish_one-Ended deadline p s = elim (Bool-cases (is_running h p.pid s)) [
    | inl up ↦
        rw up (wait_or_kill-Ended p.pid (timeout_to deadline s.now) (end_of h p.pid s) s refl)
    | inr down ↦ rw down (Ended-is_running p.pid s down)
  ]

  finish_all-Ended :
      (deadline : ℕ) (ps : List Process) (s : System)
      → All (λ p. Ended p.pid (finish_all h deadline ps s)) ps
  finish_all-Ended deadline [] s = tt
  finish_all-Ended deadline (p ∷ ps) s = (
    finish_all-Grows deadline ps (finish_one h deadline p s) p.pid (finish_one-Ended deadline p s),
    finish_all-Ended deadline ps (finish_one h deadline p s),
  )

  ends_after-started :
      (pid : ℕ) (grace : Option ℕ) (s : System) → (ends_after pid grace s).started ≡ s.started
  ends_after-started pid none s = refl
  ends_after-started pid (some d) s = refl

  ask_all-started : (ps : List Process) (s : System) → (ask_all h ps s).started ≡ s.started
  ask_all-started [] s = refl
  ask_all-started (p ∷ ps) s =
      ask_all-started ps (ask h p s) ∙ elim (Bool-cases (is_running h p.pid s)) [
        | inl up ↦ rw up (ends_after-started p.pid (h.grace p.pid) s)
        | inr down ↦ rw down refl
      ]

  wait_or_kill-started :
      (pid timeout : ℕ) (e : Option ℕ) (s : System)
      → (wait_or_kill pid timeout e s).started ≡ s.started
  wait_or_kill-started pid timeout none s = refl
  wait_or_kill-started pid timeout (some t) s = elim (Bool-cases (leb t (s.now + timeout))) [
    | inl soon ↦ rw soon refl
    | inr late ↦ rw late refl
  ]

  finish_all-started :
      (deadline : ℕ) (ps : List Process) (s : System)
      → (finish_all h deadline ps s).started ≡ s.started
  finish_all-started deadline [] s = refl
  finish_all-started deadline (p ∷ ps) s =
      finish_all-started deadline ps (finish_one h deadline p s)
      ∙ elim (Bool-cases (is_running h p.pid s)) [
        | inl up ↦
            rw up (wait_or_kill-started p.pid (timeout_to deadline s.now) (end_of h p.pid s) s)
        | inr down ↦ rw down refl
      ]

  pub terminate-started : (ps : List Process) (s : System) → (terminate h ps s).started ≡ s.started
  unfolding terminate
  terminate-started ps s =
      finish_all-started _ (reverse ps) (ask_all h (reverse ps) s) ∙ ask_all-started (reverse ps) s

  -- After `terminate` no process of its list runs, whether it ends when it is asked to, later or never;
  -- and the PID file is gone.
  pub terminate-stopped :
      (ps : List Process) (s : System)
      → All (λ p. is_running h p.pid (terminate h ps s) ≡ false) ps
        × ((terminate h ps s).pid_file ≡ none)
  unfolding terminate
  terminate-stopped ps s = (
    All-imp (λ p ended. ap not ended) ps
        (subst (All (λ p. Ended p.pid (terminate h ps s))) (reverse-reverse ps) (
          All-reverse _ (reverse ps) (finish_all-Ended _ (reverse ps) (ask_all h (reverse ps) s)))),
    refl,
  )
