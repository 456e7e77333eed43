-- ===== src/Enterprise/Supervisor/Ready.antt =====
-- What `wait_http` and the check of the connector wait for, and for how long.
use laptop_bap_demo.Base.{
  Bool-cases, String, ap, arith, eqb, inl, inr, ltb, ltb-false→le, ltb→lt, refl, suc, true, zero, ℕ,
  ◌*◌, ◌+◌, ◌<>◌, ◌<◌, ◌∙◌, ◌≡◌, ◌≤◌, ◌⊎◌,
}
use laptop_bap_demo.Base.Run.{Except, Except-cases, ok, raised}
use laptop_bap_demo.Enterprise.Supervisor.{Host, System, later}
use laptop_bap_demo.Enterprise.Supervisor.Start.{
  guard_rounds, is_ready, last_error, wait_guard, wait_http, wait_rounds,
}

module _ (h : Host) (url : String) (deadline : ℕ) where
  -- A request sent after the start and before the deadline was answered as ready, or the deadline is
  -- over and the error of `wait_http` says so.
  abbrev pub Waited : ℕ → Except (Unit {0}) × System → Type 0
  Waited start r =
      ((time : ℕ) × (start ≤ time)
        × (time < deadline)
        × (is_ready h (h.request url time) ≡ true)
        × (r.0 ≡ ok tt))
      ⊎ ((error : String) × (r.0
            ≡ raised ("RuntimeError: Service did not become ready at " <> url <> ": " <> error))
          × (deadline ≤ r.1.now))

  -- a round, from the rounds after it
  one_round :
      (rounds : ℕ) (error : String) (start : ℕ) (s : System)
      → start ≤ s.now
      → (s.now < deadline
          → Waited start (
              wait_rounds h rounds url deadline
                (last_error h (h.request url s.now) error)
                (later 200 (later (h.duration url s.now) s))))
      → Waited start (wait_rounds h (suc rounds) url deadline error s)
  unfolding wait_rounds
  one_round rounds error start s begun next = elim (Bool-cases (ltb s.now deadline)) [
    | inr over ↦ rw over (inr (_, refl, ltb-false→le s.now deadline over))
    | inl early ↦ rw early (elim (Bool-cases (is_ready h (h.request url s.now))) [
      | inl up ↦ rw up (inl (s.now, begun, ltb→lt s.now deadline early, up, refl))
      | inr down ↦ rw down (next (ltb→lt s.now deadline early))
    ])
  ]

  wait_rounds-Waited :
      (rounds : ℕ) (error : String) (start : ℕ) (s : System)
      → start ≤ s.now
      → deadline ≤ s.now + 200 * rounds
      → Waited start (wait_rounds h (suc rounds) url deadline error s)
  wait_rounds-Waited zero error start s begun enough =
      one_round zero error start s begun (λ early. absurd (omega (arith, early, enough)))
  wait_rounds-Waited (suc rounds) error start s begun enough =
      one_round (suc rounds) error start s begun (λ early.
        wait_rounds-Waited rounds _ start (later 200 (later (h.duration url s.now) s)) (omega arith)
          (omega arith))

-- `wait_http` returns when the service answers 200 with a true `ok` to a request that was sent within
-- the 12 seconds. It ends otherwise only once they are over, with the RuntimeError that the service did
-- not become ready: the 61 rounds are never used up.
pub wait_http-Waited :
    (h : Host) (url : String) (s : System) → Waited h url (s.now + 12000) s.now (wait_http h url s)
wait_http-Waited h url s =
    wait_rounds-Waited h url (s.now + 12000) 60 "None" s.now s (omega arith) (omega arith)

eqb-true→path : (a b : ℕ) → eqb a b ≡ true → a ≡ b
eqb-true→path a b h = ground arith

module _ (h : Host) (deadline : ℕ) where
  -- The connector's health check succeeded before the deadline, could not be run, or the deadline is over.
  abbrev pub GuardWaited : Except (Unit {0}) × System → Type 0
  GuardWaited r =
      ((time : ℕ) × (text : String) × (time < deadline)
        × (h.guard_health time ≡ ok (0, text))
        × (r.0 ≡ ok tt))
      ⊎ ((e : String) × (r.0 ≡ raised e)
          × ((deadline ≤ r.1.now) ⊎ ((time : ℕ) × (h.guard_health time ≡ raised e))))

  one_check :
      (rounds : ℕ) (error : String) (s : System)
      → (s.now < deadline
          → (text : String)
          → GuardWaited
              (guard_rounds h rounds deadline text (later 250 (later (h.guard_duration s.now) s))))
      → GuardWaited (guard_rounds h (suc rounds) deadline error s)
  unfolding guard_rounds
  one_check rounds error s next = elim (Bool-cases (ltb s.now deadline)) [
    | inr over ↦ rw over (inr (_, refl, inl (ltb-false→le s.now deadline over)))
    | inl early ↦ rw early (elim (Except-cases (h.guard_health s.now)) [
      | inr (e, failed) ↦ rw failed (inr (e, refl, inr (s.now, failed)))
      | inl ((code, text), answered) ↦ rw answered (elim (Bool-cases (eqb code 0)) [
        | inl fine ↦ rw fine (
            inl (
              s.now,
              text,
              ltb→lt s.now deadline early,
              answered ∙ ap (λ n. ok (n, text)) (eqb-true→path code 0 fine),
              refl,
            ))
        | inr bad ↦ rw bad (next (ltb→lt s.now deadline early) text)
      ])
    ])
  ]

  guard_rounds-GuardWaited :
      (rounds : ℕ) (error : String) (s : System)
      → deadline ≤ s.now + 250 * rounds
      → GuardWaited (guard_rounds h (suc rounds) deadline error s)
  guard_rounds-GuardWaited zero error s enough =
      one_check zero error s (λ early text. absurd (omega (arith, early, enough)))
  guard_rounds-GuardWaited (suc rounds) error s enough =
      one_check (suc rounds) error s (λ early text.
        guard_rounds-GuardWaited rounds text (later 250 (later (h.guard_duration s.now) s))
          (omega arith))

-- The wait for the connector ends in the same way, within its 10 seconds: the 41 rounds are never used
-- up.
pub wait_guard-GuardWaited :
    (h : Host) (s : System) → GuardWaited h (s.now + 10000) (wait_guard h s)
wait_guard-GuardWaited h s = guard_rounds-GuardWaited h (s.now + 10000) 40 "" s (omega arith)
