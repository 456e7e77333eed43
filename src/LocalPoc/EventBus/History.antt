-- ===== src/LocalPoc/EventBus/History.antt =====
-- The bus against the full history of its events: it keeps the last `max_events` of them, and
-- numbers them from 1 without a gap.
use laptop_bap_demo.Base.{
  List, String, [], ap, append-nil, append_assoc, arith, refl, suc, sym, zero, ℕ, ◌++◌, ◌+◌, ◌-◌,
  ◌∙◌, ◌∷◌, ◌≡◌, ◌≤◌,
}
use laptop_bap_demo.Base.Json.{Fields}
use laptop_bap_demo.Base.Lists.{
  drop, drop-append, drop-drop, drop-nil, last_n, length, length-append, length-drop,
}
use laptop_bap_demo.LocalPoc.EventBus.{DemoEvent, EventBus, clear, demo_event, emit, new_bus}

-- An event as its sender states it, with the time stamp that it gets.
pub record Draft : Type 0 where
  pub timestamp : String
  pub source : String
  pub kind : String
  pub message : String
  pub details : Fields
  pub level : String

abbrev pub emit_draft : Draft → EventBus → EventBus
emit_draft d = emit d.timestamp d.source d.kind d.message d.details d.level

pub emit_all : List Draft → EventBus → EventBus
emit_all [] bus = bus
emit_all (d ∷ ds) bus = emit_all ds (emit_draft d bus)

-- The full history, with no bound: the events numbered from n + 1 on.
abbrev pub history : ℕ → List Draft → List DemoEvent
history n [] = []
history n (d ∷ ds) =
    demo_event (n + 1) d.timestamp d.source d.kind d.message d.details d.level ∷ history (n + 1) ds

module _ {ℓ} {A : Type ℓ} where
  last_n-suc : (m : ℕ) (xs : List A) → last_n (suc m) xs ≡ drop (length xs - suc m) xs
  unfolding last_n
  last_n-suc m xs = ground arith

  last_n-nil : (m : ℕ) → last_n {A = A} m [] ≡ []
  last_n-nil zero = unfold last_n in refl
  last_n-nil (suc m) = last_n-suc m [] ∙ drop-nil _

  drop_bounded :
      (m : ℕ) (xs : List A) (x : A)
      → drop
          (length (drop (length xs - suc m) xs ++ x ∷ []) - suc m)
          (drop (length xs - suc m) xs ++ x ∷ [])
        ≡ drop (length (xs ++ x ∷ []) - suc m) (xs ++ x ∷ [])
  drop_bounded m xs x =
      let k = length xs - suc m in
      let short : length (drop k xs ++ x ∷ []) ≡ length xs - k + 1 =
        omega (arith, length-append (drop k xs) (x ∷ []), length-drop k xs) in
      let long : length (xs ++ x ∷ []) ≡ length xs + 1 = omega (arith, length-append xs (x ∷ [])) in
      let total : k + (length xs - k + 1 - suc m) ≡ length xs + 1 - suc m = omega arith in
      rw (short, long, ← drop-append k xs (x ∷ []) (omega arith))
        (drop-drop _ k (xs ++ x ∷ []) ∙ ap (λ n. drop n (xs ++ x ∷ [])) total)

  -- Bounding a list and then extending it loses nothing that the bound would keep.
  last_n-last_n :
      (m : ℕ) (xs : List A) (x : A) → last_n m (last_n m xs ++ x ∷ []) ≡ last_n m (xs ++ x ∷ [])
  last_n-last_n zero xs x = unfold last_n in refl
  last_n-last_n (suc m) xs x = simp last_n-suc (drop_bounded m xs x)

  last_n-append :
      (m : ℕ) (xs : List A) (x : A) (ys : List A)
      → last_n m (xs ++ x ∷ ys) ≡ last_n m ((xs ++ x ∷ []) ++ ys)
  last_n-append m xs x ys = ap (last_n m) (sym (append_assoc xs (x ∷ []) ys))

  pub length-last_n : (m : ℕ) (xs : List A) → length (last_n (suc m) xs) ≤ suc m
  length-last_n m xs = rw last_n-suc (omega (arith, length-drop (length xs - suc m) xs))

events-emit_all :
    (ds : List Draft) (bus : EventBus) (xs : List DemoEvent)
    → bus.events ≡ last_n bus.max_events xs
    → (emit_all ds bus).events ≡ last_n bus.max_events (xs ++ history bus.sequence ds)
unfolding emit_all emit
events-emit_all [] bus xs e = e ∙ ap (last_n bus.max_events) (sym (append-nil xs))
events-emit_all (d ∷ ds) bus xs e =
    let x = demo_event (bus.sequence + 1) d.timestamp d.source d.kind d.message d.details d.level in
    events-emit_all ds (emit_draft d bus) (xs ++ x ∷ []) (rw e (last_n-last_n bus.max_events xs x))
    ∙ sym (last_n-append bus.max_events xs x (history (bus.sequence + 1) ds))

-- From a new bus, and from any bus that is cleared, whatever is then sent, the bus holds exactly the
-- last `max_events` events of the full history, which is numbered from 1; with a bound of 0 it holds
-- the whole history.
pub emit_all-history :
    (max_events : ℕ) (bus : EventBus) (ds : List Draft)
    → ((emit_all ds (new_bus max_events)).events ≡ last_n max_events (history 0 ds))
      × ((emit_all ds (clear bus)).events ≡ last_n bus.max_events (history 0 ds))
emit_all-history max_events bus ds = (
  unfold new_bus in events-emit_all ds (new_bus max_events) [] (sym (last_n-nil max_events)),
  unfold clear in events-emit_all ds (clear bus) [] (sym (last_n-nil bus.max_events)),
)
