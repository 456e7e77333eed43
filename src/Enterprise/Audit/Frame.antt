-- ===== src/Enterprise/Audit/Frame.antt =====
-- `emit` writes to the log alone.
use laptop_bap_demo.Base.{Bool-cases, String, inl, inr, refl, ℕ, ◌∙◌, ◌≡◌}
use laptop_bap_demo.Base.Json.{Fields, Json, truthy}
use laptop_bap_demo.Base.Run.{Except, Except-cases, Run, bind_cases, ok, raised, ◌>>=◌}
use laptop_bap_demo.Enterprise.Audit.{emit}
use laptop_bap_demo.Enterprise.Audit.Append.{next_columns}
use laptop_bap_demo.Enterprise.Audit.Columns.{stored_columns}
use laptop_bap_demo.Enterprise.World.{Machine, World, draw, or_drawn}

-- The same state but for the log and the number of draws.
pub record SameBut (v w : World) : Type 0 where
  pub grants : v.grants ≡ w.grants
  pub approvals : v.approvals ≡ w.approvals
  pub writing : v.writing ≡ w.writing
  pub rows : v.rows ≡ w.rows
  pub index : v.index ≡ w.index
  pub now : v.now ≡ w.now

pub emit-SameBut :
    (m : Machine) (source kind message : String) (details : Fields) (level : String) (w : World)
    → SameBut (emit m source kind message details level w).1 w
unfolding emit
emit-SameBut m source kind message details level w = elim (Bool-cases w.writing) [
  | inl busy ↦
      rw (busy, emit)
        (record {
          grants = refl;
          approvals = refl;
          writing = refl;
          rows = refl;
          index = refl;
          now = refl;
        })
  | inr idle ↦
      elim (Except-cases (stored_columns m (next_columns m source kind message details level w))) [
        | inl (stored, e) ↦
            rw (idle, emit, e)
              (record {
                grants = refl;
                approvals = refl;
                writing = refl;
                rows = refl;
                index = refl;
                now = refl;
              })
        | inr (error, e) ↦
            rw (idle, emit, e)
              (record {
                grants = refl;
                approvals = refl;
                writing = refl;
                rows = refl;
                index = refl;
                now = refl;
              })
      ]
]

pub SameBut-trans : {u v w : World} → SameBut u v → SameBut v w → SameBut u w
SameBut-trans p q = record {
  grants = p.grants ∙ q.grants;
  approvals = p.approvals ∙ q.approvals;
  writing = p.writing ∙ q.writing;
  rows = p.rows ∙ q.rows;
  index = p.index ∙ q.index;
  now = p.now ∙ q.now;
}

pub SameBut-refl : (w : World) → SameBut w w
SameBut-refl w = record {
  grants = refl;
  approvals = refl;
  writing = refl;
  rows = refl;
  index = refl;
  now = refl;
}

pub draw-SameBut : (m : Machine) (bytes : ℕ) (w : World) → SameBut (draw m bytes w).1 w
draw-SameBut m bytes w = record {
  grants = refl;
  approvals = refl;
  writing = refl;
  rows = refl;
  index = refl;
  now = refl;
}

pub or_drawn-SameBut :
    (m : Machine) (value : Json) (prefix : String) (bytes : ℕ) (w : World)
    → SameBut (or_drawn m value prefix bytes w).1 w
or_drawn-SameBut m value prefix bytes w = elim (Bool-cases (truthy value)) [
  | inl given ↦ rw given (SameBut-refl w)
  | inr missing ↦ rw missing (draw-SameBut m bytes w)
]

-- A step that changes only the log and the draws, and what follows it. `stop` says that an exception
-- may end the run where nothing else has changed.
module _ {A : Type 0} (P : Except A × World → Type 0) (w : World)
    (stop : (e : String) (v : World) → SameBut v w → P (raised e, v)) where
  pub same_then :
      {B : Type 0} (m : Run World B) (f : B → Run World A) (v : World)
      → SameBut (m v).1 v
      → SameBut v w
      → ((b : B) → (m v).0 ≡ ok b → (u : World) → SameBut u w → P (f b u))
      → P ((m >>= f) v)
  same_then m f v p q go =
      bind_cases P m f v (λ e _. stop e _ (SameBut-trans p q)) λ b e. go b e _ (SameBut-trans p q)
