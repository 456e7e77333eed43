-- ===== src/Enterprise/Bap/Validity.antt =====
-- What `validate` of the BAP accepts, and that it accepts no grant of a revoked session.
use laptop_bap_demo.Base.{
  Bool, Option, Option-cases, String, [], ap, arith, false, if◌then◌else◌, inl, inr, none, not,
  refl, some, true, ℕ, ◌&&◌, ◌==◌, ◌∙◌, ◌∷◌, ◌≡◌, ◌≢◌, ◌⊎◌,
}
use laptop_bap_demo.Base.Dict.{Dict, find}
use laptop_bap_demo.Base.Json.{Fields, get, get_or, str}
use laptop_bap_demo.Base.Json.Repr.{str_of}
use laptop_bap_demo.Base.Run.{Except, Preserves, Preserves-pure, bind_cases, lift, ok, raised}
use laptop_bap_demo.Enterprise.Audit.{emit}
use laptop_bap_demo.Enterprise.Bap.Entitlement.{SameGrants, emit_then}
use laptop_bap_demo.Enterprise.Bap.Binding.{
  HasActiveRow, SameBinding, SignedInTime, active_grant-HasActiveRow, mismatch-SameBinding,
  verify_grant-SignedInTime,
}
use laptop_bap_demo.Enterprise.Bap.Validate.{
  active_grant, base_of, bound_fields, is_active, mismatch, refuse, report_revoked, revoke_rows,
  revoke_session, validate, validate_active, validate_verified,
}
use laptop_bap_demo.Enterprise.Grants.{verify_grant}
use laptop_bap_demo.Enterprise.World.{GrantRow, Machine, Response, World}

-- Why a grant is valid for a request: its token is signed by the BAP and has not expired at the second
-- of the request, the row of its ID is there and not revoked, and its claims name the action, the
-- resource and the run of the request.
pub record Valid (m : Machine) (payload : Fields) (w : World) : Type 0 where
  pub claims : Fields
  pub verified : SignedInTime m w.now (str_of (get_or payload "token" (str ""))) claims
  pub active : HasActiveRow (get claims "grant_id") w.grants
  pub same_fields : SameBinding payload claims

abbrev status_of : Except Response → ℕ
status_of (ok x) = x.0
status_of (raised e) = 0

not_200 : (n : ℕ) → n ≡ 403 → n ≢ 200
not_200 n e f = ground arith

module _ (m : Machine) (replica_id : String) (payload : Fields) (w : World) where
  -- an answer 200 has its reason
  record Explained (r : Except Response × World) : Type 0 where
    explain : (body : Fields) → r.0 ≡ ok (200, body) → Valid m payload w

  stopped : (e : String) (v : World) → Explained (raised e, v)
  stopped e v = record { explain = λ body p. absurd (cc p) }

  refused :
      (details : Fields) (reason : String) (v : World)
      → Explained (refuse m replica_id details reason v)
  refused details reason v =
      bind_cases Explained (emit m replica_id "GRANT_VALIDATION_DECISION" reason _ "error") _ v
        (λ e _. stopped e _)
        λ _ _. record { explain = λ body p. absurd (not_200 403 refl (ap status_of p)) }

  active_Explained :
      (claims details : Fields) (active : Bool) (v : World)
      → verify_grant m w.now (str_of (get_or payload "token" (str ""))) ≡ ok (inr claims)
      → active_grant (get claims "grant_id") w.grants ≡ ok active
      → Explained (validate_active m replica_id payload details claims active v)
  active_Explained claims details false v e a = refused _ _ v
  active_Explained claims details true v e a =
      elim (Option-cases (mismatch payload claims bound_fields)) [
        | inr (name, differs) ↦ rw differs (refused details _ v)
        | inl same ↦ record {
          explain = λ body p. record {
            claims = claims;
            verified = verify_grant-SignedInTime m _ _ claims e;
            active = active_grant-HasActiveRow _ w.grants a;
            same_fields = mismatch-SameBinding payload claims same;
          };
        }
      ]

  verified_Explained :
      (base : Fields) (r : String ⊎ Fields)
      → verify_grant m w.now (str_of (get_or payload "token" (str ""))) ≡ ok r
      → Explained (validate_verified m replica_id payload base r w)
  verified_Explained base (inl reason) e = refused base reason w
  verified_Explained base (inr claims) e =
      bind_cases Explained (lift (active_grant (get claims "grant_id") w.grants)) _ w
        (λ x _. stopped x w) λ active a. active_Explained claims _ active w e a

  -- `validate` answers 200 only for a token with a signature that the BAP's public key verifies over its
  -- first two parts, whose claims expire after the second of the request, whose grant is in the table
  -- and not revoked, and whose claims name the action, the resource and the run of the
  -- request.
  pub validate-Valid :
      (body : Fields) → (validate m replica_id payload w).0 ≡ ok (200, body) → Valid m payload w
  unfolding validate
  validate-Valid body p =
      (bind_cases Explained (lift (verify_grant m w.now (str_of (get_or payload "token" (str "")))))
          _ w (λ e _. stopped e w)
          λ r e. verified_Explained (base_of m replica_id payload) r e).explain
        body p

-- a row after the session of a run is revoked
abbrev pub revoked_row : String → GrantRow → GrantRow
revoked_row agent_run row =
    if row.agent_run == agent_run && not row.revoked then record row { revoked = true } else row

abbrev revoked_option : String → Option GrantRow → Option GrantRow
revoked_option agent_run none = none
revoked_option agent_run (some row) = some (revoked_row agent_run row)

find-revoke_rows :
    (agent_run : String) (d : Dict GrantRow) (k : String)
    → find (revoke_rows agent_run d).0 k ≡ revoked_option agent_run (find d k)
unfolding revoke_rows find
find-revoke_rows agent_run [] k = refl
find-revoke_rows agent_run ((id, row) ∷ d) k = ground (arith, find-revoke_rows agent_run d k)

report-Preserves :
    (m : Machine) (replica_id : String) (payload : Fields) (w : World) (agent_run : String)
    (count : ℕ)
    → Preserves (SameGrants w) (report_revoked m replica_id payload agent_run count)
report-Preserves m replica_id payload w agent_run count =
    emit_then m w _ _ _ _ _ _ (Preserves-pure _)

inactive_row :
    (row : GrantRow) (agent_run : String)
    → (row.agent_run == agent_run) ≡ true
    → is_active (some (revoked_row agent_run row)) ≡ false
inactive_row row agent_run same = ground arith

-- After `revoke_session` no grant of its run is active.
revoke_session-inactive :
    (m : Machine) (replica_id : String) (payload : Fields) (w : World) (grant_id : String)
    (row : GrantRow)
    → find w.grants grant_id ≡ some row
    → (row.agent_run == str_of (get_or payload "agent_run" (str ""))) ≡ true
    → active_grant (str grant_id) (revoke_session m replica_id payload w).1.grants ≡ ok false
unfolding revoke_session
revoke_session-inactive m replica_id payload w grant_id row found same =
    let agent_run = str_of (get_or payload "agent_run" (str "")) in
    let rows = (revoke_rows agent_run w.grants).0 in
    let inactive : is_active (find rows grant_id) ≡ false =
      rw (find-revoke_rows, found) (inactive_row row agent_run same) in
    let start = record w { grants = rows; writing = false } in
    ap (λ grants. ok (is_active (find grants grant_id)))
      ((report-Preserves m replica_id payload start agent_run
          (revoke_rows agent_run w.grants).1).after
        start refl)
    ∙ ap ok inactive
