-- ===== src/Enterprise/Bap/Binding.antt =====
-- What `verify_grant`, the look-up of a grant's row and the comparison of the bound fields mean for a
-- token, a table of grants and a request.
use laptop_bap_demo.Base.{
  Bool, Bool-cases, List, Option, String, [], not, false, if◌then◌else◌, inl, inr, none, refl, some,
  sym, true, ℕ, ◌<>◌, ◌∙◌, ◌∷◌, ◌≡◌, ap, arith, ◌==◌,
}
use laptop_bap_demo.Base.Dict.{Dict, find}
use laptop_bap_demo.Base.Int.{leb_ℤ, pos, ℤ}
use laptop_bap_demo.Base.Json.{
  Fields, Json, arr, bool, eq_json, get, get_or, int, nat, null, obj, str,
}
use laptop_bap_demo.Base.Json.Number.{int_of}
use laptop_bap_demo.Base.Json.Repr.{str_ℤ}
use laptop_bap_demo.Base.Run.{Except, ok, raised}
use laptop_bap_demo.Base.Text.{split_char}
use laptop_bap_demo.Enterprise.Bap.Validate.{active_grant, bound_fields, is_active, mismatch}
use laptop_bap_demo.Enterprise.Grants.{
  check_signature, judge_claims, judge_expiry, load_claims, verify_grant, verify_parts,
}
use laptop_bap_demo.Enterprise.World.{GrantRow, Machine}

-- The token is three parts with dots between them; the third is a signature of the first two that the
-- public key of the BAP verifies, the second is the claims, and they expire after the second `now`.
pub record SignedInTime (m : Machine) (now : ℕ) (token : String) (claims : Fields) : Type 0 where
  pub head : String
  pub body : String
  pub signature : String
  pub three_parts : split_char "." token ≡ head ∷ body ∷ signature ∷ []
  pub signature_bytes : List ℕ
  pub signature_decodes : m.b64decode signature ≡ some signature_bytes
  pub signed : m.rsa_verify signature_bytes (head <> "." <> body) ≡ true
  pub body_bytes : List ℕ
  pub body_decodes : m.b64decode body ≡ some body_bytes
  pub body_loads : m.loads body_bytes ≡ some (obj claims)
  pub expiry : ℤ
  pub expires : int_of (get_or claims "exp" (nat 0)) ≡ ok expiry
  pub in_time : leb_ℤ expiry (pos now) ≡ false

module _ (m : Machine) (token : String) (now : ℕ) (claims : Fields) where
  -- the claims are those that were loaded, and they are in time
  abbrev InTime : Fields → Except ℤ → Type 0
  InTime loaded r =
      (loaded ≡ claims) × (expiry : ℤ) × (r ≡ ok expiry) × (leb_ℤ expiry (pos now) ≡ false)

  accepted_expiry :
      (loaded : Fields) (r : Except ℤ)
      → judge_expiry m token now loaded r ≡ ok (inr claims)
      → InTime loaded r
  accepted_expiry loaded (ok expiry) h = elim (Bool-cases (leb_ℤ expiry (pos now))) [
    | inl late ↦ absurd (cc (rw late at h))
    | inr early ↦ (cc (rw early at h), expiry, refl, early)
  ]
  accepted_expiry loaded (raised e) h = elim (Bool-cases (e == "ValueError")) [
    | inl caught ↦ absurd (cc (rw caught at h))
    | inr other ↦ absurd (cc (rw other at h))
  ]

  accepted_claims :
      (v : Option Json)
      → judge_claims m token now v ≡ ok (inr claims)
      → (v ≡ some (obj claims))
        × (expiry : ℤ) × (int_of (get_or claims "exp" (nat 0)) ≡ ok expiry)
        × (leb_ℤ expiry (pos now) ≡ false)
  accepted_claims none h = absurd (cc h)
  accepted_claims (some (obj loaded)) h =
      let (same, expiry, expires, early) = accepted_expiry loaded _ h in
      (
        ap (λ fs. some (obj fs)) same,
        expiry,
        ap (λ fs. int_of (get_or fs "exp" (nat 0))) (sym same) ∙ expires,
        early,
      )
  accepted_claims (some (arr vs)) h = absurd (cc h)
  accepted_claims (some (str s)) h = absurd (cc h)
  accepted_claims (some (int z)) h = absurd (cc h)
  accepted_claims (some (bool b)) h = absurd (cc h)
  accepted_claims (some null) h = absurd (cc h)

  accepted_body :
      (bytes : Option (List ℕ))
      → load_claims m token now bytes ≡ ok (inr claims)
      → (body_bytes : List ℕ) × (bytes ≡ some body_bytes)
        × (m.loads body_bytes ≡ some (obj claims))
        × (expiry : ℤ) × (int_of (get_or claims "exp" (nat 0)) ≡ ok expiry)
        × (leb_ℤ expiry (pos now) ≡ false)
  accepted_body none h = absurd (cc h)
  accepted_body (some bytes) h =
      let (loads, expiry, expires, early) = accepted_claims (m.loads bytes) h in
      (bytes, refl, loads, expiry, expires, early)

  accepted_signature :
      (head body signature : String) (bytes : Option (List ℕ))
      → split_char "." token ≡ head ∷ body ∷ signature ∷ []
      → m.b64decode signature ≡ bytes
      → check_signature m token now head body bytes ≡ ok (inr claims)
      → SignedInTime m now token claims
  accepted_signature head body signature none parts e h = absurd (cc h)
  accepted_signature head body signature (some bytes) parts e h =
      elim (Bool-cases (m.rsa_verify bytes (head <> "." <> body))) [
        | inr forged ↦ absurd (cc (rw forged at h))
        | inl signed ↦
            let (body_bytes, decodes, loads, expiry, expires, early) =
              accepted_body (m.b64decode body) (rw signed at h) in
            record {
              head = head;
              body = body;
              signature = signature;
              three_parts = parts;
              signature_bytes = bytes;
              signature_decodes = e;
              signed = signed;
              body_bytes = body_bytes;
              body_decodes = decodes;
              body_loads = loads;
              expiry = expiry;
              expires = expires;
              in_time = early;
            }
      ]

  accepted_parts :
      (parts : List String)
      → split_char "." token ≡ parts
      → verify_parts m token now parts ≡ ok (inr claims)
      → SignedInTime m now token claims
  accepted_parts [] e h = absurd (cc h)
  accepted_parts (a ∷ []) e h = absurd (cc h)
  accepted_parts (a ∷ b ∷ []) e h = absurd (cc h)
  accepted_parts (a ∷ b ∷ c ∷ []) e h = accepted_signature a b c _ e refl h
  accepted_parts (a ∷ b ∷ c ∷ d ∷ rest) e h = absurd (cc h)

  pub verify_grant-SignedInTime :
      verify_grant m now token ≡ ok (inr claims) → SignedInTime m now token claims
  unfolding verify_grant
  verify_grant-SignedInTime h = accepted_parts _ refl h

-- The value of a claim is the ID of a grant, a number by its digits; the grant is in the table and is
-- not revoked.
abbrev pub id_text : Json → Option String
id_text (str s) = some s
id_text (int z) = some (str_ℤ z)
id_text (bool b) = some (if b then "1" else "0")
id_text v = none

pub record HasActiveRow (grant_id : Json) (grants : Dict GrantRow) : Type 0 where
  pub id : String
  pub named : id_text grant_id ≡ some id
  pub row : GrantRow
  pub stored : find grants id ≡ some row
  pub not_revoked : row.revoked ≡ false

not-false : (b : Bool) → not b ≡ true → b ≡ false
not-false b h = ground arith

active_row :
    (grant_id : Json) (grants : Dict GrantRow) (id : String) (r : Option GrantRow)
    → id_text grant_id ≡ some id
    → find grants id ≡ r
    → ok (is_active r) ≡ ok true
    → HasActiveRow grant_id grants
active_row grant_id grants id none named e h = absurd (cc h)
active_row grant_id grants id (some row) named e h = record {
  id = id;
  named = named;
  row = row;
  stored = e;
  not_revoked =
      not-false row.revoked (ap {A = Except Bool} (λ x. elim x [ ok b ↦ b | raised _ ↦ true ]) h);
}

pub active_grant-HasActiveRow :
    (grant_id : Json) (grants : Dict GrantRow)
    → active_grant grant_id grants ≡ ok true
    → HasActiveRow grant_id grants
active_grant-HasActiveRow (str s) grants h = active_row (str s) grants s _ refl refl h
active_grant-HasActiveRow (int z) grants h = active_row (int z) grants (str_ℤ z) _ refl refl h
active_grant-HasActiveRow (bool b) grants h = active_row (bool b) grants _ _ refl refl h
active_grant-HasActiveRow (arr vs) grants h = absurd (cc h)
active_grant-HasActiveRow (obj fs) grants h = absurd (cc h)
active_grant-HasActiveRow null grants h = absurd (cc h)

-- The claims name the action, the resource and the run of the request, as Python compares values.
pub record SameBinding (payload claims : Fields) : Type 0 where
  pub same_action : eq_json (get payload "action") (get claims "action") ≡ true
  pub same_resource : eq_json (get payload "resource") (get claims "resource") ≡ true
  pub same_run : eq_json (get payload "agent_run") (get claims "agent_run") ≡ true

-- no name is the first to differ
pub mismatch_cons :
    (payload claims : Fields) (name : String) (names : List String)
    → mismatch payload claims (name ∷ names) ≡ none
    → (eq_json (get payload name) (get claims name) ≡ true) × (mismatch payload claims names ≡ none)
mismatch_cons payload claims name names h =
    elim (Bool-cases (eq_json (get payload name) (get claims name))) [
      | inl same ↦ (same, rw same at h)
      | inr other ↦ absurd (cc (rw other at h))
    ]

pub mismatch-SameBinding :
    (payload claims : Fields)
    → mismatch payload claims bound_fields ≡ none
    → SameBinding payload claims
mismatch-SameBinding payload claims h =
    let (action, h1) = mismatch_cons payload claims "action" ("resource" ∷ "agent_run" ∷ []) h in
    let (resource, h2) = mismatch_cons payload claims "resource" ("agent_run" ∷ []) h1 in
    let (run, _) = mismatch_cons payload claims "agent_run" [] h2 in
    record { same_action = action; same_resource = resource; same_run = run }
