-- ===== src/Enterprise/Grants.antt =====
-- `sign_grant` and `verify_grant`, enterprise_demo/common/grants.py. The key files are read by
-- `rsa_sign` and `rsa_verify` of the machine.
use laptop_bap_demo.Base.{
  List, Option, String, [], if◌then◌else◌, inl, inr, none, some, ℕ, ◌<>◌, ◌==◌, ◌∷◌, ◌⊎◌,
}
use laptop_bap_demo.Base.Int.{leb_ℤ, pos, ℤ}
use laptop_bap_demo.Base.Json.{Fields, Json, dict, get_or, nat, obj, str}
use laptop_bap_demo.Base.Json.Number.{int_of}
use laptop_bap_demo.Base.Run.{Except, ok, raised}
use laptop_bap_demo.Base.Text.{split_char}
use laptop_bap_demo.Enterprise.World.{Machine}

abbrev header : Fields
header =
    dict (("alg", str "RS256") ∷ ("typ", str "BAP-GRANT") ∷ ("kid", str "demo-bap-signing-1") ∷ [])

module _ (m : Machine) where
  abbrev encode_json : Fields → String
  encode_json value = m.b64encode (m.encode_utf8 (m.dumps (obj value)))

  abbrev pub signing_input : Fields → String
  signing_input claims = encode_json header <> "." <> encode_json claims

  unfoldable pub sign_grant : Fields → String
  sign_grant claims = signing_input claims <> "." <> m.b64encode (m.rsa_sign (signing_input claims))

  -- What `verify_grant` returns: the claims, or the reason of the refusal. This is the reason where an
  -- error is caught.
  abbrev pub invalid : String → String ⊎ Fields
  invalid token = inl ("Invalid grant: " <> m.grant_error token)

  -- `int(claims.get("exp", 0)) <= int(time.time())`; a `TypeError` is not caught
  abbrev pub judge_expiry : String → ℕ → Fields → Except ℤ → Except (String ⊎ Fields)
  judge_expiry token now claims (ok exp) =
      if leb_ℤ exp (pos now) then ok (inl "Grant expired") else ok (inr claims)
  judge_expiry token now claims (raised e) =
      if e == "ValueError" then ok (invalid token) else raised e

  -- claims that are not an object have no `get`
  abbrev pub judge_claims : String → ℕ → Option Json → Except (String ⊎ Fields)
  judge_claims token now none = ok (invalid token)
  judge_claims token now (some (obj claims)) =
      judge_expiry token now claims (int_of (get_or claims "exp" (nat 0)))
  judge_claims token now (some v) = raised "AttributeError: no attribute 'get'"

  abbrev pub load_claims : String → ℕ → Option (List ℕ) → Except (String ⊎ Fields)
  load_claims token now none = ok (invalid token)
  load_claims token now (some bytes) = judge_claims token now (m.loads bytes)

  abbrev pub check_signature :
      String → ℕ → String → String → Option (List ℕ) → Except (String ⊎ Fields)
  check_signature token now head claims none = ok (invalid token)
  check_signature token now head claims (some signature) =
      if m.rsa_verify signature (head <> "." <> claims)
      then load_claims token now (m.b64decode claims)
      else ok (invalid token)

  abbrev pub verify_parts : String → ℕ → List String → Except (String ⊎ Fields)
  verify_parts token now (head ∷ claims ∷ signature ∷ []) =
      check_signature token now head claims (m.b64decode signature)
  verify_parts token now _ = ok (invalid token)

  unfoldable pub verify_grant : ℕ → String → Except (String ⊎ Fields)
  unfolding split_char
  verify_grant now token = verify_parts token now (split_char "." token)
