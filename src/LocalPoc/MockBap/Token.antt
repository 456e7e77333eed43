-- ===== src/LocalPoc/MockBap/Token.antt =====
-- `_sign` and `_verify` of local_poc/mock_bap_server.py: a token is header.claims.signature.
use laptop_bap_demo.Base.{
  Bool, List, Option, String, [], eqb, false, if◌then◌else◌, none, not, some, true, ℕ, ◌&&◌, ◌<>◌,
  ◌∷◌,
}
use laptop_bap_demo.Base.Json.{Fields, Json, dict, str}
use laptop_bap_demo.Base.Text.{split_char}
use laptop_bap_demo.LocalPoc.World.{Host}

abbrev pub header : Fields
header = dict (("alg", str "HS256") ∷ ("typ", str "BAP-DEMO") ∷ [])

-- `hmac.compare_digest`
abbrev pub same_bytes : List ℕ → List ℕ → Bool
same_bytes [] [] = true
same_bytes (x ∷ xs) (y ∷ ys) = eqb x y && same_bytes xs ys
same_bytes _ _ = false

module _ (h : Host) where
  -- `encode`
  abbrev pub encode : Fields → String
  encode value = h.b64encode (h.dumps value)

  abbrev pub unsigned_of : Fields → String
  unsigned_of claims = encode header <> "." <> encode claims

  abbrev pub signature_of : String → Fields → String
  signature_of key claims = h.b64encode (h.hmac_sha256 key (unsigned_of claims))

  unfoldable pub sign : String → Fields → String
  sign key claims = unsigned_of claims <> "." <> signature_of key claims

  -- `json.loads(decoded)`, where decoding raises no `ValueError`
  abbrev pub load : Option (List ℕ) → Option Json
  load none = none
  load (some decoded) = h.loads decoded

  abbrev pub check_signature : List ℕ → String → Option (List ℕ) → Option Json
  check_signature expected payload none = none
  check_signature expected payload (some actual) =
      if not (same_bytes expected actual) then none else load (h.b64decode payload)

  -- `token.split(".")` gives three parts, or unpacking raises and the token is refused
  abbrev pub verify_parts : String → List String → Option Json
  verify_parts key (head ∷ payload ∷ signature ∷ []) =
      check_signature (h.hmac_sha256 key (head <> "." <> payload)) payload (h.b64decode signature)
  verify_parts key _ = none

  unfoldable pub verify : String → String → Option Json
  unfolding split_char
  verify key token = verify_parts key (split_char "." token)
