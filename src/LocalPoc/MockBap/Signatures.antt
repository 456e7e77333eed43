-- ===== src/LocalPoc/MockBap/Signatures.antt =====
-- Tokens: what `_sign` makes is read back by `_verify`, and `_verify` accepts no other signature.
use text.Mathlib.TextLemmas.{append_assoc}
use laptop_bap_demo.Base.{
  List, Option, String, [], ap, arith, none, refl, some, sym, true, ℕ, ◌<>◌, ◌∙◌, ◌∷◌, ◌≡◌,
}
use laptop_bap_demo.Base.Json.{Fields, Json, lookup, obj}
use laptop_bap_demo.Base.Text.{lacks, split_char, split_char-append, split_char-lacks}
use laptop_bap_demo.LocalPoc.MockBap.Token.{
  check_signature, encode, header, same_bytes, sign, signature_of, unsigned_of, verify,
  verify_parts,
}
use laptop_bap_demo.LocalPoc.World.{Host}

-- What the encodings give for one value of the claims: base 64 has no dot and is decoded, and
-- `json.loads` gives back the entries of what `json.dumps` wrote, in the order of the sorted keys.
pub record IsReadable (h : Host) (key : String) (claims decoded : Fields) : Type 0 where
  pub header_no_dot : lacks "." (encode h header) ≡ true
  pub claims_no_dot : lacks "." (encode h claims) ≡ true
  pub signature_no_dot : lacks "." (signature_of h key claims) ≡ true
  pub signature_decodes :
      h.b64decode (signature_of h key claims) ≡ some (h.hmac_sha256 key (unsigned_of h claims))
  pub claims_decode : h.b64decode (encode h claims) ≡ some (h.dumps claims)
  pub claims_load : h.loads (h.dumps claims) ≡ some (obj decoded)
  pub same_entries : (k : String) → lookup decoded k ≡ lookup claims k

same_bytes_refl : (bs : List ℕ) → same_bytes bs bs ≡ true
same_bytes_refl [] = refl
same_bytes_refl (b ∷ bs) = ground (arith, same_bytes_refl bs)

same_bytes-path : (xs ys : List ℕ) → same_bytes xs ys ≡ true → xs ≡ ys
same_bytes-path [] [] e = refl
same_bytes-path (x ∷ xs) (y ∷ ys) e = ground (arith, same_bytes-path xs ys)
same_bytes-path [] (y ∷ ys) e = cc
same_bytes-path (x ∷ xs) [] e = cc

module _ (h : Host) (key : String) where
  parts-sign :
      (claims decoded : Fields)
      → IsReadable h key claims decoded
      → split_char "." (sign h key claims)
        ≡ encode h header ∷ encode h claims ∷ signature_of h key claims ∷ []
  unfolding sign
  parts-sign claims decoded r =
      rw (append_assoc, append_assoc)
        (split_char-append "." _ _ r.header_no_dot
          ∙ ap (λ t. encode h header ∷ t)
              (split_char-append "." _ _ r.claims_no_dot
                ∙ ap (λ t. encode h claims ∷ t) (split_char-lacks "." _ r.signature_no_dot)))

  -- A token that `_sign` made from claims is verified, and its claims are read back: the decoded dict
  -- has the entries of the signed one.
  pub verify-sign :
      (claims decoded : Fields)
      → IsReadable h key claims decoded
      → verify h key (sign h key claims) ≡ some (obj decoded)
  unfolding verify
  verify-sign claims decoded r =
      rw (parts-sign claims decoded r)
        (rw (r.signature_decodes, same_bytes_refl, r.claims_decode) r.claims_load)

  -- What a token must be for `_verify` to accept it.
  pub record IsSigned (token : String) (value : Json) : Type 0 where
    pub head : String
    pub payload : String
    pub signature : String
    pub parts : split_char "." token ≡ head ∷ payload ∷ signature ∷ []
    pub authentic : h.b64decode signature ≡ some (h.hmac_sha256 key (head <> "." <> payload))
    pub decoded : List ℕ
    pub decodes : h.b64decode payload ≡ some decoded
    pub loads : h.loads decoded ≡ some value

  module _ {token head payload signature : String} {value : Json}
      (parts : split_char "." token ≡ head ∷ payload ∷ signature ∷ []) where
    signed_cases :
        (mac : Option (List ℕ))
        → h.b64decode signature ≡ mac
        → (body : Option (List ℕ)) → h.b64decode payload ≡ body
        → check_signature h (h.hmac_sha256 key (head <> "." <> payload)) payload mac ≡ some value
        → IsSigned token value
    signed_cases none e body b v = cc
    signed_cases (some mac) e none b v = ground arith
    signed_cases (some mac) e (some bytes) b v = record {
      head = head;
      payload = payload;
      signature = signature;
      parts = parts;
      authentic =
          let same : same_bytes (h.hmac_sha256 key (head <> "." <> payload)) mac ≡ true =
            ground arith in
          e ∙ ap some (sym (same_bytes-path _ _ same));
      decoded = bytes;
      decodes = b;
      loads = ground arith;
    }

  parts_sound :
      (token : String) (ps : List String) (value : Json)
      → split_char "." token ≡ ps
      → verify_parts h key ps ≡ some value
      → IsSigned token value
  parts_sound token (head ∷ payload ∷ signature ∷ []) value e v =
      signed_cases e (h.b64decode signature) refl (h.b64decode payload) refl v
  parts_sound token [] value e v = cc
  parts_sound token (a ∷ []) value e v = cc
  parts_sound token (a ∷ b ∷ []) value e v = cc
  parts_sound token (a ∷ b ∷ c ∷ d ∷ ps) value e v = cc

  -- `_verify` accepts a token only if it has three parts, the third decodes to the authentication
  -- code of the first two under the signing key, and the second decodes to the value that it returns.
  pub verify-IsSigned :
      (token : String) (value : Json) → verify h key token ≡ some value → IsSigned token value
  unfolding verify
  verify-IsSigned token value v = parts_sound token (split_char "." token) value refl v
