-- ===== src/Enterprise/Audit/Redaction.antt =====
-- What `AuditStore.redact`, enterprise_demo/common/audit_store.py, leaves in an event.
use laptop_bap_demo.Base.{
  Bool, Bool-cases, List, String, [], arith, false, false≢true, if◌then◌else◌, inl, inr, ltb, refl,
  suc, sym, true, zero, ℕ, ◌==◌, ◌∙◌, ◌∷◌, ◌≡◌, ◌⊎◌, ◌||◌,
}
use laptop_bap_demo.Base.Json.{
  Fields, Items, Json, arr, bool, cons, end, field, insert, int, nil, null, obj, str,
}
use laptop_bap_demo.Base.Occurs.{is_in-take_chars}
use laptop_bap_demo.Base.Text.{is_in, lower, lower-take_chars, take_chars}
use laptop_bap_demo.Enterprise.Audit.Redact.{
  collect, is_sensitive, occurs, redact, redact_dict, redact_items, sensitive_words,
}

-- one of the words stands in the text
abbrev pub AnyIn : List String → String → Type 0
AnyIn [] text = ⊥
AnyIn (word ∷ words) text = (is_in word text ≡ true) ⊎ AnyIn words text

-- a word for a credential stands in the key, read in lower case
abbrev pub NamesCredential : String → Type 0
NamesCredential key =
    AnyIn
      ("authorization" ∷ "password" ∷ "passwd" ∷ "secret" ∷ "token" ∷ "apikey" ∷ "api_key"
        ∷ "api-key" ∷ "privatekey" ∷ "private_key" ∷ "private-key" ∷ [])
      (lower key)

or_true : (b : Bool) → (b || true) ≡ true
or_true true = refl
or_true false = refl

AnyIn-occurs : (words : List String) (text : String) → AnyIn words text → occurs words text ≡ true
AnyIn-occurs [] text here = absurd here
AnyIn-occurs (word ∷ words) text (inl here) = rw here refl
AnyIn-occurs (word ∷ words) text (inr later) =
    rw (AnyIn-occurs words text later) (or_true (is_in word text))

NamesCredential-is_sensitive : (key : String) → NamesCredential key → is_sensitive key ≡ true
unfolding is_sensitive
NamesCredential-is_sensitive key named = AnyIn-occurs sensitive_words (lower key) named

mutual
  -- Under a sensitive key, however deep, there is the mark of the redaction and nothing else.
  pub Clean : Json → Type 0
  Clean (obj fs) = CleanFields fs
  Clean (arr vs) = CleanItems vs
  Clean (str s) = Unit
  Clean null = Unit
  Clean (bool b) = Unit
  Clean (int i) = Unit

  pub CleanFields : Fields → Type 0
  CleanFields end = Unit
  CleanFields (field k v fs) =
      (NamesCredential k → v ≡ str "[REDACTED]") × (Clean v × CleanFields fs)

  pub CleanItems : Items → Type 0
  CleanItems nil = Unit
  CleanItems (cons v vs) = Clean v × CleanItems vs

occurs-take_chars :
    (words : List String) (n : ℕ) (s : String)
    → occurs words (take_chars n s) ≡ true
    → occurs words s ≡ true
occurs-take_chars [] n s h = h
occurs-take_chars (word ∷ words) n s h =
    ground (arith, is_in-take_chars n s word, occurs-take_chars words n s)

is_sensitive-take_chars :
    (n : ℕ) (key : String) → is_sensitive (take_chars n key) ≡ true → is_sensitive key ≡ true
unfolding is_sensitive
is_sensitive-take_chars n key h =
    occurs-take_chars sensitive_words n (lower key) (rw (lower-take_chars n key) at h)

insert-Clean :
    (k : String) (v : Json) (d : Fields)
    → (NamesCredential k → v ≡ str "[REDACTED]")
    → Clean v
    → CleanFields d
    → CleanFields (insert k v d)
unfolding insert CleanFields
insert-Clean k v end marked clean here = (marked, (clean, tt))
insert-Clean k v (field j w fs) marked clean (first, (old, rest)) = elim (Bool-cases (j == k)) [
  | inl same ↦ rw same (marked, (clean, rest))
  | inr other ↦ rw other (first, (old, insert-Clean k v fs marked clean rest))
]

marked-entry :
    (key : String) (n : ℕ) (v : Json) (b : Bool)
    → is_sensitive key ≡ b
    → is_sensitive (take_chars n key) ≡ true
    → (if b then str "[REDACTED]" else v) ≡ str "[REDACTED]"
marked-entry key n v true e h = refl
marked-entry key n v false e h = absurd (false≢true (sym e ∙ is_sensitive-take_chars n key h))

Clean-if : (text : String) (v : Json) (b : Bool) → Clean v → Clean (if b then str text else v)
unfolding Clean
Clean-if text v true clean = tt
Clean-if text v false clean = clean

mutual
  unfolding Clean redact

  redact-Clean : (depth : ℕ) (v : Json) → Clean (redact depth v)
  redact-Clean depth (obj fs) =
      Clean-if "[MAX_DEPTH]" (obj (collect depth fs end)) (ltb 8 depth)
        (collect-Clean depth fs end tt)
  redact-Clean depth (arr vs) =
      Clean-if "[MAX_DEPTH]" (arr (redact_items depth 100 vs)) (ltb 8 depth)
        (items-Clean depth 100 vs)
  redact-Clean depth (str s) = Clean-if "[MAX_DEPTH]" (str (take_chars 4000 s)) (ltb 8 depth) tt
  redact-Clean depth null = Clean-if "[MAX_DEPTH]" null (ltb 8 depth) tt
  redact-Clean depth (bool b) = Clean-if "[MAX_DEPTH]" (bool b) (ltb 8 depth) tt
  redact-Clean depth (int i) = Clean-if "[MAX_DEPTH]" (int i) (ltb 8 depth) tt

  collect-Clean :
      (depth : ℕ) (fs done : Fields) → CleanFields done → CleanFields (collect depth fs done)
  collect-Clean depth end done here = here
  collect-Clean depth (field k v fs) done here = collect-Clean depth fs _ (
      insert-Clean (take_chars 120 k) _ done
        (λ named.
          marked-entry k 120 (redact (suc depth) v) (is_sensitive k) refl
            (NamesCredential-is_sensitive (take_chars 120 k) named))
        (Clean-if "[REDACTED]" (redact (suc depth) v) (is_sensitive k) (redact-Clean (suc depth) v))
        here)

  items-Clean : (depth n : ℕ) (vs : Items) → CleanItems (redact_items depth n vs)
  items-Clean depth zero vs = tt
  items-Clean depth (suc n) nil = tt
  items-Clean depth (suc n) (cons v vs) = (redact-Clean (suc depth) v, items-Clean depth n vs)

-- In the details that an event of the audit log keeps, at any depth, a key in which a word for a
-- credential stands, in any case and also when the key was cut to 120 characters, has the text "[REDACTED]" as its value.
pub redact_dict-Clean : (details : Fields) → CleanFields (redact_dict details)
unfolding redact_dict Clean
redact_dict-Clean details = collect-Clean 0 details end tt
