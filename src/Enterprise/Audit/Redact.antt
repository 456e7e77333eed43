-- ===== src/Enterprise/Audit/Redact.antt =====
-- `AuditStore.redact`, enterprise_demo/common/audit_store.py.
use laptop_bap_demo.Base.{
  Bool, List, String, [], false, if◌then◌else◌, ltb, suc, zero, ℕ, ◌||◌, ◌∷◌,
}
use laptop_bap_demo.Base.Json.{Fields, Items, Json, arr, cons, end, field, insert, nil, obj, str}
use laptop_bap_demo.Base.Text.{is_in, lower, take_chars}

-- the alternatives of `_sensitive_key`, in lower case
abbrev pub sensitive_words : List String
sensitive_words =
    "authorization" ∷ "password" ∷ "passwd" ∷ "secret" ∷ "token" ∷ "apikey" ∷ "api_key" ∷ "api-key"
    ∷ "privatekey" ∷ "private_key" ∷ "private-key" ∷ []

abbrev pub occurs : List String → String → Bool
occurs [] key = false
occurs (word ∷ words) key = is_in word key || occurs words key

-- `_sensitive_key.search(key)`
unfoldable pub is_sensitive : String → Bool
is_sensitive key = occurs sensitive_words (lower key)

unfoldable mutual
  -- `redact`. JSON has no values of other classes.
  pub redact : ℕ → Json → Json
  redact depth (obj fs) = if ltb 8 depth then str "[MAX_DEPTH]" else obj (collect depth fs end)
  redact depth (arr vs) = if ltb 8 depth then str "[MAX_DEPTH]" else arr (redact_items depth 100 vs)
  redact depth (str s) = if ltb 8 depth then str "[MAX_DEPTH]" else str (take_chars 4000 s)
  redact depth v = if ltb 8 depth then str "[MAX_DEPTH]" else v

  -- the entries so far, in the order of their keys; a later entry wins where two keys agree after
  -- the cut
  pub collect : ℕ → Fields → Fields → Fields
  collect depth end done = done
  collect depth (field k v fs) done = collect depth fs (
      insert (take_chars 120 k) (if is_sensitive k then str "[REDACTED]" else redact (suc depth) v)
        done)

  -- `value[:100]`
  pub redact_items : ℕ → ℕ → Items → Items
  redact_items depth zero vs = nil
  redact_items depth (suc n) nil = nil
  redact_items depth (suc n) (cons v vs) = cons (redact (suc depth) v) (redact_items depth n vs)

-- `redact` of a dict, from depth 0
unfoldable pub redact_dict : Fields → Fields
unfolding redact is_sensitive
redact_dict fs = collect 0 fs end
