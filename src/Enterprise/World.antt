-- ===== src/Enterprise/World.antt =====
-- The state that the enterprise services share, and what they take from outside.
use laptop_bap_demo.Base.{
  Bool, List, Option, String, [], false, if◌then◌else◌, starts_with, ℕ, ◌+◌, ◌<>◌, ◌||◌, ◌∷◌,
}
use laptop_bap_demo.Base.Dict.{Dict}
use laptop_bap_demo.Base.Int.{ℤ}
use laptop_bap_demo.Base.Json.{Fields, Json, truthy}
use laptop_bap_demo.Base.Json.Repr.{str_of}
use laptop_bap_demo.Base.Lists.{drop}
use laptop_bap_demo.Base.Run.{Except, Run, ok, pure, raised, ◌>>=◌}
use laptop_bap_demo.Base.Text.{drop_chars, join, split_char}

-- What the code asks of the machine, of cryptography, of SQLite and of the Cedar command.
pub record Machine : Type 0 where
  -- `secrets.token_hex(bytes)`, by the number of the draw
  pub token_hex : ℕ → ℕ → String
  -- the UTC time stamp of a second
  pub timestamp : ℕ → String
  -- compact JSON with sorted keys, and `json.loads`; `none` is a `ValueError`
  pub dumps : Json → String
  pub loads : List ℕ → Option Json
  pub encode_utf8 : String → List ℕ
  -- the hexadecimal digest of a text
  pub sha256 : String → String
  -- what a column of type INTEGER keeps of a text that is a number
  pub sqlite_integer : String → Option ℤ
  -- URL-safe base 64 without padding, and its decoder on a text whose padding is restored
  pub b64encode : List ℕ → String
  pub b64decode : String → Option (List ℕ)
  -- RSA with PKCS#1 padding and SHA-256, under the key pair of the BAP
  pub rsa_sign : String → List ℕ
  pub rsa_verify : List ℕ → String → Bool
  -- the text of the error that `verify_grant` catches for a token that it cannot read or whose
  -- signature is wrong
  pub grant_error : String → String
  -- `cedar authorize` on a request: what it prints on its two outputs
  pub cedar : Fields → Except (String × String)

-- A row of `audit_events`: the columns other than the sequence and the hash, and the hash.
pub record AuditRow : Type 0 where
  pub sequence : ℕ
  pub columns : Fields
  pub event_hash : String

-- A row of `grants`, by its ID. The token itself is never stored.
pub record GrantRow : Type 0 where
  pub token_hash : String
  pub agent_run : String
  pub action : String
  pub resource : String
  pub expires_at : ℤ
  pub approved_by : String
  pub policy_rule_id : String
  pub policy_revision : String
  pub revoked : Bool

-- A row of `approvals`, by its request ID. `request_json` is the value that the text stands for.
pub record ApprovalRow : Type 0 where
  pub user_id : String
  pub agent_run : String
  pub action : String
  pub resource : String
  pub policy_rule_id : String
  pub policy_revision : String
  pub grant_ttl_seconds : ℤ
  pub request_json : Fields
  pub request_hash : String
  pub status : String

-- `writing` tells that the connection of the current block has written and not yet committed: SQLite
-- has one writer at a time. `rows` is `DATA` of the protected resource, `index` that of the pool of
-- the front door.
pub record World : Type 0 where
  pub events : List AuditRow
  pub grants : Dict GrantRow
  pub approvals : Dict ApprovalRow
  pub writing : Bool
  pub rows : Dict Fields
  pub index : ℕ
  pub now : ℕ
  pub draws : ℕ

abbrev pub Response : Type 0
Response = ℕ × Fields

-- `secrets.token_hex(bytes)`
abbrev pub draw : Machine → ℕ → Run World String
draw m bytes w = (ok (m.token_hex bytes w.draws), record w { draws = w.draws + 1 })

-- `str(value or prefix + secrets.token_hex(bytes))`
abbrev pub or_drawn : Machine → Json → String → ℕ → Run World String
or_drawn m value prefix bytes =
    if truthy value then pure (str_of value) else (do hex ← draw m bytes; pure (prefix <> hex))

-- `store.payload_hash(value)`
abbrev pub payload_hash : Machine → Json → String
payload_hash m value = m.sha256 (m.dumps value)

-- The end of a `with` block: what the connection wrote is kept, or is undone by an exception.
abbrev pub close_connection : {A : Type 0} → World → Except A → Run World A
close_connection before (ok a) w = (ok a, record w { writing = false })
close_connection before (raised e) w =
    (raised e, record w { writing = false; grants = before.grants; approvals = before.approvals })

-- `with self.store.connect() as connection:`
abbrev pub with_connection : {A : Type 0} → Run World A → Run World A
with_connection body w = let (r, w') = body w in close_connection w r w'

-- An exception is the name of its class, a colon, and its message, which is `str(error)`.
unfoldable pub message_of : String → String
unfolding split_char
message_of e = drop_chars 1 (join ":" (drop 1 (split_char ":" e)))

abbrev pub has_class : List String → String → Bool
has_class [] e = false
has_class (c ∷ cs) e = starts_with e (c <> ":") || has_class cs e

-- `except (OSError, ValueError, json.JSONDecodeError)`, with the classes below them
abbrev pub is_policy_error : String → Bool
is_policy_error e =
    has_class
      ("OSError" ∷ "BlockingIOError" ∷ "ChildProcessError" ∷ "ConnectionError" ∷ "BrokenPipeError"
        ∷ "ConnectionAbortedError" ∷ "ConnectionRefusedError" ∷ "ConnectionResetError"
        ∷ "FileExistsError" ∷ "FileNotFoundError" ∷ "InterruptedError" ∷ "IsADirectoryError"
        ∷ "NotADirectoryError" ∷ "PermissionError" ∷ "ProcessLookupError" ∷ "TimeoutError"
        ∷ "ValueError" ∷ "UnicodeError" ∷ "UnicodeDecodeError" ∷ "UnicodeEncodeError"
        ∷ "JSONDecodeError" ∷ [])
      e
