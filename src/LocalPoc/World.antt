-- ===== src/LocalPoc/World.antt =====
-- The state of the demo process, and what the services take from outside it.
use laptop_bap_demo.LocalPoc.EventBus
use laptop_bap_demo.Base.{Bool, List, Option, String, ℕ, ◌+◌}
use laptop_bap_demo.Base.Dict.{Dict}
use laptop_bap_demo.Base.Json.{Fields, Json}
use laptop_bap_demo.Base.Run.{Run, modify, ok}
use laptop_bap_demo.LocalPoc.EventBus.{EventBus, emit}

-- What the code asks of the machine and of cryptography.
pub record Host : Type 0 where
  -- `secrets.token_hex(bytes)`, by the number of the draw
  pub token_hex : ℕ → ℕ → String
  -- the local time stamp of a second
  pub timestamp : ℕ → String
  pub environ : String → Option String
  -- `os.uname().nodename`, `none` where there is no `os.uname`
  pub nodename : Option String
  -- compact JSON with sorted keys, and `json.loads`; `none` is a `ValueError`
  pub dumps : Fields → List ℕ
  pub loads : List ℕ → Option Json
  -- URL-safe base 64 without padding, and its decoder on a text whose padding is restored
  pub b64encode : List ℕ → String
  pub b64decode : String → Option (List ℕ)
  -- HMAC with SHA-256 of a text under the signing key
  pub hmac_sha256 : String → String → List ℕ

-- A session that the connector holds (a dict with these keys).
pub record Session : Type 0 where
  pub session_id : String
  pub agent_run : String
  pub agent : String
  pub user : String
  pub device : String
  pub cwd : Json
  pub task : String
  pub started_at : ℕ
  pub status : String
  pub hook_client : Fields

-- What `_classify` returns: a dict whose keys depend on its category.
pub data Classified : Type 0 where
  local : (summary : String) → Classified
  bypass : (summary : String) → Classified
  guarded : (action resource operation summary : String) → Classified

pub record Authorization : Type 0 where
  pub session_id : String
  pub classification : Classified
  pub bap : Fields
  pub created_at : ℕ
  pub hook_client : Fields

-- `MockBAPState`
pub record BapState : Type 0 where
  pub pending : Dict Fields
  pub grants : Dict Fields
  pub signing_key : String

-- `LaptopConnectorState`
pub record ConnectorState : Type 0 where
  pub sessions : Dict Session
  pub authorizations : Dict Authorization
  pub shutdown : Bool

-- `rows` is `MockDatabaseState`. Every service holds the one event bus. `now` is the second in
-- which the current request is handled, and `draws` counts the calls of `token_hex`.
pub record World : Type 0 where
  pub events : EventBus
  pub bap : BapState
  pub rows : Dict Fields
  pub connector : ConnectorState
  pub now : ℕ
  pub draws : ℕ

-- A status and a JSON object.
abbrev pub Response : Type 0
Response = ℕ × Fields

module _ (h : Host) where
  -- `self.events.emit(…)`
  abbrev pub emit_event : String → String → String → Fields → String → Run World (Unit {0})
  emit_event source kind message details level = modify λ w. record w {
    events = EventBus.emit (h.timestamp w.now) source kind message details level w.events;
  }

  -- `secrets.token_hex(bytes)`
  abbrev pub token_hex : ℕ → Run World String
  token_hex bytes w = (ok (h.token_hex bytes w.draws), record w { draws = w.draws + 1 })
