-- ===== src/LocalPoc/EventBus.antt =====
-- `DemoEvent` and `EventBus` of local_poc/demo_common.py. The printed line is not modelled.
-- An event keeps the details as they were when it was sent. In the source it refers to the sender's
-- dict, so a session that changes later shows in its older events.
pub mod History
use laptop_bap_demo.Base.{List, String, [], map, ℕ, ◌++◌, ◌+◌, ◌∷◌}
use laptop_bap_demo.Base.Json.{Fields, Json, dict, nat, obj, str}
use laptop_bap_demo.Base.Lists.{last_n}

pub record DemoEvent : Type 0 where
  pub sequence : ℕ
  pub timestamp : String
  pub source : String
  pub kind : String
  pub message : String
  pub details : Fields
  pub level : String

-- `_events`, `_max_events`, `_sequence`. Each method holds the lock for its whole change.
pub record EventBus : Type 0 where
  pub events : List DemoEvent
  pub max_events : ℕ
  pub sequence : ℕ

unfoldable pub new_bus : ℕ → EventBus
new_bus max_events = record { events = []; max_events = max_events; sequence = 0 }

abbrev pub demo_event : ℕ → String → String → String → String → Fields → String → DemoEvent
demo_event sequence timestamp source kind message details level = record {
  sequence = sequence;
  timestamp = timestamp;
  source = source;
  kind = kind;
  message = message;
  details = details;
  level = level;
}

-- `EventBus.emit`, without its return value, which no caller reads.
unfoldable pub emit : String → String → String → String → Fields → String → EventBus → EventBus
unfolding last_n
emit timestamp source kind message details level bus = record bus {
  events = last_n bus.max_events (
      bus.events ++ demo_event (bus.sequence + 1) timestamp source kind message details level ∷ []);
  sequence = bus.sequence + 1;
}

abbrev pub event_json : DemoEvent → Json
event_json e = obj (
    dict (
      ("sequence", nat e.sequence)
      ∷ ("timestamp", str e.timestamp)
      ∷ ("source", str e.source)
      ∷ ("kind", str e.kind)
      ∷ ("message", str e.message)
      ∷ ("details", obj e.details)
      ∷ ("level", str e.level)
      ∷ []))

-- `snapshot`
unfoldable pub snapshot : EventBus → List Json
snapshot bus = map event_json bus.events

-- `clear`
unfoldable pub clear : EventBus → EventBus
clear bus = record bus { events = []; sequence = 0 }
