-- ===== src/Enterprise/FrontDoor/Routing.antt =====
-- How the front door spreads requests, and what it answers when a replica cannot be reached.
use laptop_bap_demo.Base.{◌⊎◌, String, ◌≡◌, ◌≢◌}
use laptop_bap_demo.Base.Json.{Fields, Json}
use laptop_bap_demo.Base.Run.{Except, ok, raise, raised}
use laptop_bap_demo.Enterprise.Audit.{emit}
use laptop_bap_demo.Enterprise.FrontDoor.{Replicas, port_at}
use laptop_bap_demo.Enterprise.World.{Machine, Response, World}

-- No replica can be reached.
abbrev pub unreachable : String → Replicas
unreachable error port path body method subject = raise error

module _ (m : Machine) (error : String) (w : World) where
  -- an event of the front door could not be written, and the run ends with that exception
  abbrev pub EventFailed : Except Response → Type 0
  EventFailed r =
      (kind : String) × (message : String) × (details : Fields) × (level : String) × (v : World)
      × (e : String) × ((emit m "BAP FRONT DOOR" kind message details level v).0 ≡ raised e)
      × (r ≡ raised e)

  -- the answer is 503 unless an event failed, and the next request goes to another replica
  record Turned (r : Except Response × World) : Type 0 where
    answer : ((body : Fields) × (r.0 ≡ ok (503, body))) ⊎ EventFailed r.0
    turned : port_at r.1.index ≢ port_at w.index
