-- ===== src/LocalPoc/Connector/Network.antt =====
-- `json_request` as the connector calls it: a service answers with a status and an object, or the
-- call raises (no connection, a time-out). A service runs in the same process and may change the
-- world.
use laptop_bap_demo.LocalPoc.MockBap
use laptop_bap_demo.LocalPoc.MockDb
use laptop_bap_demo.Base.{Option, String}
use laptop_bap_demo.Base.Json.{Fields}
use laptop_bap_demo.Base.Run.{Run, raise}
use laptop_bap_demo.LocalPoc.World.{Host, Response, World}

pub record Network : Type 0 where
  -- `json_request(f"{self.bap_url}{path}", payload)`
  pub bap : String → Fields → Run World Response
  -- `json_request(f"{self.db_url}/query", payload, headers={"X-Demo-Gateway-Secret": …})`
  pub db : String → Option String → Fields → Run World Response

-- The two services of the demo process.
abbrev pub services : Host → Network
services h = record { bap = MockBap.do_post h; db = MockDb.do_post h }

-- No service is reachable.
abbrev pub offline : Network
offline = record {
  bap = λ path payload. raise "URLError";
  db = λ path secret payload. raise "URLError";
}
