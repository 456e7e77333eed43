-- ===== src/LocalPoc/Connector.antt =====
-- `LaptopConnectorState` and its HTTP handler, local_poc/laptop_connector.py. The dashboard's page
-- is text, and is left out.
pub mod Classify
pub mod Network
pub mod Sessions
pub mod Tools
pub mod Database
pub mod Server
pub mod Mediation
pub mod Services
pub mod Dashboard
pub mod FailClosed
