-- ===== src/LocalPoc.antt =====
-- The laptop demo (local_poc): one process that runs the mock BAP, the mock database and the
-- laptop connector over one event bus.
pub mod EventBus
pub mod World
pub mod MockBap
pub mod MockDb
pub mod Connector
pub mod Hook
pub mod PythonAgent
pub mod Bridge
pub mod DbClient
mod Tests
