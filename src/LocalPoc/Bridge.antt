-- ===== src/LocalPoc/Bridge.antt =====
-- local_poc/ccbridge.py: Claude Code's API over a local model with the API of OpenAI.
pub mod Config
pub mod Content
pub mod Inputs
pub mod Messages
pub mod Requests
pub mod Tools
pub mod Calls
pub mod Response
pub mod Stream
pub mod Proxy
