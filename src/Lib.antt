-- ===== src/Lib.antt =====
-- The agent demo: an agent proposes tool calls, a connector intercepts them, a business
-- authorization platform (BAP) decides and issues grants, and a gateway validates a grant before the
-- database is reached.
--
-- The parts, and the files that model them:
-- - Base: Python's values. Base/Json is JSON (the payload of every request, with `truthy`, `str`,
--   `int`, `==` and `get`), Base/Dict is `dict`, Base/Text is `str`, Base/Run is a method that changes
--   a state and may raise: what is written before an exception stays written.
-- - LocalPoc: local_poc, one process with three HTTP services over one event bus. LocalPoc/World is
--   its state and LocalPoc/World.Host what it takes from the machine (random draws, time stamps,
--   the environment, HMAC, base 64, json).
--   . LocalPoc/EventBus is `EventBus` of local_poc/demo_common.py.
--   . LocalPoc/MockBap is local_poc/mock_bap_server.py: one function per method of `MockBAPState`
--     with the method's name, and `do_post` for the handler.
--   . LocalPoc/MockDb is local_poc/mock_db_server.py, in the same way.
--   . LocalPoc/Connector is local_poc/laptop_connector.py. Its calls of the other services go
--     through LocalPoc/Connector/Network: a service answers with a status and an object or the call
--     raises, and `services` are the two that the process starts.
--   . LocalPoc/Hook is local_poc/hooks/bap_hook.py, over a connector that answers or raises.
--   . LocalPoc/PythonAgent is local_poc/python_agent.py: the action schema, and in
--     LocalPoc/PythonAgent/Session a run of the agent as the list of its calls, newest first, with
--     the choice of the model in LocalPoc/PythonAgent/Models.
--   . LocalPoc/DbClient is local_poc/tools/db_client.py.
--   . LocalPoc/Bridge is local_poc/ccbridge.py. A request goes through Bridge/Messages, Bridge/Content
--     and Bridge/Tools to the payload of Bridge/Proxy, and the answer of the model through
--     Bridge/Response, Bridge/Calls and Bridge/Inputs to a message, which Bridge/Stream cuts into
--     events. Bridge/Requests is the pattern of `explicitly_requested_single_tool` and Bridge/Calls
--     those of `<tool_call>`, as matchers by clauses. Bridge/Config holds what the bridge reads from
--     the environment, the draws, json and the two calls of the model.
-- - Enterprise: enterprise_demo, whose Python services share one SQLite file. Enterprise/World is the
--   shared state (the tables, and `writing`, the write lock of an open connection) and
--   Enterprise/World.Machine what the services take from outside: draws, time stamps, json, SHA-256,
--   RSA, base 64, what SQLite keeps of a number in a text, and the Cedar command.
--   . Enterprise/Audit is enterprise_demo/common/audit_store.py: `emit` (Audit), `redact`
--     (Audit/Redact), `_extract_fields` and the binding of columns (Audit/Columns), `verify_chain`,
--     the migration of an older log (Audit/Backfill), `search_events` (Audit/Search), the view
--     `access_audit_view` and `search_access` (Audit/Access), and `snapshot` (Audit/Snapshot).
--   . Enterprise/Dashboard is enterprise_demo/central_dashboard/app.py: `query_filters` and the GET
--     routes, over the queries of the audit store.
--   . Enterprise/Supervisor is enterprise_demo/orchestration: the operating system as the scripts see it
--     and `terminate` (Supervisor), `main` and `wait_http` of start_demo.py (Supervisor/Start), and
--     `main` of stop_demo.py (Supervisor/Stop). It stands apart from the services that it starts.
--   . Enterprise/Grants is enterprise_demo/common/grants.py.
--   . Enterprise/Policy is enterprise_demo/enterprise_bap/policy_engine.py.
--   . Enterprise/Bap is enterprise_demo/enterprise_bap/app.py: Bap/Issue, Bap/Authorize, Bap/Approve
--     and Bap/Validate hold the methods of `BAPApplication`, Bap the POST handler.
--   . Enterprise/Gateway, Enterprise/Resource and Enterprise/FrontDoor are the app.py of
--     enterprise_demo/resource_gateway, protected_resource and bap_front_door.
--
-- An exception is a text: in Enterprise the name of its class, a colon and its message.
-- A request is handled in one second (`World.now`), and requests follow one another: the locks of
-- the source, and two requests at once, are not modelled. Two loops of LocalPoc take fuel, the search for
-- `<tool_call>` and its removal in LocalPoc/Bridge/Calls: each round takes a character at least, and
-- the fuel is the number of characters. In Enterprise/Supervisor the waits count rounds, of 0.2 or 0.25
-- seconds at least, up to their deadlines, and the loop of the supervisor takes the number of its rounds
-- as an argument, since it goes on until a signal comes. A process that is killed is taken to end at
-- once.
-- Not modelled: HTTP, TLS and the transport of JSON, printing, the pages of the dashboards and the GET
-- routes of LocalPoc, the scripts of LocalPoc that start processes, the tests, and the C# programs.
-- Cryptography is a parameter.
-- In Enterprise the creation of the tables is left out as well, and the C# connector that calls these
-- services.

pub mod Base
pub mod Enterprise
pub mod LocalPoc
