-- ===== src/Lib.antt =====
-- Codex and Claude quota monitor: agents on the users' machines collect quota windows and active
-- tasks and send reports to a server, which keeps the latest state in SQLite and serves a snapshot
-- to a display.
--
-- The parts and their files:
--   Model          internal/model: the data that agents, server and display exchange
--   Hooks          internal/hooks/event.go: the record of a hook event; Parse is ParseEvent
--   Hooks.Settings internal/hooks/install.go: `merge_managed_hooks` and `remove_managed_hooks` edit a
--                  decoded configuration
--   Hooks.Install  internal/hooks/install.go: `install_claude` and `uninstall_claude` are what Install
--                  and Uninstall do to the Claude settings and the state, by their paths
--   Hooks.Files    internal/hooks/install.go: `apply_file_transaction` is applyFileTransaction, over a
--                  disk that maps paths to files
--   Agent.Ledger   internal/agent/ledger.go: `apply` is Ledger.Apply, `snapshot` is Ledger.Snapshot;
--                  Life reads the ledger as a family of independent tasks, Traces follows histories
--   Server.Limiter internal/server/server.go: `allow` is fixedWindowLimiter.Allow
--   Server.Validate  internal/server/server.go: `validate_agent_report` is ValidateAgentReport;
--                  Spec describes valid reports without an order of checks
--   Store.Db       internal/store/store.go: the tables of the migrations and their constraints
--   Store.Report   internal/store/store.go: `replace_agent_report` is Store.ReplaceAgentReport
--   Store.Snapshot internal/store/store.go: `build_display_snapshot` is Store.BuildDisplaySnapshot
--   Store.Tokens   internal/store/store.go: `create_token`, `revoke_token` and `authenticate_token` are
--                  CreateToken, RevokeToken and AuthenticateToken, `list_tokens` is ListTokens
--   Server.Http    internal/server/server.go: `authenticate` (in Auth), `handle_agent_report`,
--                  `handle_display_snapshot` and `handle_health` (in Handlers) are the methods of
--                  those names
--   Agent.Ingest   internal/agent/hookserver.go: `handle_event` and `handle_status_line`
--   Agent.Loop     internal/agent/agent.go: what an agent stores of its collectors
--                  (`store_collection_result`, `ingest_status_line`) and reports (`snapshot_report`)
--   Agent.Config   internal/agent/agent.go: `new_agent` is New, `report_attempted` the report timer
--   Collector.Codex  internal/collector/codex.go: `normalize_codex` reads the answers of the
--                  app-server, Rpc.collect is CodexCollector.Collect
--   Collector.Claude  internal/collector/claude.go: the parsers; Reset and Usage read the text of
--                  `/usage`, Logout.collect is ClaudeCollector.Collect
--   Collector.Merge  internal/collector/claude.go: MergeProviderReports
--   Json           a decoded JSON value
--   Firmware       internal/firmware/firmware.go: `parse_version` is ParseVersion, `compare` is
--                  Version.Compare
--   Agent.LateEvents, Store.Snapshot.Shown: agent and server, report and display together
--   Clock, Float   Go's time.Time, time.Duration and float64, as far as the program uses them
--   Prelude        shared helpers; Tests applies the theorems to concrete inputs
--
-- The collectors' reports are stored and merged by the agent, provider by provider. A hook event goes into the ledger; the ledger's snapshot goes into a report; the server validates
-- the report against its clock and stores it; a display request reads all tables.
--
-- State is passed explicitly. A method under a mutex is one step; its clock is an argument. The
-- loops are recursion on lists, so no fuel is needed. Times are nanoseconds from the beginning of
-- Go's absolute time; UnixNano and durations are int64 with 2^63 added, and UnixNano wraps around
-- as Go's does.
--
-- Parameters stand for what the program calls: the rounding of float64 sums (with the promises of
-- IEEE 754), SHA-256 and the random texts of tokens, json.Marshal and json.Unmarshal of
-- quota windows, the JSON that a payload decodes to, regexp, strconv and the calendar, url.Parse, what
-- the command-line programs answer, which file operations fail, and whether the n-th database call
-- of a method fails. A failed RowsAffected counts as a failure of the call before it, and errors
-- while rows are read as one of their query. The SELECTs, the upsert, the deletes and the inserts
-- are written out on lists of rows.
--
-- Not modelled: HTTP routing and the firmware endpoints, the JSON-RPC framing of
-- the app-server, the forwarding of hook events, the Codex settings, the
-- secret and the failing reads in Install and Uninstall, the listening of the local
-- hook server, the channels of the
-- agent's loop, the manifests and publication of firmware, service files, the command line, and the
-- display's firmware.
pub mod Prelude
pub mod Clock
pub mod Float
pub mod Json
pub mod Model
pub mod Hooks
pub mod Agent
pub mod Store
pub mod Server
pub mod Collector
pub mod Firmware
pub mod Tests
