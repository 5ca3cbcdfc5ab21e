-- ===== src/Lib.antt =====
-- The Rust core of Mahi, a personal assistant that runs on the user's own devices.
--
-- The program's parts and how they interact. A turn (crates/mahi-agent-core) assembles a context,
-- asks for inference and runs the tools that the model calls, each behind an approval where the tool
-- requires one, through the registry of crates/mahi-tooling; it talks to the stores, the tools and the
-- inference through the contracts of crates/mahi-contracts. Inference is routed among providers by
-- crates/mahi-compute/src/router.rs. Devices reach each other over sessions and pairings
-- (crates/mahi-connectivity).
--
-- Which file models which part:
--   Prelude: Booleans, lists, texts, signed numbers and characters; Dict: the hash maps.
--   Contracts: crates/mahi-contracts/src (types.rs, error.rs, data.rs, tooling.rs, compute.rs,
--     connectivity.rs); a struct is a record with the same fields, an enum a data type with the same
--     variants, JSON values are a type parameter `V`.
--   Router: crates/mahi-compute/src/router.rs, `InferenceRouter` and its builder; `select`,
--     `can_handle`, `generate` and `active_provider` keep their names. Router/Capability:
--     crates/mahi-compute/src/capability.rs.
--   Json: the values of `serde_json`.
--   Hosted: crates/mahi-compute/src/hosted. Sse: sse.rs, the interface of
--     the parsers and `chunks_from_events`; Anthropic and Openai: `AnthropicSseParser` and
--     `OpenAiSseParser`, each with its Request (`request_body`) and its Provider. A `match` on a text is
--     a function to a data type of its cases and a definition by clauses. The HTTP client, `from_str` and
--     the writers of JSON are parameters, and the events of a stream are those that arrive before its end
--     or its cancellation.
--   Context: crates/mahi-agent-core/src/context.rs, `assemble_context` and `compact`.
--   Engine: the turn of crates/mahi-agent-core/src/engine.rs. Env: the collaborators; Stream:
--     `consume_inference`; Tool: `execute_tool_call`; Turn: `drive` and `run`; Texts: its helpers on
--     text. `TurnRunner` is split into what a turn never changes (`Turn`), what it does (`Runner`),
--     and a world, the list of all calls that the turn made on its collaborators, the latest first.
--     What a collaborator answers is an arbitrary function of that list (`Env`): nothing is assumed of
--     the stores, the tools, the model, the user and the cancellation.
--     A step is a function from a runner to a result or an error and the next runner; `?` is `>>=`.
--     Approval: crates/mahi-agent-core/src/approval.rs, where a one-shot channel is a number and `sent`
--     lists the decisions that were put into channels.
--   Tooling/Registry: crates/mahi-tooling/src/registry.rs, with the adapter of connector.rs, on an
--     ordered map (Dict/Sorted). Catalog is about what it lists and runs, Mounting about connectors.
--   Tooling/Files: crates/mahi-tooling/src/tools/file.rs. Path: paths as lists of components and `normalize`;
--     Scope: `FileScope`; Bytes: sizes in UTF-8; Read, Write, Edit and Search: the four tools; Tools: all
--     of them. The file system (`Disk`) is a record of arbitrary functions, and a run gives its calls of the
--     file system (`FsCall`) besides its stream. The reader of the arguments, which `serde` derives, is a
--     parameter.
--   Tooling/Computer: crates/mahi-tooling/src/computer.rs and crates/mahi-tooling/src/tools/computer_use.rs.
--     Descriptors: the descriptors of the six tools; Run: their runs. The controller of the screen is a record
--     of arbitrary answers, and a run gives its calls of it, which are values of `ControllerAction`, besides
--     its stream.
--   Tooling/Mcp: crates/mahi-tooling/src/mcp. Protocol, Config, Client and Adapter are the files of those
--     names; Adapter has the methods of `ToolRegistry` that mount MCP servers. The one-shot channel of a
--     request bears its id; what goes over the wire is read and written by a parameter (`Wire`), and an
--     `Exchange` says which lines arrive while a request waits.
--   Store: crates/mahi-data/src, the encrypted store. Crypto: crypto.rs; Rows: the SQL statements as
--     functions on tables, which are lists of rows in the order of `rowid`; Sealed: `seal`, `unseal` and
--     the steps that the stores share; one module for each store trait (Conversations, Messages, Memory,
--     Skills, Tasks, Artifacts, Settings, Checkpoints, Audit, Permissions), whose operations have the
--     trait's names. An operation takes the fault that the database reports, if it does, and the nonce that
--     is drawn; one that writes gives the next `SqliteBackend`, and an error leaves the state as it was.
--     The cipher, the hashes, the printing of identifiers and the JSON of a record are parameters
--     (`Primitives`, `Format`), with their documented laws as named hypotheses (`OpensSealed`,
--     `PrintsApart`, and `ReadsBack` for records that hold no floating-point number). A limit from 2^63 on is a negative number to SQLite, that is no limit.
--   Connectivity/Session and Connectivity/Pairing: session.rs and pairing.rs of
--     crates/mahi-connectivity/src; the clocks, the fresh identifiers and the HMAC are parameters.
--   Connectivity/Peers: peers.rs, where the time and the clamping of a float are arguments.
--   Connectivity/Transport: the frames of transport.rs. A direction of a connection is the list of its
--     bytes and the error that ends it; `serde_json` is a parameter (`Serde`, with the hypothesis
--     `IsCodec`). `write_frames` and `read_frames` are the two loops of `pump`.
--   Connectivity/Bus: `LocalBus` of bus.rs, with the two queues as lists and what the router fanned out
--     as the list `published`.
--
-- Bounds and fuel. `drive` recurs on the rounds that are left and starts with MAX_TOOL_STEPS = 8, as
-- the source's `for` loop does; the streams that a turn reads are lists, which end. `read_frames`
-- takes a step for each byte and one for the end, since a frame takes four bytes at least, and
-- `dispatch_queued` a step for each queued envelope; `walk_from` takes a step for each directory, of
-- which all but the first were visited as one of at most MAX_SEARCH_VISITED = 10000 entries. Every
-- definition is total. `usize` sums are those of sizes in memory and do not wrap. A `DateTime` counts
-- in one unit, and its milliseconds are a parameter of the store; the range of `chrono` is not modelled.
--
-- The engine takes the registry of tools and the decisions of the user as parts of its `Env`, not as
-- the models of the two registries.
--
-- Not modelled: the HTTP clients of the providers, the local models, the opening of the database and
-- of its key file, the tools that run processes or fetch pages, the platform behind the controller of
-- the screen, the sockets and subscriptions of a bus, the processes of MCP servers, the daemon, the
-- command line, the foreign-function interface and the Swift app, which are input and output around
-- the parts above; the creation of a turn's task and its channel in `MahiEngine::run_turn`, and the
-- compaction of a conversation by the model.
--
-- Locks and threads. An operation that does its work under one lock of the source is one step. Where
-- one takes several, what other threads do in between is an argument of it, `meanwhile`, which is any
-- function of the state: `set_controlling` and `send` of a session, and `mount_connector`. Two are
-- modelled as if nothing came in between: `attach_mcp_server`, which checks and registers under
-- separate locks, and `active_sessions`, which reads each session under a lock of its own. The two
-- locks of `complete_pairing` are those of two maps.
pub mod Prelude
pub mod Dict
pub mod Contracts
pub mod Router
pub mod Context
pub mod Engine
pub mod Tooling
pub mod Store
pub mod Hosted
pub mod Json
pub mod Connectivity
