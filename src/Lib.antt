-- ===== src/Lib.antt =====
-- The proxy of crosspoint-simulator-mcp. Simulators of an eBook firmware dial crates/csm-proxy and hold
-- a Session stream to it; MCP clients control and observe them through tools. The library models the
-- state that both sides share, the operations on it, the tools and resources, the start of simulators,
-- the process from its arguments to its exit, and the maintenance tasks of xtask.
--
-- The parts and their files, with the code that they model:
--   Prelude        shared names: Boolean tests on native numbers, conditionals, results, equality as
--                  an interface, lists, and association lists for the maps (Prelude/Dict)
--   Messages       protos/crosspoint/sim/control/v1alpha1: the messages of a stream as records and sums
--   Queue          InboundQueue of crates/csm-proxy/src/instances.rs: push, try_recv, eviction_index
--   Tokio          the channels of tokio, a parameter with the laws that its documentation gives
--   State          the ids, errors, masks and the record InstanceMap of the same file
--   Instances      the operations of InstanceMap on the table: insert, owns, resolve, try_send, the masks
--   Waiters        its waiters for replies: register_waiter, complete_waiter, push_inbound, remove_if, and
--                  send_and_wait_for, split at its await into send_start and send_finish
--   Session        crates/csm-proxy/src/session.rs: the opening of a stream, the rounds of its read loop, and
--                  the loop among the other tasks (Session/Loop)
--   History        the interleavings of all of these: an action is what one task does under its locks,
--                  and run takes any sequence of actions. Its children look at the default and the tokens
--                  (Registry), the waiters (Waits, Answered), the corrs as tickets (Numbered), and the states
--                  up to the order of the table (Unordered)
--   Text, Json     the searches in texts, the parse of an i32 (Text/Decimal prints one), and the documents that
--                  the tools answer with
--   Mcp            crates/csm-proxy/src/mcp.rs: Requests (resolve, enqueue, enqueue_wait), Inject, Batch,
--                  Until and Observe, View (the session view and other requests), Snapshot, Resources,
--                  Capabilities (the document csm://capabilities), Start (start_instance and the reaping
--                  after a shutdown), Params (the parameter structs), and Tools (each tool as a client calls it,
--                  and the router over their names)
--   Spawn          crates/csm-proxy/src/spawn.rs: configuration, argument vector, directories and seeds;
--                  Spawn/Supervisor has SpawnSupervisor over an operating system that is a parameter, and
--                  Spawn/Supervisor/Overlaps the starts and reaps of several tasks in any order,
--                  and Spawn/Supervisor/Awaits what follows the await of reap, with reap_all
--   Cli            crates/csm-proxy/src/cli.rs, SpawnConfig::from_args, and logging.rs
--   Process        crates/csm-proxy/src/lib.rs and main.rs, and serve_mcp_stdio and serve_mcp_http of mcp.rs
--   Xtask          xtask/src: Xtask/Start has start.rs, the builds of the proxy and the firmware, the plan and
--                  its execution; Xtask/Coverage and Xtask/Tasks have main.rs; Xtask itself the machine
--   Tests          runs on concrete inputs, with channels that meet the laws of Tokio
--
-- How the parts interact. Session pushes what a simulator sends through Waiters into the Queue of its
-- instance in State; a tool of Mcp sends a request through Instances and waits for the reply in Waiters, or
-- drains the Queue. History puts the two sides into one sequence. Start asks Spawn for a child, and then
-- waits until Session has registered it. Process builds the state, serves, and reaps the children of Spawn.
--
-- How the state corresponds. A Mutex or an Atomic of the program is a field of a record, and an
-- operation that holds a lock is one function from the state to the state after it. A HashMap is an
-- association list with at most one entry for a key, in no fixed order (History/Unordered). u32 and
-- u64 are numbers; next_token and next_corr wrap at 2 ^ 64, and an i32 that is parsed keeps its range.
-- Queues hold at most queue_capacity = 128 messages. Channels are handles into the state of Tokio.
--
-- An async function is split where it awaits. A call that waits is given what happens meanwhile: for a
-- request a Pause, with the actions of the other tasks and the milliseconds waited; for observe and
-- start_instance a list of rounds, one for each turn of its loop; for a tool as a whole an Outside,
-- which has all of these. It has no result where these end before the call does, and the theorems on
-- returning say when they are long enough. A reap is given the pause of its wait for the killed child:
-- the wait ends with the child or after two seconds, other tasks go on in it, and the child is dropped
-- then. Where the source takes one lock after another without an await in between (a message that a
-- session hands on, a call that registers its waiter and sends), the model has one step. The drain of
-- a queue runs on fuel, one more than the length of the queue, and the printing of a number on fuel
-- that exceeds the number.
--
-- Parameters. What the source takes from other libraries is an argument of the definitions that use
-- it: the channels of tokio (Tokio, with laws); the printing of messages by serde, with a law among
-- the hypotheses of a theorem that needs one; base64; the operating system that the supervisor starts
-- its children on, without laws; how the services of rmcp, axum and connectrpc end (Process); the
-- machine of xtask, its files, environment and commands, and the coverage report that serde_json reads
-- (Xtask, Xtask/Coverage).
--
-- Not modelled: the generated code of the messages and its unknown fields; the decoding of the arguments of
-- a tool by serde, and the parsing of a command line by clap, whose results are records here; the
-- descriptions of the tools, the instructions of the server and its resource templates, which are texts;
-- log lines and the subscriber that prints them; the branches for Windows and macOS; and the
-- clock, whose readings are the times that pauses and rounds carry.
pub mod Prelude
pub mod Messages
pub mod Queue
pub mod Tokio
pub mod State
pub mod Instances
pub mod Waiters
pub mod Session
pub mod History
pub mod Text
pub mod Json
pub mod Mcp
pub mod Spawn
pub mod Cli
pub mod Process
pub mod Xtask
mod Tests
