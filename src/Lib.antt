-- ===== src/Lib.antt =====
-- A model of the shared publisher, which coordinates transactions over several rollups and settles
-- their superblocks on L1, and theorems on it.
--
-- The parts. Sidecars connect over QUIC (crates/transport) and send frames, which
-- crates/coordinator dispatches: it reserves the chains of a cross-chain request, asks for votes,
-- decides, queues the requests whose chains are held, relays mailbox messages, and collects a
-- proof of every chain to submit a superblock to L1. crates/server takes proofs over HTTP.
-- bin/publisher starts all of these from the settings of crates/config, with the counters of
-- crates/metrics. crates/spec and crates/spec-proto hold the domain and wire types, and
-- crates/spec-sbcp the protocol's publisher and sequencer.
--
-- The files.
-- - Base and its children: shared names, Boolean tests, lists, association lists for hash maps,
--   wrap-around and big-endian bytes, results.
-- - Spec.Primitives, Spec.Instance: crates/spec/src/primitives.rs and instance.rs.
-- - Sbcp.Id, Sbcp.Block, Sbcp.Publisher, Sbcp.Proofs, Sbcp.Sequencer: crates/spec-sbcp/src/id.rs,
--   block.rs, publisher.rs (Sbcp.Proofs is its `receive_proof`) and sequencer.rs. Sbcp.Together
--   runs the last two side by side. Sbcp.Window, Sbcp.Locks, Sbcp.Aggregation, Sbcp.Building,
--   Sbcp.Admission, Sbcp.Settling and Sbcp.Rollback hold theorems.
-- - Proto.Messages, Proto.Convert: crates/spec-proto/src/messages.rs and convert.rs.
-- - Coordinator.ProofTypes: crates/coordinator/src/proof_types.rs. Coordinator.State,
--   Coordinator.Rounds, Coordinator.Queue, Coordinator.Settlement: what
--   crates/coordinator/src/coordinator.rs does to `CoordinatorState` under its lock.
--   Coordinator.Mailbox, Coordinator.Requests: the free functions at its end. Coordinator.Service,
--   Coordinator.Messaging: `Coordinator` and its handlers. Coordinator.ChainIds,
--   Coordinator.Dispatch: crates/coordinator/src/handlers.rs. Coordinator.Submission and its
--   children Seeding and Provider: crates/coordinator/src/l1_submit.rs. Coordinator.History has
--   the critical sections as events, and Coordinator.Locking the abstract lock service.
--   Coordinator.Exclusion, Coordinator.Holds, Coordinator.Voting, Coordinator.Registry and the
--   other children hold theorems.
-- - Transport.Framing: crates/transport/src/framing.rs. Transport.Connections (the registry),
--   Transport.Reading (a stream), Transport.Utf8 (a client id), Transport.Session
--   (`handle_connection`): crates/transport/src/server.rs. Transport.Starting: tls.rs and
--   socket.rs beside it, and the start and the close of the server. Transport.Open has the
--   registry against the open connections.
-- - Server: crates/server/src/handlers/proofs.rs. Server.Health: the router, the shared state and
--   the handlers health.rs and metrics.rs beside it.
-- - Config: crates/config/src/lib.rs. Metrics: crates/metrics/src/lib.rs.
-- - Program: bin/publisher/src/main.rs, with Program.Main for `main` as a whole, Program.Startup
--   for its start and Program.Node for the server and the coordinator together. Program.Draining,
--   Program.Inbound and Program.Sections split its calls into critical sections; Program.Tasks has
--   the same calls as tasks that take turns, and Program.Tasks.Pool the tasks, the connections
--   that `accept_loop` spawns and the node that they share. Program.Decisions, Program.Routing,
--   Program.Relay, Program.Whole and the children of Program.Tasks hold theorems:
--   Program.Tasks.Histories on any interleaving, with Program.Tasks.Written, Program.Tasks.Waking
--   on the queue, with Program.Tasks.Woken and Program.Tasks.Waiting, Program.Tasks.Overtaking on
--   the order of messages, and Program.Tasks.Counted on connections, with Program.Tasks.Pairs,
--   Program.Tasks.Sessions and Program.Tasks.Steady, and Program.Tasks.Configured on the settings.
-- - Scenarios and Sbcp.Scenarios: the unit tests of the crates, as what they assert of the model.
-- - Tests: the inputs at which theorems are applied.
--
-- How code is translated. A function that locks a state takes the state and returns it with its
-- result; what it sends is a list of effects or calls in order. A task switch can happen only
-- between two acquisitions of the lock, so Coordinator.History has one event for each, and a turn
-- of Program.Tasks is one of them or the sending of one message, with the rest of the task as a
-- list of stages; any connection, call, callback or turn may come next. Functions have the
-- source's names; a loop or an `if let` of a function is a helper beside it. A hash map is an
-- association list, and where the source iterates over one the list's order stands for the map's
-- order, which is arbitrary. Numbers are natural numbers; `u64` sums and differences wrap, as the
-- release profile has them. Times are numbers on one clock, which the caller reads; where a call
-- is served as a whole, the rounds of `drain_queue` read it once, and where tasks take turns,
-- every turn reads it.
--
-- Parameters. SHA-256, Keccak-256, prost's encoder and decoder, `hex::encode`, ABI encoding, and
-- the answers of provers, messengers and the L1 contract are arguments of the definitions that use
-- them. So are the environment, what the YAML parser and humantime make of a text, what alloy
-- reads, and what the host answers when the server starts. A stream is the bytes that it yields
-- and the reason for which it then ends. `NoCollision` says that a new instance id is not the id
-- of an active transaction, which is what SHA-256 is relied on for.
--
-- Fuel. `drain_queue` gets one round more than the queue is long; every round but the last takes
-- an entry out, so the loop ends by itself within them. Tasks that take turns need no fuel.
-- `submit` makes at most three attempts, as the source does.
--
-- Not modelled. Logging and tracing have no effect on the state. The layers of the HTTP router,
-- the text formats of metrics and JSON, the command line, and what rcgen, rustls, socket2, quinn
-- and alloy do inside are other crates. When a timer fires and when the program shuts down is up
-- to tokio: the rounds of the timer loops are calls that may come at any point. The serde and hash
-- instances are left out.
pub mod Base
pub mod Spec
pub mod Sbcp
pub mod Proto
pub mod Config
pub mod Metrics
pub mod Coordinator
pub mod Transport
pub mod Server
pub mod Scenarios
pub mod Tests
pub mod Program
