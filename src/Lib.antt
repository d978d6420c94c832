-- ===== src/Lib.antt =====
-- The sidecar: a process beside one rollup that takes part in atomic cross-rollup transactions. Its
-- coordinator keeps the transactions that wait for a decision, simulates the local part of each,
-- votes, learns the decision from the publisher or, in standalone mode, from the votes of its peers,
-- and tells the local block builder to release or abort what it has reserved.
--
-- Parts and files (paths from the root of the repository):
--   Prelude     shared lists, maps, sets, results and tests; no program code
--   Errors      crates/primitives-traits/src/error.rs
--   Nonce       crates/coordinator/coordinator/src/nonce_manager.rs (`reserve`, `release_confirmed`,
--               `release_aborted`, `reset`, under the names of the source); Nonce/Exclusive,
--               Nonce/Coverage and Nonce/Floor prove what the lane of nonces keeps
--   Period      crates/coordinator/coordinator/src/model/publisher_period.rs
--   Mailbox     crates/mailbox/src: matching.rs, wire.rs, queue.rs, overrides.rs (the merges in
--               Mailbox/Overrides, the storage slots of messages in Mailbox/Overrides/Build), and the
--               data of crates/primitives/src/lib.rs
--   Simulation  crates/simulation/src: rpc.rs (`RpcSimulator` in Simulation/Rpc, the overrides made
--               of a prestate trace in Simulation/Diff), error.rs and, in Simulation/Trace, the call
--               traces of crates/mailbox/src: parser.rs, contract.rs, types.rs
--   Coordinator crates/coordinator/coordinator/src: Xt (model/), Votes
--               (`maybe_make_standalone_decision`), State (`CoordinatorState`), Builder
--               (handlers/builder_control.rs, pipeline/delivery.rs), Submission
--               (pipeline/submission.rs), Handlers (one file for each of handlers/, with `send_vote`
--               of pipeline/simulation.rs in Handlers/Vote and `submit_xt` in Handlers/Submit),
--               Pipeline (`record_simulation_state`, `fulfill_dependencies_from_mailbox` and
--               `dispatch_outbound_mailbox` of pipeline/simulation.rs), Process (`process_xt`,
--               `verify_xt`, `check_xt_permissions` and `wait_for_dependencies` of that file)
--   Permissions crates/permissions/src: the policy snapshot, the engine and its stream of updates;
--               Permissions/Evaluation and Permissions/Updates prove what they decide and keep
--   PolicyStream crates/net/ws/src/lib.rs and crates/permissions/src/stream.rs: the WebSocket client
--               that reconnects and feeds the engine
--   Framing     crates/net/transport/src/framing.rs: the codec of length-prefixed frames
--   QuicClient  crates/net/transport/src/client.rs; its operations keep their names, `close` is
--               `close_client`, a round of `recv` is `recv_round`
--   PublisherConnection crates/net/publisher/src/connection.rs, over QuicClient
--   Peer        crates/net/peer/src: the requests to other sidecars and how they are sent
--   Server      crates/coordinator/server/src: error.rs and, of handlers/, xt.rs, peer.rs and
--               publisher.rs, which call the coordinator's handlers
--
-- State and interaction. The coordinator's state stands behind a write lock; what a handler does
-- between taking and releasing it is one function of `CoordinatorState` here, named `..._section` or
-- after the handler. A handler is an action of the monad of Coordinator/World: it reads and writes
-- the state, the nonce manager, and a log of requests. The builder, the publisher, the peers and the
-- other parts given to the coordinator at its construction are functions from that log to answers
-- (`Env`), so an answer may depend on everything asked before. Handlers interleave only between
-- sections: Coordinator/Sections makes each section a value and runs any sequence of them.
-- Coordinator/Lifecycle is the relation of changes that a transaction can undergo. The task that
-- simulates a transaction holds no lock between its accesses to the state: Coordinator/Process makes
-- it a state machine with a control point before each access and each call, and an event is one step
-- of it, a section of another task, a wake-up, or the end of its sleep.
--
-- Numbers are natural numbers; the nonce manager's `u64` arithmetic saturates as in the source, and
-- the sequence number of standalone transactions wraps at 2 ^ 64, as does the length in the header
-- of a frame at 2 ^ 32 and a storage slot at 2 ^ 256. Fuel: the decimal digits of a `u64` have 20, as
-- many as it can have; the walk of a call trace has one unit for each value of the trace, and each
-- round takes a value away; the chunks of a message have one for each byte. The simulation loop has
-- none: it is run for as many events as there are. A clock reading is a number that the caller passes.
-- Addresses, texts and ids are byte strings. A field called `data` in the source is called `payload`.
-- A `HashMap` is a list of pairs in some order of iteration.
--
-- Foreign code is a parameter: the bytes of a `U256`, hex, SHA-256, keccak256, protobuf encoding, the
-- parsing of a `StartInstance` and of an address, the decoding and signer recovery of a transaction,
-- the decoders of the mailbox contract's calls, the node that traces calls and the hook that verifies
-- transactions, the network under QUIC and HTTP. Not modelled: metrics and logs, task spawning and
-- shutdown, JSON text, TLS and sockets, the QUIC server, the builder's RPC client, configuration
-- and the binary.
pub mod Prelude
pub mod Errors
pub mod Nonce
pub mod Period
pub mod Mailbox
pub mod Simulation
pub mod Coordinator
pub mod Permissions
pub mod PolicyStream
pub mod Framing
pub mod QuicClient
pub mod PublisherConnection
pub mod Peer
pub mod Server
