-- ===== src/Simulation.antt =====
-- crates/simulation/src, which simulates a transaction by calls to a node, with the parser of call
-- traces that it uses, crates/mailbox/src/parser.rs.
pub mod Types
pub mod Json
pub mod Trace
pub mod Diff
pub mod Rpc
mod Tests
