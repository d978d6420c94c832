-- ===== src/Coordinator/Handlers.antt =====
-- crates/coordinator/coordinator/src/handlers: what the coordinator does on each message. A part that
-- runs under the state's write lock is a function of the state; the handler composes it with the
-- calls that follow once the lock is released.
pub mod Decision
pub mod PeerVote
pub mod Vote
pub mod StartPeriod
pub mod Rollback
pub mod Mailbox
pub mod Register
pub mod Resolve
pub mod ForwardedXt
pub mod StartInstance
pub mod Submit
pub mod Cleanup
