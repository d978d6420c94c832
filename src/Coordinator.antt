-- ===== src/Coordinator.antt =====
-- crates/coordinator/coordinator: the coordinator of one sidecar.
pub mod Xt
pub mod Votes
pub mod State
pub mod Effect
pub mod World
pub mod Builder
pub mod Submission
pub mod Handlers
pub mod Pipeline
pub mod Sections
pub mod Process
pub mod Lifecycle
pub mod Tests
