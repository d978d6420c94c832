-- ===== src/Coordinator/Sections.antt =====
-- The critical sections of the handlers, in any order: what runs between taking and releasing the
-- write lock of the coordinator's state (crates/coordinator/coordinator/src/handlers, coordinator.rs
-- and pipeline/simulation.rs). Handlers interleave only between sections.
pub mod Turn
pub mod Capacity
pub mod History
pub mod Flags
pub mod Buffers
use sidecar.Prelude.{ℕ, ◌+◌, ◌%◌, ◌^◌, Bool, Option, none, some, List, [], ◌∷◌, Bytes, bytes_eq}
use sidecar.Prelude.Map
use sidecar.Prelude.Map.{Map}
use sidecar.Mailbox.Types.{CrossRollupDependency, CrossRollupMessage, MailboxMessage}
use sidecar.Mailbox.Overrides.{StateOverride}
use sidecar.Coordinator.Pipeline.{
  lock_chain, record_simulation_state, fulfill_dependencies_from_mailbox, dispatch_section,
}
use sidecar.Simulation.Types.{SimulationResult}
use sidecar.Coordinator.State.{CoordinatorState}
use sidecar.Coordinator.World.{Env, SpecInstance}
use sidecar.Coordinator.Builder.{remove_pending_xt_from_state, confirm_pending}
use sidecar.Coordinator.Handlers.Decision.{decide}
use sidecar.Coordinator.Handlers.PeerVote.{peer_vote}
use sidecar.Coordinator.Handlers.Vote.{local_vote_section}
use sidecar.Coordinator.Handlers.StartPeriod.{start_period_section}
use sidecar.Coordinator.Handlers.Rollback.{rollback_section}
use sidecar.Coordinator.Handlers.Mailbox.{mailbox_section}
use sidecar.Coordinator.Handlers.ForwardedXt.{forward_section, forwarded, clean}
use sidecar.Coordinator.Handlers.StartInstance.{start_instance_section, started}
use sidecar.Coordinator.Handlers.Submit.{submit_section, join_section, standalone_id}
use sidecar.Coordinator.Handlers.Resolve.{take_waiters}
use sidecar.Coordinator.Handlers.Cleanup.{cleanup_section}

-- The first argument is the clock's reading, where a section reads the clock.
pub data Section : Type 0 where
  decides : ℕ → Bytes → Bool → Section
  takes_peer_vote : ℕ → Bytes → ℕ → Bool → Section
  votes : ℕ → Bool → Bytes → Bool → Section
  starts_period : ℕ → ℕ → Section
  rolls_back : ℕ → Section
  takes_mailbox : MailboxMessage → Section
  forwards : ℕ → Bytes → Map ℕ (List Bytes) → ℕ → ℕ → Section
  starts_instance : ℕ → SpecInstance → Section
  submits : ℕ → Bytes → Map ℕ (List Bytes) → Section
  joins : Bytes → ℕ → Section
  resolves : Bytes → Section
  removes : (ℕ → Bool) → Bytes → Section
  confirms : ℕ → List Bytes → Section
  cleans : (ℕ → Bool) → ℕ → ℕ → Section
  locks : Bytes → Section
  records : Bytes → SimulationResult → StateOverride → Section
  fulfils : Bytes → List CrossRollupDependency → Section
  dispatches : Bytes → List CrossRollupMessage → Section

module _ (env : Env) where
  unfoldable pub apply : Section → CoordinatorState → CoordinatorState
  unfolding decide peer_vote local_vote_section start_period_section rollback_section
      mailbox_section forward_section start_instance_section submit_section join_section
      take_waiters remove_pending_xt_from_state confirm_pending cleanup_section lock_chain
      record_simulation_state fulfill_dependencies_from_mailbox dispatch_section
  apply (decides now id decision) s = (decide env.chain_id now id decision s).1
  apply (takes_peer_vote now id cid vote) s = (peer_vote env.chain_id now id cid vote s).1
  apply (votes now standalone id vote) s =
      (local_vote_section env.chain_id now standalone id vote s).1
  apply (starts_period now period) s = (start_period_section env.chain_id now period s).1
  apply (rolls_back now) s = (rollback_section env.chain_id now s).1
  apply (takes_mailbox msg) s = mailbox_section msg s
  apply (forwards now id txs chain seq) s =
      (forward_section env (forwarded env now id (clean txs) chain seq) s).1
  apply (starts_instance now inst) s = (start_instance_section (started env now inst) s).1
  apply (submits now fp txs) s = (submit_section env now fp txs s).1
  apply (joins fp waiter) s = (join_section fp waiter s).1
  apply (resolves fp) s = (take_waiters fp s).1
  apply (removes is_closed id) s = (remove_pending_xt_from_state is_closed id s).1
  apply (confirms now ids) s = record s { pending = confirm_pending now ids s.pending }
  apply (cleans is_closed now max_age) s = cleanup_section is_closed now max_age s
  apply (locks id) s = lock_chain env.chain_id id s
  apply (records id result base) s = (record_simulation_state env.chain_id id result base s).1
  apply (fulfils id deps) s = (fulfill_dependencies_from_mailbox env.codec id deps s).1
  apply (dispatches id msgs) s = (dispatch_section env.codec id msgs s).1

  unfoldable pub run : List Section → CoordinatorState → CoordinatorState
  unfolding apply
  run [] s = s
  run (c ∷ cs) s = run cs (apply c s)

  -- The id that the next standalone submission gets.
  pub next_id : CoordinatorState → Bytes
  next_id s = standalone_id env.chain_id ((s.origin_seq + 1) % 2 ^ 64)

  -- The id that a section may give to a new transaction without a look at what has it already.
  unfoldable pub reused_id : Section → CoordinatorState → Option Bytes
  unfolding next_id
  reused_id (submits now fp txs) s = some (next_id s)
  reused_id _ s = none
