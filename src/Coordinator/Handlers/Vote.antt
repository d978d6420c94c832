-- ===== src/Coordinator/Handlers/Vote.antt =====
-- `send_vote` of pipeline/simulation.rs: the local vote.
use sidecar.Prelude.{
  ℕ, Bool, true, not, ◌&&◌, Option, none, some, Bytes, bytes_eq, nat_eq, is_some, if◌then◌else◌,
}
use sidecar.Prelude.Map
use sidecar.Prelude.HashSet
use sidecar.Coordinator.Xt.{PendingXt}
use sidecar.Coordinator.Votes.{maybe_make_standalone_decision}
use sidecar.Coordinator.State.{CoordinatorState}
use sidecar.Coordinator.Effect.{XtBuilderCommand, publisher_vote, peer_votes}
use sidecar.Coordinator.World.{
  Env, M, ◌>>=◌, ◌>>◌, reads, locked, emit, answer, attempt, skip, when,
}
use sidecar.Coordinator.Builder.{local_builder_command, apply_if_some}
use sidecar.Coordinator.Handlers.PeerVote.{command_for}

abbrev pub cast_vote : ℕ → ℕ → Bool → PendingXt → PendingXt
cast_vote chain_id now vote xt = record xt {
  simulated_at = some now;
  vote_sent = true;
  local_vote = some vote;
  locked_chains = HashSet.insert chain_id xt.locked_chains;
}

-- What the rest of `send_vote` needs: the raw id, and the command for the builder. `none` means that
-- there is nothing left to do.
unfoldable pub vote_found :
    ℕ
    → ℕ
    → Bool
    → Bytes
    → Bool
    → Option PendingXt
    → CoordinatorState
    → Option (Bytes × Option XtBuilderCommand) × CoordinatorState
unfolding maybe_make_standalone_decision local_builder_command
vote_found chain_id now standalone id vote none s = (none, s)
vote_found chain_id now standalone id vote (some xt) s =
    if is_some xt.local_vote
    then (none, s)
    else (let cast = cast_vote chain_id now vote xt in
        let (made, xt') =
          if standalone then maybe_make_standalone_decision chain_id now cast else (none, cast) in
        (
          some (xt.instance_id, command_for chain_id made xt'),
          record s { pending = Map.insert id xt' s.pending },
        ))

unfoldable pub local_vote_section :
    ℕ
    → ℕ
    → Bool
    → Bytes
    → Bool
    → CoordinatorState
    → Option (Bytes × Option XtBuilderCommand) × CoordinatorState
unfolding vote_found
local_vote_section chain_id now standalone id vote s =
    vote_found chain_id now standalone id vote (Map.lookup id s.pending) s

module _ (env : Env) where
  -- To the publisher where it is connected, else to the peers.
  publish_vote : Bool → Bytes → Bytes → Bool → M (Unit {0})
  publish_vote connected instance_bytes id vote =
      if connected
      then when env.has_publisher (do
        emit (publisher_vote instance_bytes vote)
        _ ← attempt (answer (λ log. env.vote_answer log instance_bytes vote))
        skip)
      else when env.has_peer_coordinator (emit (peer_votes id env.chain_id vote))

  pub finish_vote : Bool → Bytes → Bool → Option (Bytes × Option XtBuilderCommand) → M (Unit {0})
  unfolding publish_vote
  finish_vote connected id vote none = skip
  finish_vote connected id vote (some (instance_bytes, command)) = do
    apply_if_some env command
    publish_vote connected instance_bytes id vote

  abbrev pub send_vote : Bytes → Bool → M (Unit {0})
  unfolding local_vote_section finish_vote
  send_vote id vote = do
    connected ← reads (λ w. env.has_publisher && env.is_connected w.log)
    now ← reads (λ w. env.clock w.log)
    todo ← locked (local_vote_section env.chain_id now (not connected) id vote)
    finish_vote connected id vote todo
