-- ===== src/Coordinator/Handlers/PeerVote.antt =====
-- handlers/peer_vote.rs: `handle_peer_vote`.
pub mod Stray
use sidecar.Prelude.{
  ℕ, Bool, true, false, ◌||◌, Option, none, some, Bytes, bytes_eq, nat_eq, is_some, if◌then◌else◌,
}
use sidecar.Prelude.Map
use sidecar.Prelude.Result.{Result, ok, err}
use sidecar.Errors.{CoordinatorError, instance_not_found}
use sidecar.Coordinator.Xt.{PendingXt}
use sidecar.Coordinator.Votes.{maybe_make_standalone_decision}
use sidecar.Coordinator.State.{CoordinatorState}
use sidecar.Coordinator.Effect.{XtBuilderCommand}
use sidecar.Coordinator.World.{Env, M, ◌>>=◌, reads, locked_or_fail}
use sidecar.Coordinator.Builder.{local_builder_command, apply_builder_command, apply_if_some}

-- The command for the builder, if a decision has been made.
abbrev pub command_for : ℕ → Option (Bool × ℕ × ℕ) → PendingXt → Option XtBuilderCommand
command_for chain_id none xt = none
command_for chain_id (some made) xt = local_builder_command chain_id xt made.0

abbrev pub add_vote : ℕ → Bool → PendingXt → PendingXt
add_vote cid vote xt = record xt { peer_votes = Map.insert cid vote xt.peer_votes }

unfoldable pub peer_vote_found :
    ℕ
    → ℕ
    → Bytes
    → ℕ
    → Bool
    → Option PendingXt
    → CoordinatorState
    → Result CoordinatorError (Option XtBuilderCommand) × CoordinatorState
unfolding maybe_make_standalone_decision local_builder_command
peer_vote_found chain_id now id cid vote none s = (err (instance_not_found id), s)
peer_vote_found chain_id now id cid vote (some xt) s =
    if is_some xt.decision
    then (ok none, s)
    else if Map.contains_key cid xt.peer_votes
    then (ok none, s)
    else (let (made, xt') = maybe_make_standalone_decision chain_id now (add_vote cid vote xt) in
        (ok (command_for chain_id made xt'), record s { pending = Map.insert id xt' s.pending }))

unfoldable pub peer_vote :
    ℕ
    → ℕ
    → Bytes
    → ℕ
    → Bool
    → CoordinatorState
    → Result CoordinatorError (Option XtBuilderCommand) × CoordinatorState
unfolding peer_vote_found
peer_vote chain_id now id cid vote s =
    peer_vote_found chain_id now id cid vote (Map.lookup id s.pending) s

abbrev pub handle_peer_vote : Env → Bytes → ℕ → Bool → M (Unit {0})
unfolding peer_vote
handle_peer_vote env id cid vote = do
  now ← reads (λ w. env.clock w.log)
  command ← locked_or_fail (peer_vote env.chain_id now id cid vote)
  apply_if_some env command
