-- ===== src/Coordinator/Handlers/PeerVote/Stray.antt =====
-- handlers/peer_vote.rs with `maybe_make_standalone_decision`: the vote of a chain that takes no part
-- in the transaction.
use sidecar.Prelude.{
  ℕ, ◌≡◌, ◌≢◌, true, none, some, List, [], ◌∷◌, Bytes, arith, bytes_eq, nat_eq, bytes_beq_iff,
}
use sidecar.Prelude.Map
use sidecar.Coordinator.Xt.{PendingXt}
use sidecar.Coordinator.Votes.{maybe_make_standalone_decision, decide_tally}
use sidecar.Coordinator.State.{CoordinatorState}
use sidecar.Coordinator.Handlers.PeerVote.{add_vote, peer_vote, peer_vote_found}

-- A transaction of the local chain and one other, for which only the local chain has voted, to
-- commit: the vote to commit of any third chain commits it, without a vote of the other chain.
pub peer_vote_stray :
    (chain_id now : ℕ) (id : Bytes) (xt : PendingXt) (s : CoordinatorState) (other stray : ℕ)
    (mine theirs : List Bytes)
    → Map.lookup id s.pending ≡ some xt
    → xt.decision ≡ none
    → xt.local_vote ≡ some true
    → xt.peer_votes ≡ []
    → xt.raw_txs ≡ (chain_id, mine) ∷ (other, theirs) ∷ []
    → stray ≢ chain_id
    → stray ≢ other
    → (xt' : PendingXt) × (Map.lookup id (peer_vote chain_id now id stray true s).1.pending
        ≡ some xt')
      × (xt'.decision ≡ some true)
      × (Map.lookup other xt'.peer_votes ≡ none)
unfolding peer_vote peer_vote_found maybe_make_standalone_decision decide_tally
peer_vote_stray chain_id now id xt s other stray mine theirs h e l p r n m = (
  after,
  ground (arith, bytes_beq_iff id id, Map.lookup-insert id id after s.pending),
  ground arith,
  ground arith,
)
  where
    after : PendingXt
    after = (maybe_make_standalone_decision chain_id now (add_vote stray true xt)).1
