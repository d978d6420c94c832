-- ===== src/Coordinator/Handlers/Decision/Overlay.antt =====
-- The two ways to abort a transaction, handlers/decision.rs and handlers/peer_vote.rs with
-- `maybe_make_standalone_decision`, and the overlay of simulated effects.
use sidecar.Prelude.{
  ℕ, ◌≡◌, ◌≢◌, refl, true, false, none, some, List, [], ◌∷◌, Bytes, bytes_eq, nat_eq, nat_beq_iff,
  beq_refl, arith,
}
use sidecar.Prelude.Map
use sidecar.Prelude.Map.{Map}
use sidecar.Mailbox.Overrides.{StateOverride}
use sidecar.Coordinator.Xt.{PendingXt, record_decision}
use sidecar.Coordinator.Votes.Unanimity.{decided, decided-abort_iff}
use sidecar.Coordinator.State.{CoordinatorState}
use sidecar.Coordinator.Handlers.PeerVote.{add_vote, peer_vote, peer_vote_found}
use sidecar.Coordinator.Handlers.Decision.{remove_chains, decide, decide_found}

remove_chains-none :
    (cs : List ℕ) (c : ℕ) (overlay : Map ℕ StateOverride)
    → Map.lookup c overlay ≡ none
    → Map.lookup c (remove_chains cs overlay) ≡ none
unfolding remove_chains
remove_chains-none [] c overlay h = h
remove_chains-none (k ∷ cs) c overlay h =
    remove_chains-none cs c (Map.remove k overlay) (ground (arith, Map.lookup-remove k c overlay))

remove_chains-keys :
    (m : Map ℕ (List Bytes)) (c : ℕ) (overlay : Map ℕ StateOverride)
    → Map.contains_key c m ≡ true
    → Map.lookup c (remove_chains (Map.keys m) overlay) ≡ none
unfolding remove_chains
remove_chains-keys [] c overlay h = absurd (ground arith)
remove_chains-keys ((k, txs) ∷ m) c overlay h = ground (
  arith,
  remove_chains-none (Map.keys m) c (Map.remove k overlay),
  remove_chains-keys m c (Map.remove k overlay),
  Map.lookup-remove k c overlay,
  nat_beq_iff k c,
)

-- An undecided transaction is aborted by a first vote to abort of another chain and by a decision to
-- abort, but the decision takes the overlay of its chains away, and the vote leaves all overlays.
pub peer_vote_keeps_overlay :
    (chain_id now : ℕ) (id : Bytes) (voter : ℕ) (xt : PendingXt) (s : CoordinatorState)
    → Map.lookup id s.pending ≡ some xt
    → Map.HasDistinctKeys xt.peer_votes
    → xt.decision ≡ none
    → Map.lookup voter xt.peer_votes ≡ none
    → voter ≢ chain_id
    → ((xt' : PendingXt) × (Map.lookup id (peer_vote chain_id now id voter false s).1.pending
          ≡ some xt')
        × (xt'.decision ≡ some false))
      × ((peer_vote chain_id now id voter false s).1.chain_overlay ≡ s.chain_overlay)
      × ((xt' : PendingXt) × (Map.lookup id (decide chain_id now id false s).1.pending ≡ some xt')
          × (xt'.decision ≡ some false))
      × ((c : ℕ)
          → Map.contains_key c xt.raw_txs ≡ true
          → Map.lookup c (decide chain_id now id false s).1.chain_overlay ≡ none)
unfolding peer_vote peer_vote_found decide decide_found
peer_vote_keeps_overlay chain_id now id voter xt s h d e f n = (
  (after, ground (arith, beq_refl id, Map.lookup-insert id id after s.pending), aborted),
  ground arith,
  (
    record_decision now false xt,
    ground (arith, beq_refl id, Map.lookup-insert id id (record_decision now false xt) s.pending),
    refl,
  ),
  λ c k. ground (arith, remove_chains-keys xt.raw_txs c s.chain_overlay),
)
  where
    voted : PendingXt
    voted = add_vote voter false xt

    after : PendingXt
    after = decided chain_id now voted

    aborted : after.decision ≡ some false
    aborted =
        (decided-abort_iff chain_id now voted
            (Map.HasDistinctKeys-insert voter false xt.peer_votes d) e).1
          (
            voter,
            ground (
              arith,
              nat_beq_iff voter chain_id,
              beq_refl voter,
              Map.lookup-insert voter voter false xt.peer_votes,
            ),
          )
