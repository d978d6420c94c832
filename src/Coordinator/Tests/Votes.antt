-- ===== src/Coordinator/Tests/Votes.antt =====
-- Instances of the theorems on votes and on the status.
use sidecar.Prelude.{ℕ, ◌≡◌, refl, ◌↔◌, true, false, none, some, [], ◌∷◌, arith, nat_eq, bytes_eq}
use sidecar.Prelude.Map
use sidecar.Coordinator.Xt.{PendingXt}
use sidecar.Coordinator.Votes.Counting.{vote_of}
use sidecar.Coordinator.Votes.Unanimity.{
  decided, IsParticipant, VotesAreParticipants, decided-commit_iff, decided-abort_iff,
}
use sidecar.Coordinator.State.{CoordinatorState}
use sidecar.Coordinator.Handlers.Decision.{decide}
use sidecar.Coordinator.Handlers.Decision.Overlay.{peer_vote_keeps_overlay}
use sidecar.Coordinator.Handlers.PeerVote.{peer_vote}
use sidecar.Coordinator.Handlers.PeerVote.Stray.{peer_vote_stray}
use sidecar.Coordinator.Tests.{id1, voted_xt, state}

abbrev answered : PendingXt
answered = record voted_xt { peer_votes = (2, true) ∷ [] }

answered-VotesAreParticipants : VotesAreParticipants 1 answered
answered-VotesAreParticipants cid h = ground arith

decided-commit_iff_example :
    ((decided 1 9 answered).decision ≡ some true)
    ↔ ((cid : ℕ) → IsParticipant answered cid → vote_of 1 answered cid ≡ some true)
decided-commit_iff_example =
    decided-commit_iff 1 9 answered (refl, tt) (refl, (refl, tt)) refl answered-VotesAreParticipants
      (omega arith)

decided-abort_iff_example :
    ((decided 1 9 answered).decision ≡ some false)
    ↔ ((cid : ℕ) × (vote_of 1 answered cid ≡ some false))
decided-abort_iff_example = decided-abort_iff 1 9 answered (refl, tt) refl

peer_vote_stray_example :
    (xt : PendingXt) × (Map.lookup id1 (peer_vote 1 9 id1 3 true state).1.pending ≡ some xt)
    × (xt.decision ≡ some true)
    × (Map.lookup 2 xt.peer_votes ≡ none)
peer_vote_stray_example =
    peer_vote_stray 1 9 id1 voted_xt state 2 3 ((5 ∷ []) ∷ []) ((6 ∷ []) ∷ []) refl refl refl refl
      refl (λ e. ground arith) (λ e. ground arith)

abbrev later : PendingXt
later = record voted_xt { id = 2 ∷ []; sequence_num = 1 }

abbrev overlaid : CoordinatorState
overlaid = record state { chain_overlay = (1, []) ∷ (2, []) ∷ [] }

peer_vote_keeps_overlay_example :
    ((xt : PendingXt) × (Map.lookup id1 (peer_vote 1 9 id1 2 false overlaid).1.pending ≡ some xt)
      × (xt.decision ≡ some false))
    × ((peer_vote 1 9 id1 2 false overlaid).1.chain_overlay ≡ overlaid.chain_overlay)
    × ((xt : PendingXt) × (Map.lookup id1 (decide 1 9 id1 false overlaid).1.pending ≡ some xt)
        × (xt.decision ≡ some false))
    × ((c : ℕ)
        → Map.contains_key c voted_xt.raw_txs ≡ true
        → Map.lookup c (decide 1 9 id1 false overlaid).1.chain_overlay ≡ none)
peer_vote_keeps_overlay_example =
    peer_vote_keeps_overlay 1 9 id1 2 voted_xt overlaid refl tt refl refl (λ e. ground arith)
