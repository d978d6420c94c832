-- ===== src/Coordinator/Tests/Runs.antt =====
-- Instances of the theorems on runs of critical sections.
use sidecar.Prelude.{ℕ, ◌≤◌, ◌≡◌, ◌≢◌, refl, true, some, List, [], ◌∷◌, arith, bytes_eq, nat_eq}
use sidecar.Prelude.Text.{decimal}
use sidecar.Prelude.Map
use sidecar.Coordinator.Xt
use sidecar.Coordinator.Xt.{PendingXt, determine_xt_status, simulated, waiting_circ}
use sidecar.Coordinator.State.{init, undecided_count, max_pending_xts}
use sidecar.Coordinator.Sections.{
  Section, submits, votes, takes_peer_vote, takes_mailbox, rolls_back, confirms, run, apply,
  reused_id,
}
use sidecar.Coordinator.Sections.Capacity.{run-undecided_count-le}
use sidecar.Coordinator.Sections.Buffers.{IsBounded, run-IsBounded}
use sidecar.Coordinator.Sections.Flags.{HasFlags, KeepsVotes, run-status_lem, run-KeepsVotes}
use sidecar.Coordinator.Sections.History.{StaysPending}
use sidecar.Coordinator.Votes.{maybe_make_standalone_decision}
use sidecar.Coordinator.Handlers.Submit.{submit_section}
use sidecar.Coordinator.Handlers.Vote.{local_vote_section, vote_found}
use sidecar.Coordinator.Handlers.PeerVote.{peer_vote, peer_vote_found}
use sidecar.Coordinator.Handlers.Mailbox.{mailbox_section}
use sidecar.Coordinator.Handlers.Rollback.{rollback_section}
use sidecar.Coordinator.Tests.{env, id1, txs, voted_xt, state, early}

abbrev own_id : List ℕ
own_id = 120 ∷ 116 ∷ 45 ∷ 49 ∷ 45 ∷ 49 ∷ []

-- A submission, an early message for another transaction, the local vote and the vote of chain 2.
abbrev sections : List Section
sections =
    submits 1 [] txs
    ∷ takes_mailbox (early 4)
    ∷ votes 2 true own_id true
    ∷ takes_peer_vote 3 own_id 2 true
    ∷ []

run-undecided_count-le_example : undecided_count (run env sections init).pending ≤ max_pending_xts
run-undecided_count-le_example = run-undecided_count-le env sections

run-IsBounded_example : IsBounded (run env sections init).mailbox_buffer
run-IsBounded_example = run-IsBounded env sections

abbrev last : PendingXt
last = record (Xt.new 1 own_id own_id) {
  raw_txs = txs;
  origin_chain = some 1;
  origin_seq = 1;
  locked_chains = 1 ∷ [];
  simulated_at = some 2;
  vote_sent = true;
  local_vote = some true;
  peer_votes = (2, true) ∷ [];
  decision = some true;
  decided_at = some 3;
}

-- Both votes are in, so the transaction is committed.
last_held : Map.lookup own_id (run env sections init).pending ≡ some last
unfolding run apply submit_section local_vote_section vote_found peer_vote peer_vote_found
    mailbox_section maybe_make_standalone_decision decimal
last_held = refl

run-status_lem_example :
    HasFlags last
    × (determine_xt_status last ≢ simulated)
    × (determine_xt_status last ≢ waiting_circ)
run-status_lem_example = run-status_lem env sections own_id last last_held

abbrev more : List Section
more = takes_peer_vote 5 id1 2 true ∷ confirms 6 (id1 ∷ []) ∷ rolls_back 7 ∷ []

stays : StaysPending env id1 more state
unfolding apply reused_id peer_vote peer_vote_found maybe_make_standalone_decision rollback_section
stays = ((λ e. ground arith), refl, ((λ e. ground arith), refl, ((λ e. ground arith), refl, tt)))

run-KeepsVotes_example :
    (xt : PendingXt) × (Map.lookup id1 (run env more state).pending ≡ some xt)
    × KeepsVotes voted_xt xt
run-KeepsVotes_example = run-KeepsVotes env more state id1 voted_xt (refl, tt) refl stays
