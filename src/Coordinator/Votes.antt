-- ===== src/Coordinator/Votes.antt =====
-- `maybe_make_standalone_decision` of crates/coordinator/coordinator/src/coordinator.rs: the decision
-- from the votes that a sidecar knows, when no publisher decides.
pub mod Counting
pub mod Unanimity
use sidecar.Prelude.{
  ℕ, ◌+◌, Bool, true, false, not, ◌&&◌, ◌||◌, Option, none, some, [], ◌∷◌, length, ltb, leb,
  nat_beq, if◌then◌else◌, is_some,
}
use sidecar.Prelude.Map.{Map}
use sidecar.Coordinator.Xt.{PendingXt, record_decision}

-- How many votes are in, and whether one of them is to abort.
pub record Tally : Type 0 where
  pub collected : ℕ
  pub has_abort_vote : Bool

abbrev pub count_local : Option Bool → Tally
count_local none = record { collected = 0; has_abort_vote = false }
count_local (some vote) = record { collected = 1; has_abort_vote = not vote }

-- The loop over `peer_votes`, which skips the local chain.
abbrev pub count_peers : ℕ → Map ℕ Bool → Tally → Tally
count_peers chain_id [] t = t
count_peers chain_id ((cid, vote) ∷ votes) t = count_peers chain_id votes (
    if nat_beq cid chain_id
    then t
    else record { collected = t.collected + 1; has_abort_vote = t.has_abort_vote || not vote })

abbrev pub tally : ℕ → PendingXt → Tally
tally chain_id xt = count_peers chain_id xt.peer_votes (count_local xt.local_vote)

unfoldable pub decide_tally : ℕ → Tally → PendingXt → Option (Bool × ℕ × ℕ) × PendingXt
decide_tally now t xt =
    let expected = length xt.raw_txs in
    if t.has_abort_vote
    then (some (false, t.collected, expected), record_decision now false xt)
    else if ltb 0 expected && leb expected t.collected
    then (some (true, t.collected, expected), record_decision now true xt)
    else (none, xt)

unfoldable pub maybe_make_standalone_decision :
    ℕ → ℕ → PendingXt → Option (Bool × ℕ × ℕ) × PendingXt
unfolding decide_tally
maybe_make_standalone_decision chain_id now xt =
    if is_some xt.decision then (none, xt) else decide_tally now (tally chain_id xt) xt
