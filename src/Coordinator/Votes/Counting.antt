-- ===== src/Coordinator/Votes/Counting.antt =====
-- The counted votes as a map from chains, and what the tally says of it.
use sidecar.Prelude.{
  ℕ, ◌+◌, ◌≡◌, refl, Bool, true, false, not, ◌||◌, Option, none, some, [], ◌∷◌, arith, length,
  nat_beq, nat_beq_iff, nat_eq, if◌then◌else◌,
}
use sidecar.Prelude.Map
use sidecar.Prelude.Map.{Map}
use sidecar.Coordinator.Xt.{PendingXt}
use sidecar.Coordinator.Votes.{Tally, count_local, count_peers, tally}

-- The vote of a chain as this sidecar knows it: its own, or the one that the peer sent.
abbrev pub vote_of : ℕ → PendingXt → ℕ → Option Bool
vote_of chain_id xt cid =
    if nat_beq cid chain_id then xt.local_vote else Map.lookup cid xt.peer_votes

-- The votes that are counted, by chain.
abbrev local_voter : ℕ → Option Bool → Map ℕ Bool → Map ℕ Bool
local_voter chain_id none votes = votes
local_voter chain_id (some v) votes = (chain_id, v) ∷ votes

abbrev others : ℕ → Map ℕ Bool → Map ℕ Bool
others chain_id = Map.retain (λ cid _. not (nat_beq cid chain_id))

abbrev pub voters : ℕ → PendingXt → Map ℕ Bool
voters chain_id xt = local_voter chain_id xt.local_vote (others chain_id xt.peer_votes)

abbrev pub any_abort : Map ℕ Bool → Bool
any_abort [] = false
any_abort ((cid, v) ∷ m) = not v || any_abort m

count_peers_lem :
    (chain_id : ℕ) (m : Map ℕ Bool) (t : Tally)
    → count_peers chain_id m t ≡ record {
      collected = t.collected + length (others chain_id m);
      has_abort_vote = t.has_abort_vote || any_abort (others chain_id m);
    }
count_peers_lem chain_id [] t = ground arith
count_peers_lem chain_id ((cid, v) ∷ m) t = ground (
  arith,
  count_peers_lem chain_id m t,
  count_peers_lem chain_id m
      (record { collected = t.collected + 1; has_abort_vote = t.has_abort_vote || not v }),
)

pub tally_lem :
    (chain_id : ℕ) (xt : PendingXt)
    → tally chain_id xt ≡ record {
      collected = length (voters chain_id xt);
      has_abort_vote = any_abort (voters chain_id xt);
    }
tally_lem chain_id xt =
    ground (arith, count_peers_lem chain_id xt.peer_votes (count_local xt.local_vote))

others_absent : (chain_id : ℕ) (m : Map ℕ Bool) → Map.lookup chain_id (others chain_id m) ≡ none
others_absent chain_id [] = refl
others_absent chain_id ((cid, v) ∷ m) = ground (arith, others_absent chain_id m)

module _ (chain_id : ℕ) (xt : PendingXt) (d : Map.HasDistinctKeys xt.peer_votes) where
  pub lookup-voters : (cid : ℕ) → Map.lookup cid (voters chain_id xt) ≡ vote_of chain_id xt cid
  lookup-voters cid = ground (
    arith,
    others_absent chain_id xt.peer_votes,
    Map.lookup-retain (λ cid _. not (nat_beq cid chain_id)) cid xt.peer_votes d,
  )

  pub voters-HasDistinctKeys : Map.HasDistinctKeys (voters chain_id xt)
  voters-HasDistinctKeys = ground (
    arith,
    others_absent chain_id xt.peer_votes,
    Map.HasDistinctKeys-retain (λ cid _. not (nat_beq cid chain_id)) xt.peer_votes d,
  )

-- An abort vote is in exactly when some chain is looked up as voting so.
pub any_abort-found :
    (m : Map ℕ Bool)
    → Map.HasDistinctKeys m
    → any_abort m ≡ true
    → (cid : ℕ) × (Map.lookup cid m ≡ some false)
any_abort-found [] d h = absurd (ground arith)
any_abort-found ((k, false) ∷ m) d h = (k, ground arith)
any_abort-found ((k, true) ∷ m) d h =
    let (cid, e) = any_abort-found m d.1 h in (cid, ground (arith, nat_beq_iff k cid, d.0))

pub any_abort-of_found :
    (m : Map ℕ Bool) (cid : ℕ) → Map.lookup cid m ≡ some false → any_abort m ≡ true
any_abort-of_found [] cid h = absurd (ground arith)
any_abort-of_found ((k, v) ∷ m) cid h = ground (arith, any_abort-of_found m cid)
