-- ===== src/Coordinator/Votes/Unanimity.antt =====
-- The standalone decision as two-phase commit: one abort vote decides, and a commit is unanimous.
use sidecar.Prelude.{
  ℕ, ◌≤◌, ◌<◌, ◌≡◌, sym, ◌∙◌, ◌↔◌, true, false, none, some, arith, length, nat_eq, if◌then◌else◌,
  is_some, ltb, leb,
}
use sidecar.Prelude.Map
use sidecar.Prelude.Map.{Map}
use sidecar.Coordinator.Xt.{PendingXt}
use sidecar.Coordinator.Votes.{maybe_make_standalone_decision}
use sidecar.Coordinator.Votes.Counting.{
  vote_of, voters, any_abort, tally_lem, lookup-voters, voters-HasDistinctKeys, any_abort-found,
  any_abort-of_found,
}

-- The transaction after the call.
abbrev pub decided : ℕ → ℕ → PendingXt → PendingXt
decided chain_id now xt = (maybe_make_standalone_decision chain_id now xt).1

decided_cases :
    (chain_id now : ℕ) (xt : PendingXt)
    → xt.decision ≡ none
    → (decided chain_id now xt).decision ≡ (
        if any_abort (voters chain_id xt)
        then some false
        else if ltb 0 (length xt.raw_txs)
        then (if leb (length xt.raw_txs) (length (voters chain_id xt)) then some true else none)
        else none)
unfolding maybe_make_standalone_decision
decided_cases chain_id now xt e = ground (arith, tally_lem chain_id xt)

-- An undecided transaction is aborted exactly when some counted vote, the local one or a peer's, is
-- to abort, however many votes are missing.
pub decided-abort_iff :
    (chain_id now : ℕ) (xt : PendingXt)
    → Map.HasDistinctKeys xt.peer_votes
    → xt.decision ≡ none
    → ((decided chain_id now xt).decision ≡ some false)
      ↔ ((cid : ℕ) × (vote_of chain_id xt cid ≡ some false))
decided-abort_iff chain_id now xt d e = (there, back)
  where
    there :
        (decided chain_id now xt).decision ≡ some false
        → (cid : ℕ) × (vote_of chain_id xt cid ≡ some false)
    there h =
        let (cid, f) =
          any_abort-found (voters chain_id xt) (voters-HasDistinctKeys chain_id xt d)
            (ground (arith, decided_cases chain_id now xt e)) in
        (cid, sym (lookup-voters chain_id xt d cid) ∙ f)

    back :
        ((cid : ℕ) × (vote_of chain_id xt cid ≡ some false))
        → (decided chain_id now xt).decision ≡ some false
    back (cid, f) = ground (
      arith,
      decided_cases chain_id now xt e,
      any_abort-of_found (voters chain_id xt) cid (lookup-voters chain_id xt d cid ∙ f),
    )

-- The chains that take part are those with transactions.
abbrev pub IsParticipant : PendingXt → ℕ → Type 0
IsParticipant xt cid = Map.contains_key cid xt.raw_txs ≡ true

-- Nobody votes who does not take part.
abbrev pub VotesAreParticipants : ℕ → PendingXt → Type 0
VotesAreParticipants chain_id xt =
    (cid : ℕ) → is_some (vote_of chain_id xt cid) ≡ true → IsParticipant xt cid

module _ (chain_id now : ℕ) (xt : PendingXt) (d : Map.HasDistinctKeys xt.peer_votes)
    (r : Map.HasDistinctKeys xt.raw_txs) (e : xt.decision ≡ none) where
  all_in :
      VotesAreParticipants chain_id xt
      → (decided chain_id now xt).decision ≡ some true
      → (cid : ℕ) → IsParticipant xt cid
      → vote_of chain_id xt cid ≡ some true
  all_in p h cid q = ground (arith, counted, lookup-voters chain_id xt d cid, no_abort)
    where
      inside : Map.HasKeysIn (voters chain_id xt) xt.raw_txs
      inside k f = p k (rw (lookup-voters chain_id xt d k) at f)

      counted : Map.contains_key cid (voters chain_id xt) ≡ true
      counted =
          Map.keys_in_of_length-le (voters chain_id xt) xt.raw_txs
            (voters-HasDistinctKeys chain_id xt d) r inside
            (ground (arith, decided_cases chain_id now xt e)) cid q

      no_abort : Map.lookup cid (voters chain_id xt) ≡ some false → ⊥
      no_abort f =
          ground
            (arith, decided_cases chain_id now xt e, any_abort-of_found (voters chain_id xt) cid f)

  unanimous :
      VotesAreParticipants chain_id xt
      → 0 < length xt.raw_txs
      → ((cid : ℕ) → IsParticipant xt cid → vote_of chain_id xt cid ≡ some true)
      → (decided chain_id now xt).decision ≡ some true
  unanimous p pos h = ground (arith, decided_cases chain_id now xt e, enough, none_aborts)
    where
      inside : Map.HasKeysIn xt.raw_txs (voters chain_id xt)
      inside k f = ground (arith, h k f, lookup-voters chain_id xt d k)

      enough : length xt.raw_txs ≤ length (voters chain_id xt)
      enough =
          Map.length-le-of_keys_in xt.raw_txs (voters chain_id xt) r
            (voters-HasDistinctKeys chain_id xt d) inside

      none_aborts : any_abort (voters chain_id xt) ≡ true → ⊥
      none_aborts f =
          let (cid, g) =
            any_abort-found (voters chain_id xt) (voters-HasDistinctKeys chain_id xt d) f in
          let v : vote_of chain_id xt cid ≡ some false =
            sym (lookup-voters chain_id xt d cid) ∙ g in
          ground (arith, v, h cid (p cid (ground (arith, v))))

-- Where every vote is of a chain that takes part, an undecided transaction with transactions is
-- committed exactly when every chain that takes part has voted to commit.
pub decided-commit_iff :
    (chain_id now : ℕ) (xt : PendingXt)
    → Map.HasDistinctKeys xt.peer_votes
    → Map.HasDistinctKeys xt.raw_txs
    → xt.decision ≡ none
    → VotesAreParticipants chain_id xt
    → 0 < length xt.raw_txs
    → ((decided chain_id now xt).decision ≡ some true)
      ↔ ((cid : ℕ) → IsParticipant xt cid → vote_of chain_id xt cid ≡ some true)
decided-commit_iff chain_id now xt d r e p pos =
    (all_in chain_id now xt d r e p, unanimous chain_id now xt d r e p pos)

-- A decision that is there is never changed by the aggregation of votes.
decided_final :
    (chain_id now : ℕ) (xt : PendingXt) → is_some xt.decision ≡ true → decided chain_id now xt ≡ xt
unfolding maybe_make_standalone_decision
decided_final chain_id now xt h = ground arith
