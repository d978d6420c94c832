-- ===== src/Coordinator/Sections/Turn/Votes.antt =====
-- The sections that decide or vote (handlers/decision.rs, peer_vote.rs, start_period.rs, rollback.rs
-- and `send_vote` of pipeline/simulation.rs) on the table of transactions.
use sidecar.Prelude.{
  ℕ, ◌≡◌, Bool, true, false, Option, none, some, Bytes, arith, bytes_eq, nat_eq, ◌≢◌,
}
use sidecar.Prelude.Map
use sidecar.Prelude.Map.{Map}
use sidecar.Coordinator.Xt.{PendingXt, record_decision}
use sidecar.Coordinator.Votes.{maybe_make_standalone_decision, decide_tally}
use sidecar.Coordinator.State.{CoordinatorState}
use sidecar.Coordinator.Lifecycle.{
  decided, rolled_back, peer_voted, voted, Changes, unchanged, once, trans,
}
use sidecar.Coordinator.Handlers.Decision.{decide_found}
use sidecar.Coordinator.Handlers.PeerVote.{add_vote, peer_vote_found}
use sidecar.Coordinator.Handlers.Vote.{cast_vote, vote_found}
use sidecar.Coordinator.Handlers.StartPeriod.{abort_stale}
use sidecar.Coordinator.Handlers.Rollback.{abort_undone}
use sidecar.Coordinator.Sections.Turn.{kept_by, replaced_by, Turn, kept, replaced}

-- The votes that are in may decide at once.
standalone-Changes :
    (chain_id now : ℕ) (xt : PendingXt)
    → Changes xt (maybe_make_standalone_decision chain_id now xt).1
unfolding maybe_make_standalone_decision decide_tally
standalone-Changes chain_id now xt = ground (
  arith,
  unchanged xt,
  λ (e : xt.decision ≡ none). once (decided now true xt e),
  λ (e : xt.decision ≡ none). once (decided now false xt e),
)

pub decide_found-Turn :
    (chain_id now : ℕ) (id : Bytes) (d : Bool) (o : Option PendingXt) (s : CoordinatorState)
    → Map.lookup id s.pending ≡ o
    → Turn none s.pending (decide_found chain_id now id d o s).1.pending
unfolding decide_found
decide_found-Turn chain_id now id d none s h = kept s.pending
decide_found-Turn chain_id now id d (some xt) s h = ground (
  arith,
  kept_by none s.pending,
  λ (e : xt.decision ≡ none).
      replaced_by none id xt (record_decision now d xt) s.pending h (once (decided now d xt e)),
)

add_vote-Changes :
    (chain_id now cid : ℕ) (v : Bool) (xt : PendingXt)
    → xt.decision ≡ none
    → Map.contains_key cid xt.peer_votes ≡ false
    → Changes xt (maybe_make_standalone_decision chain_id now (add_vote cid v xt)).1
add_vote-Changes chain_id now cid v xt e h =
    trans (once (peer_voted cid v xt e h)) (standalone-Changes chain_id now (add_vote cid v xt))

pub peer_vote_found-Turn :
    (chain_id now : ℕ) (id : Bytes) (cid : ℕ) (v : Bool) (o : Option PendingXt)
    (s : CoordinatorState)
    → Map.lookup id s.pending ≡ o
    → Turn none s.pending (peer_vote_found chain_id now id cid v o s).1.pending
unfolding peer_vote_found
peer_vote_found-Turn chain_id now id cid v none s h = kept s.pending
peer_vote_found-Turn chain_id now id cid v (some xt) s h = ground (
  arith,
  kept_by none s.pending,
  λ (e : xt.decision ≡ none) (f : Map.contains_key cid xt.peer_votes ≡ false).
      replaced_by none id xt (maybe_make_standalone_decision chain_id now (add_vote cid v xt)).1
        s.pending h (add_vote-Changes chain_id now cid v xt e f),
)

pub vote_found-Turn :
    (chain_id now : ℕ) (alone : Bool) (id : Bytes) (v : Bool) (o : Option PendingXt)
    (s : CoordinatorState)
    → Map.lookup id s.pending ≡ o
    → Turn none s.pending (vote_found chain_id now alone id v o s).1.pending
unfolding vote_found
vote_found-Turn chain_id now alone id v none s h = kept s.pending
vote_found-Turn chain_id now alone id v (some xt) s h =
    ground (arith, kept_by none s.pending, cast_alone, cast_only)
  where
    cast : PendingXt
    cast = cast_vote chain_id now v xt

    cast_only : xt.local_vote ≡ none → Turn none s.pending (Map.insert id cast s.pending)
    cast_only e = replaced id xt cast s.pending h (once (voted chain_id now v xt e))

    cast_alone :
        xt.local_vote ≡ none
        → Turn none s.pending
            (Map.insert id (maybe_make_standalone_decision chain_id now cast).1 s.pending)
    cast_alone e =
        replaced_by none id xt (maybe_make_standalone_decision chain_id now cast).1 s.pending h
          (trans (once (voted chain_id now v xt e)) (standalone-Changes chain_id now cast))

pub abort_stale-Changes : (now period : ℕ) (xt : PendingXt) → Changes xt (abort_stale now period xt)
abort_stale-Changes now period xt =
    ground (arith, unchanged xt, λ (e : xt.decision ≡ none). once (decided now false xt e))

pub abort_undone-Changes : (now : ℕ) (xt : PendingXt) → Changes xt (abort_undone now xt)
abort_undone-Changes now xt =
    ground (arith, unchanged xt, λ (e : xt.decision ≢ some false). once (rolled_back now xt e))
