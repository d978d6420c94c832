-- ===== src/Coordinator/Sections/Flags.antt =====
-- What the changes of a transaction leave true of it, and what the status reported by
-- crates/coordinator/coordinator/src/model/xt_status.rs can be.
use sidecar.Prelude.{
  ap, ◌∙◌, sym, ℕ, ◌≡◌, ◌≢◌, refl, Bool, true, false, some, List, Bytes, arith, bytes_eq, nat_eq,
  is_some,
}
use sidecar.Prelude.Map
use sidecar.Coordinator.Xt.{PendingXt, waiting_circ, simulated, determine_xt_status}
use sidecar.Coordinator.State.{CoordinatorState, init}
use sidecar.Coordinator.World.{Env}
use sidecar.Coordinator.Lifecycle.{
  IsNew, Change, decided, rolled_back, peer_voted, voted, delivered, confirmed, worked_on, Changes,
  unchanged, then_change,
}
use sidecar.Coordinator.Sections.{Section, run}
use sidecar.Coordinator.Sections.History.{run-init-IsRegistered, StaysPending, run_continues}

-- The fields that say how far a transaction has come agree with each other.
abbrev pub HasFlags : PendingXt → Type 0
HasFlags xt =
    (is_some xt.decided_at ≡ is_some xt.decision)
    × (is_some xt.local_vote ≡ xt.vote_sent)
    × (is_some xt.simulated_at ≡ xt.vote_sent)

Change-HasFlags : (a b : PendingXt) → Change a b → HasFlags a → HasFlags b
Change-HasFlags _ _ (decided now d xt e) f = (refl, f.1, f.2)
Change-HasFlags _ _ (rolled_back now xt e) f = (refl, f.1, f.2)
Change-HasFlags _ _ (peer_voted cid v xt e g) f = f
Change-HasFlags _ _ (voted c now v xt e) f = (f.0, refl, refl)
Change-HasFlags _ _ (delivered msgs xt) f = f
Change-HasFlags _ _ (confirmed now xt) f = f
Change-HasFlags _ _ (worked_on a b e) f = ground (
  arith,
  ap (λ x. x.decision) e,
  ap (λ x. x.decided_at) e,
  ap (λ x. x.local_vote) e,
  ap (λ x. x.vote_sent) e,
  ap (λ x. x.simulated_at) e,
)

Changes-HasFlags : (a b : PendingXt) → Changes a b → HasFlags a → HasFlags b
Changes-HasFlags _ _ (unchanged a) f = f
Changes-HasFlags a c (then_change {b} p q) f = Change-HasFlags b c q (Changes-HasFlags a b p f)

new-HasFlags : (xt : PendingXt) → IsNew xt → HasFlags xt
new-HasFlags xt n = ground arith

-- What an earlier form `a` of a transaction fixes in a later form `b`.
abbrev pub KeepsVotes : PendingXt → PendingXt → Type 0
KeepsVotes a b =
    (b.id ≡ a.id)
    × (b.instance_id ≡ a.instance_id)
    × (b.raw_txs ≡ a.raw_txs)
    × ((v : Bool) → a.local_vote ≡ some v → b.local_vote ≡ some v)
    × ((c : ℕ) (v : Bool) → Map.lookup c a.peer_votes ≡ some v → Map.lookup c b.peer_votes ≡ some v)
    × (a.decision ≡ some false → b.decision ≡ some false)
    × (is_some a.decision ≡ true → is_some b.decision ≡ true)

Change-KeepsVotes : (a b : PendingXt) → Change a b → KeepsVotes a b
Change-KeepsVotes _ _ (decided now d xt e) = ground arith
Change-KeepsVotes _ _ (rolled_back now xt e) = ground arith
Change-KeepsVotes _ _ (peer_voted cid v xt e g) = (
  refl,
  refl,
  refl,
  (λ w h. h),
  (λ c w h. ground (arith, Map.lookup-insert cid c v xt.peer_votes, same c)),
  (λ h. h),
  λ h. h,
)
  where
    same : (c : ℕ) → cid ≡ c → Map.lookup cid xt.peer_votes ≡ Map.lookup c xt.peer_votes
    same c p = λ i. Map.lookup (p i) xt.peer_votes
Change-KeepsVotes _ _ (voted c now v xt e) = ground arith
Change-KeepsVotes _ _ (delivered msgs xt) = ground arith
Change-KeepsVotes _ _ (confirmed now xt) = ground arith
Change-KeepsVotes _ _ (worked_on a b e) =
    let same_votes : a.peer_votes ≡ b.peer_votes = ap (λ x. x.peer_votes) e in
    let same_decision : a.decision ≡ b.decision = ap (λ x. x.decision) e in
    (
      sym (ap (λ x. x.id) e),
      sym (ap (λ x. x.instance_id) e),
      sym (ap (λ x. x.raw_txs) e),
      (λ v h. sym (ap (λ x. x.local_vote) e) ∙ h),
      (λ c v h. sym (ap (Map.lookup c) same_votes) ∙ h),
      (λ h. sym same_decision ∙ h),
      λ h. sym (ap is_some same_decision) ∙ h,
    )

KeepsVotes-trans : (a b c : PendingXt) → KeepsVotes a b → KeepsVotes b c → KeepsVotes a c
KeepsVotes-trans a b c f g = ground arith

Changes-KeepsVotes : (a b : PendingXt) → Changes a b → KeepsVotes a b
Changes-KeepsVotes _ _ (unchanged a) = ground arith
Changes-KeepsVotes a c (then_change {b} p q) =
    KeepsVotes-trans a b c (Changes-KeepsVotes a b p) (Change-KeepsVotes b c q)

module _ (env : Env) where
  -- Whatever critical sections run, in whatever order, after the coordinator starts: a transaction
  -- that it holds has a decision time exactly when it has a decision; the local vote, the mark
  -- that it was sent and the simulation time are there together; and so the reported status is
  -- never `simulated` and never `waiting_circ`.
  pub run-status_lem :
      (cs : List Section) (id : Bytes) (xt : PendingXt)
      → Map.lookup id (run env cs init).pending ≡ some xt
      → HasFlags xt × (determine_xt_status xt ≢ simulated) × (determine_xt_status xt ≢ waiting_circ)
  unfolding determine_xt_status
  run-status_lem cs id xt h =
      let (new, n, c) = run-init-IsRegistered env cs id xt h in
      let f : HasFlags xt = Changes-HasFlags new xt c (new-HasFlags new n) in
      (f, (λ e. ground arith), λ e. ground arith)

  -- While a transaction stays pending, whatever critical sections run and in whatever order, it
  -- keeps its ids, its transactions, its local vote, each vote of a peer, and the fact that it is
  -- decided; and a decision to abort stays.
  pub run-KeepsVotes :
      (cs : List Section) (s : CoordinatorState) (id : Bytes) (old : PendingXt)
      → Map.HasDistinctKeys s.pending
      → Map.lookup id s.pending ≡ some old
      → StaysPending env id cs s
      → (xt : PendingXt) × (Map.lookup id (run env cs s).pending ≡ some xt) × KeepsVotes old xt
  run-KeepsVotes cs s id old d e p =
      let (xt, f, c) = run_continues env cs s id old d e p in (xt, f, Changes-KeepsVotes old xt c)
