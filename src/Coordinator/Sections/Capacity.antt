-- ===== src/Coordinator/Sections/Capacity.antt =====
-- The number of undecided transactions, which handlers/forwarded_xt.rs, handlers/start_instance.rs
-- and `submit_xt_standalone` of coordinator.rs bound by `MAX_PENDING_XTS`.
use sidecar.Prelude.{
  ap, ◌∙◌, ◌+◌, ◌≤◌, ◌≡◌, Bool, Option, none, some, List, [], ◌∷◌, Bytes, arith, bytes_eq,
}
use sidecar.Prelude.Map
use sidecar.Coordinator.Xt.{PendingXt}
use sidecar.Coordinator.State.{CoordinatorState, init, undecided_count, max_pending_xts}
use sidecar.Coordinator.World.{Env}
use sidecar.Coordinator.Lifecycle.{
  Change, decided, rolled_back, peer_voted, voted, delivered, confirmed, worked_on, Changes,
  unchanged, then_change,
}
use sidecar.Coordinator.Sections.{Section, apply, reused_id, run}
use sidecar.Coordinator.Sections.Turn.{
  Table, Turn, kept, replaced, modified, rewritten, added, removed, retained, then_modified,
}
use sidecar.Coordinator.Sections.Turn.Apply.{apply-Turn}

Change-decided : (a b : PendingXt) → Change a b → b.decision ≡ none → a.decision ≡ none
Change-decided _ _ (decided now d xt e) h = e
Change-decided _ _ (rolled_back now xt e) h = absurd (ground arith)
Change-decided _ _ (peer_voted cid v xt e f) h = h
Change-decided _ _ (voted c now v xt e) h = h
Change-decided _ _ (delivered msgs xt) h = h
Change-decided _ _ (confirmed now xt) h = h
Change-decided _ _ (worked_on a b e) h = ap (λ x. x.decision) e ∙ h

-- No change makes a decided transaction undecided.
Changes-decided : (a b : PendingXt) → Changes a b → b.decision ≡ none → a.decision ≡ none
Changes-decided _ _ (unchanged a) h = h
Changes-decided a c (then_change {b} p q) h = Changes-decided a b p (Change-decided b c q h)

undecided_count-insert-le :
    (id : Bytes) (xt : PendingXt) (m : Table)
    → undecided_count (Map.insert id xt m) ≤ undecided_count m + 1
unfolding undecided_count
undecided_count-insert-le id xt [] = ground arith
undecided_count-insert-le id xt ((j, old) ∷ m) = ground (arith, undecided_count-insert-le id xt m)

undecided_count-replace-le :
    (id : Bytes) (xt old : PendingXt) (m : Table)
    → Map.lookup id m ≡ some old
    → (xt.decision ≡ none → old.decision ≡ none)
    → undecided_count (Map.insert id xt m) ≤ undecided_count m
unfolding undecided_count
undecided_count-replace-le id xt old [] h k = absurd (ground arith)
undecided_count-replace-le id xt old ((j, other) ∷ m) h k =
    ground (arith, undecided_count-replace-le id xt old m)

undecided_count-modify-le :
    (id : Bytes) (f : PendingXt → PendingXt) (m : Table)
    → ((xt : PendingXt) → Changes xt (f xt))
    → undecided_count (Map.modify id f m) ≤ undecided_count m
unfolding undecided_count
undecided_count-modify-le id f [] k = ground arith
undecided_count-modify-le id f ((j, xt) ∷ m) k =
    ground (arith, Changes-decided xt (f xt) (k xt), undecided_count-modify-le id f m)

undecided_count-map_values-le :
    (f : PendingXt → PendingXt) (m : Table)
    → ((xt : PendingXt) → Changes xt (f xt))
    → undecided_count (Map.map_values f m) ≤ undecided_count m
unfolding undecided_count
undecided_count-map_values-le f [] k = ground arith
undecided_count-map_values-le f ((j, xt) ∷ m) k =
    ground (arith, Changes-decided xt (f xt) (k xt), undecided_count-map_values-le f m)

undecided_count-remove-le :
    (id : Bytes) (m : Table) → undecided_count (Map.remove id m) ≤ undecided_count m
unfolding undecided_count
undecided_count-remove-le id [] = ground arith
undecided_count-remove-le id ((j, xt) ∷ m) = ground (arith, undecided_count-remove-le id m)

undecided_count-retain-le :
    (p : Bytes → PendingXt → Bool) (m : Table)
    → undecided_count (Map.retain p m) ≤ undecided_count m
unfolding undecided_count
undecided_count-retain-le p [] = ground arith
undecided_count-retain-le p ((j, xt) ∷ m) = ground (arith, undecided_count-retain-le p m)

turn_undecided_count-le :
    (own : Option Bytes) (a b : Table)
    → Turn own a b
    → undecided_count a ≤ max_pending_xts
    → undecided_count b ≤ max_pending_xts
turn_undecided_count-le _ _ _ (kept m) h = h
turn_undecided_count-le _ _ _ (replaced id old xt m e c) h =
    ground (arith, undecided_count-replace-le id xt old m e (Changes-decided old xt c))
turn_undecided_count-le _ _ _ (modified id f m c) h =
    ground (arith, undecided_count-modify-le id f m c)
turn_undecided_count-le _ _ _ (rewritten f m c) h =
    ground (arith, undecided_count-map_values-le f m c)
turn_undecided_count-le _ _ _ (added xt m n l f) h =
    ground (arith, undecided_count-insert-le xt.id xt m)
turn_undecided_count-le _ _ _ (removed id m) h = ground (arith, undecided_count-remove-le id m)
turn_undecided_count-le _ _ _ (retained p m) h = ground (arith, undecided_count-retain-le p m)
turn_undecided_count-le own _ _ (then_modified id f a b p c) h =
    ground (arith, undecided_count-modify-le id f b c, turn_undecided_count-le own a b p h)

module _ (env : Env) where
  run_from_undecided_count-le :
      (cs : List Section) (s : CoordinatorState)
      → undecided_count s.pending ≤ max_pending_xts
      → undecided_count (run env cs s).pending ≤ max_pending_xts
  unfolding run
  run_from_undecided_count-le [] s h = h
  run_from_undecided_count-le (c ∷ cs) s h = run_from_undecided_count-le cs (apply env c s) (
      turn_undecided_count-le (reused_id env c s) s.pending (apply env c s).pending
        (apply-Turn env c s) h)

  -- Whatever critical sections run, in whatever order, from the state that the coordinator starts
  -- in, no more than 100 transactions wait for a decision.
  pub run-undecided_count-le :
      (cs : List Section) → undecided_count (run env cs init).pending ≤ max_pending_xts
  unfolding undecided_count
  run-undecided_count-le cs = run_from_undecided_count-le cs init (omega arith)
