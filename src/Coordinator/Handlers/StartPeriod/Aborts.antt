-- ===== src/Coordinator/Handlers/StartPeriod/Aborts.antt =====
-- Which transactions handlers/start_period.rs aborts.
use sidecar.Prelude.{
  ℕ, ◌<◌, ◌≡◌, ◌≢◌, ◌↔◌, ◌⊎◌, refl, true, false, none, some, [], Bytes, arith, bytes_eq,
}
use sidecar.Prelude.Map
use sidecar.Coordinator.Xt.{PendingXt}
use sidecar.Coordinator.State.{CoordinatorState}
use sidecar.Coordinator.Handlers.StartPeriod.{abort_stale, start_period_section}

-- The start of a period keeps every transaction. One is then decided to abort exactly when it was
-- before, or when it was undecided, not confirmed, and of an earlier period other than 0; a decision
-- to commit stays, and no other is made. The overlay and the known blocks are forgotten.
pub start_period_section_lem :
    (chain_id now period : ℕ) (s : CoordinatorState) (id : Bytes) (xt : PendingXt)
    → Map.lookup id s.pending ≡ some xt
    → ((xt' : PendingXt) × (Map.lookup id (start_period_section chain_id now period s).1.pending
          ≡ some xt')
        × ((xt'.decision ≡ some false) ↔ (
            (xt.decision ≡ some false)
            ⊎ ((xt.decision ≡ none)
                × (xt.confirmed_at ≡ none)
                × (xt.period_id ≢ 0)
                × (xt.period_id < period))))
        × ((xt'.decision ≡ some true) ↔ (xt.decision ≡ some true)))
      × ((start_period_section chain_id now period s).1.chain_overlay ≡ [])
      × ((start_period_section chain_id now period s).1.last_known_blocks ≡ [])
unfolding start_period_section
start_period_section_lem chain_id now period s id xt h = (
  (
    abort_stale now period xt,
    ground (arith, Map.lookup-map_values (abort_stale now period) id s.pending),
    ground arith,
    ground arith,
  ),
  refl,
  refl,
)
