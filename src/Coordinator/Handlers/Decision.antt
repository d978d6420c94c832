-- ===== src/Coordinator/Handlers/Decision.antt =====
-- handlers/decision.rs: `on_decision`.
pub mod Overlay
use sidecar.Prelude.{
  ℕ, Bool, Option, none, some, List, [], ◌∷◌, Bytes, bytes_eq, nat_eq, is_some, if◌then◌else◌,
}
use sidecar.Prelude.Map
use sidecar.Prelude.Map.{Map}
use sidecar.Prelude.Result.{Result, ok, err}
use sidecar.Errors.{CoordinatorError, instance_not_found}
use sidecar.Mailbox.Overrides.{StateOverride}
use sidecar.Coordinator.Xt.{PendingXt, record_decision}
use sidecar.Coordinator.State.{CoordinatorState}
use sidecar.Coordinator.Effect.{XtBuilderCommand}
use sidecar.Coordinator.World.{Env, M, ◌>>=◌, reads, locked_or_fail}
use sidecar.Coordinator.Builder.{local_builder_command, apply_if_some}

-- `for chain_id in &chain_ids { state.chain_overlay.remove(chain_id) }`
remove_chains : List ℕ → Map ℕ StateOverride → Map ℕ StateOverride
remove_chains [] overlay = overlay
remove_chains (c ∷ cs) overlay = remove_chains cs (Map.remove c overlay)

unfoldable pub decide_found :
    ℕ
    → ℕ
    → Bytes
    → Bool
    → Option PendingXt
    → CoordinatorState
    → Result CoordinatorError (Option XtBuilderCommand) × CoordinatorState
unfolding remove_chains local_builder_command
decide_found chain_id now id decision none s = (err (instance_not_found id), s)
decide_found chain_id now id decision (some xt) s =
    if is_some xt.decision
    then (ok none, s)
    else (let xt' = record_decision now decision xt in
        (
          ok (local_builder_command chain_id xt' decision),
          record s {
            pending = Map.insert id xt' s.pending;
            chain_overlay =
                if decision
                then s.chain_overlay
                else remove_chains (Map.keys xt.raw_txs) s.chain_overlay;
          },
        ))

unfoldable pub decide :
    ℕ
    → ℕ
    → Bytes
    → Bool
    → CoordinatorState
    → Result CoordinatorError (Option XtBuilderCommand) × CoordinatorState
unfolding decide_found
decide chain_id now id decision s =
    decide_found chain_id now id decision (Map.lookup id s.pending) s

abbrev pub on_decision : Env → Bytes → Bool → M (Unit {0})
unfolding decide
on_decision env id decision = do
  now ← reads (λ w. env.clock w.log)
  command ← locked_or_fail (decide env.chain_id now id decision)
  apply_if_some env command
