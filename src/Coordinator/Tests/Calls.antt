-- ===== src/Coordinator/Tests/Calls.antt =====
-- Instances of the theorems on single handlers.
use sidecar.Prelude.{
  false, ℕ, ◌<◌, ◌≡◌, ◌≢◌, refl, ◌↔◌, ◌⊎◌, true, false, none, some, List, [], ◌∷◌, Bytes, arith,
  nat_eq, bytes_eq,
}
use sidecar.Prelude.Map
use sidecar.Prelude.Map.{Map}
use sidecar.Prelude.Result.{ok, err}
use sidecar.Errors.{not_running}
use sidecar.Nonce
use sidecar.Nonce.{fresh, reserve, claim, raise_floor, pick_start, remove_run, live_end}
use sidecar.Mailbox.Types.{CrossRollupDependency}
use sidecar.Coordinator.Xt
use sidecar.Coordinator.Xt.{PendingXt}
use sidecar.Coordinator.State.{CoordinatorState, init}
use sidecar.Coordinator.Effect.{abort_xt}
use sidecar.Coordinator.Builder.{build_put_inbox_transactions}
use sidecar.Coordinator.Builder.PutInbox.{IsBuilt, reserved_world, build_put_inbox_transactions_lem}
use sidecar.Coordinator.Submission.{build_xt_request, xt_request_fingerprint}
use sidecar.Coordinator.Submission.Order.{
  IsAscending, chains, IsSameMap, xt_request_fingerprint_same,
}
use sidecar.Coordinator.Handlers.Cleanup.{cleanup_section}
use sidecar.Coordinator.Handlers.Cleanup.Early.{cleanup_forgets_early}
use sidecar.Coordinator.Handlers.Register.{register}
use sidecar.Coordinator.Handlers.Register.Delivery.{take_messages, register_delivers}
use sidecar.Coordinator.Handlers.Rollback.{reserved_ids, handle_rollback}
use sidecar.Coordinator.Handlers.Rollback.Failure.{IsRolledBack, handle_rollback_fails}
use sidecar.Coordinator.Handlers.StartPeriod.{start_period_section}
use sidecar.Coordinator.Handlers.StartPeriod.Aborts.{start_period_section_lem}
use sidecar.Coordinator.Tests.{env, id1, txs, voted_xt, state, world, early}

abbrev dependency : CrossRollupDependency
dependency = record {
  source_chain_id = 2;
  dest_chain_id = 1;
  sender = [];
  receiver = [];
  label = [];
  payload = none;
  session_id = 0;
}

abbrev reserved : Nonce.Inner
reserved = record {
  canonical_floor = 7;
  initialized = true;
  live = (id1, record { start = 7; end = 9 }) ∷ [];
  recycled = [];
}

two_reserved : reserve id1 2 (ok 7) fresh ≡ (ok 7, reserved)
unfolding reserve claim raise_floor pick_start remove_run live_end
two_reserved = refl

build_put_inbox_transactions_lem_example :
    IsBuilt env id1
      (reserved_world world reserved)
      7
      (dependency ∷ dependency ∷ [])
      (build_put_inbox_transactions env id1 (dependency ∷ dependency ∷ []) world)
build_put_inbox_transactions_lem_example =
    build_put_inbox_transactions_lem env id1 world dependency (dependency ∷ []) 7 reserved refl
      two_reserved (omega arith)

abbrev swapped : Map ℕ (List Bytes)
swapped = (2, (6 ∷ []) ∷ []) ∷ (1, (5 ∷ []) ∷ []) ∷ []

swapped-IsSameMap : IsSameMap txs swapped
swapped-IsSameMap k = ground arith

xt_request_fingerprint_same_example :
    (build_xt_request txs ≡ build_xt_request swapped)
    × (xt_request_fingerprint env (build_xt_request txs)
        ≡ xt_request_fingerprint env (build_xt_request swapped))
    × IsAscending (chains (build_xt_request txs))
xt_request_fingerprint_same_example =
    xt_request_fingerprint_same env txs swapped (refl, (refl, tt)) (refl, (refl, tt))
      swapped-IsSameMap

register_delivers_example :
    Map.lookup id1
      (register (Xt.new 1 id1 id1) (take_messages (early 1 ∷ early 2 ∷ []) init)).pending
    ≡ some (record (Xt.new 1 id1 id1) { pending_mailbox = early 1 ∷ early 2 ∷ [] })
register_delivers_example =
    register_delivers (Xt.new 1 id1 id1) (early 1 ∷ early 2 ∷ []) init (refl, (refl, tt)) refl refl
      (omega arith) refl

start_period_section_lem_example :
    ((xt : PendingXt) × (Map.lookup id1 (start_period_section 1 9 3 state).1.pending ≡ some xt)
      × ((xt.decision ≡ some false) ↔ (
          (voted_xt.decision ≡ some false)
          ⊎ ((voted_xt.decision ≡ none)
              × (voted_xt.confirmed_at ≡ none)
              × (voted_xt.period_id ≢ 0)
              × (voted_xt.period_id < 3))))
      × ((xt.decision ≡ some true) ↔ (voted_xt.decision ≡ some true)))
    × ((start_period_section 1 9 3 state).1.chain_overlay ≡ [])
    × ((start_period_section 1 9 3 state).1.last_known_blocks ≡ [])
start_period_section_lem_example = start_period_section_lem 1 9 3 state id1 voted_xt refl

one_reserved : reserved_ids 1 state.pending ≡ id1 ∷ []
unfolding reserved_ids
one_reserved = refl

handle_rollback_fails_example :
    (after : CoordinatorState) × (handle_rollback env world
      ≡ (err not_running, record world { state = after; log = abort_xt id1 ∷ [] }))
    × IsRolledBack state after
handle_rollback_fails_example =
    handle_rollback_fails env world id1 [] not_running refl one_reserved refl

-- A message that has just come.
abbrev buffering : CoordinatorState
buffering = record init { mailbox_buffer = (id1, early 1 ∷ []) ∷ [] }

cleanup_forgets_early_example :
    Map.lookup id1
      (register (Xt.new 1 id1 id1) (cleanup_section (λ _. false) 10 300 buffering)).pending
    ≡ some (Xt.new 1 id1 id1)
cleanup_forgets_early_example =
    cleanup_forgets_early (λ _. false) 10 300 (Xt.new 1 id1 id1) buffering (refl, tt) refl refl
