-- ===== src/Coordinator/Handlers/StartPeriod.antt =====
-- handlers/start_period.rs: `handle_start_period`.
pub mod Aborts
use sidecar.Prelude.{
  ℕ, Bool, true, false, not, ◌&&◌, ◌||◌, Option, none, some, List, [], ◌∷◌, Bytes, is_some, is_none,
  is_empty, nat_beq, leb, if◌then◌else◌,
}
use sidecar.Prelude.Map
use sidecar.Prelude.Map.{Map}
use sidecar.Period
use sidecar.Coordinator.Xt.{PendingXt, record_decision, is_true}
use sidecar.Coordinator.State.{CoordinatorState}
use sidecar.Coordinator.Effect.{publisher_vote}
use sidecar.Coordinator.World.{
  Env, M, ◌>>=◌, ◌>>◌, reads, locked, emit, answer, attempt, skip, when,
}
use sidecar.Coordinator.Builder.{local_txs, abort_all}

-- The transactions that the loop does not skip: of an earlier period, not confirmed, not committed.
abbrev pub is_stale : ℕ → PendingXt → Bool
is_stale period_id xt =
    not (nat_beq xt.period_id 0 || leb period_id xt.period_id || is_some xt.confirmed_at)
    && not (is_true xt.decision)

abbrev pub abort_stale : ℕ → ℕ → PendingXt → PendingXt
abort_stale now period_id xt =
    if is_stale period_id xt && is_none xt.decision then record_decision now false xt else xt

-- The raw ids to report to the publisher.
aborted_ids : ℕ → Map Bytes PendingXt → List Bytes
aborted_ids period_id [] = []
aborted_ids period_id ((id, xt) ∷ m) =
    if is_stale period_id xt && is_none xt.decision
    then xt.instance_id ∷ aborted_ids period_id m
    else aborted_ids period_id m

-- The ids whose reservations the builder must drop.
builder_abort_ids : ℕ → ℕ → Map Bytes PendingXt → List Bytes
builder_abort_ids chain_id period_id [] = []
builder_abort_ids chain_id period_id ((id, xt) ∷ m) =
    if is_stale period_id xt && is_some (local_txs chain_id xt)
    then xt.id ∷ builder_abort_ids chain_id period_id m
    else builder_abort_ids chain_id period_id m

unfoldable pub start_period_section :
    ℕ → ℕ → ℕ → CoordinatorState → (List Bytes × List Bytes) × CoordinatorState
unfolding aborted_ids builder_abort_ids Period.start
start_period_section chain_id now period_id s = (
  (aborted_ids period_id s.pending, builder_abort_ids chain_id period_id s.pending),
  record s {
    pending = Map.map_values (abort_stale now period_id) s.pending;
    publisher_period = Period.start period_id s.publisher_period;
    last_known_blocks = [];
    chain_overlay = [];
  },
)

module _ (env : Env) where
  report_aborts : List Bytes → M (Unit {0})
  report_aborts [] = skip
  report_aborts (instance_id ∷ ids) = do
    emit (publisher_vote instance_id false)
    _ ← attempt (answer (λ log. env.vote_answer log instance_id false))
    report_aborts ids

  abbrev pub handle_start_period : ℕ → M (Unit {0})
  unfolding start_period_section abort_all report_aborts
  handle_start_period period_id = do
    now ← reads (λ w. env.clock w.log)
    ids ← locked (start_period_section env.chain_id now period_id)
    abort_all env ids.1
    connected ← reads (λ w. env.is_connected w.log)
    when (not (is_empty ids.0) && env.has_publisher && connected) (report_aborts ids.0)
