-- ===== src/Coordinator/Handlers/Rollback.antt =====
-- handlers/rollback.rs: `handle_rollback`.
pub mod Failure
use sidecar.Prelude.{
  ℕ, Bool, true, false, Option, none, some, List, [], ◌∷◌, Bytes, is_some, if◌then◌else◌,
}
use sidecar.Prelude.Text.{codes}
use sidecar.Prelude.Map
use sidecar.Prelude.Map.{Map}
use sidecar.Prelude.Result.{Result, ok, err}
use sidecar.Errors.{Message, text}
use sidecar.Period
use sidecar.Nonce
use sidecar.Coordinator.Xt.{PendingXt, record_decision, is_false}
use sidecar.Coordinator.State.{CoordinatorState}
use sidecar.Coordinator.Effect.{resolve}
use sidecar.Coordinator.World.{Env, M, ◌>>=◌, ◌>>◌, reads, locked, nonce_call, emit, skip}
use sidecar.Coordinator.Builder.{local_txs, abort_all}
use sidecar.Coordinator.Handlers.Resolve.{notify_pending_submission_waiters}

abbrev pub abort_undone : ℕ → PendingXt → PendingXt
abort_undone now xt = if is_false xt.decision then xt else record_decision now false xt

unfoldable pub reserved_ids : ℕ → Map Bytes PendingXt → List Bytes
reserved_ids chain_id [] = []
reserved_ids chain_id ((id, xt) ∷ m) =
    if is_some (local_txs chain_id xt)
    then xt.id ∷ reserved_ids chain_id m
    else reserved_ids chain_id m

unfoldable pub rollback_section :
    ℕ → ℕ → CoordinatorState → (List Bytes × Map Bytes (List ℕ)) × CoordinatorState
unfolding reserved_ids Period.close
rollback_section chain_id now s = (
  (reserved_ids chain_id s.pending, s.pending_submissions),
  record s {
    pending = Map.map_values (abort_undone now) s.pending;
    publisher_period = Period.close s.publisher_period;
    last_known_blocks = [];
    chain_overlay = [];
    mailbox_buffer = [];
    pending_submissions = [];
  },
)

-- The error that the callers waiting for the publisher get.
abbrev aborted_by_rollback : Message
aborted_by_rollback = text (codes "publisher submission aborted by rollback")

notify_all : Map Bytes (List ℕ) → M (Unit {0})
unfolding notify_pending_submission_waiters
notify_all [] = skip
notify_all ((fp, waiters) ∷ m) = do
  notify_pending_submission_waiters waiters (err aborted_by_rollback)
  notify_all m

pub handle_rollback : Env → M (Unit {0})
unfolding rollback_section abort_all notify_all Nonce.reset
handle_rollback env = do
  now ← reads (λ w. env.clock w.log)
  todo ← locked (rollback_section env.chain_id now)
  abort_all env todo.0
  nonce_call (λ n. (ok tt, Nonce.reset n))
  notify_all todo.1
