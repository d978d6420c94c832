-- ===== src/Coordinator/Handlers/Resolve.antt =====
-- `resolve_pending_submission` of coordinator.rs: the callers that wait for an instance id.
use sidecar.Prelude.{ℕ, List, [], ◌∷◌, Bytes, bytes_eq}
use sidecar.Prelude.Map
use sidecar.Prelude.Result.{Result}
use sidecar.Errors.{Message}
use sidecar.Coordinator.State.{CoordinatorState, or_default}
use sidecar.Coordinator.Effect.{resolve}
use sidecar.Coordinator.World.{M, ◌>>=◌, ◌>>◌, locked, emit, skip}

-- `notify_pending_submission_waiters`
unfoldable pub notify_pending_submission_waiters : List ℕ → Result Message Bytes → M (Unit {0})
notify_pending_submission_waiters [] result = skip
notify_pending_submission_waiters (waiter ∷ waiters) result = do
  emit (resolve waiter result)
  notify_pending_submission_waiters waiters result

unfoldable pub take_waiters : Bytes → CoordinatorState → List ℕ × CoordinatorState
take_waiters fp s = (
  or_default (Map.lookup fp s.pending_submissions),
  record s { pending_submissions = Map.remove fp s.pending_submissions },
)

unfoldable pub resolve_pending_submission : Bytes → Result Message Bytes → M (Unit {0})
unfolding notify_pending_submission_waiters take_waiters
resolve_pending_submission fp result = do
  waiters ← locked (take_waiters fp)
  notify_pending_submission_waiters waiters result
