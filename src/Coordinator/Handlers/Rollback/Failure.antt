-- ===== src/Coordinator/Handlers/Rollback/Failure.antt =====
-- handlers/rollback.rs when the builder refuses to abort a reservation.
use sidecar.Prelude.{
  ℕ, ◌≡◌, refl, sym, subst, Bool, true, false, Option, none, some, List, [], ◌∷◌, ◌++◌, Bytes,
  arith, bytes_eq, Bool-cases, inl, inr,
}
use sidecar.Prelude.Map
use sidecar.Prelude.Map.{map_option}
use sidecar.Prelude.Result.{err}
use sidecar.Errors.{CoordinatorError}
use sidecar.Period
use sidecar.Coordinator.Xt.{PendingXt, is_false}
use sidecar.Coordinator.State.{CoordinatorState}
use sidecar.Coordinator.Effect.{abort_xt}
use sidecar.Coordinator.World.{Env, World}
use sidecar.Coordinator.Builder.{abort_all, apply_builder_command}
use sidecar.Coordinator.Handlers.Rollback.{
  abort_undone, rollback_section, reserved_ids, handle_rollback,
}

abort_all_fails :
    (env : Env) (w : World) (id : Bytes) (ids : List Bytes) (e : CoordinatorError)
    → env.has_xt_builder_client ≡ true
    → env.abort_answer (w.log ++ abort_xt id ∷ []) id ≡ err e
    → abort_all env (id ∷ ids) w ≡ (err e, record w { log = w.log ++ abort_xt id ∷ [] })
unfolding abort_all apply_builder_command
abort_all_fails env w id ids e b f = ground arith

-- A transaction after a rollback, by what it was before.
abbrev pub IsAborted : Option PendingXt → Option PendingXt → Type 0
IsAborted none after = after ≡ none
IsAborted (some before) after = (xt : PendingXt) × (after ≡ some xt) × (xt.decision ≡ some false)

-- Everything that a rollback leaves in the state: no transaction is there but aborted, no period is
-- open, nobody waits, and what was known of the chain and of early messages is forgotten.
abbrev pub IsRolledBack : CoordinatorState → CoordinatorState → Type 0
IsRolledBack before after =
    ((id : Bytes) → IsAborted (Map.lookup id before.pending) (Map.lookup id after.pending))
    × (after.pending_submissions ≡ [])
    × (after.publisher_period.current ≡ none)
    × (after.publisher_period.last_sequence ≡ none)
    × (after.last_known_blocks ≡ [])
    × (after.chain_overlay ≡ [])
    × (after.mailbox_buffer ≡ [])
    × (after.mailbox_index ≡ before.mailbox_index)
    × (after.submitted_fingerprints ≡ before.submitted_fingerprints)
    × (after.origin_seq ≡ before.origin_seq)

is_false-IsAborted : (d : Option Bool) → is_false d ≡ true → d ≡ some false
is_false-IsAborted none h = absurd (ground arith)
is_false-IsAborted (some true) h = absurd (ground arith)
is_false-IsAborted (some false) h = refl

abort_undone-decision : (now : ℕ) (xt : PendingXt) → (abort_undone now xt).decision ≡ some false
abort_undone-decision now xt = elim (Bool-cases (is_false xt.decision)) [
  | inl e ↦ rw e (is_false-IsAborted xt.decision e)
  | inr e ↦ rw e refl
]

abort_undone-IsAborted :
    (now : ℕ) (o : Option PendingXt) → IsAborted o (map_option (abort_undone now) o)
abort_undone-IsAborted now none = refl
abort_undone-IsAborted now (some xt) = (abort_undone now xt, refl, abort_undone-decision now xt)

rollback_section-IsRolledBack :
    (chain_id now : ℕ) (s : CoordinatorState) → IsRolledBack s (rollback_section chain_id now s).1
unfolding rollback_section Period.close
rollback_section-IsRolledBack chain_id now s = (
  λ id.
      subst (IsAborted (Map.lookup id s.pending))
        (sym (Map.lookup-map_values (abort_undone now) id s.pending))
        (abort_undone-IsAborted now (Map.lookup id s.pending)),
  refl,
  refl,
  refl,
  refl,
  refl,
  refl,
  refl,
  refl,
  refl,
)

-- If the builder answers the first abort of a rollback with an error, the handler returns that error
-- after that one request, with no further abort and no answer to anybody, and the nonces are as they
-- were. In the state every transaction is aborted, also a committed one; no period is open; the
-- callers that waited for the publisher are forgotten, as are the known blocks, the overlay and the
-- buffered messages; the rest is unchanged.
pub handle_rollback_fails :
    (env : Env) (w : World) (id : Bytes) (ids : List Bytes) (e : CoordinatorError)
    → env.has_xt_builder_client ≡ true
    → reserved_ids env.chain_id w.state.pending ≡ id ∷ ids
    → env.abort_answer (w.log ++ abort_xt id ∷ []) id ≡ err e
    → (after : CoordinatorState) × (handle_rollback env w
        ≡ (err e, record w { state = after; log = w.log ++ abort_xt id ∷ [] }))
      × IsRolledBack w.state after
unfolding handle_rollback rollback_section
handle_rollback_fails env w id ids e b r f = (
  locked_world.state,
  rw (r, abort_all_fails env locked_world id ids e b f) refl,
  rollback_section-IsRolledBack env.chain_id (env.clock w.log) w.state,
)
  where
    locked_world : World
    locked_world = record w { state = (rollback_section env.chain_id (env.clock w.log) w.state).1 }
