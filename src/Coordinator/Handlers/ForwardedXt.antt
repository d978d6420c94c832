-- ===== src/Coordinator/Handlers/ForwardedXt.antt =====
-- handlers/forwarded_xt.rs: `handle_forwarded_xt`.
use sidecar.Prelude.{
  ℕ, Bool, not, Option, none, some, List, Bytes, bytes_eq, nat_eq, is_empty, if◌then◌else◌,
}
use sidecar.Prelude.Text.{codes}
use sidecar.Prelude.Map
use sidecar.Prelude.Map.{Map}
use sidecar.Prelude.Result.{Result, ok, err}
use sidecar.Errors.{CoordinatorError, text, other, no_transactions, too_many_pending_instances}
use sidecar.Coordinator.Xt
use sidecar.Coordinator.Xt.{PendingXt}
use sidecar.Coordinator.State.{CoordinatorState, max_pending_xts}
use sidecar.Coordinator.Effect.{XtBuilderSubmission, spawn_process}
use sidecar.Coordinator.World.{
  Env, M, ◌>>=◌, ◌>>◌, fail, reads, locked, locked_or_fail, emit, attempt, skip, when,
}
use sidecar.Coordinator.Builder.{
  local_builder_submission, submit_xt_to_builder, build_sender_nonce_cache,
  remove_pending_xt_from_state,
}
use sidecar.Coordinator.Handlers.Register.{is_full, pre_lock, register}

-- `filter(|(_, chain_txs)| !chain_txs.is_empty())`
abbrev pub clean : Map ℕ (List Bytes) → Map ℕ (List Bytes)
clean = Map.retain (λ _ chain_txs. not (is_empty chain_txs))

module _ (env : Env) where
  abbrev pub forwarded : ℕ → Bytes → Map ℕ (List Bytes) → ℕ → ℕ → PendingXt
  forwarded now id clean_txs origin_chain origin_seq =
      pre_lock (Map.contains_key env.chain_id clean_txs) env.chain_id (record (Xt.new now id id) {
        sender_nonces = build_sender_nonce_cache env clean_txs;
        raw_txs = clean_txs;
        origin_chain = some origin_chain;
        origin_seq = origin_seq;
      })

  -- `none` where the transaction is known already.
  unfoldable pub forward_section :
      PendingXt → CoordinatorState → Result CoordinatorError (Option PendingXt) × CoordinatorState
  unfolding is_full register
  forward_section xt s =
      if Map.contains_key xt.id s.pending
      then (ok none, s)
      else if is_full s
      then (err (too_many_pending_instances max_pending_xts), s)
      else (ok (some xt), register xt s)

  -- A transaction that the builder refuses is taken out again. `is_closed` is as in
  -- `remove_pending_xt_from_state`.
  unfoldable pub submit_or_remove : (ℕ → Bool) → Bytes → Option XtBuilderSubmission → M (Unit {0})
  unfolding submit_xt_to_builder remove_pending_xt_from_state
  submit_or_remove is_closed id none = skip
  submit_or_remove is_closed id (some submission) = do
    submitted ← attempt (submit_xt_to_builder env submission)
    elim submitted [
      | ok _ ↦ skip
      | err error ↦ do _ ← locked (remove_pending_xt_from_state is_closed id); fail error
    ]

  finish_forward : (ℕ → Bool) → Option PendingXt → M (Unit {0})
  unfolding submit_or_remove local_builder_submission
  finish_forward is_closed none = skip
  finish_forward is_closed (some xt) = do
    submit_or_remove is_closed xt.id (local_builder_submission env.chain_id xt)
    when (Map.contains_key env.chain_id xt.raw_txs) (emit (spawn_process xt.id))

  abbrev pub handle_forwarded_xt : (ℕ → Bool) → Bytes → Map ℕ (List Bytes) → ℕ → ℕ → M (Unit {0})
  unfolding forward_section finish_forward build_sender_nonce_cache
  handle_forwarded_xt is_closed id txs origin_chain origin_seq =
      if is_empty id
      then fail (other (text (codes "missing instance_id for forwarded XT")))
      else if is_empty (clean txs)
      then fail no_transactions
      else do
        now ← reads (λ w. env.clock w.log)
        registered ←
            locked_or_fail (forward_section (forwarded now id (clean txs) origin_chain origin_seq))
        finish_forward is_closed registered
