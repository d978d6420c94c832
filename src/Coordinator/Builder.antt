-- ===== src/Coordinator/Builder.antt =====
-- crates/coordinator/coordinator/src/handlers/builder_control.rs, and the helpers of
-- pipeline/delivery.rs: the coordinator's dealings with the local block builder.
pub mod PutInbox
use sidecar.Prelude.{
  ℕ, ◌+◌, Bool, true, false, not, Option, none, some, List, [], ◌∷◌, Bytes, bytes_eq, nat_eq,
  length, is_empty, keep_if, nat_beq, bytes_beq, if◌then◌else◌, is_none,
}
use sidecar.Prelude.Map
use sidecar.Prelude.Map.{Map}
use sidecar.Prelude.Result.{Result, ok, err}
use sidecar.Errors.{CoordinatorError, put_inbox_not_configured}
use sidecar.Nonce
use sidecar.Nonce.{saturating_add}
use sidecar.Mailbox.Types.{CrossRollupDependency}
use sidecar.Coordinator.Xt.{PendingXt}
use sidecar.Coordinator.State.{CoordinatorState, prune_submissions}
use sidecar.Coordinator.Effect.{
  XtBuilderSubmission, XtBuilderCommand, release, abort, Effect, submit_locked_xt, release_xt,
  abort_xt, fetch_nonce, build_put_inbox,
}
use sidecar.Coordinator.World.{
  Env, World, M, ◌>>=◌, ◌>>◌, pure, fail, locked, nonce_call, emit, answer, reads, attempt, skip,
  when,
}

deps_for_chain : List CrossRollupDependency → ℕ → List CrossRollupDependency
deps_for_chain deps chain_id = keep_if (λ dep. nat_beq dep.dest_chain_id chain_id) deps

-- `decode_sender_nonce`: the envelope, its signer, its nonce.
pub decode_sender_nonce : Env → Bytes → Option (Bytes × ℕ)
decode_sender_nonce env raw_tx = elim (env.decode_envelope raw_tx) [
  | none ↦ none
  | some signed ↦
      Map.map_option (λ from. (from, env.envelope_nonce signed)) (env.recover_signer signed)
]

abbrev add_sender : ℕ → Option (Bytes × ℕ) → Map ℕ (Bytes × ℕ) → Map ℕ (Bytes × ℕ)
add_sender chain_id none rest = rest
add_sender chain_id (some sn) rest = (chain_id, sn) ∷ rest

abbrev first_sender : Env → List Bytes → Option (Bytes × ℕ)
first_sender env [] = none
first_sender env (tx ∷ txs) = decode_sender_nonce env tx

unfoldable pub build_sender_nonce_cache : Env → Map ℕ (List Bytes) → Map ℕ (Bytes × ℕ)
unfolding decode_sender_nonce
build_sender_nonce_cache env [] = []
build_sender_nonce_cache env ((chain_id, txs) ∷ rest) =
    add_sender chain_id (first_sender env txs) (build_sender_nonce_cache env rest)

-- The local transactions, unless there are none.
abbrev pub local_txs : ℕ → PendingXt → Option (List Bytes)
local_txs chain_id xt =
    Map.filter_option (λ txs. not (is_empty txs)) (Map.lookup chain_id xt.raw_txs)

unfoldable pub local_builder_submission : ℕ → PendingXt → Option XtBuilderSubmission
local_builder_submission chain_id xt =
    Map.map_option
      (λ transactions. record {
        instance_id = xt.id;
        period_id = xt.period_id;
        sequence_number = if nat_beq xt.sequence_num 0 then xt.origin_seq else xt.sequence_num;
        transactions = transactions;
      })
      (local_txs chain_id xt)

unfoldable pub local_builder_command : ℕ → PendingXt → Bool → Option XtBuilderCommand
unfolding deps_for_chain
local_builder_command chain_id xt decision =
    if is_none (local_txs chain_id xt)
    then none
    else if decision
    then some (release xt.id (deps_for_chain xt.fulfilled_deps chain_id))
    else some (abort xt.id)

module _ (env : Env) where
  unfoldable pub submit_xt_to_builder : XtBuilderSubmission → M (Unit {0})
  submit_xt_to_builder submission =
      if env.has_xt_builder_client
      then (do emit (submit_locked_xt submission); answer (λ log. env.submit_answer log submission))
      else skip

  -- `start_nonce` onwards: one transaction for each dependency, at consecutive nonces.
  pub build_all : Bytes → ℕ → List CrossRollupDependency → M (List Bytes)
  build_all instance_id nonce [] = pure []
  build_all instance_id nonce (dependency ∷ dependencies) = do
    emit (build_put_inbox dependency nonce)
    built ← attempt (answer (λ log. env.put_inbox_answer log dependency nonce))
    elim built [
      | ok transaction ↦ do
        transactions ← build_all instance_id (saturating_add nonce 1) dependencies
        pure (transaction ∷ transactions)
      | err error ↦ do nonce_call (λ n. (ok tt, Nonce.release_aborted instance_id n)); fail error
    ]

  -- `nonce_manager.reserve(…)`, which asks the builder for the nonce under its own lock.
  pub reserve_nonces : Bytes → ℕ → M ℕ
  reserve_nonces instance_id count = do
    emit fetch_nonce
    canonical ← attempt (answer env.nonce_answer)
    nonce_call (Nonce.reserve instance_id count canonical)

  pub build_put_inbox_transactions : Bytes → List CrossRollupDependency → M (List Bytes)
  unfolding build_all reserve_nonces
  build_put_inbox_transactions instance_id [] = pure []
  build_put_inbox_transactions instance_id (dep ∷ deps) =
      if env.has_put_inbox_builder
      then (do
        start_nonce ← reserve_nonces instance_id (length (dep ∷ deps))
        build_all instance_id start_nonce (dep ∷ deps))
      else fail put_inbox_not_configured

  unfoldable pub apply_builder_command : XtBuilderCommand → M (Unit {0})
  unfolding build_put_inbox_transactions
  apply_builder_command (release instance_id dependencies) =
      if env.has_xt_builder_client
      then (do
        transactions ← build_put_inbox_transactions instance_id dependencies
        emit (release_xt instance_id transactions)
        released ← attempt (answer (λ log. env.release_answer log instance_id transactions))
        elim released [
          | ok _ ↦ skip
          | err error ↦ do
            nonce_call (λ n. (ok tt, Nonce.release_aborted instance_id n))
            fail error
        ])
      else skip
  apply_builder_command (abort instance_id) = do
    when env.has_xt_builder_client
        (do emit (abort_xt instance_id); answer (λ log. env.abort_answer log instance_id))
    nonce_call (λ n. (ok tt, Nonce.release_aborted instance_id n))

  -- `if let Some(command) = builder_command`
  abbrev pub apply_if_some : Option XtBuilderCommand → M (Unit {0})
  apply_if_some none = skip
  apply_if_some (some command) = apply_builder_command command

-- The loops of start_period.rs and rollback.rs over the reservations to abort.
unfoldable pub abort_all : Env → List Bytes → M (Unit {0})
unfolding apply_builder_command
abort_all env [] = skip
abort_all env (instance_id ∷ ids) = do
  apply_builder_command env (abort instance_id)
  abort_all env ids

abbrev pub drop_entry :
    (ℕ → Bool) → Bytes → Option PendingXt → CoordinatorState → Bool × CoordinatorState
drop_entry is_closed instance_id none s = (false, s)
drop_entry is_closed instance_id (some xt) s = (
  true,
  record s {
    pending = Map.remove instance_id s.pending;
    mailbox_index = Map.remove xt.instance_id s.mailbox_index;
    submitted_fingerprints =
        Map.retain (λ _ pending_id. not (bytes_beq pending_id instance_id))
          s.submitted_fingerprints;
    pending_submissions = prune_submissions is_closed s.pending_submissions;
  },
)

-- `is_closed` says which callers have gone.
unfoldable pub remove_pending_xt_from_state :
    (ℕ → Bool) → Bytes → CoordinatorState → Bool × CoordinatorState
remove_pending_xt_from_state is_closed instance_id s =
    drop_entry is_closed instance_id (Map.lookup instance_id s.pending) s

abbrev pub confirm : ℕ → PendingXt → PendingXt
confirm now xt = record xt { confirmed_at = some now }

-- The loop of `confirm_included_xts` under the lock; an unknown id is skipped.
unfoldable pub confirm_pending : ℕ → List Bytes → Map Bytes PendingXt → Map Bytes PendingXt
confirm_pending now [] m = m
confirm_pending now (id ∷ ids) m = confirm_pending now ids (Map.modify id (confirm now) m)

confirm_nonces : List Bytes → Nonce.Inner → Nonce.Inner
confirm_nonces [] n = n
confirm_nonces (id ∷ ids) n = confirm_nonces ids (Nonce.release_confirmed id n)

abbrev confirm_included_xts : Env → List Bytes → M (Unit {0})
unfolding confirm_pending confirm_nonces
confirm_included_xts env ids = do
  now ← reads (λ w. env.clock w.log)
  locked (λ s. (tt, record s { pending = confirm_pending now ids s.pending }))
  nonce_call (λ n. (ok tt, confirm_nonces ids n))
