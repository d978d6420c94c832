-- ===== src/Coordinator/Handlers/StartInstance.antt =====
-- handlers/start_instance.rs: `handle_start_instance`.
use sidecar.Prelude.{
  ℕ, Bool, false, not, ◌&&◌, Option, none, some, List, [], ◌∷◌, ◌++◌, Bytes, bytes_eq, nat_eq,
  nat_beq, is_empty, is_some, any, if◌then◌else◌,
}
use sidecar.Prelude.Text.{codes}
use sidecar.Prelude.Map
use sidecar.Prelude.Map.{Map}
use sidecar.Prelude.Result.{Result, ok, err}
use sidecar.Errors.{
  CoordinatorError, Message, text, display, prefixed, other, instance_already_pending,
  too_many_pending_instances,
}
use sidecar.Period
use sidecar.Coordinator.Xt
use sidecar.Coordinator.Xt.{PendingXt}
use sidecar.Coordinator.State.{CoordinatorState, max_pending_xts, or_default}
use sidecar.Coordinator.Effect.{XtBuilderSubmission, publisher_vote, spawn_process}
use sidecar.Coordinator.World.{
  Env, XtRequest, StartInstance, SpecInstance, M, ◌>>=◌, ◌>>◌, fail, reads, locked, emit, answer,
  attempt, skip, when,
}
use sidecar.Coordinator.Builder.{
  local_builder_submission, submit_xt_to_builder, build_sender_nonce_cache,
  remove_pending_xt_from_state,
}
use sidecar.Coordinator.Submission.{xt_request_fingerprint}
use sidecar.Coordinator.Handlers.Register.{is_full, pre_lock, register}
use sidecar.Coordinator.Handlers.Resolve.{resolve_pending_submission}

-- `raw_txs.entry(req.chain_id).or_default().push(tx)`, for each transaction of a request
abbrev push_txs : ℕ → List Bytes → Map ℕ (List Bytes) → Map ℕ (List Bytes)
push_txs chain_id [] m = m
push_txs chain_id (tx ∷ txs) m =
    push_txs chain_id txs (Map.insert chain_id (or_default (Map.lookup chain_id m) ++ tx ∷ []) m)

abbrev group_txs : XtRequest → Map ℕ (List Bytes) → Map ℕ (List Bytes)
group_txs [] m = m
group_txs ((chain_id, txs) ∷ reqs) m = group_txs reqs (push_txs chain_id txs m)

-- What the locked part comes to.
pub data Admission : Type 0 where
  known : Admission
  full : Admission
  refused : CoordinatorError → Admission
  admitted : PendingXt → Admission

abbrev pub admit_with :
    PendingXt
    → Result CoordinatorError Period.PublisherPeriod
    → CoordinatorState
    → Admission × CoordinatorState
admit_with xt (err e) s = (refused e, s)
admit_with xt (ok period) s = (admitted xt, register xt (record s { publisher_period = period }))

unfoldable pub start_instance_section : PendingXt → CoordinatorState → Admission × CoordinatorState
unfolding is_full register Period.accept_start_instance
start_instance_section xt s =
    if Map.contains_key xt.id s.pending
    then (known, s)
    else if is_full s
    then (full, s)
    else admit_with xt
        (Period.accept_start_instance xt.period_id xt.sequence_num s.publisher_period) s

module _ (env : Env) where
  -- The chain takes part in the request and has a transaction in it.
  abbrev pub includes_local : SpecInstance → Bool
  includes_local inst =
      any (λ c. nat_beq c env.chain_id) (env.chains_from_request inst.xt_request)
      && is_some (
          Map.filter_option (λ txs. not (is_empty txs))
            (Map.lookup env.chain_id (group_txs inst.xt_request [])))

  abbrev pub started : ℕ → SpecInstance → PendingXt
  started now inst =
      pre_lock (includes_local inst) env.chain_id
        (record (Xt.new now (env.hex_encode inst.id) inst.id) {
          period_id = inst.period_id;
          sequence_num = inst.sequence_number;
          raw_txs = group_txs inst.xt_request [];
          sender_nonces = build_sender_nonce_cache env (group_txs inst.xt_request []);
        })

  -- An abort vote, sent around `send_vote` since the transaction is not pending.
  reject_start_instance : StartInstance → M (Unit {0})
  reject_start_instance msg = do
    connected ← reads (λ w. env.is_connected w.log)
    when (env.has_publisher && connected) (do
      emit (publisher_vote msg.instance_id false)
      _ ← attempt (answer (λ log. env.vote_answer log msg.instance_id false))
      skip)

  submit_or_reject :
      (ℕ → Bool) → Bytes → StartInstance → Bytes → Option XtBuilderSubmission → M (Unit {0})
  unfolding submit_xt_to_builder remove_pending_xt_from_state resolve_pending_submission
      reject_start_instance
  submit_or_reject is_closed fp msg id none = skip
  submit_or_reject is_closed fp msg id (some submission) = do
    submitted ← attempt (submit_xt_to_builder env submission)
    elim submitted [
      | ok _ ↦ skip
      | err error ↦ do
        _ ← locked (remove_pending_xt_from_state is_closed id)
        resolve_pending_submission fp (err (display error))
        reject_start_instance msg
        fail error
    ]

  finish_start :
      (ℕ → Bool) → Bytes → StartInstance → SpecInstance → Bytes → Admission → M (Unit {0})
  unfolding submit_or_reject local_builder_submission resolve_pending_submission
      reject_start_instance
  finish_start is_closed fp msg inst id known = fail (instance_already_pending id)
  finish_start is_closed fp msg inst id full = do
    resolve_pending_submission fp (err (display (too_many_pending_instances max_pending_xts)))
    fail (too_many_pending_instances max_pending_xts)
  finish_start is_closed fp msg inst id (refused error) = do
    resolve_pending_submission fp (err (display error))
    reject_start_instance msg
  finish_start is_closed fp msg inst id (admitted xt) = do
    submit_or_reject is_closed fp msg id (local_builder_submission env.chain_id xt)
    resolve_pending_submission fp (ok id)
    when (includes_local inst) (emit (spawn_process id))

  start_parsed : (ℕ → Bool) → Bytes → StartInstance → Result Message SpecInstance → M (Unit {0})
  unfolding start_instance_section finish_start
  start_parsed is_closed fp msg (err e) = do
    resolve_pending_submission fp (err (prefixed (codes "invalid start-instance: ") e))
    reject_start_instance msg
  start_parsed is_closed fp msg (ok inst) = do
    now ← reads (λ w. env.clock w.log)
    admission ← locked (start_instance_section (started now inst))
    finish_start is_closed fp msg inst (env.hex_encode inst.id) admission

  start_request : (ℕ → Bool) → StartInstance → Option XtRequest → M (Unit {0})
  unfolding start_parsed xt_request_fingerprint
  start_request is_closed msg none = fail (other (text (codes "missing xt_request")))
  start_request is_closed msg (some req) =
      start_parsed is_closed (xt_request_fingerprint env req) msg (env.parse_instance msg)

  abbrev pub handle_start_instance : (ℕ → Bool) → StartInstance → M (Unit {0})
  unfolding start_request
  handle_start_instance is_closed msg = start_request is_closed msg msg.xt_request
