-- ===== src/Coordinator/Handlers/Submit.antt =====
-- `submit_xt`, `submit_xt_publisher` and `submit_xt_standalone` of coordinator.rs, and its
-- `get_xt_status`.
use sidecar.Prelude.{
  ℕ, ◌+◌, ◌%◌, ◌^◌, Bool, ◌&&◌, Option, none, some, List, [], ◌∷◌, ◌++◌, Bytes, bytes_eq, nat_eq,
  ltb, length, is_empty, if◌then◌else◌,
}
use sidecar.Prelude.Text.{codes, decimal}
use sidecar.Prelude.Map
use sidecar.Prelude.Map.{Map}
use sidecar.Prelude.Result.{Result, ok, err}
use sidecar.Errors.{
  CoordinatorError, Message, text, display, prefixed, other, no_transactions, instance_not_found,
  publisher_not_connected, too_many_pending_instances,
}
use sidecar.Coordinator.Xt
use sidecar.Coordinator.Xt.{PendingXt, XtStatus, determine_xt_status}
use sidecar.Coordinator.State.{CoordinatorState, max_pending_xts, or_default}
use sidecar.Coordinator.Effect.{publisher_request, spawn_process, forward_xt}
use sidecar.Coordinator.World.{
  Env, World, M, ◌>>=◌, ◌>>◌, pure, fail, reads, locked, locked_or_fail, emit, answer, attempt,
  when,
}
use sidecar.Coordinator.Builder.{build_sender_nonce_cache, local_builder_submission}
use sidecar.Coordinator.Submission.{build_xt_request, xt_request_fingerprint}
use sidecar.Coordinator.Handlers.Register.{is_full, insert_xt}
use sidecar.Coordinator.Handlers.Resolve.{resolve_pending_submission}
use sidecar.Coordinator.Handlers.ForwardedXt.{submit_or_remove}

-- The caller joins those that wait for the fingerprint; only the first one sends the request.
unfoldable pub join_section : Bytes → ℕ → CoordinatorState → Bool × CoordinatorState
join_section fp waiter s =
    let waiters = or_default (Map.lookup fp s.pending_submissions) in
    (
      is_empty waiters,
      record s {
        pending_submissions = Map.insert fp (waiters ++ waiter ∷ []) s.pending_submissions;
      },
    )

-- What comes of the wait on the oneshot channel.
pub data Received : Type 0 where
  timed_out : Received
  dropped : Received
  resolved : Result Message Bytes → Received

abbrev received_result : Received → Result CoordinatorError Bytes
received_result timed_out =
    err (other (text (codes "timed out waiting for publisher to assign instance_id")))
received_result dropped =
    err (other (text (codes "publisher submission resolution dropped unexpectedly")))
received_result (resolved (err e)) = err (other e)
received_result (resolved (ok id)) = ok id

abbrev send_failed : CoordinatorError → Message
send_failed e = prefixed (codes "failed to send XT to publisher: ") (display e)

-- `InstanceId::standalone`
pub standalone_id : ℕ → ℕ → Bytes
standalone_id chain_id seq = codes "xt-" ++ decimal chain_id ++ codes "-" ++ decimal seq

-- What the locked part of `submit_xt_standalone` comes to.
pub data Submitted : Type 0 where
  existing : Bytes → Submitted
  added : PendingXt → Submitted

-- `existing_id`, where its transaction is pending still
abbrev pub known_id : Bytes → CoordinatorState → Option Bytes
known_id fp s =
    Map.filter_option (λ id. Map.contains_key id s.pending) (Map.lookup fp s.submitted_fingerprints)

module _ (env : Env) where
  -- Sending under the name of the first caller; a failure reaches every caller that joined.
  send_request : Bytes → Map ℕ (List Bytes) → M (Unit {0})
  unfolding build_xt_request resolve_pending_submission
  send_request fp txs = do
    emit (publisher_request (build_xt_request txs))
    sent ← attempt (answer (λ log. env.request_answer log (build_xt_request txs)))
    elim sent [
      | ok _ ↦ pure tt
      | err e ↦ do resolve_pending_submission fp (err (send_failed e)); fail (other (send_failed e))
    ]

  -- `waiter` is the caller's channel, `received` what it will get from it.
  submit_xt_publisher : ℕ → (World → Received) → Map ℕ (List Bytes) → M Bytes
  unfolding join_section send_request build_xt_request xt_request_fingerprint
  submit_xt_publisher waiter received txs =
      if env.has_publisher
      then (do
        should_send ←
            locked (join_section (xt_request_fingerprint env (build_xt_request txs)) waiter)
        when should_send (send_request (xt_request_fingerprint env (build_xt_request txs)) txs)
        answered ← reads received
        (λ w. (received_result answered, w)))
      else fail publisher_not_connected

  abbrev pub standalone : ℕ → ℕ → Map ℕ (List Bytes) → PendingXt
  standalone now seq txs =
      record (Xt.new now (standalone_id env.chain_id seq) (standalone_id env.chain_id seq)) {
        origin_chain = some env.chain_id;
        origin_seq = seq;
        sender_nonces = build_sender_nonce_cache env txs;
        raw_txs = txs;
        locked_chains = env.chain_id ∷ [];
      }

  -- Registers the transaction under the next sequence number, a `u64`.
  unfoldable pub add_standalone :
      ℕ → Bytes → Map ℕ (List Bytes) → CoordinatorState → Submitted × CoordinatorState
  unfolding insert_xt standalone_id build_sender_nonce_cache
  add_standalone now fp txs s =
      let seq = (s.origin_seq + 1) % 2 ^ 64 in
      let xt = standalone now seq txs in
      let s' = insert_xt xt s in
      (
        added xt,
        record s' {
          origin_seq = seq;
          submitted_fingerprints = Map.insert fp xt.id s'.submitted_fingerprints;
        },
      )

  unfoldable pub submit_fresh :
      ℕ
      → Bytes
      → Map ℕ (List Bytes)
      → CoordinatorState
      → Result CoordinatorError Submitted × CoordinatorState
  unfolding is_full add_standalone
  submit_fresh now fp txs s =
      let s' = record s { submitted_fingerprints = Map.remove fp s.submitted_fingerprints } in
      if is_full s'
      then (err (too_many_pending_instances max_pending_xts), s')
      else (let (added', s'') = add_standalone now fp txs s' in (ok added', s''))

  unfoldable pub submit_section :
      ℕ
      → Bytes
      → Map ℕ (List Bytes)
      → CoordinatorState
      → Result CoordinatorError Submitted × CoordinatorState
  unfolding submit_fresh
  submit_section now fp txs s = elim (known_id fp s) [
    | some id ↦ (ok (existing id), s)
    | none ↦ submit_fresh now fp txs s
  ]

  -- The sequence number sent to the peers is read again.
  finish_submit : (ℕ → Bool) → Map ℕ (List Bytes) → Submitted → M Bytes
  unfolding submit_or_remove local_builder_submission
  finish_submit is_closed txs (existing id) = pure id
  finish_submit is_closed txs (added xt) = do
    submit_or_remove env is_closed xt.id (local_builder_submission env.chain_id xt)
    emit (spawn_process xt.id)
    seq ← reads (λ w. w.state.origin_seq)
    when env.has_peer_coordinator (emit (forward_xt xt.id txs env.chain_id seq))
    pure xt.id

  submit_xt_standalone : (ℕ → Bool) → Map ℕ (List Bytes) → M Bytes
  unfolding submit_section finish_submit build_xt_request xt_request_fingerprint
  submit_xt_standalone is_closed txs = do
    now ← reads (λ w. env.clock w.log)
    submitted ←
        locked_or_fail (submit_section now (xt_request_fingerprint env (build_xt_request txs)) txs)
    finish_submit is_closed txs submitted

  abbrev pub submit_xt : (ℕ → Bool) → ℕ → (World → Received) → Map ℕ (List Bytes) → M Bytes
  unfolding submit_xt_publisher submit_xt_standalone
  submit_xt is_closed waiter received txs w =
      if is_empty txs
      then (err no_transactions, w)
      else if ltb (length txs) 2
      then (err (other (text (codes "cross-chain transaction must span at least 2 chains"))), w)
      else if env.has_publisher && env.is_connected w.log
      then submit_xt_publisher waiter received txs w
      else submit_xt_standalone is_closed txs w

pub record XtStatusResponse : Type 0 where
  pub instance_id : Bytes
  pub status : XtStatus
  pub decision : Option Bool

abbrev pub status_response : Bytes → Option PendingXt → Result CoordinatorError XtStatusResponse
status_response id none = err (instance_not_found id)
status_response id (some xt) =
    ok (record { instance_id = id; status = determine_xt_status xt; decision = xt.decision })

abbrev pub get_xt_status : Bytes → CoordinatorState → Result CoordinatorError XtStatusResponse
get_xt_status id s = status_response id (Map.lookup id s.pending)
