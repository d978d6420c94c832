-- ===== src/Server.antt =====
-- crates/coordinator/server/src: the HTTP handlers for users and peers, and the dispatch of the
-- publisher's messages. JSON, protobuf and hex are foreign.
pub mod Decoding
pub mod Forwarded
mod Tests
use sidecar.Prelude.{
  ℕ, Bool, Option, none, some, List, [], ◌∷◌, ◌++◌, Bytes, nat_eq, is_empty, if◌then◌else◌,
}
use sidecar.Prelude.Map
use sidecar.Prelude.Map.{Map}
use sidecar.Prelude.Text.{codes}
use sidecar.Prelude.Result.{Result, ok, err, ◌>>=◌}
use sidecar.Errors.{
  CoordinatorError, instance_not_found, no_transactions, publisher_not_connected, Message, text,
  display, prefixed,
}
use sidecar.Mailbox.Types.{MailboxMessage}
use sidecar.Simulation.Trace.{trim_prefixes}
use sidecar.Peer.{HexCodec, XtForwardRequest, VoteRequest, decode_transactions}
use sidecar.Coordinator.World.{Env, World, M, StartInstance}
use sidecar.Coordinator.Handlers.Decision.{on_decision}
use sidecar.Coordinator.Handlers.ForwardedXt.{handle_forwarded_xt}
use sidecar.Coordinator.Handlers.Mailbox.{handle_mailbox_message}
use sidecar.Coordinator.Handlers.PeerVote.{handle_peer_vote}
use sidecar.Coordinator.Handlers.Rollback.{handle_rollback}
use sidecar.Coordinator.Handlers.StartInstance.{handle_start_instance}
use sidecar.Coordinator.Handlers.StartPeriod.{handle_start_period}
use sidecar.Coordinator.Handlers.Submit.{Received, submit_xt, XtStatusResponse, get_xt_status}

pub data ServerError : Type 0 where
  bad_request not_found internal : Message → ServerError

abbrev pub from_coordinator_error : CoordinatorError → ServerError
from_coordinator_error (instance_not_found id) =
    not_found (prefixed (codes "XT not found: ") (text id))
from_coordinator_error no_transactions = bad_request (text (codes "no transactions provided"))
from_coordinator_error publisher_not_connected = internal (text (codes "publisher not connected"))
from_coordinator_error e = internal (display e)

abbrev pub Handler : Type 0 → Type 0
Handler A = World → Result ServerError A × World

-- `coordinator.….await?`
abbrev pub answered :
    {A : Type 0} → Result CoordinatorError A × World → Result ServerError A × World
answered (ok a, w) = (ok a, w)
answered (err e, w) = (err (from_coordinator_error e), w)

module _ (env : Env) where
  -- peer.rs
  abbrev pub forward_decoded :
      (ℕ → Bool) → XtForwardRequest → Result Message (Map ℕ (List Bytes)) → Handler (Unit {0})
  forward_decoded is_closed req (err e) w =
      (err (bad_request (prefixed (codes "invalid transactions: ") e)), w)
  forward_decoded is_closed req (ok txs) w =
      answered
        (handle_forwarded_xt env is_closed req.instance_id txs req.origin_chain req.origin_seq w)

  pub handle_forward_xt : HexCodec → (ℕ → Bool) → XtForwardRequest → Handler (Unit {0})
  handle_forward_xt hex is_closed req = forward_decoded is_closed req (decode_transactions hex req)

  pub handle_vote : VoteRequest → Handler (Unit {0})
  handle_vote req w = answered (handle_peer_vote env req.instance_id req.chain_id req.vote w)

  pub handle_mailbox : Result Message MailboxMessage → Handler (Unit {0})
  handle_mailbox (err e) w = (err (bad_request (prefixed (codes "invalid protobuf: ") e)), w)
  handle_mailbox (ok msg) w = answered (handle_mailbox_message env msg w)

-- xt.rs
abbrev pub as_invalid_hex : Result Message Bytes → Result ServerError Bytes
as_invalid_hex (ok bytes) = ok bytes
as_invalid_hex (err e) = err (bad_request (prefixed (codes "invalid hex: ") e))

pub decode_chain : HexCodec → List Bytes → Result ServerError (List Bytes)
decode_chain hex [] = ok []
decode_chain hex (hex_tx ∷ hex_txs) = do
  tx ← as_invalid_hex (hex.decode (trim_prefixes hex_tx))
  txs ← decode_chain hex hex_txs
  ok (tx ∷ txs)

-- A chain without transactions is not entered.
abbrev pub enter_chain : ℕ → List Bytes → Map ℕ (List Bytes) → Map ℕ (List Bytes)
enter_chain chain_id decoded txs = if is_empty decoded then txs else Map.insert chain_id decoded txs

pub decode_chains :
    HexCodec → Map ℕ (List Bytes) → Map ℕ (List Bytes) → Result ServerError (Map ℕ (List Bytes))
unfolding decode_chain
decode_chains hex [] txs = ok txs
decode_chains hex ((chain_id, hex_txs) ∷ rest) txs = do
  decoded ← decode_chain hex hex_txs
  decode_chains hex rest (enter_chain chain_id decoded txs)

abbrev pub some_transactions : Map ℕ (List Bytes) → Result ServerError (Map ℕ (List Bytes))
some_transactions [] = err (bad_request (text (codes "no transactions")))
some_transactions (entry ∷ txs) = ok (entry ∷ txs)

pub submitted_transactions : HexCodec → Map ℕ (List Bytes) → Result ServerError (Map ℕ (List Bytes))
unfolding decode_chains
submitted_transactions hex transactions = do
  txs ← decode_chains hex transactions []
  some_transactions txs

module _ (env : Env) (is_closed : ℕ → Bool) where
  abbrev pub submit_decoded :
      ℕ → (World → Received) → Result ServerError (Map ℕ (List Bytes)) → Handler Bytes
  submit_decoded waiter received (err e) w = (err e, w)
  submit_decoded waiter received (ok txs) w =
      answered (submit_xt env is_closed waiter received txs w)

  pub handle_submit_xt : HexCodec → ℕ → (World → Received) → Map ℕ (List Bytes) → Handler Bytes
  unfolding submitted_transactions
  handle_submit_xt hex waiter received transactions =
      submit_decoded waiter received (submitted_transactions hex transactions)

  abbrev pub handle_get_xt_status : Bytes → Handler XtStatusResponse
  handle_get_xt_status id w = answered (get_xt_status id w.state, w)

-- The messages of the publisher, by their payload.
pub data Payload : Type 0 where
  decided : Bytes → Bool → Payload
  start_instance : StartInstance → Payload
  start_period : ℕ → ℕ → Payload
  mailbox_message : MailboxMessage → Payload
  rollback : ℕ → ℕ → Bytes → Payload
  vote : Payload
  unhandled : Payload

-- The publisher learns nothing of an error.
abbrev pub state_after : Result CoordinatorError (Unit {0}) × World → World
state_after (r, w) = w

module _ (env : Env) (is_closed : ℕ → Bool) where
  pub dispatch : Payload → World → World
  dispatch (decided id decision) w = state_after (on_decision env (env.hex_encode id) decision w)
  dispatch (start_instance msg) w = state_after (handle_start_instance env is_closed msg w)
  dispatch (start_period period_id superblock_number) w =
      state_after (handle_start_period env period_id w)
  dispatch (mailbox_message msg) w = state_after (handle_mailbox_message env msg w)
  dispatch (rollback period_id number hash) w = state_after (handle_rollback env w)
  dispatch vote w = w
  dispatch unhandled w = w

  -- A message that cannot be decoded, or one without a payload, is passed over.
  pub handle_publisher_message : Result Message (Option Payload) → World → World
  unfolding dispatch
  handle_publisher_message (err e) w = w
  handle_publisher_message (ok none) w = w
  handle_publisher_message (ok (some payload)) w = dispatch payload w
