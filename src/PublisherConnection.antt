-- ===== src/PublisherConnection.antt =====
-- crates/net/publisher/src/connection.rs: the connection to the publisher, over the QUIC client. The
-- protobuf encoding and the text of an error are foreign.
pub mod Votes
mod Tests
use sidecar.Prelude.{ℕ, Bool, Bytes}
use sidecar.Prelude.Text.{codes}
use sidecar.Prelude.Result.{Result, ok, err}
use sidecar.Errors.{CoordinatorError, text, other}
use sidecar.Framing.{TransportError}
use sidecar.QuicClient
use sidecar.QuicClient.{Network, ClientConfig, QuicClient, close_client}

-- A message with a vote as its payload; the sender's id stays empty.
pub record VoteMessage : Type 0 where
  pub sender_id : Bytes
  pub instance_id : Bytes
  pub chain_id : ℕ
  pub vote : Bool

abbrev pub as_other :
    (TransportError → Bytes)
    → Result TransportError (Unit {0}) × QuicClient
    → Result CoordinatorError (Unit {0}) × QuicClient
as_other to_string (ok _, s) = (ok tt, s)
as_other to_string (err e, s) = (err (other (text (to_string e))), s)

module _ (net : Network) (config : ClientConfig) (to_string : TransportError → Bytes) where
  abbrev pub connect : QuicClient → Result CoordinatorError (Unit {0}) × QuicClient
  connect s = as_other to_string (QuicClient.connect net config s)

  abbrev pub connect_with_retry : QuicClient → Result CoordinatorError (Unit {0}) × QuicClient
  connect_with_retry s = as_other to_string (QuicClient.connect_with_retry net config s)

  -- `close` of the client has no error.
  abbrev pub disconnect : QuicClient → Result CoordinatorError (Unit {0}) × QuicClient
  disconnect s = as_other to_string (ok tt, close_client s)

  abbrev pub send_raw : Bytes → QuicClient → Result CoordinatorError (Unit {0}) × QuicClient
  send_raw payload s = as_other to_string (QuicClient.send net config payload s)

  abbrev pub send_vote :
      (VoteMessage → Bytes)
      → ℕ
      → Bytes
      → Bool
      → QuicClient
      → Result CoordinatorError (Unit {0}) × QuicClient
  send_vote encode_to_vec chain_id id vote = send_raw (
      encode_to_vec
        (record { sender_id = codes ""; instance_id = id; chain_id = chain_id; vote = vote }))

  abbrev pub is_connected : QuicClient → Bool
  is_connected s = s.connected
