-- ===== src/PublisherConnection/Tests.antt =====
-- An instance of the theorem on votes, with a client that reaches the publisher.
use sidecar.Prelude.{◌≡◌, refl, true, some, [], ◌∷◌, Bytes, arith, length}
use sidecar.Prelude.Result.{ok}
use sidecar.Framing.{default, encode}
use sidecar.QuicClient.{
  Network, ClientConfig, fresh, connect, connect_with_retry, retry, ensure_connected, send_from,
  send,
}
use sidecar.PublisherConnection.{VoteMessage, send_vote}
use sidecar.PublisherConnection.Votes.{IsReadable, send_vote-IsReadable}

abbrev config : ClientConfig
config = record { addr = []; client_id = 1 ∷ []; max_retries = 3; codec = default }

abbrev net : Network
net = record {
  lookup = λ _. ok (some 4);
  dialled = λ log. ok (length log);
  opened = λ _. ok tt;
  written = λ _. ok tt;
  finished = λ _. ok tt;
  accepted = λ _. ok tt;
  read = λ _. ok [];
}

abbrev vote_bytes : VoteMessage → Bytes
vote_bytes message = message.chain_id ∷ message.instance_id

voted : (send_vote net config (λ _. []) vote_bytes 7 (3 ∷ []) true fresh).0 ≡ ok tt
unfolding send send_from ensure_connected connect_with_retry retry connect encode
voted = refl

send_vote-IsReadable_example :
    IsReadable net config
      (7 ∷ 3 ∷ [])
      (send_vote net config (λ _. []) vote_bytes 7 (3 ∷ []) true fresh).1
send_vote-IsReadable_example =
    send_vote-IsReadable net config (λ _. []) vote_bytes 7 (3 ∷ []) true fresh (omega arith) voted
