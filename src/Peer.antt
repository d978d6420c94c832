-- ===== src/Peer.antt =====
-- crates/net/peer/src: the requests from one sidecar to another, and how they are sent to all peers.
-- JSON, hex, the text of an HTTP status and the HTTP client are foreign.
pub mod Broadcast
pub mod RoundTrip
use sidecar.Prelude.{
  ℕ, suc, Bool, ◌&&◌, Option, none, some, List, [], ◌∷◌, ◌++◌, Bytes, nat_eq, nat_beq, is_empty,
  leb, ltb, map, if◌then◌else◌,
}
use sidecar.Prelude.Map
use sidecar.Prelude.Map.{Map}
use sidecar.Prelude.Text.{codes, decimal}
use sidecar.Prelude.Result.{Result, ok, err, ◌>>=◌}
use sidecar.Errors.{CoordinatorError, Message, text, prefixed, mailbox, other}
use sidecar.Mailbox.Types.{MailboxMessage}

pub record PeerEntry : Type 0 where
  pub chain_id : ℕ
  pub addr : Bytes

-- A text is a list of parts here, since the error of a library can be one.
pub data PeerError : Type 0 where
  peer_not_found : ℕ → PeerError
  request : List Message → PeerError
  serialization : Message → PeerError

pub record HexCodec : Type 0 where
  pub encode : Bytes → Bytes
  pub decode : Bytes → Result Message Bytes

-- types.rs
pub record XtForwardRequest : Type 0 where
  pub instance_id : Bytes
  pub transactions : Map ℕ (List Bytes)
  pub origin_chain : ℕ
  pub origin_seq : ℕ

pub record VoteRequest : Type 0 where
  pub instance_id : Bytes
  pub chain_id : ℕ
  pub vote : Bool

abbrev pub encode_transactions : HexCodec → Map ℕ (List Bytes) → Map ℕ (List Bytes)
encode_transactions hex [] = []
encode_transactions hex ((chain_id, chain_txs) ∷ txs) =
    (chain_id, map hex.encode chain_txs) ∷ encode_transactions hex txs

abbrev pub new : HexCodec → Bytes → Map ℕ (List Bytes) → ℕ → ℕ → XtForwardRequest
new hex instance_id txs origin_chain origin_seq = record {
  instance_id = instance_id;
  transactions = encode_transactions hex txs;
  origin_chain = origin_chain;
  origin_seq = origin_seq;
}

pub decode_all : HexCodec → List Bytes → Result Message (List Bytes)
decode_all hex [] = ok []
decode_all hex (hex_tx ∷ hex_txs) = do
  tx ← hex.decode hex_tx
  txs ← decode_all hex hex_txs
  ok (tx ∷ txs)

pub decode_entries : HexCodec → Map ℕ (List Bytes) → Result Message (Map ℕ (List Bytes))
unfolding decode_all
decode_entries hex [] = ok []
decode_entries hex ((chain_id, hex_txs) ∷ entries) = do
  txs ← decode_all hex hex_txs
  decoded ← decode_entries hex entries
  ok ((chain_id, txs) ∷ decoded)

pub decode_transactions : HexCodec → XtForwardRequest → Result Message (Map ℕ (List Bytes))
unfolding decode_entries
decode_transactions hex req = decode_entries hex req.transactions

-- `trim_end_matches('/')`
abbrev pub trim_end_slashes : Bytes → Bytes
trim_end_slashes [] = []
trim_end_slashes (b ∷ bytes) =
    let rest = trim_end_slashes bytes in if is_empty rest && nat_beq b b'/' then [] else b ∷ rest

abbrev pub peer_url : PeerEntry → Bytes → Bytes
peer_url p path = trim_end_slashes p.addr ++ path

abbrev pub peer_chain_ids : List PeerEntry → List ℕ
peer_chain_ids = map (λ p. p.chain_id)

-- `post i url body` is the status with which the request number `i` is answered.
pub record Http : Type 0 where
  pub post : ℕ → Bytes → Bytes → Result Message ℕ
  pub status_text : ℕ → Bytes

abbrev pub is_success : ℕ → Bool
is_success status = leb 200 status && ltb status 300

-- What a request to a peer is called in the texts of its failures.
pub record Purpose : Type 0 where
  pub path : Bytes
  pub rejected : Bytes
  pub failed : Bytes

abbrev pub chain_text : ℕ → Bytes → Bytes
chain_text chain_id what = codes "chain " ++ (decimal chain_id ++ what)

abbrev pub failure_of : Http → Purpose → ℕ → Result Message ℕ → Option Message
failure_of http purpose chain_id (ok status) =
    if is_success status
    then none
    else some (text (chain_text chain_id purpose.rejected ++ http.status_text status))
failure_of http purpose chain_id (err e) = some (prefixed (chain_text chain_id purpose.failed) e)

abbrev pub add_failure : Option Message → List Message → List Message
add_failure none failures = failures
add_failure (some failure) failures = failure ∷ failures

-- `join_all` asks every peer, whatever the others answer.
pub failures : Http → Purpose → Bytes → ℕ → List PeerEntry → List Message
failures http purpose body i [] = []
failures http purpose body i (p ∷ peers) =
    add_failure (failure_of http purpose p.chain_id (http.post i (peer_url p purpose.path) body))
      (failures http purpose body (suc i) peers)

abbrev pub joined : List Message → Result PeerError (Unit {0})
joined [] = ok tt
joined (failure ∷ rest) = err (request (failure ∷ rest))

pub broadcast : Http → Purpose → List PeerEntry → Result Message Bytes → Result PeerError (Unit {0})
unfolding failures
broadcast http purpose peers (ok body) = joined (failures http purpose body 0 peers)
broadcast http purpose peers (err e) = err (serialization e)

abbrev pub forwarding : Purpose
forwarding = record {
  path = codes "/xt/forward";
  rejected = codes " rejected forward: ";
  failed = codes " forward failed: ";
}

abbrev voting : Purpose
voting = record {
  path = codes "/xt/vote";
  rejected = codes " rejected vote: ";
  failed = codes " vote failed: ";
}

pub forward_xt :
    Http
    → HexCodec
    → (XtForwardRequest → Result Message Bytes)
    → List PeerEntry
    → Bytes
    → Map ℕ (List Bytes)
    → ℕ
    → ℕ
    → Result PeerError (Unit {0})
forward_xt http hex to_json peers instance_id txs origin_chain origin_seq =
    broadcast http forwarding peers (to_json (new hex instance_id txs origin_chain origin_seq))

pub send_vote_to_peers :
    Http
    → (VoteRequest → Result Message Bytes)
    → List PeerEntry
    → Bytes
    → ℕ
    → Bool
    → Result PeerError (Unit {0})
send_vote_to_peers http to_json peers instance_id chain_id vote =
    broadcast http voting peers
      (to_json (record { instance_id = instance_id; chain_id = chain_id; vote = vote }))

-- sender.rs: of two entries for a chain the later one holds.
abbrev pub with_peer_entries : List PeerEntry → Map ℕ Bytes → Map ℕ Bytes
with_peer_entries [] addrs = addrs
with_peer_entries (p ∷ entries) addrs =
    with_peer_entries entries (Map.insert p.chain_id p.addr addrs)

abbrev pub delivered : Http → Result Message ℕ → Result CoordinatorError (Unit {0})
delivered http (ok status) =
    if is_success status
    then ok tt
    else err (
        mailbox (
          text (
            codes "peer returned status "
            ++ (http.status_text status ++ codes " for mailbox message"))))
delivered http (err e) = err (mailbox e)

abbrev pub send_to :
    Http
    → (MailboxMessage → Bytes)
    → ℕ
    → MailboxMessage
    → Option Bytes
    → Result CoordinatorError (Unit {0})
send_to http encode_to_vec dest msg none =
    err (other (text (codes "no peer address for chain " ++ decimal dest)))
send_to http encode_to_vec dest msg (some addr) =
    if is_empty addr
    then err (other (text (codes "empty peer address for chain " ++ decimal dest)))
    else delivered http
        (http.post 0 (trim_end_slashes addr ++ codes "/mailbox") (encode_to_vec msg))

pub send :
    Http
    → (MailboxMessage → Bytes)
    → Map ℕ Bytes
    → ℕ
    → MailboxMessage
    → Result CoordinatorError (Unit {0})
send http encode_to_vec peer_addrs dest msg =
    send_to http encode_to_vec dest msg (Map.lookup dest peer_addrs)
