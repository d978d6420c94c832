-- ===== src/QuicClient.antt =====
-- crates/net/transport/src/client.rs: the QUIC client, which keeps one connection. The network answers
-- by what was asked of it before; a connection is the number by which `stable_id` tells it from others.
pub mod Consistent
pub mod Delivery
mod Tests
use sidecar.Prelude.{
  ℕ, zero, suc, ◌-◌, ◌^◌, Bool, true, false, Option, none, some, List, [], ◌∷◌, ◌++◌, Bytes,
  is_some, nat_beq, if◌then◌else◌,
}
use sidecar.Prelude.Text.{codes, decimal}
use sidecar.Prelude.Result.{Result, ok, err}
use sidecar.Framing.{
  TransportError, connection_closed, connection_refused, quic, LengthPrefixCodec, encode,
  decode_length,
}

pub data Call : Type 0 where
  lookup_host : Call
  dial : ℕ → Call
  open_bi : ℕ → Call
  write_all : ℕ → Bytes → Call
  finish : ℕ → Call
  accept_uni : ℕ → Call
  read_exact : ℕ → ℕ → Call
  close : ℕ → Call
  sleep : Call

-- The errors of a stream, as far as the client tells them apart.
pub data StreamError : Type 0 where
  connection_lost : Bytes → StreamError
  stream_failed : Bytes → StreamError

pub record Network : Type 0 where
  pub lookup : List Call → Result Bytes (Option ℕ)
  pub dialled : List Call → Result Bytes ℕ
  pub opened : List Call → Result Bytes (Unit {0})
  pub written : List Call → Result StreamError (Unit {0})
  pub finished : List Call → Result Bytes (Unit {0})
  pub accepted : List Call → Result Bytes (Unit {0})
  pub read : List Call → Result StreamError Bytes

pub record ClientConfig : Type 0 where
  pub addr : Bytes
  pub client_id : Bytes
  pub max_retries : ℕ
  pub codec : LengthPrefixCodec

pub record QuicClient : Type 0 where
  pub connection : Option ℕ
  pub connected : Bool
  pub log : List Call

abbrev pub fresh : QuicClient
fresh = record { connection = none; connected = false; log = [] }

abbrev pub Io : Type 0 → Type 0
Io A = QuicClient → Result TransportError A × QuicClient

abbrev pub continue_with :
    {A B : Type 0}
    → Result TransportError A × QuicClient
    → (A → Io B)
    → Result TransportError B × QuicClient
continue_with (ok a, s) f = f a s
continue_with (err e, s) f = (err e, s)

infixl 5 ◌>>=◌ ◌>>◌
abbrev pub ◌>>=◌ : {A B : Type 0} → Io A → (A → Io B) → Io B
◌>>=◌ m f s = continue_with (m s) f

abbrev pub ◌>>◌ : {B : Type 0} → Io (Unit {0}) → Io B → Io B
m >> k = m >>= λ _. k

abbrev pub emitted : Call → QuicClient → QuicClient
emitted c s = record s { log = s.log ++ c ∷ [] }

abbrev pub lift {ℓ} :
    {A : Type 0} {E : Type ℓ} → (E → TransportError) → Result E A → Result TransportError A
lift wrap (ok a) = ok a
lift wrap (err e) = err (wrap e)

-- A call of the network, with its answer.
abbrev pub ask {ℓ} :
    {A : Type 0} {E : Type ℓ} → Call → (List Call → Result E A) → (E → TransportError) → Io A
ask c answer wrap s = (lift wrap (answer (s.log ++ c ∷ [])), emitted c s)

abbrev pub fail_or : {A : Type 0} → Result TransportError A → Io A
fail_or r s = (r, s)

-- `e.to_string()`
abbrev pub stream_error : StreamError → TransportError
stream_error (connection_lost e) = quic e
stream_error (stream_failed e) = quic e

abbrev pub same_connection : ℕ → Option ℕ → Bool
same_connection id none = false
same_connection id (some conn) = nat_beq conn id

abbrev pub closed : Option ℕ → QuicClient → QuicClient
closed none s = s
closed (some conn) s = emitted (close conn) s

abbrev pub clear : QuicClient → QuicClient
clear s = closed s.connection (record s { connection = none; connected = false })

-- With an id, only the connection of that id is given up.
abbrev pub mark_disconnected : Option ℕ → QuicClient → QuicClient
mark_disconnected none s = clear s
mark_disconnected (some id) s = if same_connection id s.connection then clear s else s

abbrev pub install : ℕ → Io (Unit {0})
install conn s =
    (ok tt, closed s.connection (record s { connection = some conn; connected = true }))

-- After a failure the client sleeps before it tries again.
abbrev pub after_attempt :
    Result TransportError (Unit {0}) × QuicClient
    → Io (Unit {0})
    → Result TransportError (Unit {0}) × QuicClient
after_attempt (ok _, s) again = (ok tt, s)
after_attempt (err e, s) again = again (emitted sleep s)

module _ (net : Network) (config : ClientConfig) where
  abbrev pub first_address : Option ℕ → Result TransportError ℕ
  first_address none = err (connection_refused (codes "no resolved address for " ++ config.addr))
  first_address (some addr) = ok addr

  abbrev pub dial_and_identify : Io (Unit {0})
  dial_and_identify = do
    found ← ask lookup_host net.lookup connection_refused
    addr ← fail_or (first_address found)
    conn ← ask (dial addr) net.dialled quic
    ask (open_bi conn) net.opened quic
    frame ← fail_or (encode config.codec config.client_id)
    ask (write_all conn frame) net.written stream_error
    ask (finish conn) net.finished quic
    install conn

  unfoldable pub connect : Io (Unit {0})
  connect s = if is_some s.connection then (ok tt, s) else dial_and_identify s

  -- `u32::MAX` attempts stand for an unlimited number.
  abbrev pub max_attempts : ℕ
  max_attempts = if nat_beq config.max_retries 0 then 2 ^ 32 - 1 else config.max_retries

  unfoldable pub retry : ℕ → Io (Unit {0})
  retry zero s = (
    err (connection_refused (codes "failed after " ++ (decimal max_attempts ++ codes " attempts"))),
    s,
  )
  retry (suc attempts) s = after_attempt (connect s) (retry attempts)

  unfoldable pub connect_with_retry : Io (Unit {0})
  connect_with_retry s = if is_some s.connection then (ok tt, s) else retry max_attempts s

  abbrev pub current : Option ℕ → Result TransportError ℕ
  current none = err connection_closed
  current (some conn) = ok conn

  abbrev pub ensured : Option ℕ → Io ℕ
  ensured (some conn) s = (ok conn, s)
  ensured none s = (connect_with_retry >> λ s'. (current s'.connection, s')) s

  unfoldable pub ensure_connected : Io ℕ
  ensure_connected s = ensured s.connection s

  -- The connection has failed: once more, if an attempt is left.
  abbrev pub lost : ℕ → Io (Unit {0}) → ℕ → Bytes → Io (Unit {0})
  lost left again conn e s =
      let s' = mark_disconnected (some conn) s in
      if nat_beq left 0 then (err (quic e), s') else again s'

  abbrev pub after_finish : ℕ → Io (Unit {0}) → ℕ → Result Bytes (Unit {0}) → Io (Unit {0})
  after_finish left again conn (ok _) s = (ok tt, s)
  after_finish left again conn (err e) s = lost left again conn e s

  abbrev pub after_write : ℕ → Io (Unit {0}) → ℕ → Result StreamError (Unit {0}) → Io (Unit {0})
  after_write left again conn (err (connection_lost e)) s = lost left again conn e s
  after_write left again conn (err (stream_failed e)) s = (err (quic e), s)
  after_write left again conn (ok _) s =
      let s' = emitted (finish conn) s in after_finish left again conn (net.finished s'.log) s'

  abbrev pub write_frame : ℕ → Io (Unit {0}) → ℕ → Result TransportError Bytes → Io (Unit {0})
  write_frame left again conn (err e) s = (err e, s)
  write_frame left again conn (ok frame) s =
      let s' = emitted (write_all conn frame) s in
      after_write left again conn (net.written s'.log) s'

  abbrev pub after_open : Bytes → ℕ → Io (Unit {0}) → ℕ → Result Bytes (Unit {0}) → Io (Unit {0})
  after_open payload left again conn (err e) s = lost left again conn e s
  after_open payload left again conn (ok _) s =
      write_frame left again conn (encode config.codec payload) s

  abbrev pub send_on : Bytes → ℕ → Io (Unit {0}) → ℕ → Io (Unit {0})
  send_on payload left again conn s =
      let s' = emitted (open_bi conn) s in after_open payload left again conn (net.opened s'.log) s'

  -- With the number of attempts that are left.
  unfoldable pub send_from : ℕ → Bytes → Io (Unit {0})
  send_from zero payload s = (err connection_closed, s)
  send_from (suc left) payload s =
      continue_with (ensure_connected s) (send_on payload left (send_from left payload))

  unfoldable pub send : Bytes → Io (Unit {0})
  send payload = send_from 2 payload

  -- One round of `recv`; without a payload it goes round again.
  abbrev pub dropped : ℕ → StreamError → Io (Option Bytes)
  dropped conn (connection_lost e) s = (ok none, mark_disconnected (some conn) s)
  dropped conn (stream_failed e) s = (ok none, s)

  abbrev pub after_payload : ℕ → Result StreamError Bytes → Io (Option Bytes)
  after_payload conn (err e) s = dropped conn e s
  after_payload conn (ok payload) s = (ok (some payload), s)

  abbrev pub read_payload : ℕ → Result TransportError ℕ → Io (Option Bytes)
  read_payload conn (err e) s = (err e, s)
  read_payload conn (ok len) s =
      let s' = emitted (read_exact conn len) s in after_payload conn (net.read s'.log) s'

  abbrev pub length_of : Bytes → Result TransportError ℕ
  length_of (a ∷ b ∷ c ∷ d ∷ rest) = decode_length config.codec a b c d
  length_of header = decode_length config.codec 0 0 0 0

  abbrev pub after_header : ℕ → Result StreamError Bytes → Io (Option Bytes)
  after_header conn (err e) s = dropped conn e s
  after_header conn (ok header) s = read_payload conn (length_of header) s

  abbrev pub after_accept : ℕ → Result Bytes (Unit {0}) → Io (Option Bytes)
  after_accept conn (err e) s = (ok none, mark_disconnected (some conn) s)
  after_accept conn (ok _) s =
      let s' = emitted (read_exact conn 4) s in after_header conn (net.read s'.log) s'

  abbrev pub receive_on : ℕ → Io (Option Bytes)
  receive_on conn s =
      let s' = emitted (accept_uni conn) s in after_accept conn (net.accepted s'.log) s'

  pub recv_round : Io (Option Bytes)
  recv_round s = continue_with (ensure_connected s) receive_on

-- `close`
abbrev pub close_client : QuicClient → QuicClient
close_client = mark_disconnected none

-- What may happen to a client, one thing after the other; `loses` is another task's failure on a
-- connection that may have been replaced since.
pub data Event : Type 0 where
  connects retries receives closes : Event
  sends : Bytes → Event
  loses : ℕ → Event

module _ (net : Network) (config : ClientConfig) where
  pub react : Event → QuicClient → QuicClient
  unfolding connect connect_with_retry send recv_round
  react connects s = (connect net config s).1
  react retries s = (connect_with_retry net config s).1
  react receives s = (recv_round net config s).1
  react closes s = close_client s
  react (sends payload) s = (send net config payload s).1
  react (loses id) s = mark_disconnected (some id) s

  pub react_all : List Event → QuicClient → QuicClient
  unfolding react
  react_all [] s = s
  react_all (event ∷ events) s = react_all events (react event s)
