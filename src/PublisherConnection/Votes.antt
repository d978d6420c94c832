-- ===== src/PublisherConnection/Votes.antt =====
-- A vote on its way to the publisher: crates/net/publisher/src/connection.rs over the QUIC client and
-- the codec of frames.
use sidecar.Prelude.{
  ℕ, ◌≡◌, ◌<◌, ◌≤◌, ◌^◌, Bool, some, List, [], ◌∷◌, ◌++◌, Bytes, arith, length, ap, ◌∙◌, refl,
}
use sidecar.Prelude.Result.{Result, ok, err}
use sidecar.Framing.{TransportError, LengthPrefixCodec, encode, decode_frame}
use sidecar.Framing.RoundTrip.{decode_frame-encode}
use sidecar.QuicClient
use sidecar.QuicClient.{Call, open_bi, write_all, finish, Network, ClientConfig, QuicClient}
use sidecar.QuicClient.Delivery.{Delivered, send-Delivered}
use sidecar.PublisherConnection.{VoteMessage, as_other, send_vote}

encoded_fits :
    (codec : LengthPrefixCodec) (payload frame : Bytes)
    → encode codec payload ≡ ok frame
    → length payload ≤ codec.max_message_size
unfolding encode
encoded_fits codec payload frame h = ground arith

-- The frame of an encoded payload is read as the payload by the same codec.
read_again :
    (codec : LengthPrefixCodec) (payload frame rest : Bytes)
    → codec.max_message_size < 2 ^ 32
    → encode codec payload ≡ ok frame
    → decode_frame codec (frame ++ rest) ≡ (ok (some payload), rest)
read_again codec payload frame rest bound h =
    let (framed, e, d) =
      decode_frame-encode codec payload bound (encoded_fits codec payload frame h) in
    let same : frame ≡ framed = ground arith in
    ap (λ f. decode_frame codec (f ++ rest)) same ∙ d rest

module _ (net : Network) (config : ClientConfig) where
  -- A stream on the client's connection was opened, a frame written to it, and the stream finished,
  -- without error, and the frame is read as the payload, whatever follows it.
  abbrev pub IsReadable : Bytes → QuicClient → Type 0
  IsReadable payload s =
      (before : List Call) × (conn : ℕ) × (frame : Bytes) × (s.connection ≡ some conn)
      × (s.log ≡ ((before ++ open_bi conn ∷ []) ++ write_all conn frame ∷ []) ++ finish conn ∷ [])
      × (net.written ((before ++ open_bi conn ∷ []) ++ write_all conn frame ∷ []) ≡ ok tt)
      × (net.finished s.log ≡ ok tt)
      × ((rest : Bytes) → decode_frame config.codec (frame ++ rest) ≡ (ok (some payload), rest))

  readable :
      (payload : Bytes) (s : QuicClient)
      → config.codec.max_message_size < 2 ^ 32
      → Delivered net config payload s
      → IsReadable payload s
  readable payload s bound (before, conn, frame, e, held, log, o, w, f) = (
    before,
    conn,
    frame,
    held,
    log,
    w,
    f,
    λ rest. read_again config.codec payload frame rest bound e,
  )

  -- If `send_vote` reports success, and the message size is limited below 2 ^ 32, the last thing done
  -- is that a frame was written without error to a stream of the connection held, which the publisher
  -- reads as the encoding of this chain's vote.
  pub send_vote-IsReadable :
      (to_string : TransportError → Bytes) (encode_to_vec : VoteMessage → Bytes) (chain_id : ℕ)
      (id : Bytes) (vote : Bool) (s : QuicClient)
      → config.codec.max_message_size < 2 ^ 32
      → (send_vote net config to_string encode_to_vec chain_id id vote s).0 ≡ ok tt
      → IsReadable
          (encode_to_vec
            (record { sender_id = []; instance_id = id; chain_id = chain_id; vote = vote }))
          (send_vote net config to_string encode_to_vec chain_id id vote s).1
  send_vote-IsReadable to_string encode_to_vec chain_id id vote s bound h =
      sent (QuicClient.send net config payload s) (send-Delivered net config payload s) h
    where
      payload : Bytes
      payload =
          encode_to_vec
            (record { sender_id = []; instance_id = id; chain_id = chain_id; vote = vote })

      sent :
          (r : Result TransportError (Unit {0}) × QuicClient)
          → (r.0 ≡ ok tt → Delivered net config payload r.1)
          → (as_other to_string r).0 ≡ ok tt
          → IsReadable payload (as_other to_string r).1
      sent (ok _, s') k h = readable payload s' bound (k refl)
      sent (err e, s') k h = absurd (ground arith)
