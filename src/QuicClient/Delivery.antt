-- ===== src/QuicClient/Delivery.antt =====
-- What the client has done when `send` reports success.
use sidecar.Prelude.{
  ℕ, zero, suc, ◌≡◌, refl, ◌∙◌, Bool, true, false, Option, none, some, List, [], ◌∷◌, ◌++◌, Bytes,
  nat_beq, arith, if◌then◌else◌,
}
use sidecar.Prelude.Result.{Result, ok, err}
use sidecar.Framing.{TransportError, quic, encode}
use sidecar.QuicClient.{
  Call, open_bi, write_all, finish, StreamError, connection_lost, stream_failed, Network,
  ClientConfig, QuicClient, Io, continue_with, emitted, mark_disconnected, connect_with_retry,
  current, ensured, ensure_connected, lost, after_finish, after_write, write_frame, after_open,
  send_on, send_from, send,
}

module _ (net : Network) (config : ClientConfig) where
  abbrev opened_log : List Call → ℕ → List Call
  opened_log before conn = before ++ open_bi conn ∷ []

  abbrev written_log : List Call → ℕ → Bytes → List Call
  written_log before conn frame = opened_log before conn ++ write_all conn frame ∷ []

  -- The last calls of the network opened a stream on the current connection, wrote the frame of the
  -- payload to it, and finished it, each with success.
  abbrev pub Delivered : Bytes → QuicClient → Type 0
  Delivered payload s =
      (before : List Call) × (conn : ℕ) × (frame : Bytes) × (encode config.codec payload ≡ ok frame)
      × (s.connection ≡ some conn)
      × (s.log ≡ written_log before conn frame ++ finish conn ∷ [])
      × (net.opened (opened_log before conn) ≡ ok tt)
      × (net.written (written_log before conn frame) ≡ ok tt)
      × (net.finished s.log ≡ ok tt)

  abbrev Delivers : Bytes → Io (Unit {0}) → Type 0
  Delivers payload m = (s : QuicClient) → (m s).0 ≡ ok tt → Delivered payload (m s).1

  current-some : (o : Option ℕ) (conn : ℕ) → current net config o ≡ ok conn → o ≡ some conn
  current-some none conn h = absurd (ground arith)
  current-some (some c) conn h = ground arith

  ensured-connection :
      (o : Option ℕ) (s : QuicClient) (conn : ℕ)
      → s.connection ≡ o
      → (ensured net config o s).0 ≡ ok conn
      → (ensured net config o s).1.connection ≡ some conn
  ensured-connection (some c) s conn e h = e ∙ ground arith
  ensured-connection none s conn e h = got (connect_with_retry net config s) h
    where
      get : QuicClient → Result TransportError ℕ × QuicClient
      get s' = (current net config s'.connection, s')

      got :
          (r : Result TransportError (Unit {0}) × QuicClient)
          → (continue_with r (λ _. get)).0 ≡ ok conn
          → (continue_with r (λ _. get)).1.connection ≡ some conn
      got (ok _, s') h = current-some s'.connection conn h
      got (err e, s') h = absurd (ground arith)

  lost-Delivers :
      (payload : Bytes) (left : ℕ) (again : Io (Unit {0})) (conn : ℕ) (e : Bytes)
      → Delivers payload again
      → Delivers payload (lost net config left again conn e)
  lost-Delivers payload left again conn e k s h = go (nat_beq left 0) h
    where
      s' : QuicClient
      s' = mark_disconnected (some conn) s

      go :
          (b : Bool)
          → (if b then (err (quic e), s') else again s').0 ≡ ok tt
          → Delivered payload (if b then (err (quic e), s') else again s').1
      go true h = absurd (ground arith)
      go false h = k s' h

  module _ (payload : Bytes) (left : ℕ) (again : Io (Unit {0})) (k : Delivers payload again)
      (conn : ℕ) (s : QuicClient) (held : s.connection ≡ some conn) where
    abbrev streaming : QuicClient
    streaming = emitted (open_bi conn) s

    finishing :
        (frame : Bytes) (r : Result Bytes (Unit {0}))
        → encode config.codec payload ≡ ok frame
        → net.opened streaming.log ≡ ok tt
        → net.written (streaming.log ++ write_all conn frame ∷ []) ≡ ok tt
        → net.finished ((streaming.log ++ write_all conn frame ∷ []) ++ finish conn ∷ []) ≡ r
        → (after_finish net config left again conn r
            (emitted (finish conn) (emitted (write_all conn frame) streaming))).0
          ≡ ok tt
        → Delivered payload
            (after_finish net config left again conn r
              (emitted (finish conn) (emitted (write_all conn frame) streaming))).1
    finishing frame (ok _) q o w f h = (s.log, conn, frame, q, held, refl, o, w, f)
    finishing frame (err e) q o w f h =
        lost-Delivers payload left again conn e k
          (emitted (finish conn) (emitted (write_all conn frame) streaming)) h

    writing :
        (frame : Bytes) (r : Result StreamError (Unit {0}))
        → encode config.codec payload ≡ ok frame
        → net.opened streaming.log ≡ ok tt
        → net.written (streaming.log ++ write_all conn frame ∷ []) ≡ r
        → (after_write net config left again conn r (emitted (write_all conn frame) streaming)).0
          ≡ ok tt
        → Delivered payload
            (after_write net config left again conn r (emitted (write_all conn frame) streaming)).1
    writing frame (ok _) q o w h =
        finishing frame
          (net.finished ((streaming.log ++ write_all conn frame ∷ []) ++ finish conn ∷ [])) q o w
          refl h
    writing frame (err (connection_lost e)) q o w h =
        lost-Delivers payload left again conn e k (emitted (write_all conn frame) streaming) h
    writing frame (err (stream_failed e)) q o w h = absurd (ground arith)

    framing :
        (r : Result TransportError Bytes)
        → encode config.codec payload ≡ r
        → net.opened streaming.log ≡ ok tt
        → (write_frame net config left again conn r streaming).0 ≡ ok tt
        → Delivered payload (write_frame net config left again conn r streaming).1
    framing (ok frame) q o h =
        writing frame (net.written (streaming.log ++ write_all conn frame ∷ [])) q o refl h
    framing (err e) q o h = absurd (ground arith)

    opening :
        (r : Result Bytes (Unit {0}))
        → net.opened streaming.log ≡ r
        → (after_open net config payload left again conn r streaming).0 ≡ ok tt
        → Delivered payload (after_open net config payload left again conn r streaming).1
    opening (ok _) o h = framing (encode config.codec payload) refl o h
    opening (err e) o h = lost-Delivers payload left again conn e k streaming h

    sending :
        (send_on net config payload left again conn s).0 ≡ ok tt
        → Delivered payload (send_on net config payload left again conn s).1
    sending = opening (net.opened streaming.log) refl

  send_from-Delivers :
      (left : ℕ) (payload : Bytes) → Delivers payload (send_from net config left payload)
  unfolding send_from ensure_connected
  send_from-Delivers zero payload s h = absurd (ground arith)
  send_from-Delivers (suc left) payload s h =
      go (ensured net config s.connection s) (λ conn. ensured-connection s.connection s conn refl)
        (send_from-Delivers left payload) h
    where
      again : Io (Unit {0})
      again = send_from net config left payload

      go :
          (r : Result TransportError ℕ × QuicClient)
          → ((conn : ℕ) → r.0 ≡ ok conn → r.1.connection ≡ some conn)
          → Delivers payload again
          → (continue_with r (send_on net config payload left again)).0 ≡ ok tt
          → Delivered payload (continue_with r (send_on net config payload left again)).1
      go (ok conn, s') c k h = sending payload left again k conn s' (c conn refl) h
      go (err e, s') c k h = absurd (ground arith)

  -- If `send` reports success, the last thing done is that a stream was opened on the connection that
  -- the client holds, the frame of the payload written to it, and the stream finished, without error.
  pub send-Delivered :
      (payload : Bytes) (s : QuicClient)
      → (send net config payload s).0 ≡ ok tt
      → Delivered payload (send net config payload s).1
  unfolding send
  send-Delivered payload = send_from-Delivers 2 payload
