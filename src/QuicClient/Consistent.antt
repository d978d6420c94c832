-- ===== src/QuicClient/Consistent.antt =====
-- The flag that `is_connected` reads, and the connection.
use sidecar.Prelude.{
  ℕ, zero, suc, ◌≡◌, refl, true, false, Option, none, some, List, [], ◌∷◌, ◌++◌, Bytes, is_some,
  nat_beq, Bool-cases, inl, inr,
}
use sidecar.Prelude.Result.{Result, ok, err}
use sidecar.Framing.{TransportError, connection_refused, quic, encode}
use sidecar.QuicClient.{
  Call, StreamError, Network, ClientConfig, QuicClient, Io, continue_with, ◌>>=◌, emitted, ask,
  fail_or, same_connection, closed, clear, mark_disconnected, install, first_address,
  dial_and_identify, connect, retry, connect_with_retry, ensured, ensure_connected, lost,
  after_finish, after_write, write_frame, after_open, send_on, send_from, send, recv_round,
  receive_on, dropped, after_payload, read_payload, after_header, after_accept, Event, connects,
  retries, receives, closes, sends, loses, lookup_host, dial, open_bi, write_all, finish,
  accept_uni, read_exact, sleep, connection_lost, stream_failed, stream_error, max_attempts,
  length_of, react, react_all, after_attempt,
}

-- The flag says whether there is a connection.
abbrev pub IsConsistent : QuicClient → Type 0
IsConsistent s = s.connected ≡ is_some s.connection

abbrev Preserves : {A : Type 0} → Io A → Type 0
Preserves m = (s : QuicClient) → IsConsistent s → IsConsistent (m s).1

continue_with-IsConsistent :
    {A B : Type 0} (r : Result TransportError A × QuicClient) (f : A → Io B)
    → IsConsistent r.1
    → ((a : A) → Preserves (f a))
    → IsConsistent (continue_with r f).1
continue_with-IsConsistent (ok a, s) f h k = k a s h
continue_with-IsConsistent (err e, s) f h k = h

>>=-Preserves :
    {A B : Type 0} (m : Io A) (f : A → Io B)
    → Preserves m
    → ((a : A) → Preserves (f a))
    → Preserves (m >>= f)
>>=-Preserves m f h k s c = continue_with-IsConsistent (m s) f (h s c) k

closed-IsConsistent : (o : Option ℕ) (s : QuicClient) → IsConsistent s → IsConsistent (closed o s)
closed-IsConsistent none s h = h
closed-IsConsistent (some conn) s h = h

clear-IsConsistent : (s : QuicClient) → IsConsistent (clear s)
clear-IsConsistent s =
    closed-IsConsistent s.connection (record s { connection = none; connected = false }) refl

mark_disconnected-IsConsistent :
    (o : Option ℕ) (s : QuicClient) → IsConsistent s → IsConsistent (mark_disconnected o s)
mark_disconnected-IsConsistent none s h = clear-IsConsistent s
mark_disconnected-IsConsistent (some id) s h = elim (Bool-cases (same_connection id s.connection)) [
  | inl e ↦ rw e (clear-IsConsistent s)
  | inr e ↦ rw e h
]

install-Preserves : (conn : ℕ) → Preserves (install conn)
install-Preserves conn s h =
    closed-IsConsistent s.connection (record s { connection = some conn; connected = true }) refl

ask-Preserves {ℓ} :
    {A : Type 0} {E : Type ℓ} (c : Call) (answer : List Call → Result E A)
    (wrap : E → TransportError)
    → Preserves (ask c answer wrap)
ask-Preserves c answer wrap s h = h

module _ (net : Network) (config : ClientConfig) where
  dial_and_identify-Preserves : Preserves (dial_and_identify net config)
  dial_and_identify-Preserves =
      >>=-Preserves (ask lookup_host net.lookup connection_refused) _ (λ s h. h)
        (λ found.
          >>=-Preserves (fail_or (first_address net config found)) _ (λ s h. h)
            (λ addr.
              >>=-Preserves (ask (dial addr) net.dialled quic) _ (λ s h. h)
                (λ conn.
                  >>=-Preserves (ask (open_bi conn) net.opened quic) _ (λ s h. h)
                    (λ _.
                      >>=-Preserves (fail_or (encode config.codec config.client_id)) _ (λ s h. h)
                        (λ frame.
                          >>=-Preserves (ask (write_all conn frame) net.written stream_error) _
                            (λ s h. h)
                            (λ _.
                              >>=-Preserves (ask (finish conn) net.finished quic) _ (λ s h. h)
                                (λ _. install-Preserves conn)))))))

  connect-Preserves : Preserves (connect net config)
  unfolding connect
  connect-Preserves s h = elim (Bool-cases (is_some s.connection)) [
    | inl e ↦ rw e h
    | inr e ↦ rw e (dial_and_identify-Preserves s h)
  ]

  after_attempt-IsConsistent :
      (r : Result TransportError (Unit {0}) × QuicClient) (again : Io (Unit {0}))
      → IsConsistent r.1
      → Preserves again
      → IsConsistent (after_attempt r again).1
  after_attempt-IsConsistent (ok _, s) again h k = h
  after_attempt-IsConsistent (err e, s) again h k = k (emitted sleep s) h

  retry-Preserves : (attempts : ℕ) → Preserves (retry net config attempts)
  unfolding retry
  retry-Preserves zero s h = h
  retry-Preserves (suc attempts) s h =
      after_attempt-IsConsistent (connect net config s) (retry net config attempts)
        (connect-Preserves s h) (retry-Preserves attempts)

  connect_with_retry-Preserves : Preserves (connect_with_retry net config)
  unfolding connect_with_retry
  connect_with_retry-Preserves s h = elim (Bool-cases (is_some s.connection)) [
    | inl e ↦ rw e h
    | inr e ↦ rw e (retry-Preserves (max_attempts net config) s h)
  ]

  ensured-Preserves : (o : Option ℕ) → Preserves (ensured net config o)
  ensured-Preserves (some conn) s h = h
  ensured-Preserves none s h =
      >>=-Preserves (connect_with_retry net config) _ connect_with_retry-Preserves (λ _ s h. h) s h

  ensure_connected-Preserves : Preserves (ensure_connected net config)
  unfolding ensure_connected
  ensure_connected-Preserves s = ensured-Preserves s.connection s

  lost-Preserves :
      (left : ℕ) (again : Io (Unit {0})) (conn : ℕ) (e : Bytes)
      → Preserves again
      → Preserves (lost net config left again conn e)
  lost-Preserves left again conn e k s h = elim (Bool-cases (nat_beq left 0)) [
    | inl q ↦ rw q (mark_disconnected-IsConsistent (some conn) s h)
    | inr q ↦
        rw q (k (mark_disconnected (some conn) s) (mark_disconnected-IsConsistent (some conn) s h))
  ]

  module _ (left : ℕ) (again : Io (Unit {0})) (k : Preserves again) where
    after_finish-Preserves :
        (conn : ℕ) (r : Result Bytes (Unit {0}))
        → Preserves (after_finish net config left again conn r)
    after_finish-Preserves conn (ok _) s h = h
    after_finish-Preserves conn (err e) s h = lost-Preserves left again conn e k s h

    after_write-Preserves :
        (conn : ℕ) (r : Result StreamError (Unit {0}))
        → Preserves (after_write net config left again conn r)
    after_write-Preserves conn (err (connection_lost e)) s h =
        lost-Preserves left again conn e k s h
    after_write-Preserves conn (err (stream_failed e)) s h = h
    after_write-Preserves conn (ok _) s h =
        let s' = emitted (finish conn) s in after_finish-Preserves conn (net.finished s'.log) s' h

    write_frame-Preserves :
        (conn : ℕ) (r : Result TransportError Bytes)
        → Preserves (write_frame net config left again conn r)
    write_frame-Preserves conn (err e) s h = h
    write_frame-Preserves conn (ok frame) s h =
        let s' = emitted (write_all conn frame) s in
        after_write-Preserves conn (net.written s'.log) s' h

    send_on-Preserves :
        (payload : Bytes) (conn : ℕ) → Preserves (send_on net config payload left again conn)
    send_on-Preserves payload conn s h =
        opened (net.opened (s.log ++ open_bi conn ∷ [])) (emitted (open_bi conn) s) h
      where
        opened :
            (r : Result Bytes (Unit {0}))
            → Preserves (after_open net config payload left again conn r)
        opened (err e) s h = lost-Preserves left again conn e k s h
        opened (ok _) s h = write_frame-Preserves conn (encode config.codec payload) s h

  send_from-Preserves : (left : ℕ) (payload : Bytes) → Preserves (send_from net config left payload)
  unfolding send_from
  send_from-Preserves zero payload s h = h
  send_from-Preserves (suc left) payload s h =
      continue_with-IsConsistent (ensure_connected net config s)
        (send_on net config payload left (send_from net config left payload))
        (ensure_connected-Preserves s h)
        (send_on-Preserves left (send_from net config left payload)
          (send_from-Preserves left payload) payload)

  dropped-Preserves : (conn : ℕ) (e : StreamError) → Preserves (dropped net config conn e)
  dropped-Preserves conn (connection_lost e) s h = mark_disconnected-IsConsistent (some conn) s h
  dropped-Preserves conn (stream_failed e) s h = h

  read_payload-Preserves :
      (conn : ℕ) (r : Result TransportError ℕ) → Preserves (read_payload net config conn r)
  read_payload-Preserves conn (err e) s h = h
  read_payload-Preserves conn (ok len) s h =
      got (net.read (s.log ++ read_exact conn len ∷ [])) (emitted (read_exact conn len) s) h
    where
      got : (r : Result StreamError Bytes) → Preserves (after_payload net config conn r)
      got (err e) s h = dropped-Preserves conn e s h
      got (ok payload) s h = h

  after_accept-Preserves :
      (conn : ℕ) (r : Result Bytes (Unit {0})) → Preserves (after_accept net config conn r)
  after_accept-Preserves conn (err e) s h = mark_disconnected-IsConsistent (some conn) s h
  after_accept-Preserves conn (ok _) s h =
      got (net.read (s.log ++ read_exact conn 4 ∷ [])) (emitted (read_exact conn 4) s) h
    where
      got : (r : Result StreamError Bytes) → Preserves (after_header net config conn r)
      got (err e) s h = dropped-Preserves conn e s h
      got (ok header) s h = read_payload-Preserves conn (length_of net config header) s h

  recv_round-Preserves : Preserves (recv_round net config)
  unfolding recv_round
  recv_round-Preserves s h =
      continue_with-IsConsistent (ensure_connected net config s) (receive_on net config)
        (ensure_connected-Preserves s h)
        (λ conn s h.
          after_accept-Preserves conn (net.accepted (s.log ++ accept_uni conn ∷ []))
            (emitted (accept_uni conn) s) h)

  react-IsConsistent :
      (event : Event) (s : QuicClient) → IsConsistent s → IsConsistent (react net config event s)
  unfolding react send
  react-IsConsistent connects s h = connect-Preserves s h
  react-IsConsistent retries s h = connect_with_retry-Preserves s h
  react-IsConsistent receives s h = recv_round-Preserves s h
  react-IsConsistent closes s h = clear-IsConsistent s
  react-IsConsistent (sends payload) s h = send_from-Preserves 2 payload s h
  react-IsConsistent (loses id) s h = mark_disconnected-IsConsistent (some id) s h

  -- Whatever a client goes through, from its construction on, the flag that `is_connected` reads says
  -- whether it holds a connection.
  pub react_all-IsConsistent :
      (events : List Event) (s : QuicClient)
      → IsConsistent s
      → IsConsistent (react_all net config events s)
  unfolding react_all
  react_all-IsConsistent [] s h = h
  react_all-IsConsistent (event ∷ events) s h =
      react_all-IsConsistent events (react net config event s) (react-IsConsistent event s h)
