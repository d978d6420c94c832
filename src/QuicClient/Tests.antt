-- ===== src/QuicClient/Tests.antt =====
-- A client whose first connection fails, and instances of the theorems on it.
use sidecar.Prelude.{◌≡◌, refl, some, List, [], ◌∷◌, length, nat_beq, if◌then◌else◌}
use sidecar.Prelude.Result.{ok, err}
use sidecar.Framing.{default, encode}
use sidecar.QuicClient.{
  Network, ClientConfig, fresh, Event, connects, sends, closes, receives, loses, connect,
  connect_with_retry, retry, ensure_connected, send_from, send, react_all,
}
use sidecar.QuicClient.Consistent.{IsConsistent, react_all-IsConsistent}

abbrev config : ClientConfig
config = record { addr = []; client_id = 1 ∷ []; max_retries = 3; codec = default }

-- The stream that a message is first written to is the second one, which cannot be opened.
abbrev net : Network
net = record {
  lookup = λ _. ok (some 4);
  dialled = λ log. ok (length log);
  opened = λ log. if nat_beq (length log) 6 then err [] else ok tt;
  written = λ _. ok tt;
  finished = λ _. ok tt;
  accepted = λ _. ok tt;
  read = λ _. ok [];
}

second_attempt : (send net config (5 ∷ []) fresh).0 ≡ ok tt
unfolding send send_from ensure_connected connect_with_retry retry connect encode
second_attempt = refl

abbrev life : List Event
life = connects ∷ sends (5 ∷ []) ∷ loses 2 ∷ receives ∷ closes ∷ []

react_all-IsConsistent_example : IsConsistent (react_all net config life fresh)
react_all-IsConsistent_example = react_all-IsConsistent net config life fresh refl
