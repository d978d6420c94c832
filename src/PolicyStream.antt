-- ===== src/PolicyStream.antt =====
-- crates/net/ws/src/lib.rs with crates/permissions/src/stream.rs: the WebSocket client that keeps the
-- permission engine informed, by what its connections bring. JSON and the network are foreign.
pub mod Between
mod Tests
use sidecar.Prelude.{
  ℕ, Bool, Option, none, some, List, [], ◌∷◌, ◌++◌, Bytes, any, nat_beq, if◌then◌else◌,
}
use sidecar.Prelude.Text.{codes, decimal}
use sidecar.Permissions.{
  PolicySnapshot, SnapshotData, Engine, StreamEvent, connects, disconnects, frame, bad_frame,
  handle_all,
}

pub record WsClient : Type 0 where
  pub base_url : Bytes

abbrev pub separator : WsClient → Bytes
separator this = if any (λ b. nat_beq b b'?') this.base_url then codes "&" else codes "?"

abbrev pub connect_url : WsClient → Option Bytes → Bytes
connect_url this none = this.base_url
connect_url this (some query) = this.base_url ++ (separator this ++ query)

-- `PermissionEngine::version` and `ConfigStreamHandler::resume_query`
abbrev pub version_of : Option PolicySnapshot → Option ℕ
version_of none = none
version_of (some snapshot) = some snapshot.version

abbrev pub since : Option ℕ → Option Bytes
since none = none
since (some version) = some (codes "since=" ++ decimal version)

abbrev pub resume_query : Engine → Option Bytes
resume_query e = since (version_of e.snapshot)

pub data WsMessage : Type 0 where
  text binary : Bytes → WsMessage
  ping pong close raw_frame : WsMessage

-- What `timeout(read_idle_timeout, ws.next())` gives.
pub data Incoming : Type 0 where
  message : WsMessage → Incoming
  failed ended idle : Incoming

-- One connection: it is refused, or it brings what is listed.
pub data Attempt : Type 0 where
  refused : Attempt
  established : List Incoming → Attempt

-- The parsed frame, with the time at which it is handled.
abbrev pub frame_event : Option (Bytes × SnapshotData × ℕ) → StreamEvent
frame_event none = bad_frame
frame_event (some (kind, payload, now)) = frame kind payload now

module _ (is_utf8 : Bytes → Bool) (parse : Bytes → Option (Bytes × SnapshotData × ℕ)) where
  -- The loop over the messages of a connection; what comes after its end is not seen.
  pub received : List Incoming → List StreamEvent
  received [] = []
  received (message (text t) ∷ rest) = frame_event (parse t) ∷ received rest
  received (message (binary bytes) ∷ rest) =
      let later = received rest in
      if is_utf8 bytes then frame_event (parse bytes) ∷ later else later
  received (message close ∷ rest) = []
  received (message _ ∷ rest) = received rest
  received (failed ∷ rest) = []
  received (ended ∷ rest) = []
  received (idle ∷ rest) = []

  abbrev pub stream_once : Attempt → List StreamEvent
  unfolding received
  stream_once refused = []
  stream_once (established incoming) = connects ∷ received incoming

  -- The client is told of the end of each attempt, also of one that was refused.
  pub run : List Attempt → List StreamEvent
  unfolding stream_once
  run [] = []
  run (attempt ∷ attempts) = stream_once attempt ++ disconnects ∷ run attempts

  -- The address of the attempt after these.
  abbrev pub next_url : (Bytes → Option Bytes) → WsClient → List Attempt → Engine → Bytes
  unfolding run handle_all
  next_url parse_address this attempts e =
      connect_url this (resume_query (handle_all parse_address (run attempts) e))
