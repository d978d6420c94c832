-- ===== src/Coordinator/Tests.antt =====
-- A coordinator of chain 1 in a concrete environment, and instances of the theorems on it.
mod Votes
mod Runs
mod Calls
mod Pipeline
mod Process
use sidecar.Prelude.{ℕ, Bool, true, false, Option, none, some, List, [], ◌∷◌, Bytes}
use sidecar.Prelude.Map.{Map}
use sidecar.Prelude.Result.{ok, err}
use sidecar.Errors.{publisher_not_connected, builder_control, text, not_running}
use sidecar.Nonce.{fresh}
use sidecar.Permissions
use sidecar.Simulation.Types.{timeout}
use sidecar.Mailbox.Types.{MailboxMessage}
use sidecar.Coordinator.Xt
use sidecar.Coordinator.Xt.{PendingXt}
use sidecar.Coordinator.State.{CoordinatorState, init}
use sidecar.Coordinator.World.{Env, World}

-- A builder that refuses every abort, and otherwise does what it is asked.
abbrev pub env : Env
env = record {
  chain_id = 1;
  has_publisher = false;
  has_xt_builder_client = true;
  has_put_inbox_builder = true;
  has_mailbox_queue = false;
  has_mailbox_sender = false;
  has_peer_coordinator = true;
  has_simulator = false;
  has_permission_engine = false;
  verification_enabled = false;
  circ_timeout_ms = 5;
  codec = record { to_be_bytes = λ _. []; from_be_slice = λ _. 0 };
  hex_encode = λ bytes. bytes;
  sha256 = λ bytes. bytes;
  encode_xt_request = λ _. 7 ∷ [];
  chains_from_request = λ _. [];
  parse_instance = λ _. err (text []);
  decode_envelope = λ _. none;
  recover_signer = λ _. none;
  envelope_nonce = λ _. 0;
  clock = λ _. 10;
  is_connected = λ _. false;
  submit_answer = λ _ _. ok tt;
  release_answer = λ _ _ _. ok tt;
  abort_answer = λ _ _. err not_running;
  nonce_answer = λ _. ok 7;
  put_inbox_answer = λ _ _ nonce. ok (nonce ∷ []);
  vote_answer = λ _ _ _. ok tt;
  request_answer = λ _ _. err publisher_not_connected;
  record_answer = λ _ _. ok tt;
  simulate_answer = λ _ _ _ _. err timeout;
  verify_answer = λ _ _. ok 200;
  permissions = λ _ _. Permissions.new true;
  send_answer = λ _ _ _. ok tt;
}

abbrev pub id1 : Bytes
id1 = 1 ∷ []

abbrev pub txs : Map ℕ (List Bytes)
txs = (1, (5 ∷ []) ∷ []) ∷ (2, (6 ∷ []) ∷ []) ∷ []

-- Of the chains 1 and 2; chain 1 has voted to commit.
abbrev pub voted_xt : PendingXt
voted_xt = record (Xt.new 3 id1 id1) {
  raw_txs = txs;
  local_vote = some true;
  vote_sent = true;
  period_id = 2;
}

abbrev pub state : CoordinatorState
state = record init { pending = (id1, voted_xt) ∷ [] }

abbrev pub world : World
world = record { state = state; nonces = fresh; log = [] }

abbrev pub early : ℕ → MailboxMessage
early n = record {
  instance_id = id1;
  source_chain = 2;
  destination_chain = 1;
  sender = [];
  receiver = [];
  session_id = [];
  label = n ∷ [];
  payload = [];
}
