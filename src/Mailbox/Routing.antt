-- ===== src/Mailbox/Routing.antt =====
-- The mailbox message that the pipeline makes of a simulated write
-- (crates/coordinator/coordinator/src/pipeline/simulation.rs), and what it matches.
use sidecar.Prelude.{ℕ, ◌^◌, ◌<◌, ◌≡◌, ◌↔◌, true, Bytes, arith, length, some}
use sidecar.Mailbox.Types.{CrossRollupDependency, CrossRollupMessage, MailboxMessage}
use sidecar.Mailbox.Wire.{WordCodec, IsWordCodec, encode_session_id, decode_session_id}
use sidecar.Mailbox.Matching.{
  DependencyKey, dependency_key, dependency_key_beq, dependency_key_beq_iff, matches_dependency,
  dependency_keys_equal,
}

pub mailbox_message : WordCodec → Bytes → CrossRollupMessage → MailboxMessage
unfolding encode_session_id
mailbox_message c instance_id msg = record {
  instance_id = instance_id;
  source_chain = msg.source_chain_id;
  destination_chain = msg.dest_chain_id;
  sender = msg.sender;
  receiver = msg.receiver;
  session_id = encode_session_id c msg.session_id;
  label = msg.label;
  payload = msg.payload;
}

-- The six fields by which the contract files a write.
abbrev pub write_key : CrossRollupMessage → DependencyKey
write_key msg = record {
  source_chain_id = msg.source_chain_id;
  dest_chain_id = msg.dest_chain_id;
  sender = msg.sender;
  receiver = msg.receiver;
  session_id = msg.session_id;
  label = msg.label;
}

-- A write with addresses of 20 bytes and a 256-bit session.
pub record IsWrite (msg : CrossRollupMessage) : Type 0 where
  pub sender_width : length msg.sender ≡ 20
  pub receiver_width : length msg.receiver ≡ 20
  pub session_range : msg.session_id < 2 ^ 256

-- A session id goes through the wire unchanged, and bytes of any other length are refused.
pub decode-encode_session_id :
    (c : WordCodec) (n : ℕ)
    → IsWordCodec c
    → n < 2 ^ 256
    → decode_session_id c (encode_session_id c n) ≡ some n
unfolding decode_session_id encode_session_id
decode-encode_session_id c n v h = ground (arith, v.width n, v.inverse n h)

matches_key :
    (c : WordCodec) (id : Bytes) (msg : CrossRollupMessage) (dep : CrossRollupDependency)
    → IsWordCodec c
    → IsWrite msg
    → matches_dependency c (mailbox_message c id msg) dep
      ≡ dependency_key_beq (write_key msg) (dependency_key dep)
unfolding matches_dependency mailbox_message
matches_key c id msg dep v w = ground (
  arith,
  w.sender_width,
  w.receiver_width,
  v.width msg.session_id,
  v.inverse msg.session_id w.session_range,
)

-- The message sent for a write satisfies a dependency exactly when the six fields of the contract's
-- key agree: chains, addresses, session and label. The instance and the payload play no part.
pub matches_dependency_iff :
    (c : WordCodec) (id : Bytes) (msg : CrossRollupMessage) (dep : CrossRollupDependency)
    → IsWordCodec c
    → IsWrite msg
    → (matches_dependency c (mailbox_message c id msg) dep ≡ true)
      ↔ (write_key msg ≡ dependency_key dep)
matches_dependency_iff c id msg dep v w =
    rw (matches_key c id msg dep v w) (dependency_key_beq_iff (write_key msg) (dependency_key dep))

-- The comparison that avoids building keys agrees with equality of the keys.
pub dependency_keys_equal_iff :
    (left right : CrossRollupDependency)
    → (dependency_keys_equal left right ≡ true) ↔ (dependency_key left ≡ dependency_key right)
unfolding dependency_keys_equal
dependency_keys_equal_iff left right =
    dependency_key_beq_iff (dependency_key left) (dependency_key right)
