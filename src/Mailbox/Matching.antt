-- ===== src/Mailbox/Matching.antt =====
-- crates/mailbox/src/matching.rs: the key types, and the tests on them.
use sidecar.Prelude.{
  ℕ, ◌≡◌, ◌↔◌, Bool, true, false, ◌&&◌, Option, none, some, List, Bytes, arith, any, length,
  nat_beq, bytes_beq, bytes_beq_iff, if◌then◌else◌, Eq,
}
use sidecar.Mailbox.Types.{CrossRollupDependency, CrossRollupMessage, MailboxMessage}
use sidecar.Mailbox.Wire.{WordCodec, decode_session_id}

pub record DependencyKey : Type 0 where
  pub source_chain_id : ℕ
  pub dest_chain_id : ℕ
  pub sender : Bytes
  pub receiver : Bytes
  pub session_id : ℕ
  pub label : Bytes

-- `DependencyKey::from`
abbrev pub dependency_key : CrossRollupDependency → DependencyKey
dependency_key dep = record {
  source_chain_id = dep.source_chain_id;
  dest_chain_id = dep.dest_chain_id;
  sender = dep.sender;
  receiver = dep.receiver;
  session_id = dep.session_id;
  label = dep.label;
}

pub record MailboxMessageKey : Type 0 where
  pub instance_id : Bytes
  pub source_chain : ℕ
  pub destination_chain : ℕ
  pub sender : Bytes
  pub receiver : Bytes
  pub session_id : Bytes
  pub label : Bytes

-- `MailboxMessageKey::from`
abbrev pub message_key : MailboxMessage → MailboxMessageKey
message_key msg = record {
  instance_id = msg.instance_id;
  source_chain = msg.source_chain;
  destination_chain = msg.destination_chain;
  sender = msg.sender;
  receiver = msg.receiver;
  session_id = msg.session_id;
  label = msg.label;
}

-- The derived `PartialEq` of the two keys.
abbrev pub dependency_key_beq : DependencyKey → DependencyKey → Bool
dependency_key_beq a b =
    nat_beq a.source_chain_id b.source_chain_id
    && nat_beq a.dest_chain_id b.dest_chain_id
    && bytes_beq a.sender b.sender
    && bytes_beq a.receiver b.receiver
    && nat_beq a.session_id b.session_id
    && bytes_beq a.label b.label

pub dependency_key_beq_iff : (a b : DependencyKey) → (dependency_key_beq a b ≡ true) ↔ (a ≡ b)
dependency_key_beq_iff a b = ground (
  arith,
  bytes_beq_iff a.sender b.sender,
  bytes_beq_iff a.receiver b.receiver,
  bytes_beq_iff a.label b.label,
)

abbrev message_key_beq : MailboxMessageKey → MailboxMessageKey → Bool
message_key_beq a b =
    bytes_beq a.instance_id b.instance_id
    && nat_beq a.source_chain b.source_chain
    && nat_beq a.destination_chain b.destination_chain
    && bytes_beq a.sender b.sender
    && bytes_beq a.receiver b.receiver
    && bytes_beq a.session_id b.session_id
    && bytes_beq a.label b.label

pub message_key_beq_iff : (a b : MailboxMessageKey) → (message_key_beq a b ≡ true) ↔ (a ≡ b)
message_key_beq_iff a b = ground (
  arith,
  bytes_beq_iff a.instance_id b.instance_id,
  bytes_beq_iff a.sender b.sender,
  bytes_beq_iff a.receiver b.receiver,
  bytes_beq_iff a.session_id b.session_id,
  bytes_beq_iff a.label b.label,
)

instance abbrev pub dependency_key_eq : Eq DependencyKey
dependency_key_eq = record { beq = dependency_key_beq; beq_iff = dependency_key_beq_iff }

instance abbrev pub message_key_eq : Eq MailboxMessageKey
message_key_eq = record { beq = message_key_beq; beq_iff = message_key_beq_iff }

-- `<&[u8; 20]>::try_from` and `Address::from`
abbrev as_address : Bytes → Option Bytes
as_address bytes = if nat_beq (length bytes) 20 then some bytes else none

-- `let Ok(a) = … else { return false }; if a != expected { return false }`
abbrev is_address : Option Bytes → Bytes → Bool
is_address none expected = false
is_address (some a) expected = bytes_beq a expected

abbrev is_session : Option ℕ → ℕ → Bool
is_session none expected = false
is_session (some n) expected = nat_beq n expected

unfoldable pub matches_dependency : WordCodec → MailboxMessage → CrossRollupDependency → Bool
unfolding decode_session_id
matches_dependency c msg dep =
    nat_beq msg.source_chain dep.source_chain_id
    && nat_beq msg.destination_chain dep.dest_chain_id
    && bytes_beq msg.label dep.label
    && is_address (as_address msg.sender) dep.sender
    && is_address (as_address msg.receiver) dep.receiver
    && is_session (decode_session_id c msg.session_id) dep.session_id

unfoldable pub dependency_keys_equal : CrossRollupDependency → CrossRollupDependency → Bool
dependency_keys_equal left right =
    nat_beq left.source_chain_id right.source_chain_id
    && nat_beq left.dest_chain_id right.dest_chain_id
    && bytes_beq left.sender right.sender
    && bytes_beq left.receiver right.receiver
    && nat_beq left.session_id right.session_id
    && bytes_beq left.label right.label

abbrev pub contains_message : List CrossRollupMessage → CrossRollupMessage → Bool
contains_message msgs msg =
    any
      (λ m.
        nat_beq m.source_chain_id msg.source_chain_id
        && nat_beq m.dest_chain_id msg.dest_chain_id
        && bytes_beq m.label msg.label
        && bytes_beq m.sender msg.sender
        && bytes_beq m.receiver msg.receiver
        && nat_beq m.session_id msg.session_id)
      msgs
