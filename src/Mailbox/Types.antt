-- ===== src/Mailbox/Types.antt =====
-- crates/primitives/src/lib.rs: `CrossRollupDependency` and `CrossRollupMessage`, with the protobuf
-- message that carries them, whose fields are the ones that the pipeline fills in.
use sidecar.Prelude.{ℕ, Option, Bytes}

pub record CrossRollupDependency : Type 0 where
  pub source_chain_id : ℕ
  pub dest_chain_id : ℕ
  pub sender : Bytes
  pub receiver : Bytes
  pub label : Bytes
  pub payload : Option Bytes
  pub session_id : ℕ

pub record CrossRollupMessage : Type 0 where
  pub source_chain_id : ℕ
  pub dest_chain_id : ℕ
  pub sender : Bytes
  pub receiver : Bytes
  pub label : Bytes
  pub payload : Bytes
  pub session_id : ℕ

pub record MailboxMessage : Type 0 where
  pub instance_id : Bytes
  pub source_chain : ℕ
  pub destination_chain : ℕ
  pub sender : Bytes
  pub receiver : Bytes
  pub session_id : Bytes
  pub label : Bytes
  pub payload : Bytes
