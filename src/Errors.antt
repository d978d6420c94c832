-- ===== src/Errors.antt =====
-- crates/primitives-traits/src/error.rs: `CoordinatorError`, and the texts that the coordinator
-- makes of it. A text formatted with an error inside keeps that error as a value.
use sidecar.Prelude.{ℕ, Bytes}

mutual
  pub data CoordinatorError : Type 0 where
    already_running : CoordinatorError
    not_running : CoordinatorError
    instance_not_found : Bytes → CoordinatorError
    instance_already_pending : Bytes → CoordinatorError
    period_not_initialized : CoordinatorError
    stale_period : ℕ → ℕ → CoordinatorError
    future_period : ℕ → ℕ → CoordinatorError
    stale_sequence : ℕ → ℕ → CoordinatorError
    no_transactions : CoordinatorError
    publisher_not_connected : CoordinatorError
    transaction_decode : Message → CoordinatorError
    simulation : Message → CoordinatorError
    mailbox : Message → CoordinatorError
    nonce : Message → CoordinatorError
    put_inbox_not_configured : CoordinatorError
    builder_control : Message → CoordinatorError
    circ_timeout : ℕ → CoordinatorError
    too_many_pending_instances : ℕ → CoordinatorError
    other : Message → CoordinatorError

  pub data Message : Type 0 where
    text : Bytes → Message
    display : CoordinatorError → Message
    prefixed : Bytes → Message → Message
