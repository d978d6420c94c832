-- ===== src/Coordinator/Effect.antt =====
-- What the coordinator asks of the parts that it is built with, in the order of the requests.
use sidecar.Prelude.{ℕ, Bool, Option, List, Bytes}
use sidecar.Prelude.Map.{Map}
use sidecar.Prelude.Result.{Result}
use sidecar.Errors.{Message}
use sidecar.Mailbox.Types.{CrossRollupDependency, MailboxMessage}
use sidecar.Mailbox.Overrides.{StateOverride}

-- crates/coordinator/coordinator/src/handlers/builder_control.rs
pub record XtBuilderSubmission : Type 0 where
  pub instance_id : Bytes
  pub period_id : ℕ
  pub sequence_number : ℕ
  pub transactions : List Bytes

pub data XtBuilderCommand : Type 0 where
  release : Bytes → List CrossRollupDependency → XtBuilderCommand
  abort : Bytes → XtBuilderCommand

-- pipeline/simulation.rs; the transactions are in hex.
pub record VerificationPayload : Type 0 where
  pub instance_id : Bytes
  pub dest_chain_id : ℕ
  pub origin_chain_id : Option ℕ
  pub txs : List Bytes

-- A call of a collaborator, a spawned task, or a value sent through a oneshot channel.
pub data Effect : Type 0 where
  submit_locked_xt : XtBuilderSubmission → Effect
  release_xt : Bytes → List Bytes → Effect
  abort_xt : Bytes → Effect
  fetch_nonce : Effect
  build_put_inbox : CrossRollupDependency → ℕ → Effect
  publisher_vote : Bytes → Bool → Effect
  publisher_request : Map ℕ (List Bytes) → Effect
  peer_votes : Bytes → ℕ → Bool → Effect
  forward_xt : Bytes → Map ℕ (List Bytes) → ℕ → ℕ → Effect
  record_queue : MailboxMessage → Effect
  send_mailbox : ℕ → MailboxMessage → Effect
  notify_waiters : Effect
  spawn_process : Bytes → Effect
  resolve : ℕ → Result Message Bytes → Effect
  simulate : Bytes → StateOverride → List CrossRollupDependency → Effect
  post_verification : VerificationPayload → Effect
