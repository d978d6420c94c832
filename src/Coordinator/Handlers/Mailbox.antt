-- ===== src/Coordinator/Handlers/Mailbox.antt =====
-- handlers/mailbox.rs: `handle_mailbox_message`.
use sidecar.Prelude.{Option, none, some, List, [], ◌∷◌, ◌++◌, Bytes, bytes_eq}
use sidecar.Prelude.Map
use sidecar.Prelude.Result.{Result, ok, err}
use sidecar.Errors.{CoordinatorError, Message, mailbox}
use sidecar.Mailbox.Types.{MailboxMessage}
use sidecar.Coordinator.Xt.{PendingXt}
use sidecar.Coordinator.State.{CoordinatorState, buffer_orphan_mailbox}
use sidecar.Coordinator.Effect.{record_queue, notify_waiters}
use sidecar.Coordinator.World.{Env, M, ◌>>◌, locked, emit, answer, when}

abbrev pub push_mailbox : List MailboxMessage → PendingXt → PendingXt
push_mailbox msgs xt = record xt { pending_mailbox = xt.pending_mailbox ++ msgs }

-- A message for a known raw id goes to its transaction, any other to the buffer.
unfoldable pub deliver_to : Option Bytes → MailboxMessage → CoordinatorState → CoordinatorState
unfolding buffer_orphan_mailbox
deliver_to (some xt_id) msg s = record s {
  pending = Map.modify xt_id (push_mailbox (msg ∷ [])) s.pending;
}
deliver_to none msg s = buffer_orphan_mailbox msg s

unfoldable pub mailbox_section : MailboxMessage → CoordinatorState → CoordinatorState
unfolding deliver_to
mailbox_section msg s = deliver_to (Map.lookup msg.instance_id s.mailbox_index) msg s

-- `map_err(|e| CoordinatorError::Mailbox(e.to_string()))`
abbrev as_mailbox_error : Result Message (Unit {0}) → Result CoordinatorError (Unit {0})
as_mailbox_error (ok u) = ok u
as_mailbox_error (err e) = err (mailbox e)

abbrev pub handle_mailbox_message : Env → MailboxMessage → M (Unit {0})
unfolding mailbox_section
handle_mailbox_message env msg = do
  when env.has_mailbox_queue
      (do emit (record_queue msg); answer (λ log. as_mailbox_error (env.record_answer log msg)))
  locked (λ s. (tt, mailbox_section msg s))
  emit notify_waiters
