-- ===== src/Coordinator/Handlers/Register.antt =====
-- The registration of a transaction, as handlers/forwarded_xt.rs, handlers/start_instance.rs and
-- `submit_xt_standalone` of coordinator.rs make it under the lock.
pub mod Delivery
use sidecar.Prelude.{
  ℕ, Bool, true, false, not, Option, none, some, List, [], ◌∷◌, Bytes, bytes_eq, nat_eq, leb,
  is_empty, if◌then◌else◌,
}
use sidecar.Prelude.Map
use sidecar.Prelude.HashSet
use sidecar.Mailbox.Types.{MailboxMessage}
use sidecar.Coordinator.Xt.{PendingXt}
use sidecar.Coordinator.State.{
  CoordinatorState, drain_mailbox_buffer, undecided_count, max_pending_xts,
}
use sidecar.Coordinator.Handlers.Mailbox.{push_mailbox}

-- `undecided_count >= MAX_PENDING_XTS`
unfoldable pub is_full : CoordinatorState → Bool
unfolding undecided_count
is_full s = leb max_pending_xts (undecided_count s.pending)

-- "Pre-lock so only one local simulation task claims this XT."
abbrev pub pre_lock : Bool → ℕ → PendingXt → PendingXt
pre_lock has_local chain_id xt =
    if has_local then record xt { locked_chains = HashSet.insert chain_id xt.locked_chains } else xt

-- `mailbox_index.insert(…); pending.insert(…)`
unfoldable pub insert_xt : PendingXt → CoordinatorState → CoordinatorState
insert_xt xt s = record s {
  mailbox_index = Map.insert xt.instance_id xt.id s.mailbox_index;
  pending = Map.insert xt.id xt s.pending;
}

-- The messages that came before the transaction are attached to it.
unfoldable pub attach_buffered : Bytes → Bytes → CoordinatorState → CoordinatorState
unfolding drain_mailbox_buffer
attach_buffered id raw_id s =
    let (buffered, s') = drain_mailbox_buffer raw_id s in
    if is_empty buffered
    then s'
    else record s' { pending = Map.modify id (push_mailbox buffered) s'.pending }

unfoldable pub register : PendingXt → CoordinatorState → CoordinatorState
unfolding insert_xt attach_buffered
register xt s = attach_buffered xt.id xt.instance_id (insert_xt xt s)
