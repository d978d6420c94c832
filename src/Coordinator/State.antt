-- ===== src/Coordinator/State.antt =====
-- `CoordinatorState` of crates/coordinator/coordinator/src/coordinator.rs (with the overlay of
-- model/chain_overlay.rs), and the buffer of mailbox messages that come before their transaction.
use sidecar.Prelude.{
  ℕ, ◌+◌, Bool, not, ◌&&◌, Option, none, some, List, [], ◌∷◌, ◌++◌, Bytes, bytes_eq, length, leb,
  if◌then◌else◌, is_none,
}
use sidecar.Prelude.Map
use sidecar.Prelude.Map.{Map}
use sidecar.Period.{PublisherPeriod, idle}
use sidecar.Mailbox.Types.{MailboxMessage}
use sidecar.Mailbox.Overrides.{StateOverride}
use sidecar.Coordinator.Xt.{PendingXt}

-- A sender of a oneshot channel is a number.
pub record CoordinatorState : Type 0 where
  pub pending : Map Bytes PendingXt
  pub publisher_period : PublisherPeriod
  pub last_known_blocks : Map ℕ ℕ
  pub origin_seq : ℕ
  pub chain_overlay : Map ℕ StateOverride
  pub submitted_fingerprints : Map Bytes Bytes
  pub pending_submissions : Map Bytes (List ℕ)
  pub mailbox_index : Map Bytes Bytes
  pub mailbox_buffer : Map Bytes (List MailboxMessage)

-- `CoordinatorState::new()`
abbrev pub init : CoordinatorState
init = record {
  pending = [];
  publisher_period = idle;
  last_known_blocks = [];
  origin_seq = 0;
  chain_overlay = [];
  submitted_fingerprints = [];
  pending_submissions = [];
  mailbox_index = [];
  mailbox_buffer = [];
}

abbrev pub mailbox_buffer_max_keys : ℕ
mailbox_buffer_max_keys = 1024

abbrev pub mailbox_buffer_max_per_key : ℕ
mailbox_buffer_max_per_key = 256

-- `MAX_PENDING_XTS`, declared with the same value in three files.
abbrev pub max_pending_xts : ℕ
max_pending_xts = 100

-- `unwrap_or_default` and `or_default` on a bucket of messages.
abbrev pub or_default {ℓ} : {A : Type ℓ} → Option (List A) → List A
or_default none = []
or_default (some ms) = ms

-- `entry(..).or_default()` makes the bucket; a full bucket takes no message.
unfoldable pub push_bucket : List MailboxMessage → MailboxMessage → List MailboxMessage
push_bucket bucket msg =
    if leb mailbox_buffer_max_per_key (length bucket) then bucket else bucket ++ msg ∷ []

unfoldable pub buffer_message :
    MailboxMessage → Map Bytes (List MailboxMessage) → Map Bytes (List MailboxMessage)
unfolding push_bucket
buffer_message msg buffer =
    if not (Map.contains_key msg.instance_id buffer) && leb mailbox_buffer_max_keys (length buffer)
    then buffer
    else Map.insert msg.instance_id
        (push_bucket (or_default (Map.lookup msg.instance_id buffer)) msg) buffer

unfoldable pub buffer_orphan_mailbox : MailboxMessage → CoordinatorState → CoordinatorState
unfolding buffer_message
buffer_orphan_mailbox msg s = record s { mailbox_buffer = buffer_message msg s.mailbox_buffer }

-- The messages that waited for the raw id, and the state without them.
unfoldable pub drain_mailbox_buffer :
    Bytes → CoordinatorState → List MailboxMessage × CoordinatorState
drain_mailbox_buffer raw_id s = (
  or_default (Map.lookup raw_id s.mailbox_buffer),
  record s { mailbox_buffer = Map.remove raw_id s.mailbox_buffer },
)

-- `pending.values().filter(|xt| xt.decision.is_none()).count()`
unfoldable pub undecided_count : Map Bytes PendingXt → ℕ
undecided_count [] = 0
undecided_count ((id, xt) ∷ m) = (if is_none xt.decision then 1 else 0) + undecided_count m

-- `pending_submissions.retain(…)`: drops the senders that `is_closed`, and the entries left empty.
open_waiters : (ℕ → Bool) → List ℕ → List ℕ
open_waiters is_closed [] = []
open_waiters is_closed (w ∷ ws) =
    if is_closed w then open_waiters is_closed ws else w ∷ open_waiters is_closed ws

unfoldable pub prune_submissions : (ℕ → Bool) → Map Bytes (List ℕ) → Map Bytes (List ℕ)
unfolding open_waiters
prune_submissions is_closed [] = []
prune_submissions is_closed ((fp, ws) ∷ m) =
    let kept = open_waiters is_closed ws in
    let rest = prune_submissions is_closed m in
    elim kept [ [] ↦ rest | w ∷ more ↦ (fp, w ∷ more) ∷ rest ]
