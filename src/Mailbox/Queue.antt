-- ===== src/Mailbox/Queue.antt =====
-- crates/mailbox/src/queue.rs: `InMemoryQueue`.
use sidecar.Prelude.{
  ◌≡◌, refl, Option, none, some, List, [], ◌∷◌, ◌++◌, Bytes, arith, bytes_beq, bytes_beq_iff,
  bytes_eq, if◌then◌else◌, keep_if, Bool, true, false, sym,
}
use mathlib.Core.List.{append-nil, append_assoc}
use sidecar.Prelude.Map
use sidecar.Prelude.Map.{Map}
use sidecar.Mailbox.Types.{MailboxMessage}

pub record InMemoryQueue : Type 0 where
  pub messages : Map Bytes (List MailboxMessage)

abbrev pub empty : InMemoryQueue
empty = record { messages = [] }

abbrev pub or_default : Option (List MailboxMessage) → List MailboxMessage
or_default none = []
or_default (some ms) = ms

record_message : MailboxMessage → InMemoryQueue → InMemoryQueue
record_message msg q = record {
  messages =
      Map.insert msg.instance_id (or_default (Map.lookup msg.instance_id q.messages) ++ msg ∷ [])
        q.messages;
}

pub pending : Bytes → InMemoryQueue → List MailboxMessage
pending instance_id q = or_default (Map.lookup instance_id q.messages)

pub record_all : List MailboxMessage → InMemoryQueue → InMemoryQueue
record_all [] q = q
record_all (m ∷ ms) q = record_all ms (record_message m q)

pending-record_message :
    (msg : MailboxMessage) (id : Bytes) (q : InMemoryQueue)
    → pending id (record_message msg q)
      ≡ (if bytes_beq msg.instance_id id then pending id q ++ msg ∷ [] else pending id q)
unfolding pending record_message
pending-record_message msg id q = ground (
  arith,
  bytes_beq_iff msg.instance_id id,
  Map.lookup-insert msg.instance_id id
      (or_default (Map.lookup msg.instance_id q.messages) ++ msg ∷ []) q.messages,
)

pending-record_all :
    (ms : List MailboxMessage) (id : Bytes) (q : InMemoryQueue)
    → pending id (record_all ms q) ≡ pending id q ++ keep_if (λ m. bytes_beq m.instance_id id) ms
unfolding record_all
pending-record_all [] id q = sym (append-nil (pending id q))
pending-record_all (m ∷ ms) id q =
    rw (pending-record_all ms id (record_message m q), pending-record_message m id q)
      (split (bytes_beq m.instance_id id))
  where
    rest : List MailboxMessage
    rest = keep_if (λ m. bytes_beq m.instance_id id) ms

    split :
        (b : Bool)
        → (if b then pending id q ++ m ∷ [] else pending id q) ++ rest
          ≡ pending id q ++ (if b then m ∷ rest else rest)
    split true = append_assoc (pending id q) (m ∷ []) rest
    split false = refl

-- What is pending for an instance is what was recorded for it, in the order of arrival, whatever was
-- recorded for other instances in between.
pub pending-empty-record_all :
    (ms : List MailboxMessage) (id : Bytes)
    → pending id (record_all ms empty) ≡ keep_if (λ m. bytes_beq m.instance_id id) ms
unfolding pending
pending-empty-record_all ms id = pending-record_all ms id empty
