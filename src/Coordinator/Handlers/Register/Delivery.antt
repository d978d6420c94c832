-- ===== src/Coordinator/Handlers/Register/Delivery.antt =====
-- Messages that come before their transaction: buffered by handlers/mailbox.rs, attached when the
-- transaction is registered (coordinator.rs, handlers/forwarded_xt.rs, handlers/start_instance.rs).
use sidecar.Prelude.{
  ℕ, ◌≤◌, ◌≡◌, refl, ap, sym, ◌∙◌, true, ◌||◌, none, some, List, [], ◌∷◌, ◌++◌, Bytes, arith,
  bytes_eq, length, take, leb, ltb, length-append, All, zero, suc, Bool-cases, inl, inr, beq_refl,
  ◌==◌, if◌then◌else◌, ◌<◌, subst,
}
use sidecar.Prelude.Map
use sidecar.Mailbox.Types.{MailboxMessage}
use sidecar.Coordinator.Xt.{PendingXt}
use sidecar.Coordinator.State.{
  CoordinatorState, mailbox_buffer_max_keys, mailbox_buffer_max_per_key, or_default, push_bucket,
  buffer_message, buffer_orphan_mailbox, drain_mailbox_buffer,
}
use sidecar.Coordinator.Handlers.Mailbox.{push_mailbox, mailbox_section, deliver_to}
use sidecar.Coordinator.Handlers.Register.{insert_xt, attach_buffered, register}

-- The messages come one after the other.
pub take_messages : List MailboxMessage → CoordinatorState → CoordinatorState
take_messages [] s = s
take_messages (msg ∷ ms) s = take_messages ms (mailbox_section msg s)

push_all : List MailboxMessage → List MailboxMessage → List MailboxMessage
push_all bucket [] = bucket
push_all bucket (msg ∷ ms) = push_all (push_bucket bucket msg) ms

take-append_all : {A : Type 0} (n : ℕ) (xs ys : List A) → length xs ≡ n → take n (xs ++ ys) ≡ xs
take-append_all zero [] ys h = ground arith
take-append_all (suc n) [] ys h = absurd (ground arith)
take-append_all zero (x ∷ xs) ys h = absurd (ground arith)
take-append_all (suc n) (x ∷ xs) ys h = ground (arith, take-append_all n xs ys)

take_short : {A : Type 0} (n : ℕ) (xs : List A) → length xs ≤ n → take n xs ≡ xs
take_short zero [] h = ground arith
take_short (suc n) [] h = ground arith
take_short zero (x ∷ xs) h = absurd (ground arith)
take_short (suc n) (x ∷ xs) h = ground (arith, take_short n xs)

append_one : {A : Type 0} (xs : List A) (y : A) (ys : List A) → (xs ++ y ∷ []) ++ ys ≡ xs ++ y ∷ ys
append_one [] y ys = refl
append_one (x ∷ xs) y ys = ap (λ l. x ∷ l) (append_one xs y ys)

append_nil : {A : Type 0} (xs : List A) → xs ++ [] ≡ xs
append_nil [] = refl
append_nil (x ∷ xs) = ap (λ l. x ∷ l) (append_nil xs)

push_all_lem :
    (bucket ms : List MailboxMessage)
    → length bucket ≤ mailbox_buffer_max_per_key
    → push_all bucket ms ≡ take mailbox_buffer_max_per_key (bucket ++ ms)
unfolding push_all push_bucket
push_all_lem bucket [] h = ground (arith, append_nil bucket, take_short 256 bucket h)
push_all_lem bucket (msg ∷ ms) h = elim (Bool-cases (leb 256 (length bucket))) [
  | inl f ↦
      let full : length bucket ≡ 256 = ground arith in
      ap (λ b. push_all b ms) (ground arith)
      ∙ push_all_lem bucket ms h
      ∙ take-append_all 256 bucket ms full
      ∙ sym (take-append_all 256 bucket (msg ∷ ms) full)
  | inr f ↦
      ap (λ b. push_all b ms) (ground arith)
      ∙ push_all_lem (bucket ++ msg ∷ []) ms (ground (arith, length-append bucket (msg ∷ [])))
      ∙ ap (take 256) (append_one bucket msg ms)
]

-- There is a bucket for the raw id, or a place for one.
abbrev HasRoom : Bytes → CoordinatorState → Type 0
HasRoom raw s =
    (Map.contains_key raw s.mailbox_buffer || ltb (length s.mailbox_buffer) mailbox_buffer_max_keys)
    ≡ true

buffered_here :
    (msg : MailboxMessage) (s : CoordinatorState)
    → HasRoom msg.instance_id s
    → (or_default (Map.lookup msg.instance_id (buffer_orphan_mailbox msg s).mailbox_buffer)
        ≡ push_bucket (or_default (Map.lookup msg.instance_id s.mailbox_buffer)) msg)
      × HasRoom msg.instance_id (buffer_orphan_mailbox msg s)
unfolding buffer_orphan_mailbox buffer_message
buffered_here msg s r = ground (arith, added, found)
  where
    raw : Bytes
    raw = msg.instance_id

    bucket : List MailboxMessage
    bucket = push_bucket (or_default (Map.lookup raw s.mailbox_buffer)) msg

    found : (raw == raw) ≡ true
    found = beq_refl raw

    added :
        Map.lookup raw (Map.insert raw bucket s.mailbox_buffer)
        ≡ (if raw == raw then some bucket else Map.lookup raw s.mailbox_buffer)
    added = Map.lookup-insert raw raw bucket s.mailbox_buffer

abbrev IsBuffered : Bytes → MailboxMessage → CoordinatorState → Type 0
IsBuffered raw msg s =
    Map.lookup raw s.mailbox_index ≡ none
    → HasRoom raw s
    → (or_default (Map.lookup raw (mailbox_section msg s).mailbox_buffer)
        ≡ push_bucket (or_default (Map.lookup raw s.mailbox_buffer)) msg)
      × HasRoom raw (mailbox_section msg s)
      × (Map.lookup raw (mailbox_section msg s).mailbox_index ≡ none)

first_message :
    (raw : Bytes) (msg : MailboxMessage) (s : CoordinatorState)
    → msg.instance_id ≡ raw
    → IsBuffered raw msg s
unfolding mailbox_section deliver_to buffer_orphan_mailbox
first_message raw msg s q = subst (λ j. IsBuffered j msg s) q here
  where
    here : IsBuffered msg.instance_id msg s
    here n r = let (e, f) = buffered_here msg s r in (rw n e, rw n f, rw n n)

every_message :
    (raw : Bytes) (ms : List MailboxMessage) (s : CoordinatorState)
    → All (λ msg. msg.instance_id ≡ raw) ms
    → Map.lookup raw s.mailbox_index ≡ none
    → HasRoom raw s
    → (or_default (Map.lookup raw (take_messages ms s).mailbox_buffer)
        ≡ push_all (or_default (Map.lookup raw s.mailbox_buffer)) ms)
unfolding take_messages push_all
every_message raw [] s a n r = refl
every_message raw (msg ∷ ms) s a n r =
    let (e, r', n') = first_message raw msg s a.0 n r in
    every_message raw ms (mailbox_section msg s) a.1 n' r' ∙ ap (λ b. push_all b ms) e

pub register_attaches :
    (xt : PendingXt) (s : CoordinatorState)
    → xt.pending_mailbox ≡ []
    → Map.lookup xt.id (register xt s).pending
      ≡ some
          (record xt { pending_mailbox = or_default (Map.lookup xt.instance_id s.mailbox_buffer) })
unfolding register insert_xt attach_buffered drain_mailbox_buffer
register_attaches xt s e = ground (
  arith,
  beq_refl xt.id,
  Map.lookup-insert xt.id xt.id xt s.pending,
  Map.lookup-modify xt.id xt.id
      (push_mailbox (or_default (Map.lookup xt.instance_id s.mailbox_buffer)))
      (Map.insert xt.id xt s.pending),
)

-- Where a raw id is not known, no bucket is kept for it and fewer than 1024 keys are buffered: if the
-- messages for it come one after another, and then a transaction with that raw id and an empty
-- mailbox is registered, nothing else having run in between, the transaction has them in the order
-- of their arrival, the first 256 of them.
pub register_delivers :
    (xt : PendingXt) (ms : List MailboxMessage) (s : CoordinatorState)
    → All (λ msg. msg.instance_id ≡ xt.instance_id) ms
    → Map.lookup xt.instance_id s.mailbox_index ≡ none
    → Map.lookup xt.instance_id s.mailbox_buffer ≡ none
    → length s.mailbox_buffer < mailbox_buffer_max_keys
    → xt.pending_mailbox ≡ []
    → Map.lookup xt.id (register xt (take_messages ms s)).pending
      ≡ some (record xt { pending_mailbox = take mailbox_buffer_max_per_key ms })
register_delivers xt ms s a n b r e =
    register_attaches xt (take_messages ms s) e
    ∙ ap (λ b. some (record xt { pending_mailbox = b })) kept
  where
    kept :
        or_default (Map.lookup xt.instance_id (take_messages ms s).mailbox_buffer)
        ≡ take mailbox_buffer_max_per_key ms
    kept =
        every_message xt.instance_id ms s a n (ground arith)
        ∙ ap (λ o. push_all (or_default o) ms) b
        ∙ push_all_lem [] ms (omega arith)
