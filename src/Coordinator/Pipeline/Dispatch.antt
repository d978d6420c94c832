-- ===== src/Coordinator/Pipeline/Dispatch.antt =====
-- `dispatch_outbound_mailbox` of pipeline/simulation.rs: what is sent and what is remembered of it.
use sidecar.Prelude.{
  ◌≡◌, refl, sym, subst, ◌∙◌, true, false, ◌||◌, All, beq_refl, arith, List, [], ◌∷◌, ◌++◌, Bytes,
  is_empty, if◌then◌else◌, Bool-cases, inl, inr,
}
use sidecar.Prelude.HashSet
use sidecar.Mailbox.Types.{CrossRollupMessage, MailboxMessage}
use sidecar.Mailbox.Wire.{WordCodec}
use sidecar.Mailbox.Matching.{MailboxMessageKey, message_key, message_key_eq}
use sidecar.Mailbox.Routing.{mailbox_message}
use sidecar.Coordinator.Xt.{PendingXt}
use sidecar.Coordinator.Pipeline.{
  collect_unsent, is_sent, remember_sent, dispatch_section, send_all, dispatch_outbound_mailbox,
}
use sidecar.Coordinator.Effect.{send_mailbox}
use sidecar.Coordinator.World.{Env, World, answer, Keeps, >>=-Keeps}

abbrev pub message_keys : List MailboxMessage → List MailboxMessageKey
message_keys [] = []
message_keys (msg ∷ msgs) = message_key msg ∷ message_keys msgs

-- No key is repeated, and none is among those sent before.
abbrev pub AreUnsent : List MailboxMessageKey → List MailboxMessageKey → Type 0
AreUnsent sent [] = Unit
AreUnsent sent (k ∷ ks) = (HashSet.contains k sent ≡ false) × AreUnsent (k ∷ sent) ks

module _ (c : WordCodec) where
  -- From the keys remembered before, by those of the messages sent, to those remembered after: the
  -- keys of what is sent are added and no others, and every message then has its key among them.
  abbrev pub AreRecorded :
      Bytes
      → List CrossRollupMessage
      → List MailboxMessageKey
      → List MailboxMessageKey
      → List MailboxMessageKey
      → Type 0
  AreRecorded raw msgs before sent after =
      ((key : MailboxMessageKey)
        → HashSet.contains key after ≡ HashSet.contains key before || HashSet.contains key sent)
      × All (λ msg. HashSet.contains (message_key (mailbox_message c raw msg)) after ≡ true) msgs

  AreUnsent-collect_unsent :
      (msgs : List CrossRollupMessage) (xt : PendingXt)
      → AreUnsent xt.sent_mailbox_keys (message_keys (collect_unsent c msgs xt).0)
  unfolding collect_unsent
  AreUnsent-collect_unsent [] xt = tt
  AreUnsent-collect_unsent (msg ∷ msgs) xt =
      elim (Bool-cases (is_sent c (mailbox_message c xt.instance_id msg) xt)) [
        | inl e ↦ rw e (AreUnsent-collect_unsent msgs xt)
        | inr e ↦ rw e (
          e,
          AreUnsent-collect_unsent msgs (record xt {
            sent_mailbox_keys =
                message_key (mailbox_message c xt.instance_id msg) ∷ xt.sent_mailbox_keys;
          }),
        )
      ]

  remember_sent-instance_id :
      (wire : MailboxMessage) (xt : PendingXt)
      → (remember_sent c wire xt).instance_id ≡ xt.instance_id
  remember_sent-instance_id wire xt = ground arith

  collect_unsent-instance_id :
      (msgs : List CrossRollupMessage) (xt : PendingXt)
      → (collect_unsent c msgs xt).1.instance_id ≡ xt.instance_id
  unfolding collect_unsent
  collect_unsent-instance_id [] xt = refl
  collect_unsent-instance_id (msg ∷ msgs) xt =
      collect_unsent-instance_id msgs (remember_sent c (mailbox_message c xt.instance_id msg) xt)
      ∙ remember_sent-instance_id (mailbox_message c xt.instance_id msg) xt

  contains-collect_unsent :
      (msgs : List CrossRollupMessage) (xt : PendingXt) (key : MailboxMessageKey)
      → HashSet.contains key (collect_unsent c msgs xt).1.sent_mailbox_keys
        ≡ HashSet.contains key xt.sent_mailbox_keys
          || HashSet.contains key (message_keys (collect_unsent c msgs xt).0)
  unfolding collect_unsent
  contains-collect_unsent [] xt key = ground arith
  contains-collect_unsent (msg ∷ msgs) xt key =
      elim (Bool-cases (is_sent c (mailbox_message c xt.instance_id msg) xt)) [
        | inl e ↦ rw e (contains-collect_unsent msgs xt key)
        | inr e ↦ rw e (
            contains-collect_unsent msgs
              (record xt {
                sent_mailbox_keys =
                    message_key (mailbox_message c xt.instance_id msg) ∷ xt.sent_mailbox_keys;
              })
              key
            ∙ ground arith)
      ]

  remember_sent-is_sent :
      (wire : MailboxMessage) (xt : PendingXt)
      → HashSet.contains (message_key wire) (remember_sent c wire xt).sent_mailbox_keys ≡ true
  remember_sent-is_sent wire xt = ground (arith, beq_refl (message_key wire))

  All-collect_unsent :
      (msgs : List CrossRollupMessage) (xt : PendingXt)
      → All
          (λ msg.
            HashSet.contains
              (message_key (mailbox_message c xt.instance_id msg))
              (collect_unsent c msgs xt).1.sent_mailbox_keys
            ≡ true)
          msgs
  unfolding collect_unsent
  All-collect_unsent [] xt = tt
  All-collect_unsent (msg ∷ msgs) xt = (
    contains-collect_unsent msgs (remember_sent c wire xt) (message_key wire)
        ∙ ground (arith, remember_sent-is_sent wire xt),
    subst
        (λ raw.
          All
            (λ m.
              HashSet.contains (message_key (mailbox_message c raw m))
                (collect_unsent c msgs (remember_sent c wire xt)).1.sent_mailbox_keys
              ≡ true)
            msgs)
        (remember_sent-instance_id wire xt) (All-collect_unsent msgs (remember_sent c wire xt)),
  )
    where
      wire : MailboxMessage
      wire = mailbox_message c xt.instance_id msg

  collect_unsent-none :
      (msgs : List CrossRollupMessage) (xt : PendingXt)
      → All
          (λ msg.
            HashSet.contains
              (message_key (mailbox_message c xt.instance_id msg))
              xt.sent_mailbox_keys
            ≡ true)
          msgs
      → (collect_unsent c msgs xt).0 ≡ []
  unfolding collect_unsent
  collect_unsent-none [] xt h = refl
  collect_unsent-none (msg ∷ msgs) xt h = rw h.0 (collect_unsent-none msgs xt h.1)

  -- Whatever messages a simulation gives, those that are then sent have different keys, and none has
  -- the key of a message that was sent for the transaction before. The transaction then remembers the
  -- keys of what it sent before, of what is sent now, and no others; they include the key of every
  -- message given; and the same messages given once more send nothing.
  pub collect_unsent-AreUnsent :
      (msgs : List CrossRollupMessage) (xt : PendingXt)
      → AreUnsent xt.sent_mailbox_keys (message_keys (collect_unsent c msgs xt).0)
        × AreRecorded xt.instance_id msgs xt.sent_mailbox_keys
            (message_keys (collect_unsent c msgs xt).0)
            (collect_unsent c msgs xt).1.sent_mailbox_keys
        × ((collect_unsent c msgs (collect_unsent c msgs xt).1).0 ≡ [])
  collect_unsent-AreUnsent msgs xt = (
    AreUnsent-collect_unsent msgs xt,
    (contains-collect_unsent msgs xt, All-collect_unsent msgs xt),
    collect_unsent-none msgs (collect_unsent c msgs xt).1 (
        subst
          (λ raw.
            All
              (λ msg.
                HashSet.contains (message_key (mailbox_message c raw msg))
                  (collect_unsent c msgs xt).1.sent_mailbox_keys
                ≡ true)
              msgs)
          (sym (collect_unsent-instance_id msgs xt)) (All-collect_unsent msgs xt)),
  )

-- Nothing but the section that collects the messages touches the state.
module _ (env : Env) where
  send_all-Keeps : (msgs : List MailboxMessage) → Keeps (send_all env msgs)
  unfolding send_all
  send_all-Keeps [] w = refl
  send_all-Keeps (msg ∷ msgs) w =
      >>=-Keeps (answer (λ log. env.send_answer log msg.destination_chain msg))
        (λ _. send_all env msgs) (λ v. refl) (λ _. send_all-Keeps msgs)
        (record w { log = w.log ++ send_mailbox msg.destination_chain msg ∷ [] })

  pub dispatch_outbound_mailbox-state :
      (id : Bytes) (msgs : List CrossRollupMessage) (w : World)
      → (dispatch_outbound_mailbox env id msgs w).1.state ≡ (
          if is_empty msgs
          then w.state
          else if env.has_mailbox_sender
          then (dispatch_section env.codec id msgs w.state).1
          else w.state)
  unfolding dispatch_outbound_mailbox send_all
  dispatch_outbound_mailbox-state id msgs w = elim (Bool-cases (is_empty msgs)) [
    | inl e ↦ rw e refl
    | inr e ↦ elim (Bool-cases env.has_mailbox_sender) [
      | inr f ↦ rw (e, f) refl
      | inl f ↦
          rw (e, f)
            (send_all-Keeps (dispatch_section env.codec id msgs w.state).0
              (record w { state = (dispatch_section env.codec id msgs w.state).1 }))
    ]
  ]
