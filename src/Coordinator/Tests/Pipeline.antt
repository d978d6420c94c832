-- ===== src/Coordinator/Tests/Pipeline.antt =====
-- Instances of the theorems on the simulation pipeline.
use sidecar.Prelude.{◌≡◌, refl, none, [], ◌∷◌, Bytes}
use sidecar.Mailbox.Types.{CrossRollupDependency, CrossRollupMessage, MailboxMessage}
use sidecar.Mailbox.Wire.{decode_session_id}
use sidecar.Mailbox.Matching.{matches_dependency}
use sidecar.Coordinator.Xt.{PendingXt}
use sidecar.Coordinator.Pipeline.{fulfil_all, fulfil_one, collect_unsent}
use sidecar.Coordinator.Pipeline.Fulfilment.{Counts, IsTracked, fulfil_all-IsFulfilling}
use sidecar.Coordinator.Pipeline.Dispatch.{
  AreUnsent, AreRecorded, message_keys, collect_unsent-AreUnsent,
}
use sidecar.Coordinator.Tests.{env, voted_xt}

abbrev zeros : Bytes
zeros = 0 ∷ 0 ∷ 0 ∷ 0 ∷ 0 ∷ 0 ∷ 0 ∷ 0 ∷ 0 ∷ 0 ∷ 0 ∷ 0 ∷ 0 ∷ 0 ∷ 0 ∷ 0 ∷ 0 ∷ 0 ∷ 0 ∷ 0 ∷ []

abbrev word : Bytes
word = 0 ∷ 0 ∷ 0 ∷ 0 ∷ 0 ∷ 0 ∷ 0 ∷ 0 ∷ 0 ∷ 0 ∷ 0 ∷ 0 ∷ zeros

abbrev pub incoming : Bytes → MailboxMessage
incoming label = record {
  instance_id = voted_xt.instance_id;
  source_chain = 2;
  destination_chain = 1;
  sender = zeros;
  receiver = zeros;
  session_id = word;
  label = label;
  payload = 3 ∷ [];
}

abbrev pub need : CrossRollupDependency
need = record {
  source_chain_id = 2;
  dest_chain_id = 1;
  sender = zeros;
  receiver = zeros;
  label = 65 ∷ [];
  payload = none;
  session_id = 0;
}

-- Three messages, the second and the third of which would do.
abbrev waiting : PendingXt
waiting = record voted_xt {
  pending_mailbox = incoming (66 ∷ []) ∷ incoming (65 ∷ []) ∷ incoming (65 ∷ []) ∷ [];
}

one_fulfilled : (fulfil_all env.codec (need ∷ need ∷ []) (0, waiting)).0 ≡ 1
unfolding fulfil_all fulfil_one matches_dependency decode_session_id
one_fulfilled = refl

fulfil_all-IsFulfilling_example :
    Counts (0, waiting) (fulfil_all env.codec (need ∷ need ∷ []) (0, waiting))
    × IsTracked (fulfil_all env.codec (need ∷ need ∷ []) (0, waiting)).1
fulfil_all-IsFulfilling_example =
    fulfil_all-IsFulfilling env.codec (need ∷ need ∷ []) (0, waiting) ((λ key. refl), tt)

abbrev outgoing : CrossRollupMessage
outgoing = record {
  source_chain_id = 1;
  dest_chain_id = 2;
  sender = zeros;
  receiver = zeros;
  label = 65 ∷ [];
  payload = 4 ∷ [];
  session_id = 0;
}

collect_unsent-AreUnsent_example :
    AreUnsent [] (message_keys (collect_unsent env.codec (outgoing ∷ outgoing ∷ []) waiting).0)
    × AreRecorded env.codec waiting.instance_id
        (outgoing ∷ outgoing ∷ [])
        []
        (message_keys (collect_unsent env.codec (outgoing ∷ outgoing ∷ []) waiting).0)
        (collect_unsent env.codec (outgoing ∷ outgoing ∷ []) waiting).1.sent_mailbox_keys
    × ((collect_unsent env.codec
          (outgoing ∷ outgoing ∷ [])
          (collect_unsent env.codec (outgoing ∷ outgoing ∷ []) waiting).1).0
        ≡ [])
collect_unsent-AreUnsent_example =
    collect_unsent-AreUnsent env.codec (outgoing ∷ outgoing ∷ []) waiting
