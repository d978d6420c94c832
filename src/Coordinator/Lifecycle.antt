-- ===== src/Coordinator/Lifecycle.antt =====
-- The life of a `PendingXt`: a new one, as the three places that make one leave it, and the changes
-- that the handlers of crates/coordinator/coordinator/src make to it, as a step relation.
use sidecar.Prelude.{ℕ, ◌≡◌, Bool, false, none, some, List, [], nat_eq, ◌≢◌}
use sidecar.Prelude.Map
use sidecar.Prelude.Map.{Map}
use sidecar.Mailbox.Types.{MailboxMessage}
use sidecar.Coordinator.Xt.{PendingXt, record_decision}
use sidecar.Coordinator.Builder.{confirm}
use sidecar.Coordinator.Handlers.PeerVote.{add_vote}
use sidecar.Coordinator.Handlers.Vote.{cast_vote}
use sidecar.Coordinator.Handlers.Mailbox.{push_mailbox}

-- Nothing has happened to it yet.
abbrev pub IsNew : PendingXt → Type 0
IsNew xt =
    (xt.decision ≡ none)
    × (xt.decided_at ≡ none)
    × (xt.confirmed_at ≡ none)
    × (xt.simulated_at ≡ none)
    × (xt.vote_sent ≡ false)
    × (xt.local_vote ≡ none)
    × (xt.peer_votes ≡ [])
    × (xt.pending_mailbox ≡ [])

-- A transaction without what the simulation pipeline works on: locked chains,
-- dependencies, messages and their keys.
abbrev pub core : PendingXt → PendingXt
core xt = record xt {
  locked_chains = [];
  pending_mailbox = [];
  sent_mailbox_keys = [];
  dependencies = [];
  dep_keys = [];
  fulfilled_deps = [];
  fulfilled_dep_keys = [];
  outbound_messages = [];
}

-- The last change is any work of the pipeline that leaves the core alone.
pub data Change : PendingXt → PendingXt → Type 0 where
  decided :
      (now : ℕ) (d : Bool) (xt : PendingXt)
      → xt.decision ≡ none
      → Change xt (record_decision now d xt)
  rolled_back :
      (now : ℕ) (xt : PendingXt)
      → xt.decision ≢ some false
      → Change xt (record_decision now false xt)
  peer_voted :
      (cid : ℕ) (v : Bool) (xt : PendingXt)
      → xt.decision ≡ none
      → Map.contains_key cid xt.peer_votes ≡ false
      → Change xt (add_vote cid v xt)
  voted :
      (chain_id now : ℕ) (v : Bool) (xt : PendingXt)
      → xt.local_vote ≡ none
      → Change xt (cast_vote chain_id now v xt)
  delivered : (msgs : List MailboxMessage) (xt : PendingXt) → Change xt (push_mailbox msgs xt)
  confirmed : (now : ℕ) (xt : PendingXt) → Change xt (confirm now xt)
  worked_on : (a b : PendingXt) → core a ≡ core b → Change a b

-- Any number of changes, the last one outermost.
pub data Changes : PendingXt → PendingXt → Type 0 where
  unchanged : (xt : PendingXt) → Changes xt xt
  then_change : {a b c : PendingXt} → Changes a b → Change b c → Changes a c

pub trans : {a b c : PendingXt} → Changes a b → Changes b c → Changes a c
trans p (unchanged _) = p
trans p (then_change q c) = then_change (trans p q) c

pub once : {a b : PendingXt} → Change a b → Changes a b
once {a} c = then_change (unchanged a) c
