-- ===== src/Coordinator/Xt.antt =====
-- crates/coordinator/coordinator/src/model: `PendingXt` (pending_xt.rs), its order (ordering.rs) and
-- its status (xt_status.rs). An `Instant` is a number; the clock is an argument.
pub mod Status
use sidecar.Prelude.{
  ℕ, ◌<◌, Bool, true, false, not, ◌&&◌, Option, none, some, List, [], ◌∷◌, Bytes, length, is_empty,
  is_some, is_none, ltb, nat_beq, bytes_eq, if◌then◌else◌,
}
use sidecar.Prelude.Map.{Map}
use sidecar.Mailbox.Types.{CrossRollupDependency, CrossRollupMessage, MailboxMessage}
use sidecar.Mailbox.Matching.{DependencyKey, MailboxMessageKey}

pub record PendingXt : Type 0 where
  pub id : Bytes
  pub instance_id : Bytes
  pub period_id : ℕ
  pub sequence_num : ℕ
  pub raw_txs : Map ℕ (List Bytes)
  pub created_at : ℕ
  pub simulated_at : Option ℕ
  pub decided_at : Option ℕ
  pub confirmed_at : Option ℕ
  pub decision : Option Bool
  pub vote_sent : Bool
  pub local_vote : Option Bool
  pub peer_votes : Map ℕ Bool
  pub locked_chains : List ℕ
  pub origin_chain : Option ℕ
  pub origin_seq : ℕ
  pub pending_mailbox : List MailboxMessage
  pub sent_mailbox_keys : List MailboxMessageKey
  pub dependencies : List CrossRollupDependency
  pub dep_keys : List DependencyKey
  pub fulfilled_deps : List CrossRollupDependency
  pub fulfilled_dep_keys : List DependencyKey
  pub outbound_messages : List CrossRollupMessage
  pub sender_nonces : Map ℕ (Bytes × ℕ)

-- `PendingXt::new` at the time `now`
abbrev pub new : ℕ → Bytes → Bytes → PendingXt
new now id instance_id = record {
  id = id;
  instance_id = instance_id;
  period_id = 0;
  sequence_num = 0;
  raw_txs = [];
  created_at = now;
  simulated_at = none;
  decided_at = none;
  confirmed_at = none;
  decision = none;
  vote_sent = false;
  local_vote = none;
  peer_votes = [];
  locked_chains = [];
  origin_chain = none;
  origin_seq = 0;
  pending_mailbox = [];
  sent_mailbox_keys = [];
  dependencies = [];
  dep_keys = [];
  fulfilled_deps = [];
  fulfilled_dep_keys = [];
  outbound_messages = [];
  sender_nonces = [];
}

abbrev is_decided : PendingXt → Bool
is_decided xt = is_some xt.decision

abbrev pub is_true : Option Bool → Bool
is_true (some true) = true
is_true _ = false

abbrev pub is_false : Option Bool → Bool
is_false (some false) = true
is_false _ = false

abbrev is_committed : PendingXt → Bool
is_committed xt = is_true xt.decision

abbrev pub record_decision : ℕ → Bool → PendingXt → PendingXt
record_decision now decision xt = record xt { decision = some decision; decided_at = some now }

-- Byte strings in lexicographic order.
pub bytes_less : Bytes → Bytes → Bool
bytes_less xs [] = false
bytes_less [] (y ∷ ys) = true
bytes_less (x ∷ xs) (y ∷ ys) = if nat_beq x y then bytes_less xs ys else ltb x y

-- period, then sequence, then id
pub xt_less : Bytes → PendingXt → Bytes → PendingXt → Bool
unfolding bytes_less
xt_less a_id a b_id b =
    if not (nat_beq a.period_id b.period_id)
    then ltb a.period_id b.period_id
    else if not (nat_beq a.sequence_num b.sequence_num)
    then ltb a.sequence_num b.sequence_num
    else bytes_less a_id b_id

-- crates/primitives/src/lib.rs
pub data XtStatus : Type 0 where
  pending simulating waiting_circ simulated voted committed aborted : XtStatus

undecided_status : PendingXt → XtStatus
undecided_status xt =
    if xt.vote_sent
    then voted
    else if is_some xt.simulated_at
    then (if not (is_empty xt.dependencies)
          && ltb (length xt.fulfilled_deps) (length xt.dependencies)
        then waiting_circ
        else simulated)
    else if not (is_empty xt.locked_chains)
    then simulating
    else pending

status_of : Option Bool → PendingXt → XtStatus
unfolding undecided_status
status_of (some true) xt = if is_some xt.confirmed_at then committed else voted
status_of (some false) xt = aborted
status_of none xt = undecided_status xt

unfoldable pub determine_xt_status : PendingXt → XtStatus
unfolding status_of
determine_xt_status xt = status_of xt.decision xt
