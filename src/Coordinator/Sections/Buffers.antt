-- ===== src/Coordinator/Sections/Buffers.antt =====
-- The buffer of mailbox messages that come before their transaction (`buffer_orphan_mailbox` and
-- `drain_mailbox_buffer` of crates/coordinator/coordinator/src/coordinator.rs) stays small.
use sidecar.Prelude.{
  refl, ℕ, ◌≤◌, ◌≡◌, Bool, Option, none, some, List, [], ◌∷◌, Bytes, arith, bytes_eq, nat_eq,
  length, length-append,
}
use sidecar.Prelude.Map
use sidecar.Prelude.Map.{Map}
use sidecar.Prelude.Result.{Result, ok, err}
use sidecar.Errors.{CoordinatorError}
use sidecar.Period.{PublisherPeriod, accept_start_instance}
use sidecar.Mailbox.Types.{MailboxMessage}
use sidecar.Coordinator.Xt.{PendingXt}
use sidecar.Simulation.Types.{SimulationResult}
use sidecar.Coordinator.State.{
  CoordinatorState, init, mailbox_buffer_max_keys, mailbox_buffer_max_per_key, or_default,
  push_bucket, buffer_message, buffer_orphan_mailbox, drain_mailbox_buffer,
}
use sidecar.Coordinator.World.{Env}
use sidecar.Mailbox.Types.{CrossRollupDependency, CrossRollupMessage}
use sidecar.Mailbox.Wire.{WordCodec}
use sidecar.Mailbox.Overrides.{StateOverride}
use sidecar.Coordinator.Pipeline.{
  lock_chain, record_found, record_simulation_state, fulfil_found, dispatch_found,
  fulfill_dependencies_from_mailbox, dispatch_section,
}
use sidecar.Coordinator.Builder.{remove_pending_xt_from_state, drop_entry}
use sidecar.Coordinator.Handlers.Decision.{decide, decide_found}
use sidecar.Coordinator.Handlers.PeerVote.{peer_vote, peer_vote_found}
use sidecar.Coordinator.Handlers.Vote.{vote_found, local_vote_section}
use sidecar.Coordinator.Handlers.StartPeriod.{start_period_section}
use sidecar.Coordinator.Handlers.Rollback.{rollback_section}
use sidecar.Coordinator.Handlers.Mailbox.{mailbox_section, deliver_to}
use sidecar.Coordinator.Handlers.Register.{insert_xt, attach_buffered, register}
use sidecar.Coordinator.Handlers.ForwardedXt.{forward_section, forwarded, clean}
use sidecar.Coordinator.Handlers.StartInstance.{admit_with, start_instance_section, started}
use sidecar.Coordinator.Handlers.Submit.{submit_section, submit_fresh, add_standalone, join_section}
use sidecar.Coordinator.Handlers.Resolve.{take_waiters}
use sidecar.Coordinator.Handlers.Cleanup.{cleanup_section, remove_all, removed_raw_ids}
use sidecar.Coordinator.Sections.{
  Section, decides, takes_peer_vote, votes, starts_period, rolls_back, takes_mailbox, forwards,
  starts_instance, submits, joins, resolves, removes, confirms, cleans, locks, records, fulfils,
  dispatches, apply, run,
}

abbrev Buffer : Type 0
Buffer = Map Bytes (List MailboxMessage)

abbrev HasSmallBuckets : Buffer → Type 0
HasSmallBuckets [] = Unit
HasSmallBuckets ((_, ms) ∷ m) = (length ms ≤ mailbox_buffer_max_per_key) × HasSmallBuckets m

-- At most 1024 buckets, of at most 256 messages each.
abbrev pub IsBounded : Buffer → Type 0
IsBounded m = (length m ≤ mailbox_buffer_max_keys) × HasSmallBuckets m

lookup-HasSmallBuckets :
    (k : Bytes) (m : Buffer)
    → HasSmallBuckets m
    → length (or_default (Map.lookup k m)) ≤ mailbox_buffer_max_per_key
lookup-HasSmallBuckets k [] h = omega arith
lookup-HasSmallBuckets k ((j, ms) ∷ m) h = ground (arith, lookup-HasSmallBuckets k m)

insert-HasSmallBuckets :
    (k : Bytes) (ms : List MailboxMessage) (m : Buffer)
    → length ms ≤ mailbox_buffer_max_per_key
    → HasSmallBuckets m
    → HasSmallBuckets (Map.insert k ms m)
insert-HasSmallBuckets k ms [] l h = ground arith
insert-HasSmallBuckets k ms ((j, ns) ∷ m) l h = ground (arith, insert-HasSmallBuckets k ms m)

remove-IsBounded : (k : Bytes) (m : Buffer) → IsBounded m → IsBounded (Map.remove k m)
remove-IsBounded k m h = (ground (arith, Map.length-remove-le k m), small m h.1)
  where
    small : (n : Buffer) → HasSmallBuckets n → HasSmallBuckets (Map.remove k n)
    small [] g = g
    small ((j, ns) ∷ n) g = ground (arith, small n)

retain-IsBounded :
    (p : Bytes → List MailboxMessage → Bool) (m : Buffer) → IsBounded m → IsBounded (Map.retain p m)
retain-IsBounded p m h = (ground (arith, Map.length-retain-le p m), small m h.1)
  where
    small : (n : Buffer) → HasSmallBuckets n → HasSmallBuckets (Map.retain p n)
    small [] g = g
    small ((j, ns) ∷ n) g = ground (arith, small n)

push_bucket-le :
    (ms : List MailboxMessage) (msg : MailboxMessage)
    → length ms ≤ mailbox_buffer_max_per_key
    → length (push_bucket ms msg) ≤ mailbox_buffer_max_per_key
unfolding push_bucket
push_bucket-le ms msg h = ground (arith, length-append ms (msg ∷ []))

buffer_message-IsBounded :
    (msg : MailboxMessage) (m : Buffer) → IsBounded m → IsBounded (buffer_message msg m)
unfolding buffer_message
buffer_message-IsBounded msg m h = ground (
  arith,
  insert-HasSmallBuckets msg.instance_id
      (push_bucket (or_default (Map.lookup msg.instance_id m)) msg) m,
  push_bucket-le (or_default (Map.lookup msg.instance_id m)) msg,
  lookup-HasSmallBuckets msg.instance_id m,
  Map.length-insert-le msg.instance_id (push_bucket (or_default (Map.lookup msg.instance_id m)) msg)
      m,
  Map.length-insert_present msg.instance_id
      (push_bucket (or_default (Map.lookup msg.instance_id m)) msg) m,
)

deliver_to-IsBounded :
    (o : Option Bytes) (msg : MailboxMessage) (s : CoordinatorState)
    → IsBounded s.mailbox_buffer
    → IsBounded (deliver_to o msg s).mailbox_buffer
unfolding deliver_to buffer_orphan_mailbox
deliver_to-IsBounded (some id) msg s h = h
deliver_to-IsBounded none msg s h = buffer_message-IsBounded msg s.mailbox_buffer h

register-IsBounded :
    (xt : PendingXt) (s : CoordinatorState)
    → IsBounded s.mailbox_buffer
    → IsBounded (register xt s).mailbox_buffer
unfolding register insert_xt attach_buffered drain_mailbox_buffer
register-IsBounded xt s h = ground (arith, remove-IsBounded xt.instance_id s.mailbox_buffer h)

admit_with-IsBounded :
    (xt : PendingXt) (r : Result CoordinatorError PublisherPeriod) (s : CoordinatorState)
    → IsBounded s.mailbox_buffer
    → IsBounded (admit_with xt r s).1.mailbox_buffer
admit_with-IsBounded xt (err e) s h = h
admit_with-IsBounded xt (ok period) s h =
    register-IsBounded xt (record s { publisher_period = period }) h

start_instance_section-IsBounded :
    (xt : PendingXt) (s : CoordinatorState)
    → IsBounded s.mailbox_buffer
    → IsBounded (start_instance_section xt s).1.mailbox_buffer
unfolding start_instance_section
start_instance_section-IsBounded xt s h = ground (
  arith,
  admit_with-IsBounded xt (accept_start_instance xt.period_id xt.sequence_num s.publisher_period) s
      h,
)

drop_entry-IsBounded :
    (is_closed : ℕ → Bool) (id : Bytes) (o : Option PendingXt) (s : CoordinatorState)
    → IsBounded s.mailbox_buffer
    → IsBounded (drop_entry is_closed id o s).1.mailbox_buffer
drop_entry-IsBounded is_closed id none s h = h
drop_entry-IsBounded is_closed id (some xt) s h = h

decide_found-buffer :
    (chain_id now : ℕ) (id : Bytes) (d : Bool) (o : Option PendingXt) (s : CoordinatorState)
    → (decide_found chain_id now id d o s).1.mailbox_buffer ≡ s.mailbox_buffer
unfolding decide_found
decide_found-buffer chain_id now id d o s = ground arith

peer_vote_found-buffer :
    (chain_id now : ℕ) (id : Bytes) (cid : ℕ) (v : Bool) (o : Option PendingXt)
    (s : CoordinatorState)
    → (peer_vote_found chain_id now id cid v o s).1.mailbox_buffer ≡ s.mailbox_buffer
unfolding peer_vote_found
peer_vote_found-buffer chain_id now id cid v o s = ground arith

vote_found-buffer :
    (chain_id now : ℕ) (alone : Bool) (id : Bytes) (v : Bool) (o : Option PendingXt)
    (s : CoordinatorState)
    → (vote_found chain_id now alone id v o s).1.mailbox_buffer ≡ s.mailbox_buffer
unfolding vote_found
vote_found-buffer chain_id now alone id v o s = ground arith

fulfil_found-buffer :
    (c : WordCodec) (id : Bytes) (deps : List CrossRollupDependency) (o : Option PendingXt)
    (s : CoordinatorState)
    → (fulfil_found c id deps o s).1.mailbox_buffer ≡ s.mailbox_buffer
fulfil_found-buffer c id deps none s = refl
fulfil_found-buffer c id deps (some xt) s = refl

dispatch_found-buffer :
    (c : WordCodec) (id : Bytes) (msgs : List CrossRollupMessage) (o : Option PendingXt)
    (s : CoordinatorState)
    → (dispatch_found c id msgs o s).1.mailbox_buffer ≡ s.mailbox_buffer
dispatch_found-buffer c id msgs none s = refl
dispatch_found-buffer c id msgs (some xt) s = refl

module _ (env : Env) where
  record_simulation_state-buffer :
      (id : Bytes) (result : SimulationResult) (base : StateOverride) (s : CoordinatorState)
      → (record_simulation_state env.chain_id id result base s).1.mailbox_buffer ≡ s.mailbox_buffer
  unfolding record_simulation_state record_found
  record_simulation_state-buffer id result base s = ground arith

  submit_section-buffer :
      (now : ℕ) (fp : Bytes) (txs : Map ℕ (List Bytes)) (s : CoordinatorState)
      → (submit_section env now fp txs s).1.mailbox_buffer ≡ s.mailbox_buffer
  unfolding submit_section submit_fresh add_standalone insert_xt
  submit_section-buffer now fp txs s = ground arith

  apply-IsBounded :
      (c : Section) (s : CoordinatorState)
      → IsBounded s.mailbox_buffer
      → IsBounded (apply env c s).mailbox_buffer
  unfolding apply decide peer_vote local_vote_section start_period_section rollback_section
      mailbox_section forward_section start_instance_section join_section take_waiters
      remove_pending_xt_from_state cleanup_section lock_chain fulfill_dependencies_from_mailbox
      dispatch_section
  apply-IsBounded (decides now id d) s h =
      ground (arith, decide_found-buffer env.chain_id now id d (Map.lookup id s.pending) s)
  apply-IsBounded (takes_peer_vote now id cid v) s h =
      ground (arith, peer_vote_found-buffer env.chain_id now id cid v (Map.lookup id s.pending) s)
  apply-IsBounded (votes now alone id v) s h =
      ground (arith, vote_found-buffer env.chain_id now alone id v (Map.lookup id s.pending) s)
  apply-IsBounded (starts_period now period) s h = h
  apply-IsBounded (rolls_back now) s h = (omega arith, tt)
  apply-IsBounded (takes_mailbox msg) s h =
      deliver_to-IsBounded (Map.lookup msg.instance_id s.mailbox_index) msg s h
  apply-IsBounded (forwards now id txs chain seq) s h =
      ground (arith, register-IsBounded (forwarded env now id (clean txs) chain seq) s h)
  apply-IsBounded (starts_instance now inst) s h =
      start_instance_section-IsBounded (started env now inst) s h
  apply-IsBounded (submits now fp txs) s h = ground (arith, submit_section-buffer now fp txs s)
  apply-IsBounded (joins fp waiter) s h = h
  apply-IsBounded (resolves fp) s h = h
  apply-IsBounded (removes is_closed id) s h =
      drop_entry-IsBounded is_closed id (Map.lookup id s.pending) s h
  apply-IsBounded (confirms now ids) s h = h
  apply-IsBounded (cleans is_closed now max_age) s h =
      retain-IsBounded
        (λ key _.
          Map.contains_key key (remove_all (removed_raw_ids now max_age s.pending) s.mailbox_index))
        s.mailbox_buffer h
  apply-IsBounded (locks id) s h = h
  apply-IsBounded (records id result base) s h =
      ground (arith, record_simulation_state-buffer id result base s)
  apply-IsBounded (fulfils id deps) s h =
      ground (arith, fulfil_found-buffer env.codec id deps (Map.lookup id s.pending) s)
  apply-IsBounded (dispatches id msgs) s h =
      ground (arith, dispatch_found-buffer env.codec id msgs (Map.lookup id s.pending) s)

  run_from-IsBounded :
      (cs : List Section) (s : CoordinatorState)
      → IsBounded s.mailbox_buffer
      → IsBounded (run env cs s).mailbox_buffer
  unfolding run
  run_from-IsBounded [] s h = h
  run_from-IsBounded (c ∷ cs) s h = run_from-IsBounded cs (apply env c s) (apply-IsBounded c s h)

  -- Whatever critical sections run, in whatever order, after the coordinator starts, the buffer of
  -- early mailbox messages has at most 1024 keys, and at most 256 messages under each.
  pub run-IsBounded : (cs : List Section) → IsBounded (run env cs init).mailbox_buffer
  run-IsBounded cs = run_from-IsBounded cs init (omega arith, tt)
