-- ===== src/Coordinator/Sections/Turn.antt =====
-- What one critical section does to the table of transactions `pending` of `CoordinatorState`, as a
-- relation: it replaces a transaction by a changed one, changes one or all of them in place, adds a
-- new one while there is room, or drops some.
pub mod Votes
pub mod Entry
pub mod Pipeline
pub mod Apply
use sidecar.Prelude.{◌<◌, ◌≡◌, ◌⊎◌, Bool, false, Option, some, List, Bytes, bytes_eq}
use sidecar.Prelude.Map
use sidecar.Prelude.Map.{Map}
use sidecar.Prelude.Result.{Result, ok, err}
use sidecar.Errors.{CoordinatorError}
use sidecar.Period.{PublisherPeriod, accept_start_instance}
use sidecar.Mailbox.Types.{MailboxMessage}
use sidecar.Coordinator.Xt.{PendingXt, record_decision, is_false}
use sidecar.Coordinator.Votes.{maybe_make_standalone_decision, decide_tally, tally}
use sidecar.Coordinator.State.{
  CoordinatorState, undecided_count, max_pending_xts, buffer_orphan_mailbox, drain_mailbox_buffer,
}
use sidecar.Coordinator.World.{Env, SpecInstance}
use sidecar.Coordinator.Builder.{remove_pending_xt_from_state, drop_entry, confirm, confirm_pending}
use sidecar.Coordinator.Lifecycle.{
  IsNew, Change, decided, rolled_back, peer_voted, voted, delivered, confirmed, Changes, unchanged,
  then_change, once, trans,
}
use sidecar.Coordinator.Handlers.Decision.{decide, decide_found}
use sidecar.Coordinator.Handlers.PeerVote.{add_vote, peer_vote, peer_vote_found}
use sidecar.Coordinator.Handlers.Vote.{cast_vote, vote_found, local_vote_section}
use sidecar.Coordinator.Handlers.StartPeriod.{abort_stale, is_stale, start_period_section}
use sidecar.Coordinator.Handlers.Rollback.{abort_undone, rollback_section}
use sidecar.Coordinator.Handlers.Mailbox.{push_mailbox, mailbox_section, deliver_to}
use sidecar.Coordinator.Handlers.Register.{is_full, pre_lock, insert_xt, attach_buffered, register}
use sidecar.Coordinator.Handlers.ForwardedXt.{forward_section, forwarded, clean}
use sidecar.Coordinator.Handlers.StartInstance.{
  admit_with, start_instance_section, started, includes_local,
}
use sidecar.Coordinator.Handlers.Submit.{
  known_id, submit_section, submit_fresh, add_standalone, standalone, join_section,
}
use sidecar.Coordinator.Handlers.Resolve.{take_waiters}
use sidecar.Coordinator.Handlers.Cleanup.{keeps, cleanup_section}
use sidecar.Coordinator.Sections.{
  Section, decides, takes_peer_vote, votes, starts_period, rolls_back, takes_mailbox, forwards,
  starts_instance, submits, joins, resolves, removes, confirms, cleans, apply,
}

abbrev pub Table : Type 0
Table = Map Bytes PendingXt

-- `own` is the id, if any, that may be given to a new transaction although it is in use.
pub data Turn (own : Option Bytes) : Table → Table → Type 0 where
  kept : (m : Table) → Turn own m m
  replaced :
      (id : Bytes) (old xt : PendingXt) (m : Table)
      → Map.lookup id m ≡ some old
      → Changes old xt
      → Turn own m (Map.insert id xt m)
  modified :
      (id : Bytes) (f : PendingXt → PendingXt) (m : Table)
      → ((xt : PendingXt) → Changes xt (f xt))
      → Turn own m (Map.modify id f m)
  rewritten :
      (f : PendingXt → PendingXt) (m : Table)
      → ((xt : PendingXt) → Changes xt (f xt))
      → Turn own m (Map.map_values f m)
  added :
      (xt : PendingXt) (m : Table)
      → IsNew xt
      → undecided_count m < max_pending_xts
      → (Map.contains_key xt.id m ≡ false) ⊎ (own ≡ some xt.id)
      → Turn own m (Map.insert xt.id xt m)
  removed : (id : Bytes) (m : Table) → Turn own m (Map.remove id m)
  retained : (p : Bytes → PendingXt → Bool) (m : Table) → Turn own m (Map.retain p m)
  then_modified :
      (id : Bytes) (f : PendingXt → PendingXt) (a b : Table)
      → Turn own a b
      → ((xt : PendingXt) → Changes xt (f xt))
      → Turn own a (Map.modify id f b)

-- The constructors at a given `own`.
module _ (own : Option Bytes) where
  abbrev pub kept_by : (m : Table) → Turn own m m
  kept_by m = kept m

  abbrev pub replaced_by :
      (id : Bytes) (old xt : PendingXt) (m : Table)
      → Map.lookup id m ≡ some old
      → Changes old xt
      → Turn own m (Map.insert id xt m)
  replaced_by id old xt m e c = replaced id old xt m e c

  abbrev pub added_by :
      (xt : PendingXt) (m : Table)
      → IsNew xt
      → undecided_count m < max_pending_xts
      → (Map.contains_key xt.id m ≡ false) ⊎ (own ≡ some xt.id)
      → Turn own m (Map.insert xt.id xt m)
  added_by xt m n l f = added xt m n l f

  abbrev pub then_modified_by :
      (id : Bytes) (f : PendingXt → PendingXt) (a b : Table)
      → Turn own a b
      → ((xt : PendingXt) → Changes xt (f xt))
      → Turn own a (Map.modify id f b)
  then_modified_by id f a b t c = then_modified id f a b t c
