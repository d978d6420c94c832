-- ===== src/Coordinator/Sections/Turn/Apply.antt =====
-- Any section of crates/coordinator/coordinator/src on the table of transactions.
use sidecar.Prelude.{refl, bytes_eq, nat_eq}
use sidecar.Prelude.Map
use sidecar.Prelude.Map.{Map}
use sidecar.Coordinator.State.{CoordinatorState}
use sidecar.Coordinator.World.{Env}
use sidecar.Coordinator.Builder.{remove_pending_xt_from_state}
use sidecar.Coordinator.Handlers.Decision.{decide}
use sidecar.Coordinator.Handlers.PeerVote.{peer_vote}
use sidecar.Coordinator.Handlers.Vote.{local_vote_section}
use sidecar.Coordinator.Handlers.StartPeriod.{abort_stale, start_period_section}
use sidecar.Coordinator.Handlers.Rollback.{abort_undone, rollback_section}
use sidecar.Coordinator.Handlers.Mailbox.{mailbox_section}
use sidecar.Coordinator.Handlers.ForwardedXt.{forwarded, clean}
use sidecar.Coordinator.Handlers.StartInstance.{started}
use sidecar.Coordinator.Handlers.Submit.{join_section}
use sidecar.Coordinator.Handlers.Resolve.{take_waiters}
use sidecar.Coordinator.Handlers.Cleanup.{keeps, cleanup_section}
use sidecar.Coordinator.Sections.{
  Section, decides, takes_peer_vote, votes, starts_period, rolls_back, takes_mailbox, forwards,
  starts_instance, submits, joins, resolves, removes, confirms, cleans, locks, records, fulfils,
  dispatches, apply, reused_id,
}
use sidecar.Coordinator.Sections.Turn.{Turn, kept, rewritten, retained}
use sidecar.Coordinator.Sections.Turn.Pipeline.{
  lock_chain-Turn, record_simulation_state-Turn, fulfill_dependencies_from_mailbox-Turn,
  dispatch_section-Turn,
}
use sidecar.Coordinator.Sections.Turn.Votes.{
  decide_found-Turn, peer_vote_found-Turn, vote_found-Turn, abort_stale-Changes,
  abort_undone-Changes,
}
use sidecar.Coordinator.Sections.Turn.Entry.{
  forwarded-IsNew, started-IsNew, deliver_to-Turn, forward_section-Turn,
  start_instance_section-Turn, submit_section-Turn, confirm_pending-Turn, drop_entry-Turn,
}

-- Every critical section treats the table of transactions in one of the ways of `Turn`.
pub apply-Turn :
    (env : Env) (c : Section) (s : CoordinatorState)
    → Turn (reused_id env c s) s.pending (apply env c s).pending
unfolding apply reused_id decide peer_vote local_vote_section start_period_section rollback_section
    mailbox_section join_section take_waiters remove_pending_xt_from_state cleanup_section
apply-Turn env (decides now id d) s =
    decide_found-Turn env.chain_id now id d (Map.lookup id s.pending) s refl
apply-Turn env (takes_peer_vote now id cid v) s =
    peer_vote_found-Turn env.chain_id now id cid v (Map.lookup id s.pending) s refl
apply-Turn env (votes now alone id v) s =
    vote_found-Turn env.chain_id now alone id v (Map.lookup id s.pending) s refl
apply-Turn env (starts_period now period) s =
    rewritten (abort_stale now period) s.pending (abort_stale-Changes now period)
apply-Turn env (rolls_back now) s =
    rewritten (abort_undone now) s.pending (abort_undone-Changes now)
apply-Turn env (takes_mailbox msg) s =
    deliver_to-Turn (Map.lookup msg.instance_id s.mailbox_index) msg s
apply-Turn env (forwards now id txs chain seq) s =
    forward_section-Turn env (forwarded env now id (clean txs) chain seq) s
      (forwarded-IsNew env now id (clean txs) chain seq)
apply-Turn env (starts_instance now inst) s =
    start_instance_section-Turn (started env now inst) s (started-IsNew env now inst)
apply-Turn env (submits now fp txs) s = submit_section-Turn env now fp txs s
apply-Turn env (joins fp waiter) s = kept s.pending
apply-Turn env (resolves fp) s = kept s.pending
apply-Turn env (removes is_closed id) s = drop_entry-Turn is_closed id (Map.lookup id s.pending) s
apply-Turn env (confirms now ids) s =
    confirm_pending-Turn now ids s.pending s.pending (kept s.pending)
apply-Turn env (cleans is_closed now max_age) s = retained (λ _ xt. keeps now max_age xt) s.pending
apply-Turn env (locks id) s = lock_chain-Turn env.chain_id id s
apply-Turn env (records id result base) s =
    record_simulation_state-Turn env.chain_id id result base s
apply-Turn env (fulfils id deps) s = fulfill_dependencies_from_mailbox-Turn env.codec id deps s
apply-Turn env (dispatches id msgs) s = dispatch_section-Turn env.codec id msgs s
