-- ===== src/Coordinator/Sections/Turn/Entry.antt =====
-- The sections that add, drop or confirm transactions or deliver a message to one
-- (handlers/forwarded_xt.rs, start_instance.rs, mailbox.rs, coordinator.rs, pipeline/delivery.rs) on
-- the table of transactions.
use sidecar.Prelude.{
  inl, inr, ◌<◌, ℕ, ◌+◌, ◌≡◌, refl, Bool, false, Option, none, some, List, [], ◌∷◌, Bytes, arith,
  bytes_eq, nat_eq, ◌%◌, ◌^◌,
}
use sidecar.Prelude.Map
use sidecar.Prelude.Map.{Map}
use sidecar.Prelude.Result.{Result, ok, err}
use sidecar.Errors.{CoordinatorError}
use sidecar.Period.{PublisherPeriod, accept_start_instance}
use sidecar.Mailbox.Types.{MailboxMessage}
use sidecar.Coordinator.Xt.{PendingXt}
use sidecar.Coordinator.State.{
  undecided_count, max_pending_xts, CoordinatorState, buffer_orphan_mailbox, drain_mailbox_buffer,
}
use sidecar.Coordinator.World.{Env, SpecInstance}
use sidecar.Coordinator.Builder.{drop_entry, confirm, confirm_pending}
use sidecar.Coordinator.Lifecycle.{IsNew, delivered, confirmed, once}
use sidecar.Coordinator.Handlers.Mailbox.{push_mailbox, deliver_to}
use sidecar.Coordinator.Handlers.Register.{is_full, insert_xt, attach_buffered, register}
use sidecar.Coordinator.Handlers.ForwardedXt.{forward_section, forwarded}
use sidecar.Coordinator.Handlers.StartInstance.{admit_with, start_instance_section, started}
use sidecar.Coordinator.Handlers.Submit.{submit_section, submit_fresh, add_standalone, standalone}
use sidecar.Coordinator.Sections.{next_id}
use sidecar.Coordinator.Sections.Turn.{
  kept_by, then_modified_by, added_by, Table, Turn, kept, modified, added, removed, then_modified,
}

pub forwarded-IsNew :
    (env : Env) (now : ℕ) (id : Bytes) (txs : Map ℕ (List Bytes)) (chain seq : ℕ)
    → IsNew (forwarded env now id txs chain seq)
forwarded-IsNew env now id txs chain seq = ground arith

pub started-IsNew : (env : Env) (now : ℕ) (inst : SpecInstance) → IsNew (started env now inst)
started-IsNew env now inst = ground arith

pub deliver_to-Turn :
    (o : Option Bytes) (msg : MailboxMessage) (s : CoordinatorState)
    → Turn none s.pending (deliver_to o msg s).pending
unfolding deliver_to buffer_orphan_mailbox
deliver_to-Turn (some id) msg s =
    modified id (push_mailbox (msg ∷ [])) s.pending (λ xt. once (delivered (msg ∷ []) xt))
deliver_to-Turn none msg s = kept s.pending

attach_buffered-Turn :
    (id raw : Bytes) (a : Table) (s : CoordinatorState)
    → Turn none a s.pending
    → Turn none a (attach_buffered id raw s).pending
unfolding attach_buffered drain_mailbox_buffer
attach_buffered-Turn id raw a s t = ground (
  arith,
  t,
  then_modified_by none id (push_mailbox (drain_mailbox_buffer raw s).0) a s.pending t
      (λ xt. once (delivered (drain_mailbox_buffer raw s).0 xt)),
)

insert_xt-Turn :
    (xt : PendingXt) (s : CoordinatorState)
    → IsNew xt
    → is_full s ≡ false
    → Map.contains_key xt.id s.pending ≡ false
    → Turn none s.pending (insert_xt xt s).pending
unfolding insert_xt is_full
insert_xt-Turn xt s n h f = added xt s.pending n (ground arith) (inl f)

register-Turn :
    (xt : PendingXt) (s : CoordinatorState)
    → IsNew xt
    → is_full s ≡ false
    → Map.contains_key xt.id s.pending ≡ false
    → Turn none s.pending (register xt s).pending
unfolding register
register-Turn xt s n h f =
    attach_buffered-Turn xt.id xt.instance_id s.pending (insert_xt xt s) (insert_xt-Turn xt s n h f)

pub forward_section-Turn :
    (env : Env) (xt : PendingXt) (s : CoordinatorState)
    → IsNew xt
    → Turn none s.pending (forward_section env xt s).1.pending
unfolding forward_section
forward_section-Turn env xt s n = ground (arith, kept_by none s.pending, register-Turn xt s n)

admit_with-Turn :
    (xt : PendingXt) (r : Result CoordinatorError PublisherPeriod) (s : CoordinatorState)
    → IsNew xt
    → is_full s ≡ false
    → Map.contains_key xt.id s.pending ≡ false
    → Turn none s.pending (admit_with xt r s).1.pending
unfolding is_full
admit_with-Turn xt (err e) s n h f = kept s.pending
admit_with-Turn xt (ok period) s n h f =
    register-Turn xt (record s { publisher_period = period }) n h f

pub start_instance_section-Turn :
    (xt : PendingXt) (s : CoordinatorState)
    → IsNew xt
    → Turn none s.pending (start_instance_section xt s).1.pending
unfolding start_instance_section
start_instance_section-Turn xt s n = ground (
  arith,
  kept_by none s.pending,
  admit_with-Turn xt (accept_start_instance xt.period_id xt.sequence_num s.publisher_period) s n,
)

module _ (env : Env) (now : ℕ) (fp : Bytes) (txs : Map ℕ (List Bytes)) where
  submit_fresh-Turn :
      (s : CoordinatorState)
      → Turn (some (next_id env s)) s.pending (submit_fresh env now fp txs s).1.pending
  unfolding submit_fresh add_standalone is_full next_id
  submit_fresh-Turn s = ground (
    arith,
    kept_by (some (next_id env s)) s.pending,
    λ (l : undecided_count s.pending < max_pending_xts).
        added_by (some (next_id env s)) (standalone env now ((s.origin_seq + 1) % 2 ^ 64) txs)
          s.pending (refl, refl, refl, refl, refl, refl, refl, refl) l (inr refl),
  )

  pub submit_section-Turn :
      (s : CoordinatorState)
      → Turn (some (next_id env s)) s.pending (submit_section env now fp txs s).1.pending
  unfolding submit_section
  submit_section-Turn s =
      ground (arith, kept_by (some (next_id env s)) s.pending, submit_fresh-Turn s)

pub confirm_pending-Turn :
    (now : ℕ) (ids : List Bytes) (a m : Table)
    → Turn none a m
    → Turn none a (confirm_pending now ids m)
unfolding confirm_pending
confirm_pending-Turn now [] a m t = t
confirm_pending-Turn now (id ∷ ids) a m t =
    confirm_pending-Turn now ids a (Map.modify id (confirm now) m)
      (then_modified id (confirm now) a m t (λ xt. once (confirmed now xt)))

pub drop_entry-Turn :
    (is_closed : ℕ → Bool) (id : Bytes) (o : Option PendingXt) (s : CoordinatorState)
    → Turn none s.pending (drop_entry is_closed id o s).1.pending
drop_entry-Turn is_closed id none s = kept s.pending
drop_entry-Turn is_closed id (some xt) s = removed id s.pending
