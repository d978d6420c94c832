-- ===== src/Coordinator/Handlers/Cleanup/Early.antt =====
-- `cleanup` of coordinator.rs and the messages that wait for their transaction.
use sidecar.Prelude.{ℕ, ◌≡◌, ap, ◌∙◌, Bool, none, some, List, [], ◌∷◌, Bytes, arith, bytes_eq}
use sidecar.Prelude.Map
use sidecar.Prelude.Map.{Map}
use sidecar.Coordinator.Xt.{PendingXt}
use sidecar.Coordinator.State.{CoordinatorState, or_default}
use sidecar.Coordinator.Handlers.Cleanup.{removed_raw_ids, remove_all, cleanup_section}
use sidecar.Coordinator.Handlers.Register.{register}
use sidecar.Coordinator.Handlers.Register.Delivery.{register_attaches}

remove_all_keeps_none :
    (ids : List Bytes) (raw : Bytes) (index : Map Bytes Bytes)
    → Map.lookup raw index ≡ none
    → Map.lookup raw (remove_all ids index) ≡ none
unfolding remove_all
remove_all_keeps_none [] raw index h = h
remove_all_keeps_none (id ∷ ids) raw index h =
    remove_all_keeps_none ids raw (Map.remove id index)
      (ground (arith, Map.lookup-remove id raw index))

cleaned_buffer :
    (is_closed : ℕ → Bool) (now max_age : ℕ) (raw : Bytes) (s : CoordinatorState)
    → Map.HasDistinctKeys s.mailbox_buffer
    → Map.lookup raw s.mailbox_index ≡ none
    → or_default (Map.lookup raw (cleanup_section is_closed now max_age s).mailbox_buffer) ≡ []
unfolding cleanup_section
cleaned_buffer is_closed now max_age raw s d h = ground (
  arith,
  remove_all_keeps_none (removed_raw_ids now max_age s.pending) raw s.mailbox_index h,
  Map.lookup-retain
      (λ key _.
        Map.contains_key key (remove_all (removed_raw_ids now max_age s.pending) s.mailbox_index))
      raw s.mailbox_buffer d,
)

-- A cleanup forgets every message that waits for a transaction not yet registered, however lately it
-- came: a transaction registered after the cleanup has none of them.
pub cleanup_forgets_early :
    (is_closed : ℕ → Bool) (now max_age : ℕ) (xt : PendingXt) (s : CoordinatorState)
    → Map.HasDistinctKeys s.mailbox_buffer
    → Map.lookup xt.instance_id s.mailbox_index ≡ none
    → xt.pending_mailbox ≡ []
    → Map.lookup xt.id (register xt (cleanup_section is_closed now max_age s)).pending
      ≡ some (record xt { pending_mailbox = [] })
cleanup_forgets_early is_closed now max_age xt s d h e =
    register_attaches xt (cleanup_section is_closed now max_age s) e
    ∙ ap (λ b. some (record xt { pending_mailbox = b }))
        (cleaned_buffer is_closed now max_age xt.instance_id s d h)
