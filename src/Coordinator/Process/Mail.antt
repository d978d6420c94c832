-- ===== src/Coordinator/Process/Mail.antt =====
-- What the sections of pipeline/simulation.rs do to the number of messages in a transaction's mailbox.
use sidecar.Prelude.{
  ℕ, ◌+◌, ◌≡◌, refl, sym, ap, ◌∙◌, Option, none, some, List, [], ◌∷◌, Bytes, bytes_eq, nat_eq,
  arith, length, beq_refl, Bool-cases, inl, inr,
}
use sidecar.Prelude.Map
use sidecar.Prelude.HashSet
use sidecar.Mailbox.Types.{CrossRollupDependency, CrossRollupMessage, MailboxMessage}
use sidecar.Mailbox.Wire.{WordCodec}
use sidecar.Mailbox.Matching.{dependency_key, dependency_key_eq, message_key_eq, contains_message}
use sidecar.Mailbox.Routing.{mailbox_message}
use sidecar.Mailbox.Overrides.{StateOverride}
use sidecar.Simulation.Types.{SimulationResult}
use sidecar.Coordinator.Xt.{PendingXt}
use sidecar.Coordinator.State.{CoordinatorState}
use sidecar.Coordinator.Pipeline.{
  add_dependency, add_dependencies, add_message, add_outbound, record_result, overrides_of,
  record_found, record_simulation_state, fulfil_all, fulfil_found,
  fulfill_dependencies_from_mailbox, is_sent, remember_sent, collect_unsent, dispatch_found,
  dispatch_section,
}
use sidecar.Coordinator.Pipeline.Fulfilment.{fulfil_all-Counts}

-- The number of messages in the mailbox of a transaction that may be gone.
abbrev pub mail : Option PendingXt → ℕ
mail none = 0
mail (some xt) = length xt.pending_mailbox

abbrev pub mail_in : Bytes → CoordinatorState → ℕ
mail_in id s = mail (Map.lookup id s.pending)

pub mail-modify :
    (id : Bytes) (f : PendingXt → PendingXt) (s : CoordinatorState)
    → ((xt : PendingXt) → (f xt).pending_mailbox ≡ xt.pending_mailbox)
    → mail (Map.lookup id (Map.modify id f s.pending)) ≡ mail_in id s
mail-modify id f s h =
    ap mail (Map.lookup-modify id id f s.pending)
    ∙ rw (beq_refl id) (same (Map.lookup id s.pending))
  where
    same : (o : Option PendingXt) → mail (Map.map_option f o) ≡ mail o
    same none = refl
    same (some xt) = ap length (h xt)

mailbox-add_dependencies :
    (deps : List CrossRollupDependency) (xt : PendingXt)
    → (add_dependencies deps xt).pending_mailbox ≡ xt.pending_mailbox
mailbox-add_dependencies [] xt = refl
mailbox-add_dependencies (dep ∷ deps) xt =
    mailbox-add_dependencies deps (add_dependency dep xt) ∙ one
  where
    one : (add_dependency dep xt).pending_mailbox ≡ xt.pending_mailbox
    one = elim (Bool-cases (HashSet.contains (dependency_key dep) xt.dep_keys)) [
      | inl e ↦ rw e refl
      | inr e ↦ rw e refl
    ]

mailbox-add_outbound :
    (msgs : List CrossRollupMessage) (xt : PendingXt)
    → (add_outbound msgs xt).pending_mailbox ≡ xt.pending_mailbox
mailbox-add_outbound [] xt = refl
mailbox-add_outbound (msg ∷ msgs) xt = mailbox-add_outbound msgs (add_message msg xt) ∙ one
  where
    one : (add_message msg xt).pending_mailbox ≡ xt.pending_mailbox
    one = elim (Bool-cases (contains_message xt.outbound_messages msg)) [
      | inl e ↦ rw e refl
      | inr e ↦ rw e refl
    ]

mailbox-record_result :
    (result : SimulationResult) (xt : PendingXt)
    → (record_result result xt).pending_mailbox ≡ xt.pending_mailbox
mailbox-record_result result xt =
    mailbox-add_outbound result.outbound_messages (add_dependencies result.dependencies xt)
    ∙ mailbox-add_dependencies result.dependencies xt

pub mail-record_simulation_state :
    (chain_id : ℕ) (id : Bytes) (result : SimulationResult) (base : StateOverride)
    (s : CoordinatorState)
    → mail_in id (record_simulation_state chain_id id result base s).1 ≡ mail_in id s
unfolding record_simulation_state
mail-record_simulation_state chain_id id result base s =
    elim (Bool-cases (Map.contains_key id s.pending)) [
      | inr e ↦ rw e refl
      | inl e ↦ rw e (found (overrides_of result))
    ]
  where
    found :
        (o : Option StateOverride)
        → mail_in id (record_found chain_id id result base o s).1 ≡ mail_in id s
    found none = mail-modify id (record_result result) s (mailbox-record_result result)
    found (some new) = mail-modify id (record_result result) s (mailbox-record_result result)

module _ (c : WordCodec) where
  mailbox-collect_unsent :
      (msgs : List CrossRollupMessage) (xt : PendingXt)
      → (collect_unsent c msgs xt).1.pending_mailbox ≡ xt.pending_mailbox
  unfolding collect_unsent
  mailbox-collect_unsent [] xt = refl
  mailbox-collect_unsent (msg ∷ msgs) xt =
      mailbox-collect_unsent msgs (remember_sent c wire xt) ∙ one
    where
      wire : MailboxMessage
      wire = mailbox_message c xt.instance_id msg

      one : (remember_sent c wire xt).pending_mailbox ≡ xt.pending_mailbox
      one = elim (Bool-cases (is_sent c wire xt)) [ inl e ↦ rw e refl | inr e ↦ rw e refl ]

  mail-insert :
      (id : Bytes) (xt : PendingXt) (s : CoordinatorState)
      → mail (Map.lookup id (Map.insert id xt s.pending)) ≡ length xt.pending_mailbox
  mail-insert id xt s = ap mail (Map.lookup-insert id id xt s.pending) ∙ rw (beq_refl id) refl

  pub mail-dispatch_section :
      (id : Bytes) (msgs : List CrossRollupMessage) (s : CoordinatorState)
      → mail_in id (dispatch_section c id msgs s).1 ≡ mail_in id s
  unfolding dispatch_section
  mail-dispatch_section id msgs s = found (Map.lookup id s.pending) refl
    where
      found :
          (o : Option PendingXt)
          → Map.lookup id s.pending ≡ o
          → mail_in id (dispatch_found c id msgs o s).1 ≡ mail_in id s
      found none e = refl
      found (some xt) e =
          mail-insert id (collect_unsent c msgs xt).1 s
          ∙ ap length (mailbox-collect_unsent msgs xt)
          ∙ ap mail (sym e)

  -- As many messages are gone as dependencies are fulfilled.
  pub mail-fulfill_dependencies_from_mailbox :
      (id : Bytes) (deps : List CrossRollupDependency) (s : CoordinatorState)
      → mail_in id (fulfill_dependencies_from_mailbox c id deps s).1
          + (fulfill_dependencies_from_mailbox c id deps s).0
        ≡ mail_in id s
  unfolding fulfill_dependencies_from_mailbox
  mail-fulfill_dependencies_from_mailbox id deps s = found (Map.lookup id s.pending) refl
    where
      found :
          (o : Option PendingXt)
          → Map.lookup id s.pending ≡ o
          → mail_in id (fulfil_found c id deps o s).1 + (fulfil_found c id deps o s).0
            ≡ mail_in id s
      found none e = omega arith
      found (some xt) e = omega (
        arith,
        mail-insert id (fulfil_all c deps (0, xt)).1 s,
        (fulfil_all-Counts c deps (0, xt)).0,
        ap mail e,
      )
