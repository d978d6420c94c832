-- ===== src/Coordinator/Sections/Turn/Pipeline.antt =====
-- The sections of pipeline/simulation.rs on the table of transactions.
use sidecar.Prelude.{
  ℕ, ◌≡◌, refl, ◌∙◌, Option, none, some, List, [], ◌∷◌, Bytes, arith, bytes_eq, Bool-cases, inl,
  inr,
}
use sidecar.Prelude.Map
use sidecar.Prelude.HashSet
use sidecar.Mailbox.Types.{CrossRollupDependency, CrossRollupMessage, MailboxMessage}
use sidecar.Mailbox.Wire.{WordCodec}
use sidecar.Mailbox.Matching.{
  dependency_key, dependency_key_eq, message_key_eq, matches_dependency, contains_message,
}
use sidecar.Mailbox.Routing.{mailbox_message}
use sidecar.Mailbox.Overrides.{StateOverride}
use sidecar.Coordinator.Xt.{PendingXt}
use sidecar.Simulation.Types.{SimulationResult}
use sidecar.Coordinator.State.{CoordinatorState}
use sidecar.Coordinator.Pipeline.{
  add_dependency, add_dependencies, add_message, add_outbound, record_result, lock_local,
  lock_chain, is_sent, remember_sent, overrides_of, record_found, record_simulation_state,
  take_first, fulfil_with, fulfil_one, fulfil_all, fulfil_found, fulfill_dependencies_from_mailbox,
  collect_unsent, dispatch_found, dispatch_section,
}
use sidecar.Coordinator.Lifecycle.{core, worked_on, Changes, once}
use sidecar.Coordinator.Sections.Turn.{Turn, kept, replaced, modified, kept_by}

core-add_dependencies :
    (deps : List CrossRollupDependency) (xt : PendingXt) → core xt ≡ core (add_dependencies deps xt)
core-add_dependencies [] xt = refl
core-add_dependencies (dep ∷ deps) xt =
    core-add_dependency ∙ core-add_dependencies deps (add_dependency dep xt)
  where
    core-add_dependency : core xt ≡ core (add_dependency dep xt)
    core-add_dependency = elim (Bool-cases (HashSet.contains (dependency_key dep) xt.dep_keys)) [
      | inl e ↦ rw e refl
      | inr e ↦ rw e refl
    ]

core-add_outbound :
    (msgs : List CrossRollupMessage) (xt : PendingXt) → core xt ≡ core (add_outbound msgs xt)
core-add_outbound [] xt = refl
core-add_outbound (msg ∷ msgs) xt = core-add_message ∙ core-add_outbound msgs (add_message msg xt)
  where
    core-add_message : core xt ≡ core (add_message msg xt)
    core-add_message = elim (Bool-cases (contains_message xt.outbound_messages msg)) [
      | inl e ↦ rw e refl
      | inr e ↦ rw e refl
    ]

record_result-Changes :
    (result : SimulationResult) (xt : PendingXt) → Changes xt (record_result result xt)
record_result-Changes result xt = once (
    worked_on xt (record_result result xt) (
      core-add_dependencies result.dependencies xt
      ∙ core-add_outbound result.outbound_messages (add_dependencies result.dependencies xt)))

pub lock_chain-Turn :
    (chain_id : ℕ) (id : Bytes) (s : CoordinatorState)
    → Turn none s.pending (lock_chain chain_id id s).pending
unfolding lock_chain
lock_chain-Turn chain_id id s =
    modified id (lock_local chain_id) s.pending
      (λ xt. once (worked_on xt (lock_local chain_id xt) refl))

record_found-Turn :
    (chain_id : ℕ) (id : Bytes) (result : SimulationResult) (base : StateOverride)
    (o : Option StateOverride) (s : CoordinatorState)
    → Turn none s.pending (record_found chain_id id result base o s).1.pending
unfolding record_found
record_found-Turn chain_id id result base none s =
    modified id (record_result result) s.pending (record_result-Changes result)
record_found-Turn chain_id id result base (some new) s =
    modified id (record_result result) s.pending (record_result-Changes result)

pub record_simulation_state-Turn :
    (chain_id : ℕ) (id : Bytes) (result : SimulationResult) (base : StateOverride)
    (s : CoordinatorState)
    → Turn none s.pending (record_simulation_state chain_id id result base s).1.pending
unfolding record_simulation_state
record_simulation_state-Turn chain_id id result base s = ground (
  arith,
  kept_by none s.pending,
  record_found-Turn chain_id id result base (overrides_of result) s,
)

module _ (c : WordCodec) where
  core-fulfil_one :
      (dep : CrossRollupDependency) (n : ℕ) (xt : PendingXt)
      → core xt ≡ core (fulfil_one c dep (n, xt)).1
  unfolding fulfil_one
  core-fulfil_one dep n xt =
      elim (Bool-cases (HashSet.contains (dependency_key dep) xt.fulfilled_dep_keys)) [
        | inl e ↦ rw e refl
        | inr e ↦
            rw e (
              core-fulfil_with
                (take_first (λ msg. matches_dependency c msg dep) xt.pending_mailbox))
      ]
    where
      core-fulfil_with :
          (o : Option (MailboxMessage × List MailboxMessage))
          → core xt ≡ core (fulfil_with dep o (n, xt)).1
      core-fulfil_with none = refl
      core-fulfil_with (some (msg, rest)) = refl

  core-fulfil_all :
      (deps : List CrossRollupDependency) (r : ℕ × PendingXt)
      → core r.1 ≡ core (fulfil_all c deps r).1
  unfolding fulfil_all
  core-fulfil_all [] r = refl
  core-fulfil_all (dep ∷ deps) r =
      core-fulfil_one dep r.0 r.1 ∙ core-fulfil_all deps (fulfil_one c dep r)

  core-collect_unsent :
      (msgs : List CrossRollupMessage) (xt : PendingXt)
      → core xt ≡ core (collect_unsent c msgs xt).1
  unfolding collect_unsent
  core-collect_unsent [] xt = refl
  core-collect_unsent (msg ∷ msgs) xt =
      core-remember_sent ∙ core-collect_unsent msgs (remember_sent c wire xt)
    where
      wire : MailboxMessage
      wire = mailbox_message c xt.instance_id msg

      core-remember_sent : core xt ≡ core (remember_sent c wire xt)
      core-remember_sent = elim (Bool-cases (is_sent c wire xt)) [
        | inl e ↦ rw e refl
        | inr e ↦ rw e refl
      ]

  fulfil_found-Turn :
      (id : Bytes) (deps : List CrossRollupDependency) (o : Option PendingXt) (s : CoordinatorState)
      → Map.lookup id s.pending ≡ o
      → Turn none s.pending (fulfil_found c id deps o s).1.pending
  fulfil_found-Turn id deps none s h = kept s.pending
  fulfil_found-Turn id deps (some xt) s h =
      replaced id xt (fulfil_all c deps (0, xt)).1 s.pending h
        (once (worked_on xt (fulfil_all c deps (0, xt)).1 (core-fulfil_all deps (0, xt))))

  dispatch_found-Turn :
      (id : Bytes) (msgs : List CrossRollupMessage) (o : Option PendingXt) (s : CoordinatorState)
      → Map.lookup id s.pending ≡ o
      → Turn none s.pending (dispatch_found c id msgs o s).1.pending
  dispatch_found-Turn id msgs none s h = kept s.pending
  dispatch_found-Turn id msgs (some xt) s h =
      replaced id xt (collect_unsent c msgs xt).1 s.pending h
        (once (worked_on xt (collect_unsent c msgs xt).1 (core-collect_unsent msgs xt)))

  pub fulfill_dependencies_from_mailbox-Turn :
      (id : Bytes) (deps : List CrossRollupDependency) (s : CoordinatorState)
      → Turn none s.pending (fulfill_dependencies_from_mailbox c id deps s).1.pending
  unfolding fulfill_dependencies_from_mailbox
  fulfill_dependencies_from_mailbox-Turn id deps s =
      fulfil_found-Turn id deps (Map.lookup id s.pending) s refl

  pub dispatch_section-Turn :
      (id : Bytes) (msgs : List CrossRollupMessage) (s : CoordinatorState)
      → Turn none s.pending (dispatch_section c id msgs s).1.pending
  unfolding dispatch_section
  dispatch_section-Turn id msgs s = dispatch_found-Turn id msgs (Map.lookup id s.pending) s refl
