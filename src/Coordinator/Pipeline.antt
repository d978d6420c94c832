-- ===== src/Coordinator/Pipeline.antt =====
-- crates/coordinator/coordinator/src/pipeline/simulation.rs: what a simulation leaves in the state,
-- how waiting dependencies take their messages, and how outbound messages are sent.
pub mod Fulfilment
pub mod Dispatch
use sidecar.Prelude.{
  ℕ, ◌+◌, Bool, true, false, not, Option, none, some, List, [], ◌∷◌, ◌++◌, Bytes, bytes_eq, nat_eq,
  is_empty, if◌then◌else◌,
}
use sidecar.Prelude.Map
use sidecar.Prelude.HashSet
use sidecar.Mailbox.Types.{CrossRollupDependency, CrossRollupMessage, MailboxMessage}
use sidecar.Mailbox.Wire.{WordCodec}
use sidecar.Mailbox.Matching.{
  dependency_key, message_key, dependency_key_eq, message_key_eq, matches_dependency,
  contains_message,
}
use sidecar.Mailbox.Routing.{mailbox_message}
use sidecar.Mailbox.Overrides.{StateOverride, merge_overrides}
use sidecar.Simulation.Types.{SimulationResult}
use sidecar.Coordinator.Xt.{PendingXt}
use sidecar.Coordinator.State.{CoordinatorState}
use sidecar.Coordinator.Effect.{send_mailbox}
use sidecar.Coordinator.World.{Env, M, ◌>>=◌, ◌>>◌, locked, emit, answer, skip}

-- `locked_chains.insert(self.chain_id)`
abbrev pub lock_local : ℕ → PendingXt → PendingXt
lock_local chain_id xt = record xt { locked_chains = HashSet.insert chain_id xt.locked_chains }

unfoldable pub lock_chain : ℕ → Bytes → CoordinatorState → CoordinatorState
lock_chain chain_id id s = record s { pending = Map.modify id (lock_local chain_id) s.pending }

abbrev pub add_dependency : CrossRollupDependency → PendingXt → PendingXt
add_dependency dep xt =
    if HashSet.contains (dependency_key dep) xt.dep_keys then xt else record xt {
      dep_keys = dependency_key dep ∷ xt.dep_keys;
      dependencies = xt.dependencies ++ dep ∷ [];
    }

abbrev pub add_dependencies : List CrossRollupDependency → PendingXt → PendingXt
add_dependencies [] xt = xt
add_dependencies (dep ∷ deps) xt = add_dependencies deps (add_dependency dep xt)

abbrev pub add_message : CrossRollupMessage → PendingXt → PendingXt
add_message msg xt =
    if contains_message xt.outbound_messages msg
    then xt
    else record xt { outbound_messages = xt.outbound_messages ++ msg ∷ [] }

abbrev pub add_outbound : List CrossRollupMessage → PendingXt → PendingXt
add_outbound [] xt = xt
add_outbound (msg ∷ msgs) xt = add_outbound msgs (add_message msg xt)

abbrev pub record_result : SimulationResult → PendingXt → PendingXt
record_result result xt =
    add_outbound result.outbound_messages (add_dependencies result.dependencies xt)

-- `entry(chain).or_insert_with(ChainOverlay::new)`
abbrev overlay_of : Option StateOverride → StateOverride
overlay_of none = []
overlay_of (some overlay) = overlay

-- The overrides of a successful simulation go on top of the base and of the chain's overlay.
abbrev pub overrides_of : SimulationResult → Option StateOverride
overrides_of result = if result.success then result.state_overrides else none

unfoldable pub record_found :
    ℕ
    → Bytes
    → SimulationResult
    → StateOverride
    → Option StateOverride
    → CoordinatorState
    → StateOverride × CoordinatorState
record_found chain_id id result base none s =
    (base, record s { pending = Map.modify id (record_result result) s.pending })
record_found chain_id id result base (some new) s = (
  merge_overrides base new,
  record s {
    pending = Map.modify id (record_result result) s.pending;
    chain_overlay =
        Map.insert chain_id (merge_overrides (overlay_of (Map.lookup chain_id s.chain_overlay)) new)
          s.chain_overlay;
  },
)

unfoldable pub record_simulation_state :
    ℕ
    → Bytes
    → SimulationResult
    → StateOverride
    → CoordinatorState
    → StateOverride × CoordinatorState
unfolding record_found
record_simulation_state chain_id id result base s =
    if Map.contains_key id s.pending
    then record_found chain_id id result base (overrides_of result) s
    else (base, s)

-- `swap_remove`: the last element takes the place of the one removed.
abbrev last_of {ℓ} : {A : Type ℓ} → A → List A → A
last_of x [] = x
last_of x (y ∷ ys) = last_of y ys

abbrev pub init_of {ℓ} : {A : Type ℓ} → A → List A → List A
init_of x [] = []
init_of x (y ∷ ys) = x ∷ init_of y ys

abbrev pub close_gap {ℓ} : {A : Type ℓ} → List A → List A
close_gap [] = []
close_gap (x ∷ xs) = last_of x xs ∷ init_of x xs

abbrev pub keep_front {ℓ} : {A : Type ℓ} → A → Option (A × List A) → Option (A × List A)
keep_front x none = none
keep_front x (some (found, rest)) = some (found, x ∷ rest)

-- `position` and `swap_remove` of the first element that passes the test.
abbrev pub take_first {ℓ} : {A : Type ℓ} → (A → Bool) → List A → Option (A × List A)
take_first p [] = none
take_first p (x ∷ xs) = if p x then some (x, close_gap xs) else keep_front x (take_first p xs)

abbrev pub fulfil_with :
    CrossRollupDependency
    → Option (MailboxMessage × List MailboxMessage)
    → ℕ × PendingXt
    → ℕ × PendingXt
fulfil_with dep none (added, xt) = (added, xt)
fulfil_with dep (some (msg, rest)) (added, xt) = (
  added + 1,
  record xt {
    pending_mailbox = rest;
    fulfilled_dep_keys = dependency_key dep ∷ xt.fulfilled_dep_keys;
    fulfilled_deps = xt.fulfilled_deps ++ record dep { payload = some msg.payload } ∷ [];
  },
)

module _ (c : WordCodec) where
  -- One round of the loop over the dependencies.
  unfoldable pub fulfil_one : CrossRollupDependency → ℕ × PendingXt → ℕ × PendingXt
  fulfil_one dep (added, xt) =
      if HashSet.contains (dependency_key dep) xt.fulfilled_dep_keys
      then (added, xt)
      else fulfil_with dep (take_first (λ msg. matches_dependency c msg dep) xt.pending_mailbox)
          (added, xt)

  unfoldable pub fulfil_all : List CrossRollupDependency → ℕ × PendingXt → ℕ × PendingXt
  unfolding fulfil_one
  fulfil_all [] r = r
  fulfil_all (dep ∷ deps) r = fulfil_all deps (fulfil_one dep r)

  abbrev pub fulfil_found :
      Bytes
      → List CrossRollupDependency
      → Option PendingXt
      → CoordinatorState
      → ℕ × CoordinatorState
  fulfil_found id deps none s = (0, s)
  fulfil_found id deps (some xt) s =
      let (added, xt') = fulfil_all deps (0, xt) in
      (added, record s { pending = Map.insert id xt' s.pending })

  unfoldable pub fulfill_dependencies_from_mailbox :
      Bytes → List CrossRollupDependency → CoordinatorState → ℕ × CoordinatorState
  unfolding fulfil_all
  fulfill_dependencies_from_mailbox id deps s = fulfil_found id deps (Map.lookup id s.pending) s

  abbrev pub is_sent : MailboxMessage → PendingXt → Bool
  is_sent wire xt = HashSet.contains (message_key wire) xt.sent_mailbox_keys

  abbrev pub remember_sent : MailboxMessage → PendingXt → PendingXt
  remember_sent wire xt =
      if is_sent wire xt
      then xt
      else record xt { sent_mailbox_keys = message_key wire ∷ xt.sent_mailbox_keys }

  -- The messages that have not been sent yet, and the transaction that remembers them as sent.
  unfoldable pub collect_unsent :
      List CrossRollupMessage → PendingXt → List MailboxMessage × PendingXt
  collect_unsent [] xt = ([], xt)
  collect_unsent (msg ∷ msgs) xt =
      let wire = mailbox_message c xt.instance_id msg in
      let (to_send, xt') = collect_unsent msgs (remember_sent wire xt) in
      (if is_sent wire xt then to_send else wire ∷ to_send, xt')

  abbrev pub dispatch_found :
      Bytes
      → List CrossRollupMessage
      → Option PendingXt
      → CoordinatorState
      → List MailboxMessage × CoordinatorState
  dispatch_found id msgs none s = ([], s)
  dispatch_found id msgs (some xt) s =
      let (to_send, xt') = collect_unsent msgs xt in
      (to_send, record s { pending = Map.insert id xt' s.pending })

  unfoldable pub dispatch_section :
      Bytes → List CrossRollupMessage → CoordinatorState → List MailboxMessage × CoordinatorState
  unfolding collect_unsent
  dispatch_section id msgs s = dispatch_found id msgs (Map.lookup id s.pending) s

module _ (env : Env) where
  -- The first message that cannot be sent ends the loop.
  unfoldable pub send_all : List MailboxMessage → M (Unit {0})
  send_all [] = skip
  send_all (msg ∷ msgs) = do
    emit (send_mailbox msg.destination_chain msg)
    answer (λ log. env.send_answer log msg.destination_chain msg)
    send_all msgs

  unfoldable pub dispatch_outbound_mailbox : Bytes → List CrossRollupMessage → M (Unit {0})
  unfolding dispatch_section send_all
  dispatch_outbound_mailbox id msgs =
      if is_empty msgs
      then skip
      else if env.has_mailbox_sender
      then (do to_send ← locked (dispatch_section env.codec id msgs); send_all to_send)
      else skip
