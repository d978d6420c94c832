-- ===== src/Coordinator/Process.antt =====
-- `process_xt` of crates/coordinator/coordinator/src/pipeline/simulation.rs, with `verify_xt`,
-- `check_xt_permissions` and `wait_for_dependencies`: the task that simulates a transaction and votes.
-- The task is a state machine. A control point stands before an access to the shared state or a call
-- of a collaborator; between two of its steps any sections of other tasks may run.
pub mod Justified
pub mod Simulated
pub mod Commit
pub mod Wakeup
pub mod Mail
pub mod Ends
pub mod Success
use sidecar.Prelude.{
  ℕ, suc, ◌+◌, Bool, true, false, not, ◌&&◌, ◌||◌, Option, none, some, List, [], ◌∷◌, ◌++◌, Bytes,
  bytes_eq, nat_eq, is_empty, any, leb, ltb, map, if◌then◌else◌,
}
use sidecar.Prelude.Map
use sidecar.Prelude.Result.{Result, ok, err}
use sidecar.Errors.{CoordinatorError, Message}
use sidecar.Permissions.{Decision, allow, deny, evaluate_xt}
use sidecar.Mailbox.Types.{CrossRollupDependency}
use sidecar.Mailbox.Matching.{dependency_keys_equal}
use sidecar.Mailbox.Overrides.{StateOverride, merge_overrides}
use sidecar.Simulation.Types.{SimulationResult, SimulationError}
use sidecar.Coordinator.Xt.{PendingXt}
use sidecar.Coordinator.State.{CoordinatorState}
use sidecar.Coordinator.Effect.{Effect, VerificationPayload, simulate, post_verification}
use sidecar.Coordinator.World.{Env, World}
use sidecar.Coordinator.Builder.{local_txs, decode_sender_nonce}
use sidecar.Coordinator.Handlers.Vote.{send_vote}
use sidecar.Coordinator.Pipeline.{
  lock_chain, record_simulation_state, fulfill_dependencies_from_mailbox, dispatch_outbound_mailbox,
}
use sidecar.Coordinator.Sections.{Section, apply}

-- The transaction under simulation, those after it, and the local variables of the loop.
pub record Attempt : Type 0 where
  pub tx : Bytes
  pub later : List Bytes
  pub current_overrides : StateOverride
  pub fulfilled_deps : List CrossRollupDependency

-- Where the task is, with what it still needs of its local variables; `deadline` is that of
-- `wait_for_dependencies`. At `selecting` it sleeps until a notification or the deadline.
pub data Pc : Type 0 where
  reading : Pc
  verifying checking locking setting_up : List Bytes → StateOverride → Pc
  simulating : List Bytes → StateOverride → List CrossRollupDependency → Pc
  recording dispatching : Attempt → SimulationResult → Pc
  waiting registering selecting : Attempt → List CrossRollupDependency → ℕ → Pc
  refreshing : Attempt → Pc
  voting : Bool → Pc
  finished : Pc

-- `StateOverride::default()` with the chain's overlay merged in.
abbrev pub base_overrides : Option StateOverride → StateOverride
base_overrides none = []
base_overrides (some overlay) = merge_overrides [] overlay

abbrev pub begin : Option (List Bytes) → StateOverride → Pc
begin none overrides = voting false
begin (some txs) overrides = verifying txs overrides

abbrev pub read_xt : ℕ → Option PendingXt → StateOverride → Pc
read_xt chain_id none overrides = finished
read_xt chain_id (some xt) overrides = begin (local_txs chain_id xt) overrides

abbrev pub origin_of : Option PendingXt → Option ℕ
origin_of none = none
origin_of (some xt) = xt.origin_chain

-- `response.status().is_success()`
abbrev pub is_accepted : Result Message ℕ → Bool
is_accepted (err error) = false
is_accepted (ok status) = leb 200 status && ltb status 300

abbrev pub verified_or_not : Bool → List Bytes → StateOverride → Pc
verified_or_not accepted txs overrides = if accepted then checking txs overrides else voting false

abbrev pub is_allowed : Decision → Bool
is_allowed allow = true
is_allowed (deny reason) = false

-- The policy's answer for the sender; a transaction without one is refused.
abbrev pub sender_permitted : Env → List Effect → ℕ → List ℕ → Option (Bytes × ℕ) → Bool
sender_permitted env log i involved none = false
sender_permitted env log i involved (some (sender, nonce)) =
    is_allowed (evaluate_xt (env.permissions log i) sender env.chain_id involved)

unfoldable pub all_permitted : Env → List Effect → ℕ → List ℕ → List Bytes → Bool
all_permitted env log i involved [] = true
all_permitted env log i involved (tx ∷ txs) =
    sender_permitted env log i involved (decode_sender_nonce env tx)
    && all_permitted env log (suc i) involved txs

-- A transaction that is gone passes.
abbrev pub xt_permitted : Env → List Effect → List Bytes → Option PendingXt → Bool
xt_permitted env log txs none = true
xt_permitted env log txs (some xt) = all_permitted env log 0 (Map.keys xt.raw_txs) txs

unfoldable pub check_xt_permissions : Env → Bytes → List Bytes → World → Bool
unfolding all_permitted
check_xt_permissions env id txs w =
    not env.has_permission_engine || xt_permitted env w.log txs (Map.lookup id w.state.pending)

abbrev pub with_fulfilled : List Bytes → StateOverride → Option PendingXt → Pc
with_fulfilled txs overrides none = finished
with_fulfilled txs overrides (some xt) = simulating txs overrides xt.fulfilled_deps

abbrev pub simulated : Attempt → Result SimulationError SimulationResult → Pc
simulated a (err error) = voting false
simulated a (ok result) = recording a result

-- `dependencies.iter().all(|dep| fulfilled_deps.iter().any(…))`
abbrev pub all_fulfilled : List CrossRollupDependency → List CrossRollupDependency → Bool
all_fulfilled fulfilled [] = true
all_fulfilled fulfilled (dep ∷ deps) =
    any (λ f. dependency_keys_equal f dep) fulfilled && all_fulfilled fulfilled deps

-- A failure that no further message can mend. Without dependencies, all of them are fulfilled.
abbrev pub is_hopeless : Attempt → SimulationResult → Bool
is_hopeless a result =
    not result.success
    && (is_empty result.dependencies || all_fulfilled a.fulfilled_deps result.dependencies)

abbrev pub recorded : Attempt → SimulationResult → Pc
recorded a result = if is_hopeless a result then voting false else dispatching a result

-- After the dispatch: the next transaction, or the wait for messages.
abbrev pub dispatched : ℕ → Attempt → SimulationResult → Result CoordinatorError (Unit {0}) → Pc
dispatched deadline a result (err error) = voting false
dispatched deadline a result (ok _) =
    if result.success
    then simulating a.later a.current_overrides a.fulfilled_deps
    else waiting a result.dependencies deadline

abbrev pub waited : ℕ → Attempt → List CrossRollupDependency → ℕ → ℕ → Pc
waited now a deps deadline fulfilled =
    if ltb 0 fulfilled
    then refreshing a
    else if leb deadline now
    then voting false
    else registering a deps deadline

abbrev pub emitted : Effect → World → World
emitted e w = record w { log = w.log ++ e ∷ [] }

module _ (env : Env) (id : Bytes) where
  abbrev pub verification_payload : List Bytes → Option PendingXt → VerificationPayload
  verification_payload txs xt = record {
    instance_id = id;
    dest_chain_id = env.chain_id;
    origin_chain_id = origin_of xt;
    txs = map env.hex_encode txs;
  }

  -- The request stands in the log before its answer.
  abbrev pub verify_with : VerificationPayload → List Bytes → StateOverride → World → Pc × World
  verify_with payload txs overrides w =
      let w' = emitted (post_verification payload) w in
      (verified_or_not (is_accepted (env.verify_answer w'.log payload)) txs overrides, w')

  abbrev pub verify_xt : List Bytes → StateOverride → World → Pc × World
  verify_xt txs overrides w =
      if env.verification_enabled
      then verify_with (verification_payload txs (Map.lookup id w.state.pending)) txs overrides w
      else (checking txs overrides, w)

  abbrev pub simulate_next :
      List Bytes → StateOverride → List CrossRollupDependency → World → Pc × World
  simulate_next [] overrides fulfilled w = (voting true, w)
  simulate_next (tx ∷ later) overrides fulfilled w =
      let w' = emitted (simulate tx overrides fulfilled) w in
      (
        simulated
            (record {
              tx = tx;
              later = later;
              current_overrides = overrides;
              fulfilled_deps = fulfilled;
            })
            (env.simulate_answer w'.log tx overrides fulfilled),
        w',
      )

  -- One step of the task at the time `now`.
  unfoldable pub step : ℕ → Pc → World → Pc × World
  unfolding check_xt_permissions lock_chain record_simulation_state
      fulfill_dependencies_from_mailbox
  step now reading w = (
    read_xt env.chain_id (Map.lookup id w.state.pending)
        (base_overrides (Map.lookup env.chain_id w.state.chain_overlay)),
    w,
  )
  step now (verifying txs overrides) w = verify_xt txs overrides w
  step now (checking txs overrides) w =
      (if check_xt_permissions env id txs w then locking txs overrides else voting false, w)
  step now (locking txs overrides) w = (
    if env.has_simulator then setting_up txs overrides else voting true,
    record w { state = lock_chain env.chain_id id w.state },
  )
  step now (setting_up txs overrides) w =
      (with_fulfilled txs overrides (Map.lookup id w.state.pending), w)
  step now (simulating txs overrides fulfilled) w = simulate_next txs overrides fulfilled w
  step now (recording a result) w =
      let (overrides, s) =
        record_simulation_state env.chain_id id result a.current_overrides w.state in
      (recorded (record a { current_overrides = overrides }) result, record w { state = s })
  step now (dispatching a result) w =
      let (sent, w') = dispatch_outbound_mailbox env id result.outbound_messages w in
      (dispatched (now + env.circ_timeout_ms) a result sent, w')
  step now (waiting a deps deadline) w =
      let (added, s) = fulfill_dependencies_from_mailbox env.codec id deps w.state in
      (waited now a deps deadline added, record w { state = s })
  step now (registering a deps deadline) w = (selecting a deps deadline, w)
  step now (selecting a deps deadline) w = (selecting a deps deadline, w)
  step now (refreshing a) w =
      (with_fulfilled (a.tx ∷ a.later) a.current_overrides (Map.lookup id w.state.pending), w)
  step now (voting vote) w = (finished, (send_vote env id vote w).1)
  step now finished w = (finished, w)

-- `notify_waiters` wakes a task that sleeps; it leaves nothing for one that does not yet.
abbrev pub notified : Pc → Pc
notified (selecting a deps deadline) = waiting a deps deadline
notified pc = pc

-- The deadline ends the sleep, and the wait with it.
abbrev pub timed_out : Pc → Pc
timed_out (selecting a deps deadline) = voting false
timed_out pc = pc

-- A step of this task, a section of another one, a notification, the end of the sleep.
pub data Event : Type 0 where
  ticks : ℕ → Event
  others : Section → Event
  notifies : Event
  expires : Event

pub record Task : Type 0 where
  pub pc : Pc
  pub world : World

abbrev pub task_of : Pc × World → Task
task_of (pc, w) = record { pc = pc; world = w }

unfoldable pub react : Env → Bytes → Event → Task → Task
unfolding step
react env id (ticks now) t = task_of (step env id now t.pc t.world)
react env id (others c) t = record t {
  world = record t.world { state = apply env c t.world.state };
}
react env id notifies t = record t { pc = notified t.pc }
react env id expires t = record t { pc = timed_out t.pc }

unfoldable pub react_all : Env → Bytes → List Event → Task → Task
unfolding react
react_all env id [] t = t
react_all env id (event ∷ events) t = react_all env id events (react env id event t)
