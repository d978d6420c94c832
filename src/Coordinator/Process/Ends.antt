-- ===== src/Coordinator/Process/Ends.antt =====
-- `process_xt` ends: a task that nobody disturbs finishes after a number of steps that its transactions
-- and the messages in its mailbox bound.
use sidecar.Prelude.{
  ℕ, zero, suc, ◌+◌, ◌*◌, ◌≡◌, ◌≤◌, ◌<◌, ◌⊎◌, refl, sym, subst, ap, ◌∙◌, Bool, true, false, Option,
  none, some, List, [], ◌∷◌, ◌++◌, Bytes, bytes_eq, nat_eq, arith, length, is_empty, leb, ltb,
  ltb→lt, if◌then◌else◌, Bool-cases, inl, inr,
}
use sidecar.Prelude.Map
use sidecar.Prelude.Result.{Result, ok, err}
use sidecar.Errors.{CoordinatorError}
use sidecar.Mailbox.Overrides.{StateOverride}
use sidecar.Simulation.Types.{SimulationResult, SimulationError}
use sidecar.Coordinator.Xt.{PendingXt}
use sidecar.Coordinator.State.{CoordinatorState}
use sidecar.Coordinator.Effect.{VerificationPayload, simulate, post_verification}
use sidecar.Coordinator.World.{Env, World}
use sidecar.Coordinator.Builder.{local_txs}
use sidecar.Coordinator.Pipeline.{
  lock_local, lock_chain, record_simulation_state, fulfill_dependencies_from_mailbox,
  dispatch_outbound_mailbox,
}
use sidecar.Coordinator.Pipeline.Dispatch.{dispatch_outbound_mailbox-state}
use sidecar.Coordinator.Process.{
  Attempt, Pc, reading, verifying, checking, locking, setting_up, simulating, recording,
  dispatching, waiting, registering, selecting, refreshing, voting, finished, base_overrides, begin,
  read_xt, is_accepted, verified_or_not, check_xt_permissions, with_fulfilled, simulated,
  is_hopeless, verification_payload, emitted, dispatched, step, Event, ticks, expires, Task, react,
}
use sidecar.Coordinator.Process.Mail.{
  mail_in, mail-modify, mail-record_simulation_state, mail-dispatch_section,
  mail-fulfill_dependencies_from_mailbox,
}

-- What happens to a task while no other runs: it steps, and its sleep ends at the deadline.
abbrev pub next_alone : ℕ → Pc → Event
next_alone now (selecting a deps deadline) = expires
next_alone now _ = ticks now

abbrev pub txs_or_none : Option (List Bytes) → List Bytes
txs_or_none none = []
txs_or_none (some txs) = txs

abbrev pub txs_of : ℕ → Option PendingXt → List Bytes
txs_of chain_id none = []
txs_of chain_id (some xt) = txs_or_none (local_txs chain_id xt)

module _ (env : Env) (id : Bytes) where
  -- The `n` events after the time `now`, a unit of time apart.
  unfoldable pub alone : ℕ → ℕ → Task → Task
  alone now zero t = t
  alone now (suc n) t = alone (suc now) n (react env id (next_alone now t.pc) t)

  -- Each transaction and each message cost 8 steps at most.
  abbrev pub work : ℕ → ℕ → ℕ
  work txs mail = 8 * txs + 8 * mail

  -- A bound on the steps that are left.
  abbrev pub budget : Pc → CoordinatorState → ℕ
  budget reading s =
      work (length (txs_of env.chain_id (Map.lookup id s.pending))) (mail_in id s) + 13
  budget (verifying txs overrides) s = work (length txs) (mail_in id s) + 12
  budget (checking txs overrides) s = work (length txs) (mail_in id s) + 11
  budget (locking txs overrides) s = work (length txs) (mail_in id s) + 10
  budget (setting_up txs overrides) s = work (length txs) (mail_in id s) + 9
  budget (simulating txs overrides fulfilled) s = work (length txs) (mail_in id s) + 8
  budget (recording a result) s = work (suc (length a.later)) (mail_in id s) + 7
  budget (dispatching a result) s = work (suc (length a.later)) (mail_in id s) + 6
  budget (waiting a deps deadline) s = work (suc (length a.later)) (mail_in id s) + 5
  budget (registering a deps deadline) s = work (suc (length a.later)) (mail_in id s) + 4
  budget (selecting a deps deadline) s = work (suc (length a.later)) (mail_in id s) + 3
  budget (refreshing a) s = work (suc (length a.later)) (mail_in id s) + 9
  budget (voting vote) s = 1
  budget finished s = 0

  with_fulfilled-lt :
      (txs : List Bytes) (overrides : StateOverride) (o : Option PendingXt) (s : CoordinatorState)
      → budget (with_fulfilled txs overrides o) s < work (length txs) (mail_in id s) + 9
  with_fulfilled-lt txs overrides none s = omega arith
  with_fulfilled-lt txs overrides (some xt) s = omega arith

  begin-lt :
      (o : Option (List Bytes)) (overrides : StateOverride) (s : CoordinatorState)
      → budget (begin o overrides) s < work (length (txs_or_none o)) (mail_in id s) + 13
  begin-lt none overrides s = omega arith
  begin-lt (some txs) overrides s = omega arith

  simulated-lt :
      (a : Attempt) (r : Result SimulationError SimulationResult) (s : CoordinatorState)
      → budget (simulated a r) s < work (suc (length a.later)) (mail_in id s) + 8
  simulated-lt a (err error) s = omega arith
  simulated-lt a (ok result) s = omega arith

  dispatched-lt :
      (a : Attempt) (result : SimulationResult) (deadline : ℕ)
      (r : Result CoordinatorError (Unit {0})) (s : CoordinatorState)
      → budget (dispatched deadline a result r) s < work (suc (length a.later)) (mail_in id s) + 6
  dispatched-lt a result deadline (err error) s = omega arith
  dispatched-lt a result deadline (ok _) s = elim (Bool-cases result.success) [
    | inl e ↦ rw e (omega arith)
    | inr e ↦ rw e (omega arith)
  ]

  mail-dispatch :
      (result : SimulationResult) (w : World)
      → mail_in id (dispatch_outbound_mailbox env id result.outbound_messages w).1.state
        ≡ mail_in id w.state
  mail-dispatch result w =
      ap (mail_in id) (dispatch_outbound_mailbox-state env id result.outbound_messages w)
      ∙ (elim (Bool-cases (is_empty result.outbound_messages)) [
        | inl e ↦ rw e refl
        | inr e ↦ elim (Bool-cases env.has_mailbox_sender) [
          | inl f ↦ rw (e, f) (mail-dispatch_section env.codec id result.outbound_messages w.state)
          | inr f ↦ rw (e, f) refl
        ]
      ])

  -- Every step brings the end nearer.
  step-lt :
      (now : ℕ) (pc : Pc) (w : World)
      → (pc ≡ finished)
        ⊎ (budget
              (react env id (next_alone now pc) (record { pc = pc; world = w })).pc
              (react env id (next_alone now pc) (record { pc = pc; world = w })).world.state
            < budget pc w.state)
  unfolding react step
  step-lt now reading w = inr (read (Map.lookup id w.state.pending) refl)
    where
      overrides : StateOverride
      overrides = base_overrides (Map.lookup env.chain_id w.state.chain_overlay)

      read :
          (o : Option PendingXt)
          → Map.lookup id w.state.pending ≡ o
          → budget (read_xt env.chain_id o overrides) w.state
            < work (length (txs_of env.chain_id o)) (mail_in id w.state) + 13
      read none e = omega arith
      read (some xt) e = begin-lt (local_txs env.chain_id xt) overrides w.state
  step-lt now (verifying txs overrides) w = inr (elim (Bool-cases env.verification_enabled) [
    | inr e ↦ rw e (omega arith)
    | inl e ↦ rw e (answered (is_accepted (env.verify_answer w'.log payload)))
  ])
    where
      payload : VerificationPayload
      payload = verification_payload env id txs (Map.lookup id w.state.pending)

      w' : World
      w' = emitted (post_verification payload) w

      answered :
          (b : Bool)
          → budget (verified_or_not b txs overrides) w.state
            < work (length txs) (mail_in id w.state) + 12
      answered true = omega arith
      answered false = omega arith
  step-lt now (checking txs overrides) w = inr (checked (check_xt_permissions env id txs w))
    where
      checked :
          (b : Bool)
          → budget (if b then locking txs overrides else voting false) w.state
            < work (length txs) (mail_in id w.state) + 11
      checked true = omega arith
      checked false = omega arith
  step-lt now (locking txs overrides) w = inr (locked env.has_simulator)
    where
      locked :
          (b : Bool)
          → budget
              (if b then setting_up txs overrides else voting true)
              (lock_chain env.chain_id id w.state)
            < work (length txs) (mail_in id w.state) + 10
      locked true = omega (arith, mail-modify id (lock_local env.chain_id) w.state (λ xt. refl))
      locked false = omega arith
  step-lt now (setting_up txs overrides) w =
      inr (with_fulfilled-lt txs overrides (Map.lookup id w.state.pending) w.state)
  step-lt now (simulating [] overrides fulfilled) w = inr (omega arith)
  step-lt now (simulating (tx ∷ later) overrides fulfilled) w = inr (
      simulated-lt
        (record {
          tx = tx;
          later = later;
          current_overrides = overrides;
          fulfilled_deps = fulfilled;
        })
        (env.simulate_answer (w.log ++ simulate tx overrides fulfilled ∷ []) tx overrides fulfilled)
        w.state)
  step-lt now (recording a result) w =
      inr (chosen (is_hopeless (record a { current_overrides = kept.0 }) result))
    where
      kept : StateOverride × CoordinatorState
      kept = record_simulation_state env.chain_id id result a.current_overrides w.state

      chosen :
          (b : Bool)
          → budget
              (if b
                then voting false
                else dispatching (record a { current_overrides = kept.0 }) result)
              kept.1
            < work (suc (length a.later)) (mail_in id w.state) + 7
      chosen true = omega arith
      chosen false =
          omega
            (arith, mail-record_simulation_state env.chain_id id result a.current_overrides w.state)
  step-lt now (dispatching a result) w = inr (
      subst
        (λ mail.
          budget (dispatched (now + env.circ_timeout_ms) a result sent.0) sent.1.state
          < work (suc (length a.later)) mail + 6)
        (mail-dispatch result w)
        (dispatched-lt a result (now + env.circ_timeout_ms) sent.0 sent.1.state))
    where
      sent : Result CoordinatorError (Unit {0}) × World
      sent = dispatch_outbound_mailbox env id result.outbound_messages w
  step-lt now (waiting a deps deadline) w = inr (woken (ltb 0 added.0) (leb deadline now) refl)
    where
      added : ℕ × CoordinatorState
      added = fulfill_dependencies_from_mailbox env.codec id deps w.state

      taken : mail_in id added.1 + added.0 ≡ mail_in id w.state
      taken = mail-fulfill_dependencies_from_mailbox env.codec id deps w.state

      woken :
          (some_added late : Bool)
          → ltb 0 added.0 ≡ some_added
          → budget
              (if some_added
                then refreshing a
                else if late
                then voting false
                else registering a deps deadline)
              added.1
            < work (suc (length a.later)) (mail_in id w.state) + 5
      woken true late e = omega (arith, taken, ltb→lt 0 added.0 e)
      woken false true e = omega (arith, taken)
      woken false false e = omega (arith, taken)
  step-lt now (registering a deps deadline) w = inr (omega arith)
  step-lt now (selecting a deps deadline) w = inr (omega arith)
  step-lt now (refreshing a) w = inr (
      with_fulfilled-lt (a.tx ∷ a.later) a.current_overrides (Map.lookup id w.state.pending)
        w.state)
  step-lt now (voting vote) w = inr (omega arith)
  step-lt now finished w = inl refl

  finished_stays :
      (n now : ℕ) (w : World) → (alone now n (record { pc = finished; world = w })).pc ≡ finished
  unfolding alone react step
  finished_stays zero now w = refl
  finished_stays (suc n) now w = finished_stays n (suc now) w

  -- A task that no other disturbs, and whose sleep ends at the deadline, comes to its end within its
  -- budget: some 8 steps for each transaction and each message at hand.
  pub alone_finishes :
      (n now : ℕ) (t : Task) → budget t.pc t.world.state ≤ n → (alone now n t).pc ≡ finished
  unfolding alone
  alone_finishes zero now t h = elim (step-lt now t.pc t.world) [
    | inl e ↦ e
    | inr l ↦ absurd (omega arith)
  ]
  alone_finishes (suc n) now t h = elim (step-lt now t.pc t.world) [
    | inl e ↦
        subst (λ pc. (alone now (suc n) (record { pc = pc; world = t.world })).pc ≡ finished)
          (sym e) (finished_stays (suc n) now t.world)
    | inr l ↦ alone_finishes n (suc now) (react env id (next_alone now t.pc) t) (omega arith)
  ]
