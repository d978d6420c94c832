-- ===== src/Coordinator/Process/Simulated.antt =====
-- Each transaction that `process_xt` has behind it has been simulated with success.
use sidecar.Prelude.{
  ℕ, ◌+◌, ◌≡◌, ◌⊎◌, refl, sym, subst, inl, inr, Bool, true, false, Option, none, some, List, [],
  ◌∷◌, ◌++◌, Bytes, bytes_eq, nat_eq, All, leb, ltb, if◌then◌else◌, Bool-cases,
}
use sidecar.Prelude.Map
use sidecar.Prelude.Result.{Result, ok, err}
use sidecar.Errors.{CoordinatorError}
use sidecar.Mailbox.Types.{CrossRollupDependency}
use sidecar.Mailbox.Overrides.{StateOverride}
use sidecar.Simulation.Types.{SimulationResult, SimulationError}
use sidecar.Coordinator.Xt.{PendingXt}
use sidecar.Coordinator.Effect.{VerificationPayload, simulate, post_verification}
use sidecar.Coordinator.World.{Env, World}
use sidecar.Coordinator.Pipeline.{
  record_simulation_state, fulfill_dependencies_from_mailbox, dispatch_outbound_mailbox,
}
use sidecar.Coordinator.Process.{
  Pc, reading, verifying, checking, locking, setting_up, simulating, recording, dispatching,
  waiting, registering, selecting, refreshing, voting, finished, is_accepted, verified_or_not,
  check_xt_permissions, with_fulfilled, simulated, is_hopeless, dispatched, verification_payload,
  emitted, step, notified, timed_out, Event, ticks, others, notifies, expires, Task, react,
  react_all,
}
use sidecar.Coordinator.Process.Justified.{remaining, IsDead, Passes, Simulates, IsDead-react_all}

pub All-map :
    {P Q : Bytes → Type 0} (xs : List Bytes) → ((x : Bytes) → P x → Q x) → All P xs → All Q xs
All-map [] f h = tt
All-map (x ∷ xs) f h = (f x h.0, All-map xs f h.1)

module _ (env : Env) (id : Bytes) where
  -- What a step does to the transactions that remain: none did, or as many do, or the first of them
  -- has been simulated, or there will be no vote to commit.
  abbrev Pays : Event → Task → List Bytes → Pc → Type 0
  Pays event t before pc =
      (before ≡ [])
      ⊎ (before ≡ remaining pc)
      ⊎ ((tx : Bytes) × (before ≡ tx ∷ remaining pc) × Simulates env id tx event t)
      ⊎ IsDead pc

  simulated-Pays :
      (now : ℕ) (tx : Bytes) (later : List Bytes) (overrides : StateOverride)
      (fulfilled : List CrossRollupDependency) (w : World)
      (r : Result SimulationError SimulationResult)
      → env.simulate_answer (w.log ++ simulate tx overrides fulfilled ∷ []) tx overrides fulfilled
        ≡ r
      → Pays
          (ticks now)
          (record { pc = simulating (tx ∷ later) overrides fulfilled; world = w })
          (tx ∷ later)
          (simulated
            (record {
              tx = tx;
              later = later;
              current_overrides = overrides;
              fulfilled_deps = fulfilled;
            })
            r)
  simulated-Pays now tx later overrides fulfilled w (err error) e = inr (inr (inr (inl refl)))
  simulated-Pays now tx later overrides fulfilled w (ok result) e =
      elim (Bool-cases result.success) [
        | inl s ↦ inr (inr (inl (tx, rw s refl, (later, overrides, fulfilled, result, refl, e, s))))
        | inr s ↦ inr (inl (rw s refl))
      ]

  step-Pays :
      (now : ℕ) (pc : Pc) (w : World)
      → env.has_simulator ≡ true
      → Pays (ticks now) (record { pc = pc; world = w }) (remaining pc) (step env id now pc w).0
  unfolding step
  step-Pays now reading w h = inl refl
  step-Pays now (verifying txs overrides) w h = elim (Bool-cases env.verification_enabled) [
    | inr e ↦ rw e (inr (inl refl))
    | inl e ↦ rw e (answered (is_accepted (env.verify_answer w'.log payload)))
  ]
    where
      payload : VerificationPayload
      payload = verification_payload env id txs (Map.lookup id w.state.pending)

      w' : World
      w' = emitted (post_verification payload) w

      answered :
          (b : Bool)
          → Pays
              (ticks now)
              (record { pc = verifying txs overrides; world = w })
              txs
              (verified_or_not b txs overrides)
      answered true = inr (inl refl)
      answered false = inr (inr (inr (inl refl)))
  step-Pays now (checking txs overrides) w h =
      elim (Bool-cases (check_xt_permissions env id txs w)) [
        | inl e ↦ rw e (inr (inl refl))
        | inr e ↦ rw e (inr (inr (inr (inl refl))))
      ]
  step-Pays now (locking txs overrides) w h = rw h (inr (inl refl))
  step-Pays now (setting_up txs overrides) w h =
      with_fulfilled-Pays txs overrides (Map.lookup id w.state.pending)
    where
      with_fulfilled-Pays :
          (txs : List Bytes) (overrides : StateOverride) (o : Option PendingXt)
          → Pays
              (ticks now)
              (record { pc = setting_up txs overrides; world = w })
              txs
              (with_fulfilled txs overrides o)
      with_fulfilled-Pays txs overrides none = inr (inr (inr (inr refl)))
      with_fulfilled-Pays txs overrides (some xt) = inr (inl refl)
  step-Pays now (simulating [] overrides fulfilled) w h = inl refl
  step-Pays now (simulating (tx ∷ later) overrides fulfilled) w h =
      simulated-Pays now tx later overrides fulfilled w
        (env.simulate_answer (w.log ++ simulate tx overrides fulfilled ∷ []) tx overrides fulfilled)
        refl
  step-Pays now (recording a result) w h =
      chosen (is_hopeless (record a { current_overrides = overrides }) result)
    where
      overrides : StateOverride
      overrides = (record_simulation_state env.chain_id id result a.current_overrides w.state).0

      chosen :
          (b : Bool)
          → Pays
              (ticks now)
              (record { pc = recording a result; world = w })
              (remaining (recording a result))
              (if b
                then voting false
                else dispatching (record a { current_overrides = overrides }) result)
      chosen true = inr (inr (inr (inl refl)))
      chosen false = inr (inl refl)
  step-Pays now (dispatching a result) w h =
      sent (dispatch_outbound_mailbox env id result.outbound_messages w).0
    where
      sent :
          (r : Result CoordinatorError (Unit {0}))
          → Pays
              (ticks now)
              (record { pc = dispatching a result; world = w })
              (remaining (dispatching a result))
              (dispatched (now + env.circ_timeout_ms) a result r)
      sent (err error) = inr (inr (inr (inl refl)))
      sent (ok _) = elim (Bool-cases result.success) [
        | inl e ↦ rw e (inr (inl refl))
        | inr e ↦ rw e (inr (inl refl))
      ]
  step-Pays now (waiting a deps deadline) w h =
      woken (ltb 0 (fulfill_dependencies_from_mailbox env.codec id deps w.state).0)
        (leb deadline now)
    where
      woken :
          (some_added late : Bool)
          → Pays
              (ticks now)
              (record { pc = waiting a deps deadline; world = w })
              (a.tx ∷ a.later)
              (if some_added
                then refreshing a
                else if late
                then voting false
                else registering a deps deadline)
      woken true late = inr (inl refl)
      woken false true = inr (inr (inr (inl refl)))
      woken false false = inr (inl refl)
  step-Pays now (registering a deps deadline) w h = inr (inl refl)
  step-Pays now (selecting a deps deadline) w h = inr (inl refl)
  step-Pays now (refreshing a) w h = refreshed (Map.lookup id w.state.pending)
    where
      refreshed :
          (o : Option PendingXt)
          → Pays
              (ticks now)
              (record { pc = refreshing a; world = w })
              (a.tx ∷ a.later)
              (with_fulfilled (a.tx ∷ a.later) a.current_overrides o)
      refreshed none = inr (inr (inr (inr refl)))
      refreshed (some xt) = inr (inl refl)
  step-Pays now (voting vote) w h = inl refl
  step-Pays now finished w h = inl refl

  react-Pays :
      (event : Event) (t : Task)
      → env.has_simulator ≡ true
      → Pays event t (remaining t.pc) (react env id event t).pc
  unfolding react
  react-Pays (ticks now) t h = step-Pays now t.pc t.world h
  react-Pays (others c) t h = inr (inl refl)
  react-Pays notifies t h = inr (inl (same t.pc))
    where
      same : (pc : Pc) → remaining pc ≡ remaining (notified pc)
      same (selecting a deps deadline) = refl
      same _ = refl
  react-Pays expires t h = expired t.pc
    where
      expired : (pc : Pc) → Pays expires t (remaining pc) (timed_out pc)
      expired (selecting a deps deadline) = inr (inr (inr (inl refl)))
      expired _ = inr (inl refl)

  pub each_simulated :
      (events : List Event) (t : Task)
      → env.has_simulator ≡ true
      → (react_all env id events t).pc ≡ voting true
      → All (λ tx. Passes env id (Simulates env id tx) events t) (remaining t.pc)
  unfolding react_all
  each_simulated [] t h v =
      subst (λ pc. All (λ tx. Passes env id (Simulates env id tx) [] t) (remaining pc)) (sym v) tt
  each_simulated (event ∷ events) t h v =
      settle (remaining t.pc) (react-Pays event t h)
        (each_simulated events (react env id event t) h v)
    where
      not_dead : IsDead (react_all env id events (react env id event t)).pc → ⊥
      not_dead (inl e) = cc
      not_dead (inr e) = cc

      settle :
          (before : List Bytes)
          → Pays event t before (react env id event t).pc
          → All
              (λ tx. Passes env id (Simulates env id tx) events (react env id event t))
              (remaining (react env id event t).pc)
          → All (λ tx. Passes env id (Simulates env id tx) (event ∷ events) t) before
      settle before (inl e) ih =
          subst (All (λ tx. Passes env id (Simulates env id tx) (event ∷ events) t)) (sym e) tt
      settle before (inr (inl e)) ih =
          subst (All (λ tx. Passes env id (Simulates env id tx) (event ∷ events) t)) (sym e)
            (All-map (remaining (react env id event t).pc) (λ tx p. inr p) ih)
      settle before (inr (inr (inl (tx, e, paid)))) ih =
          subst (All (λ tx. Passes env id (Simulates env id tx) (event ∷ events) t)) (sym e)
            (inl paid, All-map (remaining (react env id event t).pc) (λ tx p. inr p) ih)
      settle before (inr (inr (inr d))) ih =
          absurd (not_dead (IsDead-react_all env id events (react env id event t) d))
