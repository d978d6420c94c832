-- ===== src/Coordinator/Process/Justified.antt =====
-- What must have happened before `process_xt` may vote to commit, as predicates of its events, and the
-- states from which it never does.
use sidecar.Prelude.{
  ◌≡◌, ◌⊎◌, refl, sym, subst, inl, inr, true, false, some, List, [], ◌∷◌, ◌++◌, Bytes, bytes_eq,
  nat_eq, All, if◌then◌else◌,
}
use sidecar.Prelude.Map
use sidecar.Prelude.Result.{ok}
use sidecar.Mailbox.Types.{CrossRollupDependency}
use sidecar.Mailbox.Overrides.{StateOverride}
use sidecar.Simulation.Types.{SimulationResult}
use sidecar.Coordinator.Xt.{PendingXt}
use sidecar.Coordinator.Effect.{simulate, post_verification}
use sidecar.Coordinator.World.{Env}
use sidecar.Coordinator.Builder.{local_txs}
use sidecar.Coordinator.Process.{
  Pc, reading, verifying, checking, locking, setting_up, simulating, recording, dispatching,
  waiting, registering, selecting, refreshing, voting, finished, is_accepted, check_xt_permissions,
  verification_payload, step, Event, ticks, others, notifies, expires, Task, react, react_all,
}

-- The transactions that have no successful simulation yet.
abbrev pub remaining : Pc → List Bytes
remaining (verifying txs overrides) = txs
remaining (checking txs overrides) = txs
remaining (locking txs overrides) = txs
remaining (setting_up txs overrides) = txs
remaining (simulating txs overrides fulfilled) = txs
remaining (recording a result) = if result.success then a.later else a.tx ∷ a.later
remaining (dispatching a result) = if result.success then a.later else a.tx ∷ a.later
remaining (waiting a deps deadline) = a.tx ∷ a.later
remaining (registering a deps deadline) = a.tx ∷ a.later
remaining (selecting a deps deadline) = a.tx ∷ a.later
remaining (refreshing a) = a.tx ∷ a.later
remaining reading = []
remaining (voting vote) = []
remaining finished = []

-- There is no way from here to a vote to commit.
abbrev pub IsDead : Pc → Type 0
IsDead pc = (pc ≡ voting false) ⊎ (pc ≡ finished)

module _ (env : Env) (id : Bytes) where
  -- One of the events meets the task in a state as described.
  abbrev pub Passes : (Event → Task → Type 0) → List Event → Task → Type 0
  Passes P [] t = ⊥
  Passes P (event ∷ events) t = P event t ⊎ Passes P events (react env id event t)

  -- The step reads the local transactions of the pending transaction.
  abbrev pub Reads : List Bytes → Event → Task → Type 0
  Reads txs (ticks now) t =
      (xt : PendingXt) × (t.pc ≡ reading)
      × (Map.lookup id t.world.state.pending ≡ some xt)
      × (local_txs env.chain_id xt ≡ some txs)
  Reads txs _ t = ⊥

  -- The verification hook accepts the transactions.
  abbrev pub Accepts : List Bytes → Event → Task → Type 0
  Accepts txs (ticks now) t =
      let payload = verification_payload env id txs (Map.lookup id t.world.state.pending) in
      (overrides : StateOverride) × (t.pc ≡ verifying txs overrides)
      × (is_accepted (env.verify_answer (t.world.log ++ post_verification payload ∷ []) payload)
          ≡ true)
  Accepts txs _ t = ⊥

  -- The permission check lets them pass.
  abbrev pub Permits : List Bytes → Event → Task → Type 0
  Permits txs (ticks now) t =
      (overrides : StateOverride) × (t.pc ≡ checking txs overrides)
      × (check_xt_permissions env id txs t.world ≡ true)
  Permits txs _ t = ⊥

  -- The simulator reports success for the transaction.
  abbrev pub Simulates : Bytes → Event → Task → Type 0
  Simulates tx (ticks now) t =
      (later : List Bytes) × (overrides : StateOverride) × (fulfilled : List CrossRollupDependency)
      × (result : SimulationResult) × (t.pc ≡ simulating (tx ∷ later) overrides fulfilled)
      × (env.simulate_answer (t.world.log ++ simulate tx overrides fulfilled ∷ []) tx overrides
            fulfilled
          ≡ ok result)
      × (result.success ≡ true)
  Simulates tx _ t = ⊥

  IsDead-react : (event : Event) (t : Task) → IsDead t.pc → IsDead (react env id event t).pc
  unfolding react step
  IsDead-react event t (inl e) =
      subst (λ pc. IsDead (react env id event (record { pc = pc; world = t.world })).pc) (sym e)
        (refused event)
    where
      refused :
          (event : Event)
          → IsDead (react env id event (record { pc = voting false; world = t.world })).pc
      refused (ticks now) = inr refl
      refused (others c) = inl refl
      refused notifies = inl refl
      refused expires = inl refl
  IsDead-react event t (inr e) =
      subst (λ pc. IsDead (react env id event (record { pc = pc; world = t.world })).pc) (sym e)
        (over event)
    where
      over :
          (event : Event)
          → IsDead (react env id event (record { pc = finished; world = t.world })).pc
      over (ticks now) = inr refl
      over (others c) = inr refl
      over notifies = inr refl
      over expires = inr refl

  pub IsDead-react_all :
      (events : List Event) (t : Task) → IsDead t.pc → IsDead (react_all env id events t).pc
  unfolding react_all
  IsDead-react_all [] t d = d
  IsDead-react_all (event ∷ events) t d =
      IsDead-react_all events (react env id event t) (IsDead-react event t d)

  -- What precedes the vote to commit of a task that begins to read.
  abbrev pub Justified : List Event → Task → Type 0
  Justified events t =
      (txs : List Bytes) × Passes (Reads txs) events t
      × Passes (Accepts txs) events t
      × Passes (Permits txs) events t
      × All (λ tx. Passes (Simulates tx) events t) txs
