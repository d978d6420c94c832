-- ===== src/Coordinator/Process/Commit.antt =====
-- What has happened before `process_xt` votes to commit.
use sidecar.Prelude.{
  ◌≡◌, ◌⊎◌, refl, sym, subst, inl, inr, Bool, true, false, Option, none, some, List, [], ◌∷◌, Bytes,
  bytes_eq, nat_eq, All, if◌then◌else◌,
}
use sidecar.Prelude.Map
use sidecar.Mailbox.Overrides.{StateOverride}
use sidecar.Coordinator.Xt.{PendingXt}
use sidecar.Coordinator.Effect.{VerificationPayload, post_verification}
use sidecar.Coordinator.World.{Env, World}
use sidecar.Coordinator.Builder.{local_txs}
use sidecar.Coordinator.Sections.{apply}
use sidecar.Coordinator.Process.{
  Pc, reading, verifying, checking, locking, voting, finished, base_overrides, begin, read_xt,
  is_accepted, verified_or_not, check_xt_permissions, verification_payload, emitted, verify_xt,
  task_of, step, Event, ticks, others, notifies, expires, Task, react, react_all,
}
use sidecar.Coordinator.Process.Justified.{
  Passes, Reads, Accepts, Permits, Simulates, IsDead-react_all, Justified,
}
use sidecar.Coordinator.Process.Simulated.{All-map, each_simulated}

module _ (env : Env) (id : Bytes) where
  abbrev at : Pc → World → Task
  at pc w = record { pc = pc; world = w }

  refuses :
      (events : List Event) (w : World)
      → (react_all env id events (at (voting false) w)).pc ≡ voting true
      → ⊥
  refuses events w v = elim (IsDead-react_all env id events (at (voting false) w) (inl refl)) [
    | inl e ↦ cc
    | inr e ↦ cc
  ]

  permitted :
      (events : List Event) (txs : List Bytes) (overrides : StateOverride) (w : World)
      → (react_all env id events (at (checking txs overrides) w)).pc ≡ voting true
      → Passes env id (Permits env id txs) events (at (checking txs overrides) w)
  unfolding react_all react step
  permitted [] txs overrides w v = cc
  permitted (others c ∷ events) txs overrides w v =
      inr (permitted events txs overrides (record w { state = apply env c w.state }) v)
  permitted (notifies ∷ events) txs overrides w v = inr (permitted events txs overrides w v)
  permitted (expires ∷ events) txs overrides w v = inr (permitted events txs overrides w v)
  permitted (ticks now ∷ events) txs overrides w v =
      checked (check_xt_permissions env id txs w) refl v
    where
      checked :
          (b : Bool)
          → check_xt_permissions env id txs w ≡ b
          → (react_all env id events (at (if b then locking txs overrides else voting false) w)).pc
            ≡ voting true
          → Passes env id (Permits env id txs) (ticks now ∷ events) (at (checking txs overrides) w)
      checked true e v = inl (overrides, refl, e)
      checked false e v = absurd (refuses events w v)

  accepted :
      (events : List Event) (txs : List Bytes) (overrides : StateOverride) (w : World)
      → env.verification_enabled ≡ true
      → (react_all env id events (at (verifying txs overrides) w)).pc ≡ voting true
      → Passes env id (Accepts env id txs) events (at (verifying txs overrides) w)
        × Passes env id (Permits env id txs) events (at (verifying txs overrides) w)
  unfolding react_all react step
  accepted [] txs overrides w on v = cc
  accepted (others c ∷ events) txs overrides w on v =
      let (a, p) = accepted events txs overrides (record w { state = apply env c w.state }) on v in
      (inr a, inr p)
  accepted (notifies ∷ events) txs overrides w on v =
      let (a, p) = accepted events txs overrides w on v in (inr a, inr p)
  accepted (expires ∷ events) txs overrides w on v =
      let (a, p) = accepted events txs overrides w on v in (inr a, inr p)
  accepted (ticks now ∷ events) txs overrides w on v =
      subst (λ p. (react_all env id events (task_of p)).pc ≡ voting true → Then p) (sym verified)
        (answered (is_accepted (env.verify_answer w'.log payload)) refl) v
    where
      payload : VerificationPayload
      payload = verification_payload env id txs (Map.lookup id w.state.pending)

      w' : World
      w' = emitted (post_verification payload) w

      verified :
          verify_xt env id txs overrides w
          ≡ (verified_or_not (is_accepted (env.verify_answer w'.log payload)) txs overrides, w')
      verified = rw on refl

      Then : Pc × World → Type 0
      Then p =
          (Accepts env id txs (ticks now) (at (verifying txs overrides) w)
            ⊎ Passes env id (Accepts env id txs) events (task_of p))
          × (Permits env id txs (ticks now) (at (verifying txs overrides) w)
              ⊎ Passes env id (Permits env id txs) events (task_of p))

      answered :
          (b : Bool)
          → is_accepted (env.verify_answer w'.log payload) ≡ b
          → (react_all env id events (task_of (verified_or_not b txs overrides, w'))).pc
            ≡ voting true
          → Then (verified_or_not b txs overrides, w')
      answered true e v = (inl (overrides, refl, e), inr (permitted events txs overrides w' v))
      answered false e v = absurd (refuses events w' v)

  later_Justified :
      (event : Event) (events : List Event) (t : Task)
      → Justified env id events (react env id event t)
      → Justified env id (event ∷ events) t
  later_Justified event events t (txs, r, a, p, s) =
      (txs, inr r, inr a, inr p, All-map txs (λ tx q. inr q) s)

  -- Whatever other tasks do meanwhile, with a simulator and the verification hook enabled, a task that
  -- comes to vote to commit has read local transactions of its pending transaction, the hook has
  -- accepted them, the permission check has let them pass, and the simulator has reported success for
  -- each of them.
  pub commit-Justified :
      (events : List Event) (w : World)
      → env.verification_enabled ≡ true
      → env.has_simulator ≡ true
      → (react_all env id events (record { pc = reading; world = w })).pc ≡ voting true
      → Justified env id events (record { pc = reading; world = w })
  unfolding react_all react step
  commit-Justified [] w on sim v = cc
  commit-Justified (others c ∷ events) w on sim v =
      later_Justified (others c) events (at reading w)
        (commit-Justified events (record w { state = apply env c w.state }) on sim v)
  commit-Justified (notifies ∷ events) w on sim v =
      later_Justified notifies events (at reading w) (commit-Justified events w on sim v)
  commit-Justified (expires ∷ events) w on sim v =
      later_Justified expires events (at reading w) (commit-Justified events w on sim v)
  commit-Justified (ticks now ∷ events) w on sim v =
      widen (found (Map.lookup id w.state.pending) refl v)
    where
      overrides : StateOverride
      overrides = base_overrides (Map.lookup env.chain_id w.state.chain_overlay)

      gone : (react_all env id events (at finished w)).pc ≡ voting true → ⊥
      gone v = elim (IsDead-react_all env id events (at finished w) (inr refl)) [
        | inl e ↦ cc
        | inr e ↦ cc
      ]

      -- `pc` is where the task is after it has read.
      After : Pc → Type 0
      After pc =
          (txs : List Bytes) × Reads env id txs (ticks now) (at reading w)
          × Passes env id (Accepts env id txs) events (at pc w)
          × Passes env id (Permits env id txs) events (at pc w)
          × All (λ tx. Passes env id (Simulates env id tx) events (at pc w)) txs

      begun :
          (xt : PendingXt) (o : Option (List Bytes))
          → Map.lookup id w.state.pending ≡ some xt
          → local_txs env.chain_id xt ≡ o
          → (react_all env id events (at (begin o overrides) w)).pc ≡ voting true
          → After (begin o overrides)
      begun xt none e f v = absurd (refuses events w v)
      begun xt (some txs) e f v =
          let (a, p) = accepted events txs overrides w on v in
          (
            txs,
            (xt, refl, e, f),
            a,
            p,
            each_simulated env id events (at (verifying txs overrides) w) sim v,
          )

      found :
          (o : Option PendingXt)
          → Map.lookup id w.state.pending ≡ o
          → (react_all env id events (at (read_xt env.chain_id o overrides) w)).pc ≡ voting true
          → After (read_xt env.chain_id o overrides)
      found none e v = absurd (gone v)
      found (some xt) e v = begun xt (local_txs env.chain_id xt) e refl v

      widen :
          After (read_xt env.chain_id (Map.lookup id w.state.pending) overrides)
          → Justified env id (ticks now ∷ events) (at reading w)
      widen (txs, r, a, p, s) = (txs, inl r, inr a, inr p, All-map txs (λ tx q. inr q) s)
