-- ===== src/Coordinator/Process/Success/Start.antt =====
-- `process_xt` when every collaborator answers with success: from its beginning to its vote.
use sidecar.Prelude.{
  ℕ, suc, ◌+◌, ◌*◌, ◌≡◌, refl, subst, ap, true, false, some, List, [], ◌∷◌, Bytes, bytes_eq, arith,
  length, if◌then◌else◌, Bool-cases, inl, inr, beq_refl, All, ◌⊎◌, false, none, Option, Bool, not,
  ◌||◌, nat_eq,
}
use sidecar.Prelude.Map
use sidecar.Mailbox.Overrides.{StateOverride}
use sidecar.Coordinator.Xt.{PendingXt}
use sidecar.Coordinator.Effect.{Effect, post_verification}
use sidecar.Coordinator.World.{Env, World}
use sidecar.Coordinator.Builder.{local_txs}
use sidecar.Coordinator.Pipeline.{lock_local, lock_chain}
use sidecar.Coordinator.Process.{
  reading, verifying, checking, locking, setting_up, simulating, voting, base_overrides,
  verification_payload, check_xt_permissions, with_fulfilled, emitted, step, task_of, react, ticks,
  all_permitted, xt_permitted,
}
use sidecar.Coordinator.Process.Ends.{alone}
use sidecar.Coordinator.Process.Success.{
  AlwaysSucceeds, AlwaysSends, AlwaysAccepts, IsPermitted, CommitsAfter, alone_next, steps_for,
  steps_for-length, simulating_succeeds,
}

module _ (env : Env) (id : Bytes) where
  all_permitted_lem :
      (log : List Effect) (i : ℕ) (involved : List ℕ) (txs : List Bytes)
      → All (IsPermitted env) txs
      → all_permitted env log i involved txs ≡ true
  unfolding all_permitted
  all_permitted_lem log i involved [] h = refl
  all_permitted_lem log i involved (tx ∷ txs) h =
      let (sender, nonce, e, allowed) = h.0 in
      rw (e, allowed log i involved) (all_permitted_lem log (suc i) involved txs h.1)

  check_xt_permissions_lem :
      (txs : List Bytes) (w : World)
      → (env.has_permission_engine ≡ false) ⊎ All (IsPermitted env) txs
      → check_xt_permissions env id txs w ≡ true
  unfolding check_xt_permissions
  check_xt_permissions_lem txs w (inl e) = rw e refl
  check_xt_permissions_lem txs w (inr h) =
      granted env.has_permission_engine (Map.lookup id w.state.pending)
    where
      granted :
          (has_engine : Bool) (o : Option PendingXt)
          → not has_engine || xt_permitted env w.log txs o ≡ true
      granted false o = refl
      granted true none = refl
      granted true (some xt) = all_permitted_lem w.log 0 (Map.keys xt.raw_txs) txs h

  verify_next :
      (now : ℕ) (txs : List Bytes) (overrides : StateOverride) (w : World)
      → AlwaysAccepts env
      → (log : List Effect) × (react env id (ticks now) (task_of (verifying txs overrides, w))
          ≡ task_of (checking txs overrides, record w { log = log }))
  unfolding react step
  verify_next now txs overrides w h = elim (Bool-cases env.verification_enabled) [
    | inr e ↦ (w.log, rw e refl)
    | inl e ↦ (
      w'.log,
      rw (e, h w'.log (verification_payload env id txs (Map.lookup id w.state.pending))) refl,
    )
  ]
    where
      w' : World
      w' =
          emitted
            (post_verification (verification_payload env id txs (Map.lookup id w.state.pending))) w

  -- A task that no other disturbs, with a simulator, whose pending transaction has local
  -- transactions, comes to vote to commit, three steps for each local transaction and six more after
  -- it has begun, if the verification hook, where it is asked, accepts, the policy, where there is
  -- one, allows the sender of each of them, the simulator reports success for each, and every mailbox
  -- message can be sent.
  pub alone_commits :
      (txs : List Bytes) (xt : PendingXt) (now : ℕ) (w : World)
      → env.has_simulator ≡ true
      → AlwaysAccepts env
      → (env.has_permission_engine ≡ false) ⊎ All (IsPermitted env) txs
      → AlwaysSucceeds env
      → AlwaysSends env
      → Map.lookup id w.state.pending ≡ some xt
      → local_txs env.chain_id xt ≡ some txs
      → (alone env id now (3 * length txs + 6) (task_of (reading, w))).pc ≡ voting true
  unfolding react step lock_chain
  alone_commits txs xt now w sim accepts permits s h e l =
      let (log, e1) = verify_next (suc now) txs overrides w accepts in
      let w1 : World = record w { log = log } in
      let w2 : World = record w1 { state = lock_chain env.chain_id id w.state } in
      subst (λ n. CommitsAfter env id n now (task_of (reading, w)))
        (omega (arith, steps_for-length txs))
        (alone_next env id (suc (suc (suc (suc (steps_for txs))))) now reading
          (verifying txs overrides) w w (rw (e, l) refl)
          (alone_next env id (suc (suc (suc (steps_for txs)))) (suc now) (verifying txs overrides)
            (checking txs overrides) w w1 e1
            (alone_next env id (suc (suc (steps_for txs))) (suc (suc now)) (checking txs overrides)
              (locking txs overrides) w1 w1 (rw (check_xt_permissions_lem txs w1 permits) refl)
              (alone_next env id (suc (steps_for txs)) (suc (suc (suc now))) (locking txs overrides)
                (setting_up txs overrides) w1 w2 (locked_next w1)
                (alone_next env id (steps_for txs) (suc (suc (suc (suc now))))
                  (setting_up txs overrides) (simulating txs overrides xt.fulfilled_deps) w2 w2
                  (ap (λ o. task_of (with_fulfilled txs overrides o, w2)) found)
                  (simulating_succeeds env id txs overrides xt.fulfilled_deps
                    (suc (suc (suc (suc (suc now))))) w2 s h))))))
    where
      overrides : StateOverride
      overrides = base_overrides (Map.lookup env.chain_id w.state.chain_overlay)

      locked_next :
          (w1 : World)
          → react env id (ticks (suc (suc (suc now)))) (task_of (locking txs overrides, w1))
            ≡ task_of (
              setting_up txs overrides,
              record w1 { state = lock_chain env.chain_id id w1.state },
            )
      locked_next w1 =
          ap
            (λ b. task_of (
              if b then setting_up txs overrides else voting true,
              record w1 { state = lock_chain env.chain_id id w1.state },
            ))
            sim

      found :
          Map.lookup id (lock_chain env.chain_id id w.state).pending
          ≡ some (lock_local env.chain_id xt)
      found =
          ground
            (arith, Map.lookup-modify id id (lock_local env.chain_id) w.state.pending, beq_refl id)
