-- ===== src/Coordinator/Process/Success.antt =====
-- `process_xt` when every collaborator answers with success; here the loop over the transactions, in
-- Start the steps before it.
pub mod Start
use sidecar.Prelude.{
  ℕ, suc, ◌+◌, ◌*◌, ◌≡◌, refl, sym, subst, ap, true, false, some, List, [], ◌∷◌, ◌++◌, Bytes,
  bytes_eq, arith, length, is_empty, if◌then◌else◌, Bool-cases, inl, inr, beq_refl, All, ◌⊎◌, false,
  none, Option, Bool, not, ◌||◌, nat_eq,
}
use sidecar.Prelude.Map
use sidecar.Prelude.Result.{ok}
use sidecar.Mailbox.Types.{CrossRollupDependency, MailboxMessage}
use sidecar.Mailbox.Overrides.{StateOverride}
use sidecar.Simulation.Types.{SimulationResult}
use sidecar.Coordinator.Xt.{PendingXt}
use sidecar.Coordinator.Effect.{
  Effect, VerificationPayload, simulate, post_verification, send_mailbox,
}
use sidecar.Coordinator.World.{Env, World, skip, locked, ◌>>=◌}
use sidecar.Permissions.{allow, evaluate_xt}
use sidecar.Coordinator.Builder.{local_txs, decode_sender_nonce}
use sidecar.Coordinator.Pipeline.{
  lock_local, lock_chain, record_simulation_state, send_all, dispatch_section,
  dispatch_outbound_mailbox,
}
use sidecar.Coordinator.Process.{
  Attempt, Pc, reading, verifying, checking, locking, setting_up, simulating, recording,
  dispatching, voting, base_overrides, is_accepted, verification_payload, check_xt_permissions,
  with_fulfilled, simulated, emitted, step, Task, task_of, react, ticks, all_permitted,
  xt_permitted,
}
use sidecar.Coordinator.Process.Ends.{next_alone, alone}

-- The simulator reports success for every transaction.
abbrev pub AlwaysSucceeds : Env → Type 0
AlwaysSucceeds env =
    (log : List Effect) (tx : Bytes) (overrides : StateOverride)
    (fulfilled : List CrossRollupDependency)
    → (result : SimulationResult) × (env.simulate_answer log tx overrides fulfilled ≡ ok result)
      × (result.success ≡ true)

-- Every mailbox message can be sent.
abbrev pub AlwaysSends : Env → Type 0
AlwaysSends env =
    (log : List Effect) (chain : ℕ) (msg : MailboxMessage) → env.send_answer log chain msg ≡ ok tt

-- The verification hook, if it is asked, accepts.
abbrev pub AlwaysAccepts : Env → Type 0
AlwaysAccepts env =
    (log : List Effect) (payload : VerificationPayload)
    → is_accepted (env.verify_answer log payload) ≡ true

-- The transaction has a sender, to whom the policy in force at any time allows all chains.
abbrev pub IsPermitted : Env → Bytes → Type 0
IsPermitted env tx =
    (sender : Bytes) × (nonce : ℕ) × (decode_sender_nonce env tx ≡ some (sender, nonce))
    × ((log : List Effect) (i : ℕ) (involved : List ℕ)
        → evaluate_xt (env.permissions log i) sender env.chain_id involved ≡ allow)

-- Three steps for each transaction, and one to see that there is none left.
pub steps_for : List Bytes → ℕ
steps_for [] = 1
steps_for (tx ∷ txs) = suc (suc (suc (steps_for txs)))

pub steps_for-length : (txs : List Bytes) → steps_for txs ≡ 3 * length txs + 1
unfolding steps_for
steps_for-length [] = refl
steps_for-length (tx ∷ txs) = omega (arith, steps_for-length txs)

module _ (env : Env) (id : Bytes) where
  -- The task has come to vote to commit after `n` more steps.
  abbrev pub CommitsAfter : ℕ → ℕ → Task → Type 0
  CommitsAfter n now t = (alone env id now n t).pc ≡ voting true

  pub alone_next :
      (n now : ℕ) (pc next : Pc) (w w' : World)
      → react env id (next_alone now pc) (task_of (pc, w)) ≡ task_of (next, w')
      → CommitsAfter n (suc now) (task_of (next, w'))
      → CommitsAfter (suc n) now (task_of (pc, w))
  unfolding alone
  alone_next n now pc next w w' e h = subst (CommitsAfter n (suc now)) (sym e) h

  send_all-ok :
      (msgs : List MailboxMessage) (w : World) → AlwaysSends env → (send_all env msgs w).0 ≡ ok tt
  unfolding send_all
  send_all-ok [] w h = refl
  send_all-ok (msg ∷ msgs) w h =
      rw (h (w.log ++ send_mailbox msg.destination_chain msg ∷ []) msg.destination_chain msg)
        (send_all-ok msgs (emitted (send_mailbox msg.destination_chain msg) w) h)

  dispatch-ok :
      (result : SimulationResult) (w : World)
      → AlwaysSends env
      → (dispatch_outbound_mailbox env id result.outbound_messages w).0 ≡ ok tt
  unfolding dispatch_outbound_mailbox
  dispatch-ok result w h = chosen (is_empty result.outbound_messages) env.has_mailbox_sender
    where
      chosen :
          (no_messages has_sender : Bool)
          → ((if no_messages
                then skip
                else if has_sender
                then (locked (dispatch_section env.codec id result.outbound_messages) >>= λ to_send.
                    send_all env to_send)
                else skip)
              w).0
            ≡ ok tt
      chosen true has_sender = refl
      chosen false false = refl
      chosen false true =
          send_all-ok (dispatch_section env.codec id result.outbound_messages w.state).0
            (record w {
              state = (dispatch_section env.codec id result.outbound_messages w.state).1;
            })
            h

  record_next :
      (now : ℕ) (a : Attempt) (result : SimulationResult) (w : World)
      → result.success ≡ true
      → (overrides : StateOverride) × (w' : World) × (react env id
            (ticks now)
            (task_of (recording a result, w))
          ≡ task_of (dispatching (record a { current_overrides = overrides }) result, w'))
  unfolding react step
  record_next now a result w s =
      let kept = record_simulation_state env.chain_id id result a.current_overrides w.state in
      (kept.0, record w { state = kept.1 }, rw s refl)

  dispatch_next :
      (now : ℕ) (a : Attempt) (result : SimulationResult) (w : World)
      → result.success ≡ true
      → AlwaysSends env
      → (w' : World) × (react env id (ticks now) (task_of (dispatching a result, w))
          ≡ task_of (simulating a.later a.current_overrides a.fulfilled_deps, w'))
  unfolding react step
  dispatch_next now a result w s h = (
    (dispatch_outbound_mailbox env id result.outbound_messages w).1,
    rw (dispatch-ok result w h, s) refl,
  )

  pub simulating_succeeds :
      (txs : List Bytes) (overrides : StateOverride) (fulfilled : List CrossRollupDependency)
      (now : ℕ) (w : World)
      → AlwaysSucceeds env
      → AlwaysSends env
      → CommitsAfter (steps_for txs) now (task_of (simulating txs overrides fulfilled, w))
  unfolding steps_for alone react step
  simulating_succeeds [] overrides fulfilled now w s h = refl
  simulating_succeeds (tx ∷ later) overrides fulfilled now w s h =
      let (result, e, good) = s w'.log tx overrides fulfilled in
      let (kept, w1, e1) = record_next (suc now) a result w' good in
      let b : Attempt = record a { current_overrides = kept } in
      let (w2, e2) = dispatch_next (suc (suc now)) b result w1 good h in
      alone_next (suc (suc (steps_for later))) now (simulating (tx ∷ later) overrides fulfilled)
        (recording a result) w w' (ap (λ r. task_of (simulated a r, w')) e)
        (alone_next (suc (steps_for later)) (suc now) (recording a result) (dispatching b result) w'
          w1 e1
          (alone_next (steps_for later) (suc (suc now)) (dispatching b result)
            (simulating later kept fulfilled) w1 w2 e2
            (simulating_succeeds later kept fulfilled (suc (suc (suc now))) w2 s h)))
    where
      w' : World
      w' = emitted (simulate tx overrides fulfilled) w

      a : Attempt
      a = record {
        tx = tx;
        later = later;
        current_overrides = overrides;
        fulfilled_deps = fulfilled;
      }
