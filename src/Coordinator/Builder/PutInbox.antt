-- ===== src/Coordinator/Builder/PutInbox.antt =====
-- `build_put_inbox_transactions` of handlers/builder_control.rs: the nonces of the transactions that
-- put the messages of a committed transaction into the inbox.
use sidecar.Prelude.{
  ℕ, ◌+◌, ◌≤◌, ◌≡◌, refl, ap, sym, true, List, [], ◌∷◌, ◌++◌, Bytes, arith, length,
}
use sidecar.Prelude.Result.{Result, ok, err}
use sidecar.Errors.{CoordinatorError}
use sidecar.Nonce
use sidecar.Nonce.{Inner, u64_max, saturating_add, reserve}
use sidecar.Mailbox.Types.{CrossRollupDependency}
use sidecar.Coordinator.Effect.{Effect, fetch_nonce, build_put_inbox}
use sidecar.Coordinator.World.{Env, World, pure, continue_with}
use sidecar.Coordinator.Builder.{build_all, reserve_nonces, build_put_inbox_transactions}

-- One request for each dependency, at consecutive nonces.
abbrev consecutive : ℕ → List CrossRollupDependency → List Effect
consecutive nonce [] = []
consecutive nonce (dep ∷ deps) = build_put_inbox dep nonce ∷ consecutive (nonce + 1) deps

append_assoc :
    (xs : List Effect) (y : Effect) (ys : List Effect) → (xs ++ y ∷ []) ++ ys ≡ xs ++ y ∷ ys
append_assoc [] y ys = refl
append_assoc (x ∷ xs) y ys = ap (λ l. x ∷ l) (append_assoc xs y ys)

append_nil : (xs : List Effect) → xs ++ [] ≡ xs
append_nil [] = refl
append_nil (x ∷ xs) = ap (λ l. x ∷ l) (append_nil xs)

module _ (env : Env) (id : Bytes) where
  -- What a run of the loop leaves behind, of its outcome and its world.
  abbrev pub IsBuilt :
      World → ℕ → List CrossRollupDependency → Result CoordinatorError (List Bytes) × World → Type 0
  IsBuilt w nonce deps (ok txs, w') =
      (w'.log ≡ w.log ++ consecutive nonce deps)
      × (w'.nonces ≡ w.nonces)
      × (w'.state ≡ w.state)
      × (length txs ≡ length deps)
  IsBuilt w nonce deps (err e, w') =
      (w'.nonces ≡ Nonce.release_aborted id w.nonces) × (w'.state ≡ w.state)

  after_request : World → CrossRollupDependency → ℕ → World
  after_request w dep nonce = record w { log = w.log ++ build_put_inbox dep nonce ∷ [] }

  extend-IsBuilt :
      (w : World) (nonce : ℕ) (dep : CrossRollupDependency) (deps : List CrossRollupDependency)
      (tx : Bytes) (r : Result CoordinatorError (List Bytes) × World)
      → IsBuilt (after_request w dep nonce) (nonce + 1) deps r
      → IsBuilt w nonce (dep ∷ deps) (continue_with r (λ txs. pure (tx ∷ txs)))
  unfolding after_request
  extend-IsBuilt w nonce dep deps tx (ok txs, w') b =
      ground (arith, append_assoc w.log (build_put_inbox dep nonce) (consecutive (nonce + 1) deps))
  extend-IsBuilt w nonce dep deps tx (err e, w') b = b

  build_first :
      (w : World) (nonce : ℕ) (dep : CrossRollupDependency) (deps : List CrossRollupDependency)
      (answered : Result CoordinatorError Bytes)
      → env.put_inbox_answer (w.log ++ build_put_inbox dep nonce ∷ []) dep nonce ≡ answered
      → saturating_add nonce 1 ≡ nonce + 1
      → IsBuilt
          (after_request w dep nonce)
          (nonce + 1)
          deps
          (build_all env id (nonce + 1) deps (after_request w dep nonce))
      → IsBuilt w nonce (dep ∷ deps) (build_all env id nonce (dep ∷ deps) w)
  unfolding build_all after_request
  build_first w nonce dep deps (ok tx) e q b =
      rw (e, q)
        (extend-IsBuilt w nonce dep deps tx
          (build_all env id (nonce + 1) deps (after_request w dep nonce)) b)
  build_first w nonce dep deps (err error) e q b = rw e (refl, refl)

  build_all-IsBuilt :
      (w : World) (nonce : ℕ) (deps : List CrossRollupDependency)
      → nonce + length deps ≤ u64_max
      → IsBuilt w nonce deps (build_all env id nonce deps w)
  unfolding build_all
  build_all-IsBuilt w nonce [] h = (sym (append_nil w.log), refl, refl, refl)
  build_all-IsBuilt w nonce (dep ∷ deps) h =
      build_first w nonce dep deps
        (env.put_inbox_answer (w.log ++ build_put_inbox dep nonce ∷ []) dep nonce) refl
        (ground arith)
        (build_all-IsBuilt (after_request w dep nonce) (nonce + 1) deps (ground arith))

-- The world in which the nonces of the dependencies are reserved, and nothing is built yet.
abbrev pub reserved_world : World → Inner → World
reserved_world w n = record w { nonces = n; log = w.log ++ fetch_nonce ∷ [] }

-- Where the nonce manager reserves a run of nonces from `start` for the dependencies: if every
-- transaction is built, one is asked for each dependency, in order and at consecutive nonces from
-- `start`, and the reservation stays; if one is refused, the reservation is released as aborted.
pub build_put_inbox_transactions_lem :
    (env : Env) (id : Bytes) (w : World) (dep : CrossRollupDependency)
    (deps : List CrossRollupDependency) (start : ℕ) (n : Inner)
    → env.has_put_inbox_builder ≡ true
    → reserve id (length (dep ∷ deps)) (env.nonce_answer (w.log ++ fetch_nonce ∷ [])) w.nonces
      ≡ (ok start, n)
    → start + length (dep ∷ deps) ≤ u64_max
    → IsBuilt env id
        (reserved_world w n)
        start
        (dep ∷ deps)
        (build_put_inbox_transactions env id (dep ∷ deps) w)
unfolding build_put_inbox_transactions reserve_nonces
build_put_inbox_transactions_lem env id w dep deps start n b r h =
    rw (b, r) (build_all-IsBuilt env id (reserved_world w n) start (dep ∷ deps) h)
