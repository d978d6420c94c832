-- ===== src/Coordinator/Process/Wakeup.antt =====
-- A notification between the look into the mailbox and the sleep of `wait_for_dependencies`
-- (pipeline/simulation.rs) is lost.
use sidecar.Prelude.{
  ℕ, ◌≡◌, ◌≢◌, ◌≤◌, ◌<◌, refl, Bool, true, false, Option, none, some, List, [], ◌∷◌, ◌++◌, Bytes,
  bytes_eq, beq_refl, arith, Bool-cases, inl, inr,
}
use sidecar.Prelude.Map
use sidecar.Prelude.HashSet
use sidecar.Mailbox.Types.{CrossRollupDependency, MailboxMessage}
use sidecar.Mailbox.Wire.{WordCodec}
use sidecar.Mailbox.Matching.{dependency_key, dependency_key_eq, matches_dependency}
use sidecar.Coordinator.Xt.{PendingXt}
use sidecar.Coordinator.State.{CoordinatorState}
use sidecar.Coordinator.World.{Env, World}
use sidecar.Coordinator.Handlers.Mailbox.{push_mailbox, mailbox_section}
use sidecar.Coordinator.Pipeline.{
  keep_front, take_first, fulfil_with, fulfil_one, fulfil_all, fulfill_dependencies_from_mailbox,
}
use sidecar.Coordinator.Sections.{takes_mailbox, apply}
use sidecar.Coordinator.Process.{
  Attempt, registering, voting, step, ticks, others, notifies, expires, react, react_all,
}

keep_front-ne-none :
    {A : Type 0} (x : A) (o : Option (A × List A)) → o ≢ none → keep_front x o ≢ none
keep_front-ne-none x none h = absurd (h refl)
keep_front-ne-none x (some (a, rest)) h = λ e. cc

-- What stands last is found, if nothing before it is.
take_first_last :
    {A : Type 0} (p : A → Bool) (xs : List A) (a : A)
    → p a ≡ true
    → take_first p (xs ++ a ∷ []) ≢ none
take_first_last p [] a h = rw h (λ e. cc)
take_first_last p (x ∷ xs) a h = elim (Bool-cases (p x)) [
  | inl e ↦ rw e (λ f. cc)
  | inr e ↦ rw e (keep_front-ne-none x (take_first p (xs ++ a ∷ [])) (take_first_last p xs a h))
]

module _ (c : WordCodec) where
  le-fulfil_with :
      (dep : CrossRollupDependency) (n : ℕ) (xt : PendingXt)
      (o : Option (MailboxMessage × List MailboxMessage))
      → n ≤ (fulfil_with dep o (n, xt)).0
  le-fulfil_with dep n xt none = omega arith
  le-fulfil_with dep n xt (some (msg, rest)) = omega arith

  le-fulfil_one :
      (dep : CrossRollupDependency) (n : ℕ) (xt : PendingXt) → n ≤ (fulfil_one c dep (n, xt)).0
  unfolding fulfil_one
  le-fulfil_one dep n xt =
      elim (Bool-cases (HashSet.contains (dependency_key dep) xt.fulfilled_dep_keys)) [
        | inl e ↦ rw e (omega arith)
        | inr e ↦ rw e (
            le-fulfil_with dep n xt
              (take_first (λ msg. matches_dependency c msg dep) xt.pending_mailbox))
      ]

  le-fulfil_all :
      (deps : List CrossRollupDependency) (r : ℕ × PendingXt) → r.0 ≤ (fulfil_all c deps r).0
  unfolding fulfil_all
  le-fulfil_all [] r = omega arith
  le-fulfil_all (dep ∷ deps) r =
      omega (arith, le-fulfil_one dep r.0 r.1, le-fulfil_all deps (fulfil_one c dep r))

  fulfil_one_found :
      (dep : CrossRollupDependency) (xt : PendingXt)
      → HashSet.contains (dependency_key dep) xt.fulfilled_dep_keys ≡ false
      → take_first (λ msg. matches_dependency c msg dep) xt.pending_mailbox ≢ none
      → (fulfil_one c dep (0, xt)).0 ≡ 1
  unfolding fulfil_one
  fulfil_one_found dep xt e h =
      rw e (found (take_first (λ msg. matches_dependency c msg dep) xt.pending_mailbox) h)
    where
      found :
          (o : Option (MailboxMessage × List MailboxMessage))
          → o ≢ none
          → (fulfil_with dep o (0, xt)).0 ≡ 1
      found none h = absurd (h refl)
      found (some (msg, rest)) h = refl

-- The task sleeps on at a message that has been delivered.
module _ (env : Env) (id : Bytes) (xt : PendingXt) (msg : MailboxMessage)
    (dep : CrossRollupDependency) (deps : List CrossRollupDependency) where
  -- The message goes to the transaction, and fulfils the first dependency that it waits for.
  abbrev pub IsAwaited : CoordinatorState → Type 0
  IsAwaited s =
      (Map.lookup id s.pending ≡ some xt)
      × (Map.lookup msg.instance_id s.mailbox_index ≡ some id)
      × (matches_dependency env.codec msg dep ≡ true)
      × (HashSet.contains (dependency_key dep) xt.fulfilled_dep_keys ≡ false)

  delivered :
      (s : CoordinatorState)
      → IsAwaited s
      → Map.lookup id (mailbox_section msg s).pending ≡ some (push_mailbox (msg ∷ []) xt)
  unfolding mailbox_section
  delivered s h =
      rw (h.1, Map.lookup-modify id id (push_mailbox (msg ∷ [])) s.pending)
        (rw (beq_refl id, h.0) refl)

  still_there :
      (s : CoordinatorState)
      → IsAwaited s
      → 0 < (fulfill_dependencies_from_mailbox env.codec id (dep ∷ deps) (mailbox_section msg s)).0
  unfolding fulfill_dependencies_from_mailbox fulfil_all
  still_there s h = rw (delivered s h) (
      omega (
        arith,
        fulfil_one_found env.codec dep (push_mailbox (msg ∷ []) xt) h.3
            (take_first_last (λ m. matches_dependency env.codec m dep) xt.pending_mailbox msg h.2),
        le-fulfil_all env.codec deps (fulfil_one env.codec dep (0, push_mailbox (msg ∷ []) xt)),
      ))

  -- The task has looked into the mailbox in vain and does not sleep yet when the message that it waits
  -- for is delivered and notified: it sleeps until the deadline and votes to abort, although another
  -- look into the mailbox would have fulfilled a dependency.
  pub lost_notification :
      (a : Attempt) (deadline now : ℕ) (w : World)
      → IsAwaited w.state
      → ((react_all env id
            (others (takes_mailbox msg) ∷ notifies ∷ ticks now ∷ expires ∷ [])
            (record { pc = registering a (dep ∷ deps) deadline; world = w })).pc
          ≡ voting false)
        × (0
            < (fulfill_dependencies_from_mailbox env.codec id
                (dep ∷ deps)
                (react_all env id
                  (others (takes_mailbox msg) ∷ notifies ∷ ticks now ∷ expires ∷ [])
                  (record { pc = registering a (dep ∷ deps) deadline; world = w })).world.state).0)
  unfolding react_all react step apply
  lost_notification a deadline now w h = (refl, still_there w.state h)
