-- ===== src/Coordinator/World.antt =====
-- The coordinator's environment, and handlers as actions on the shared state. A collaborator's
-- answer may depend on everything that was asked before it.
use sidecar.Prelude.{ℕ, ◌≡◌, refl, ◌∙◌, Bool, Option, List, [], ◌∷◌, ◌++◌, Bytes, if◌then◌else◌}
use sidecar.Prelude.Map.{Map}
use sidecar.Prelude.Result.{Result, ok, err}
use sidecar.Errors.{CoordinatorError, Message}
use sidecar.Nonce
use sidecar.Mailbox.Types.{CrossRollupDependency, MailboxMessage}
use sidecar.Mailbox.Wire.{WordCodec}
use sidecar.Mailbox.Overrides.{StateOverride}
use sidecar.Simulation.Types.{SimulationResult, SimulationError}
use sidecar.Permissions.{Engine}
use sidecar.Coordinator.State.{CoordinatorState}
use sidecar.Coordinator.Effect.{Effect, XtBuilderSubmission, VerificationPayload}

-- The publisher's `StartInstance` and what the specification's library parses it into.
abbrev pub XtRequest : Type 0
XtRequest = List (ℕ × List Bytes)

pub record StartInstance : Type 0 where
  pub instance_id : Bytes
  pub period_id : ℕ
  pub sequence_number : ℕ
  pub xt_request : Option XtRequest

pub record SpecInstance : Type 0 where
  pub id : Bytes
  pub period_id : ℕ
  pub sequence_number : ℕ
  pub xt_request : XtRequest

-- `DefaultCoordinator`'s configuration and its optional parts, and the foreign functions in use. The
-- policy may change between two of the transactions that are checked against it; a number counts
-- them. An answer of the verification hook is its HTTP status.
pub record Env : Type 0 where
  pub chain_id : ℕ
  pub has_publisher : Bool
  pub has_xt_builder_client : Bool
  pub has_put_inbox_builder : Bool
  pub has_mailbox_queue : Bool
  pub has_mailbox_sender : Bool
  pub has_peer_coordinator : Bool
  pub has_simulator : Bool
  pub has_permission_engine : Bool
  pub verification_enabled : Bool
  pub circ_timeout_ms : ℕ
  pub codec : WordCodec
  pub hex_encode : Bytes → Bytes
  pub sha256 : Bytes → Bytes
  pub encode_xt_request : XtRequest → Bytes
  pub chains_from_request : XtRequest → List ℕ
  pub parse_instance : StartInstance → Result Message SpecInstance
  pub decode_envelope : Bytes → Option Bytes
  pub recover_signer : Bytes → Option Bytes
  pub envelope_nonce : Bytes → ℕ
  pub clock : List Effect → ℕ
  pub is_connected : List Effect → Bool
  pub submit_answer : List Effect → XtBuilderSubmission → Result CoordinatorError (Unit {0})
  pub release_answer : List Effect → Bytes → List Bytes → Result CoordinatorError (Unit {0})
  pub abort_answer : List Effect → Bytes → Result CoordinatorError (Unit {0})
  pub nonce_answer : List Effect → Result CoordinatorError ℕ
  pub put_inbox_answer : List Effect → CrossRollupDependency → ℕ → Result CoordinatorError Bytes
  pub vote_answer : List Effect → Bytes → Bool → Result CoordinatorError (Unit {0})
  pub request_answer : List Effect → Map ℕ (List Bytes) → Result CoordinatorError (Unit {0})
  pub record_answer : List Effect → MailboxMessage → Result Message (Unit {0})
  pub simulate_answer :
      List Effect
      → Bytes
      → StateOverride
      → List CrossRollupDependency
      → Result SimulationError SimulationResult
  pub verify_answer : List Effect → VerificationPayload → Result Message ℕ
  pub permissions : List Effect → ℕ → Engine
  pub send_answer : List Effect → ℕ → MailboxMessage → Result CoordinatorError (Unit {0})

pub record World : Type 0 where
  pub state : CoordinatorState
  pub nonces : Nonce.Inner
  pub log : List Effect

abbrev pub M : Type 0 → Type 0
M A = World → Result CoordinatorError A × World

abbrev pub continue_with :
    {A B : Type 0}
    → Result CoordinatorError A × World
    → (A → M B)
    → Result CoordinatorError B × World
continue_with (ok a, w) f = f a w
continue_with (err e, w) f = (err e, w)

infixl 5 ◌>>=◌ ◌>>◌
abbrev pub ◌>>=◌ : {A B : Type 0} → M A → (A → M B) → M B
◌>>=◌ m f w = continue_with (m w) f

abbrev pub ◌>>◌ : {B : Type 0} → M (Unit {0}) → M B → M B
m >> k = m >>= λ _. k

abbrev pub pure : {A : Type 0} → A → M A
pure a w = (ok a, w)

abbrev pub fail : {A : Type 0} → CoordinatorError → M A
fail e w = (err e, w)

-- A section under the state's write lock.
abbrev pub locked : {A : Type 0} → (CoordinatorState → A × CoordinatorState) → M A
locked f w = let (a, s) = f w.state in (ok a, record w { state = s })

-- A section under the lock that may return early with an error.
abbrev pub locked_or_fail :
    {A : Type 0} → (CoordinatorState → Result CoordinatorError A × CoordinatorState) → M A
locked_or_fail f w = let (r, s) = f w.state in (r, record w { state = s })

abbrev pub nonce_call : {A : Type 0} → (Nonce.Inner → Result CoordinatorError A × Nonce.Inner) → M A
nonce_call f w = let (r, n) = f w.nonces in (r, record w { nonces = n })

abbrev pub emit : Effect → M (Unit {0})
emit e w = (ok tt, record w { log = w.log ++ e ∷ [] })

-- What a collaborator answers after everything in the log.
abbrev pub answer : {A : Type 0} → (List Effect → Result CoordinatorError A) → M A
answer f w = (f w.log, w)

abbrev pub reads : {A : Type 0} → (World → A) → M A
reads f w = (ok (f w), w)

-- `if let Err(e) = m.await`: the outcome as a value.
abbrev as_outcome :
    {A : Type 0}
    → Result CoordinatorError A × World
    → Result CoordinatorError (Result CoordinatorError A) × World
as_outcome (r, w) = (ok r, w)

abbrev pub attempt : {A : Type 0} → M A → M (Result CoordinatorError A)
attempt m w = as_outcome (m w)

abbrev pub skip : M (Unit {0})
skip = pure tt

abbrev pub when : Bool → M (Unit {0}) → M (Unit {0})
when b m = if b then m else skip

-- An action that leaves the shared state alone.
abbrev pub Keeps : {A : Type 0} → M A → Type 0
Keeps m = (w : World) → (m w).1.state ≡ w.state

-- A bind leaves the state alone if its parts do.
pub >>=-Keeps :
    {A B : Type 0} (m : M A) (f : A → M B) → Keeps m → ((a : A) → Keeps (f a)) → Keeps (m >>= f)
>>=-Keeps {A} {B} m f h k w = continued (m w) ∙ h w
  where
    continued : (r : Result CoordinatorError A × World) → (continue_with r f).1.state ≡ r.1.state
    continued (ok a, v) = k a v
    continued (err e, v) = refl
