-- ===== src/Period/Admission.antt =====
-- Which instances are admitted, alone and over a history of messages.
use sidecar.Prelude.{ℕ, ◌<◌, ◌≡◌, refl, ◌↔◌, Option, none, some, List, [], ◌∷◌, arith, ap, sym, ◌∙◌}
use sidecar.Prelude.Result.{Result, ok, err}
use sidecar.Errors.{CoordinatorError}
use sidecar.Period.{PublisherPeriod, idle, start, close, accept_start_instance}

-- The last sequence accepted in the period, if there is one, is smaller than `n`.
abbrev pub IsPast : Option ℕ → ℕ → Type 0
IsPast none n = Unit
IsPast (some last) n = last < n

accepts :
    (period_id sequence_number : ℕ) (p q : PublisherPeriod)
    → accept_start_instance period_id sequence_number p ≡ ok q
    → (p.current ≡ some period_id)
      × IsPast p.last_sequence sequence_number
      × (q ≡ record { current = some period_id; last_sequence = some sequence_number })
unfolding accept_start_instance
accepts period_id sequence_number p q h = ground arith

admits :
    (period_id sequence_number : ℕ) (p : PublisherPeriod)
    → p.current ≡ some period_id
    → IsPast p.last_sequence sequence_number
    → accept_start_instance period_id sequence_number p
      ≡ ok (record { current = some period_id; last_sequence = some sequence_number })
unfolding accept_start_instance
admits period_id sequence_number p e h = ground arith

-- An instance is admitted exactly when its period is the current one and its sequence number passes
-- the last one accepted in that period; the new state then holds this period and this number.
pub accept_start_instance_iff :
    (period_id sequence_number : ℕ) (p q : PublisherPeriod)
    → (accept_start_instance period_id sequence_number p ≡ ok q) ↔ (
        (p.current ≡ some period_id)
        × IsPast p.last_sequence sequence_number
        × (q ≡ record { current = some period_id; last_sequence = some sequence_number }))
accept_start_instance_iff period_id sequence_number p q = (
  accepts period_id sequence_number p q,
  λ h. admits period_id sequence_number p h.0 h.1 ∙ ap ok (sym h.2),
)

-- The messages that touch the period.
pub data Event : Type 0 where
  starts : ℕ → Event
  closes : Event
  instances : ℕ → ℕ → Event

abbrev after : PublisherPeriod → Result CoordinatorError PublisherPeriod → PublisherPeriod
after p (ok q) = q
after p (err e) = p

pub step : PublisherPeriod → Event → PublisherPeriod
step p (starts period_id) = start period_id p
step p closes = close p
step p (instances period_id n) = after p (accept_start_instance period_id n p)

-- The admitted instances of a history, in order, as (period, sequence).
abbrev note : ℕ → ℕ → Result CoordinatorError PublisherPeriod → List (ℕ × ℕ) → List (ℕ × ℕ)
note period_id n (ok q) rest = (period_id, n) ∷ rest
note period_id n (err e) rest = rest

pub admitted : PublisherPeriod → List Event → List (ℕ × ℕ)
admitted p [] = []
admitted p (starts period_id ∷ es) = admitted (step p (starts period_id)) es
admitted p (closes ∷ es) = admitted (step p closes) es
admitted p (instances period_id n ∷ es) =
    note period_id n (accept_start_instance period_id n p)
      (admitted (step p (instances period_id n)) es)

-- Events that neither start nor close a period.
abbrev AreInstances : List Event → Type 0
AreInstances [] = Unit
AreInstances (instances period_id n ∷ es) = AreInstances es
AreInstances (_ ∷ es) = ⊥

-- Every entry is of the period `k`, and the sequence numbers rise strictly from above `last`.
abbrev pub RisesIn : ℕ → Option ℕ → List (ℕ × ℕ) → Type 0
RisesIn k last [] = Unit
RisesIn k last ((period_id, n) ∷ es) = (period_id ≡ k) × IsPast last n × RisesIn k (some n) es

instance_RisesIn :
    (period_id n : ℕ) (es : List Event) (p : PublisherPeriod) (k : ℕ)
    (r : Result CoordinatorError PublisherPeriod)
    → ((q : PublisherPeriod) → q.current ≡ some k → RisesIn k q.last_sequence (admitted q es))
    → p.current ≡ some k
    → accept_start_instance period_id n p ≡ r
    → RisesIn k p.last_sequence (note period_id n r (admitted (after p r) es))
instance_RisesIn period_id n es p k (err x) ih e h = ih p e
instance_RisesIn period_id n es p k (ok q) ih e h =
    let (same, past, made) = accepts period_id n p q h in
    (ground arith, past, rw made (ih _ (ground arith)))

-- Within a period, whatever the publisher sends and in whatever order, the admitted instances are of
-- that period and their sequence numbers rise strictly, so none is admitted twice.
pub admitted-RisesIn :
    (es : List Event) (p : PublisherPeriod) (k : ℕ)
    → AreInstances es
    → p.current ≡ some k
    → RisesIn k p.last_sequence (admitted p es)
unfolding admitted step
admitted-RisesIn [] p k i e = tt
admitted-RisesIn (starts period_id ∷ es) p k i e = absurd i
admitted-RisesIn (closes ∷ es) p k i e = absurd i
admitted-RisesIn (instances period_id n ∷ es) p k i e =
    instance_RisesIn period_id n es p k (accept_start_instance period_id n p)
      (λ q h. admitted-RisesIn es q k i h) e refl

-- Before a period starts, and after it closes, no instance is admitted.
pub admitted-idle : (es : List Event) → AreInstances es → admitted idle es ≡ []
unfolding admitted step accept_start_instance
admitted-idle [] i = refl
admitted-idle (starts k ∷ es) i = absurd i
admitted-idle (closes ∷ es) i = absurd i
admitted-idle (instances k n ∷ es) i = admitted-idle es i
