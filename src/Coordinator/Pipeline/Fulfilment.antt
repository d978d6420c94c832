-- ===== src/Coordinator/Pipeline/Fulfilment.antt =====
-- `fulfill_dependencies_from_mailbox` of pipeline/simulation.rs: the messages used, the dependencies
-- fulfilled, and their keys.
use sidecar.Prelude.{
  ℕ, ◌+◌, ◌≡◌, refl, ap, Bool, true, false, Option, none, some, List, [], ◌∷◌, arith, length,
  length-append, Bool-cases, inl, inr, suc, sym, ◌∙◌, ◌||◌, ◌==◌, ◌++◌,
}
use sidecar.Prelude.HashSet
use sidecar.Mailbox.Types.{CrossRollupDependency, MailboxMessage}
use sidecar.Mailbox.Wire.{WordCodec}
use sidecar.Mailbox.Matching.{
  DependencyKey, dependency_key, dependency_key_eq, dependency_key_beq_iff, matches_dependency,
}
use sidecar.Coordinator.Xt.{PendingXt}
use sidecar.Coordinator.Pipeline.{
  init_of, close_gap, keep_front, take_first, fulfil_with, fulfil_one, fulfil_all,
}

abbrev pub HasNoRepeat : List DependencyKey → Type 0
HasNoRepeat [] = Unit
HasNoRepeat (k ∷ ks) = (HashSet.contains k ks ≡ false) × HasNoRepeat ks

length-init_of : {A : Type 0} (x : A) (xs : List A) → length (init_of x xs) ≡ length xs
length-init_of x [] = refl
length-init_of x (y ∷ ys) = ap suc (length-init_of y ys)

length-close_gap : {A : Type 0} (xs : List A) → length (close_gap xs) ≡ length xs
length-close_gap [] = refl
length-close_gap (x ∷ xs) = ap suc (length-init_of x xs)

-- What is found passes the test, and one element is gone.
abbrev IsTaken : {A : Type 0} → (A → Bool) → List A → Option (A × List A) → Type 0
IsTaken p xs none = Unit
IsTaken p xs (some (a, rest)) = (p a ≡ true) × (length rest + 1 ≡ length xs)

keep_front-IsTaken :
    {A : Type 0} (p : A → Bool) (x : A) (xs : List A) (o : Option (A × List A))
    → IsTaken p xs o
    → IsTaken p (x ∷ xs) (keep_front x o)
keep_front-IsTaken p x xs none h = tt
keep_front-IsTaken p x xs (some (a, rest)) h = (h.0, ground arith)

take_first-IsTaken : {A : Type 0} (p : A → Bool) (xs : List A) → IsTaken p xs (take_first p xs)
take_first-IsTaken p [] = tt
take_first-IsTaken p (x ∷ xs) = elim (Bool-cases (p x)) [
  | inl e ↦ rw e (e, ground (arith, length-close_gap xs))
  | inr e ↦ rw e (keep_front-IsTaken p x xs (take_first p xs) (take_first-IsTaken p xs))
]

-- From a count and a transaction to the later ones: as many messages leave as dependencies come to
-- the fulfilled ones, and as many are counted.
abbrev pub Counts : ℕ × PendingXt → ℕ × PendingXt → Type 0
Counts (n, xt) (m, xt') =
    (length xt'.pending_mailbox + m ≡ length xt.pending_mailbox + n)
    × (length xt'.fulfilled_deps + n ≡ length xt.fulfilled_deps + m)

abbrev pub keys_of : List CrossRollupDependency → List DependencyKey
keys_of [] = []
keys_of (dep ∷ deps) = dependency_key dep ∷ keys_of deps

-- The set of keys is that of the dependencies fulfilled, and no two of them have the same key.
abbrev pub IsTracked : PendingXt → Type 0
IsTracked xt =
    ((key : DependencyKey)
      → HashSet.contains key xt.fulfilled_dep_keys
        ≡ HashSet.contains key (keys_of xt.fulfilled_deps))
    × HasNoRepeat (keys_of xt.fulfilled_deps)

contains-keys_of :
    (key : DependencyKey) (deps : List CrossRollupDependency) (dep : CrossRollupDependency)
    → HashSet.contains key (keys_of (deps ++ dep ∷ []))
      ≡ dependency_key dep == key || HashSet.contains key (keys_of deps)
contains-keys_of key [] dep = ground arith
contains-keys_of key (d ∷ deps) dep = ground (arith, contains-keys_of key deps dep)

HasNoRepeat-keys_of :
    (deps : List CrossRollupDependency) (dep : CrossRollupDependency)
    → HashSet.contains (dependency_key dep) (keys_of deps) ≡ false
    → HasNoRepeat (keys_of deps)
    → HasNoRepeat (keys_of (deps ++ dep ∷ []))
HasNoRepeat-keys_of [] dep h n = (refl, tt)
HasNoRepeat-keys_of (d ∷ deps) dep h n = (
  contains-keys_of (dependency_key d) deps dep
      ∙ ground (
        arith,
        n.0,
        dependency_key_beq_iff (dependency_key dep) (dependency_key d),
        dependency_key_beq_iff (dependency_key d) (dependency_key dep),
      ),
  HasNoRepeat-keys_of deps dep (ground arith) n.1,
)

module _ (c : WordCodec) where
  fulfil_with-Counts :
      (dep : CrossRollupDependency) (n : ℕ) (xt : PendingXt)
      (o : Option (MailboxMessage × List MailboxMessage))
      → IsTaken (λ msg. matches_dependency c msg dep) xt.pending_mailbox o
      → Counts (n, xt) (fulfil_with dep o (n, xt))
  fulfil_with-Counts dep n xt none h = (refl, refl)
  fulfil_with-Counts dep n xt (some (msg, rest)) h = (
    ground arith,
    ground
        (arith, length-append xt.fulfilled_deps (record dep { payload = some msg.payload } ∷ [])),
  )

  fulfil_one-Counts :
      (dep : CrossRollupDependency) (n : ℕ) (xt : PendingXt)
      → Counts (n, xt) (fulfil_one c dep (n, xt))
  unfolding fulfil_one
  fulfil_one-Counts dep n xt =
      elim (Bool-cases (HashSet.contains (dependency_key dep) xt.fulfilled_dep_keys)) [
        | inl e ↦ rw e (refl, refl)
        | inr e ↦ rw e (
            fulfil_with-Counts dep n xt
              (take_first (λ msg. matches_dependency c msg dep) xt.pending_mailbox)
              (take_first-IsTaken (λ msg. matches_dependency c msg dep) xt.pending_mailbox))
      ]

  Counts-trans : (a b d : ℕ × PendingXt) → Counts a b → Counts b d → Counts a d
  Counts-trans a b d f g = (omega arith, omega arith)

  pub fulfil_all-Counts :
      (deps : List CrossRollupDependency) (r : ℕ × PendingXt) → Counts r (fulfil_all c deps r)
  unfolding fulfil_all
  fulfil_all-Counts [] r = (refl, refl)
  fulfil_all-Counts (dep ∷ deps) r =
      Counts-trans r (fulfil_one c dep r) (fulfil_all c deps (fulfil_one c dep r))
        (fulfil_one-Counts dep r.0 r.1) (fulfil_all-Counts deps (fulfil_one c dep r))

  fulfil_with-IsTracked :
      (dep : CrossRollupDependency) (n : ℕ) (xt : PendingXt)
      (o : Option (MailboxMessage × List MailboxMessage))
      → HashSet.contains (dependency_key dep) xt.fulfilled_dep_keys ≡ false
      → IsTracked xt
      → IsTracked (fulfil_with dep o (n, xt)).1
  fulfil_with-IsTracked dep n xt none e t = t
  fulfil_with-IsTracked dep n xt (some (msg, rest)) e t = (
    λ key.
        ap (λ b. dependency_key dep == key || b) (t.0 key)
        ∙ sym (contains-keys_of key xt.fulfilled_deps (record dep { payload = some msg.payload })),
    HasNoRepeat-keys_of xt.fulfilled_deps (record dep { payload = some msg.payload })
        (sym (t.0 (dependency_key dep)) ∙ e) t.1,
  )

  fulfil_one-IsTracked :
      (dep : CrossRollupDependency) (r : ℕ × PendingXt)
      → IsTracked r.1
      → IsTracked (fulfil_one c dep r).1
  unfolding fulfil_one
  fulfil_one-IsTracked dep (n, xt) t =
      elim (Bool-cases (HashSet.contains (dependency_key dep) xt.fulfilled_dep_keys)) [
        | inl e ↦ rw e t
        | inr e ↦ rw e (
            fulfil_with-IsTracked dep n xt
              (take_first (λ msg. matches_dependency c msg dep) xt.pending_mailbox) e t)
      ]

  fulfil_all-IsTracked :
      (deps : List CrossRollupDependency) (r : ℕ × PendingXt)
      → IsTracked r.1
      → IsTracked (fulfil_all c deps r).1
  unfolding fulfil_all
  fulfil_all-IsTracked [] r t = t
  fulfil_all-IsTracked (dep ∷ deps) r t =
      fulfil_all-IsTracked deps (fulfil_one c dep r) (fulfil_one-IsTracked dep r t)

  -- For a transaction whose set of keys is that of the dependencies fulfilled, which all have
  -- different keys: however many dependencies are asked for, as many messages leave its mailbox as
  -- dependencies are added to the fulfilled ones, this is the number reported, the fulfilled
  -- dependencies still have different keys, even if one is asked for twice, and the set is that of
  -- their keys.
  pub fulfil_all-IsFulfilling :
      (deps : List CrossRollupDependency) (r : ℕ × PendingXt)
      → IsTracked r.1
      → Counts r (fulfil_all c deps r) × IsTracked (fulfil_all c deps r).1
  fulfil_all-IsFulfilling deps r t = (fulfil_all-Counts deps r, fulfil_all-IsTracked deps r t)
