-- ===== src/Prelude/Map.antt =====
-- `HashMap` and `BTreeMap`, as association lists in some order of iteration.
use Prim.Native.Nat.{◌+◌, ◌≤◌}
use mathlib.Core.Path.{◌≡◌, refl}
use mathlib.Core.Bool.{Bool, true, false}
use mathlib.Core.Option.{Option, none, some}
use mathlib.Core.List.{List, [], ◌∷◌}
use native.Mathlib.Omega.{arith}
use sidecar.Prelude.Tests.{if◌then◌else◌, is_some}
use sidecar.Prelude.Lists.{length}
use sidecar.Prelude.Equality.{Eq, ◌==◌}

abbrev pub Map {ℓ κ} : Type ℓ → Type κ → Type (ℓ ⊔ κ)
Map K V = List (K × V)

-- `Option::filter` and `Option::map`, in a form that computes.
abbrev pub filter_option {ℓ} : {A : Type ℓ} → (A → Bool) → Option A → Option A
filter_option p none = none
filter_option p (some a) = if p a then some a else none

abbrev pub map_option {ℓ κ} : {A : Type ℓ} {B : Type κ} → (A → B) → Option A → Option B
map_option f none = none
map_option f (some a) = some (f a)

module _ {ℓ κ} {K : Type ℓ} {V : Type κ} where
  -- `values_mut()`: every value is rewritten in place.
  abbrev pub map_values : (V → V) → Map K V → Map K V
  map_values f [] = []
  map_values f ((j, v) ∷ m) = (j, f v) ∷ map_values f m

  -- `retain`
  abbrev pub retain : (K → V → Bool) → Map K V → Map K V
  retain p [] = []
  retain p ((j, v) ∷ m) = if p j v then (j, v) ∷ retain p m else retain p m

  abbrev values : Map K V → List V
  values [] = []
  values ((j, v) ∷ m) = v ∷ values m

  abbrev pub keys : Map K V → List K
  keys [] = []
  keys ((j, v) ∷ m) = j ∷ keys m

  pub length-retain-le : (p : K → V → Bool) (m : Map K V) → length (retain p m) ≤ length m
  length-retain-le p [] = omega arith
  length-retain-le p ((j, v) ∷ m) = ground (arith, length-retain-le p m)

module _ {ℓ κ} {K : Type ℓ} {V : Type κ} ⦃e : Eq K⦄ where
  abbrev pub lookup : K → Map K V → Option V
  lookup k [] = none
  lookup k ((j, v) ∷ m) = if j == k then some v else lookup k m

  abbrev pub contains_key : K → Map K V → Bool
  contains_key k m = is_some (lookup k m)

  abbrev pub insert : K → V → Map K V → Map K V
  insert k v [] = (k, v) ∷ []
  insert k v ((j, w) ∷ m) = if j == k then (j, v) ∷ m else (j, w) ∷ insert k v m

  abbrev pub remove : K → Map K V → Map K V
  remove k [] = []
  remove k ((j, w) ∷ m) = let rest = remove k m in if j == k then rest else (j, w) ∷ rest

  -- `get_mut` followed by a write through the reference
  abbrev pub modify : K → (V → V) → Map K V → Map K V
  modify k f [] = []
  modify k f ((j, w) ∷ m) = if j == k then (j, f w) ∷ m else (j, w) ∷ modify k f m

  -- No key stands twice.
  abbrev pub HasDistinctKeys : Map K V → Type 0
  HasDistinctKeys [] = Unit
  HasDistinctKeys ((j, w) ∷ m) = (contains_key j m ≡ false) × HasDistinctKeys m

  pub lookup-insert :
      (k j : K) (v : V) (m : Map K V)
      → lookup j (insert k v m) ≡ (if k == j then some v else lookup j m)
  lookup-insert k j v [] = refl
  lookup-insert k j v ((i, w) ∷ m) =
      ground (arith, e.beq_iff k j, e.beq_iff i k, e.beq_iff i j, lookup-insert k j v m)

  pub lookup-remove :
      (k j : K) (m : Map K V) → lookup j (remove k m) ≡ (if k == j then none else lookup j m)
  lookup-remove k j [] = ground arith
  lookup-remove k j ((i, w) ∷ m) =
      ground (arith, e.beq_iff k j, e.beq_iff i k, e.beq_iff i j, lookup-remove k j m)

  pub lookup-modify :
      (k j : K) (f : V → V) (m : Map K V)
      → lookup j (modify k f m) ≡ (if k == j then map_option f (lookup j m) else lookup j m)
  lookup-modify k j f [] = ground arith
  lookup-modify k j f ((i, w) ∷ m) =
      ground (arith, e.beq_iff k j, e.beq_iff i k, e.beq_iff i j, lookup-modify k j f m)

  pub lookup-map_values :
      (f : V → V) (j : K) (m : Map K V) → lookup j (map_values f m) ≡ map_option f (lookup j m)
  lookup-map_values f j [] = refl
  lookup-map_values f j ((i, w) ∷ m) = ground (arith, lookup-map_values f j m)

  retain_missing :
      (p : K → V → Bool) (j : K) (m : Map K V) → lookup j m ≡ none → lookup j (retain p m) ≡ none
  retain_missing p j [] h = refl
  retain_missing p j ((i, w) ∷ m) h = ground (arith, retain_missing p j m)

  pub lookup-retain :
      (p : K → V → Bool) (j : K) (m : Map K V)
      → HasDistinctKeys m
      → lookup j (retain p m) ≡ filter_option (p j) (lookup j m)
  lookup-retain p j [] d = refl
  lookup-retain p j ((i, w) ∷ m) d =
      ground (arith, e.beq_iff i j, lookup-retain p j m, retain_missing p j m)

  pub HasDistinctKeys-insert :
      (k : K) (v : V) (m : Map K V) → HasDistinctKeys m → HasDistinctKeys (insert k v m)
  HasDistinctKeys-insert k v [] d = (refl, tt)
  HasDistinctKeys-insert k v ((i, w) ∷ m) d =
      ground
        (arith, e.beq_iff i k, e.beq_iff k i, lookup-insert k i v m, HasDistinctKeys-insert k v m)

  pub HasDistinctKeys-remove :
      (k : K) (m : Map K V) → HasDistinctKeys m → HasDistinctKeys (remove k m)
  HasDistinctKeys-remove k [] d = tt
  HasDistinctKeys-remove k ((i, w) ∷ m) d =
      ground (arith, e.beq_iff k i, lookup-remove k i m, HasDistinctKeys-remove k m)

  pub HasDistinctKeys-modify :
      (k : K) (f : V → V) (m : Map K V) → HasDistinctKeys m → HasDistinctKeys (modify k f m)
  HasDistinctKeys-modify k f [] d = tt
  HasDistinctKeys-modify k f ((i, w) ∷ m) d =
      ground (arith, e.beq_iff k i, lookup-modify k i f m, HasDistinctKeys-modify k f m)

  pub HasDistinctKeys-map_values :
      (f : V → V) (m : Map K V) → HasDistinctKeys m → HasDistinctKeys (map_values f m)
  HasDistinctKeys-map_values f [] d = tt
  HasDistinctKeys-map_values f ((i, w) ∷ m) d =
      ground (arith, lookup-map_values f i m, HasDistinctKeys-map_values f m)

  pub HasDistinctKeys-retain :
      (p : K → V → Bool) (m : Map K V) → HasDistinctKeys m → HasDistinctKeys (retain p m)
  HasDistinctKeys-retain p [] d = tt
  HasDistinctKeys-retain p ((i, w) ∷ m) d =
      ground (arith, lookup-retain p i m, retain_missing p i m, HasDistinctKeys-retain p m)

  pub length-insert-le : (k : K) (v : V) (m : Map K V) → length (insert k v m) ≤ length m + 1
  length-insert-le k v [] = omega arith
  length-insert-le k v ((i, w) ∷ m) = ground (arith, length-insert-le k v m)

  -- An insert at a key that is there replaces its value.
  pub length-insert_present :
      (k : K) (v : V) (m : Map K V) → contains_key k m ≡ true → length (insert k v m) ≡ length m
  length-insert_present k v [] h = ground arith
  length-insert_present k v ((i, w) ∷ m) h = ground (arith, length-insert_present k v m)

  pub length-remove-le : (k : K) (m : Map K V) → length (remove k m) ≤ length m
  length-remove-le k [] = omega arith
  length-remove-le k ((i, w) ∷ m) = ground (arith, length-remove-le k m)

  length-remove_present :
      (k : K) (m : Map K V)
      → HasDistinctKeys m
      → contains_key k m ≡ true
      → length (remove k m) + 1 ≡ length m
  length-remove_present k [] d h = ground arith
  length-remove_present k ((i, w) ∷ m) d h =
      ground (arith, e.beq_iff i k, length-remove_present k m, remove_missing k m, contains_same m)
    where
      remove_missing : (k : K) (m : Map K V) → contains_key k m ≡ false → remove k m ≡ m
      remove_missing k [] h = refl
      remove_missing k ((j, v) ∷ m) h = ground (arith, remove_missing k m)

      contains_same : (m : Map K V) → i ≡ k → contains_key i m ≡ contains_key k m
      contains_same m p = λ t. contains_key (p t) m

-- The keys of `m` are among those of `n`.
module _ {ℓ κ ι} {K : Type ℓ} {V : Type κ} {W : Type ι} ⦃e : Eq K⦄ where
  abbrev pub HasKeysIn : Map K V → Map K W → Type ℓ
  HasKeysIn m n = (k : K) → contains_key k m ≡ true → contains_key k n ≡ true

  inside_removed :
      (k : K) (v : V) (m : Map K V) (n : Map K W)
      → HasDistinctKeys ((k, v) ∷ m)
      → HasKeysIn ((k, v) ∷ m) n
      → HasKeysIn m (remove k n)
  inside_removed k v m n d h j p = ground (arith, lookup-remove k j n, e.beq_iff k j, h j, same_key)
    where
      same_key : k ≡ j → contains_key k m ≡ contains_key j m
      same_key q = λ t. contains_key (q t) m

  pub length-le-of_keys_in :
      (m : Map K V) (n : Map K W)
      → HasDistinctKeys m
      → HasDistinctKeys n
      → HasKeysIn m n
      → length m ≤ length n
  length-le-of_keys_in [] n dm dn h = omega arith
  length-le-of_keys_in ((k, v) ∷ m) n dm dn h = omega (
    arith,
    length-remove_present k n dn (h k (ground (arith, e.beq_iff k k))),
    length-le-of_keys_in m (remove k n) dm.1 (HasDistinctKeys-remove k n dn)
        (inside_removed k v m n dm h),
  )

  -- The pigeonhole: as many keys as `n` has, all of them in `n`, are all the keys of `n`.
  pub keys_in_of_length-le :
      (m : Map K V) (n : Map K W)
      → HasDistinctKeys m
      → HasDistinctKeys n
      → HasKeysIn m n
      → length n ≤ length m
      → (k : K) → contains_key k n ≡ true
      → contains_key k m ≡ true
  keys_in_of_length-le [] [] dm dn h le j p = p
  keys_in_of_length-le [] ((i, w) ∷ n) dm dn h le j p = absurd (omega arith)
  keys_in_of_length-le ((k, v) ∷ m) n dm dn h le j p = ground (
    arith,
    lookup-remove k j n,
    keys_in_of_length-le m (remove k n) dm.1 (HasDistinctKeys-remove k n dn)
        (inside_removed k v m n dm h) shorter j,
  )
    where
      shorter : length (remove k n) ≤ length m
      shorter = omega (arith, length-remove_present k n dn (h k (ground (arith, e.beq_iff k k))))
