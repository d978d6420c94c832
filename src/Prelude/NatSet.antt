-- ===== src/Prelude/NatSet.antt =====
-- `BTreeSet<u64>`: the members in ascending order.
use Prim.Native.Nat.{ℕ, suc, ◌≤◌}
use native.Mathlib.Decide.{ℕ_discrete}
use mathlib.Core.Path.{◌≡◌, refl}
use mathlib.Core.Bool.{Bool, true, false, ◌||◌}
use mathlib.Core.List.{List, [], ◌∷◌}
use native.Mathlib.Omega.{arith}
use sidecar.Prelude.Tests.{if◌then◌else◌, ltb, nat_beq}
use sidecar.Prelude.Lists.{keep_if}

abbrev pub contains : ℕ → List ℕ → Bool
contains n [] = false
contains n (x ∷ xs) = nat_beq x n || contains n xs

abbrev pub insert : ℕ → List ℕ → List ℕ
insert n [] = n ∷ []
insert n (x ∷ xs) = if ltb n x then n ∷ x ∷ xs else if nat_beq x n then x ∷ xs else x ∷ insert n xs

abbrev pub remove : ℕ → List ℕ → List ℕ
remove n [] = []
remove n (x ∷ xs) = if nat_beq x n then remove n xs else x ∷ remove n xs

-- Every member is above `b`, and the members ascend.
abbrev pub Ascends : ℕ → List ℕ → Type 0
Ascends b [] = Unit
Ascends b (x ∷ xs) = (b ≤ x) × Ascends (suc x) xs

pub contains-insert :
    (n k : ℕ) (xs : List ℕ) → contains k (insert n xs) ≡ nat_beq n k || contains k xs
contains-insert n k [] = refl
contains-insert n k (x ∷ xs) = ground (arith, contains-insert n k xs)

pub contains-remove :
    (n k : ℕ) (xs : List ℕ)
    → contains k (remove n xs) ≡ (if nat_beq n k then false else contains k xs)
contains-remove n k [] = ground arith
contains-remove n k (x ∷ xs) = ground (arith, contains-remove n k xs)

pub contains-keep_if :
    (p : ℕ → Bool) (k : ℕ) (xs : List ℕ)
    → contains k (keep_if p xs) ≡ (if p k then contains k xs else false)
contains-keep_if p k [] = ground arith
contains-keep_if p k (x ∷ xs) = elim (dec x k) [
  | yes e ↦ rw e (ground (arith, contains-keep_if p k xs))
  | no e ↦ ground (arith, contains-keep_if p k xs)
]
  where
    dec : Discrete ℕ
    dec = ℕ_discrete

Ascends-mono : (a b : ℕ) (xs : List ℕ) → a ≤ b → Ascends b xs → Ascends a xs
Ascends-mono a b [] h s = tt
Ascends-mono a b (x ∷ xs) h s = (omega arith, s.1)

pub Ascends-insert : (b n : ℕ) (xs : List ℕ) → b ≤ n → Ascends b xs → Ascends b (insert n xs)
Ascends-insert b n [] h s = omega arith
Ascends-insert b n (x ∷ xs) h s = ground (arith, Ascends-insert (suc x) n xs)

pub Ascends-remove : (b n : ℕ) (xs : List ℕ) → Ascends b xs → Ascends b (remove n xs)
Ascends-remove b n [] s = tt
Ascends-remove b n (x ∷ xs) s =
    ground (arith, Ascends-remove (suc x) n xs, Ascends-mono b (suc x) (remove n xs))

pub Ascends-keep_if : (p : ℕ → Bool) (b : ℕ) (xs : List ℕ) → Ascends b xs → Ascends b (keep_if p xs)
Ascends-keep_if p b [] s = tt
Ascends-keep_if p b (x ∷ xs) s =
    ground (arith, Ascends-keep_if p (suc x) xs, Ascends-mono b (suc x) (keep_if p xs))

-- The first member is the least.
pub head-le-of_contains :
    (b x k : ℕ) (xs : List ℕ) → Ascends b (x ∷ xs) → contains k (x ∷ xs) ≡ true → x ≤ k
head-le-of_contains b x k [] s h = ground arith
head-le-of_contains b x k (y ∷ xs) s h = ground (arith, head-le-of_contains (suc x) y k xs)
