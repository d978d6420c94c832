-- ===== src/Nonce/Lanes.antt =====
-- The loops of the nonce manager, and the bounds of `live_end`.
use sidecar.Prelude.{
  ℕ, zero, suc, ◌+◌, ◌≤◌, ◌≡◌, false, ◌&&◌, ◌||◌, some, List, [], ◌∷◌, Bytes, arith, leb, ltb,
  if◌then◌else◌, bytes_eq,
}
use sidecar.Prelude.Map
use sidecar.Prelude.Map.{Map}
use sidecar.Prelude.NatSet
use sidecar.Nonce.{ReservedRange, max_end, remove_run, recycle_run}

pub contains-remove_run :
    (rounds n k : ℕ) (xs : List ℕ)
    → NatSet.contains k (remove_run rounds n xs)
      ≡ (if leb n k && ltb k (n + rounds) then false else NatSet.contains k xs)
unfolding remove_run
contains-remove_run zero n k xs = ground arith
contains-remove_run (suc rounds) n k xs = ground (
  arith,
  contains-remove_run rounds (n + 1) k (NatSet.remove n xs),
  NatSet.contains-remove n k xs,
)

pub contains-recycle_run :
    (floor rounds n k : ℕ) (xs : List ℕ)
    → NatSet.contains k (recycle_run floor rounds n xs)
      ≡ NatSet.contains k xs || (leb floor k && leb n k && ltb k (n + rounds))
unfolding recycle_run
contains-recycle_run floor zero n k xs = ground arith
contains-recycle_run floor (suc rounds) n k xs = ground (
  arith,
  contains-recycle_run floor rounds (n + 1) k (if leb floor n then NatSet.insert n xs else xs),
  NatSet.contains-insert n k xs,
)

pub floor-le-max_end : (floor : ℕ) (m : Map Bytes ReservedRange) → floor ≤ max_end floor m
unfolding max_end
floor-le-max_end floor [] = omega arith
floor-le-max_end floor ((i, r) ∷ m) = omega (arith, floor-le-max_end floor m)

pub end-le-max_end :
    (floor : ℕ) (m : Map Bytes ReservedRange) (i : Bytes) (r : ReservedRange)
    → Map.lookup i m ≡ some r
    → r.end ≤ max_end floor m
unfolding max_end
end-le-max_end floor [] i r h = ground arith
end-le-max_end floor ((j, s) ∷ m) i r h = ground (arith, end-le-max_end floor m i r)
