-- ===== src/Nonce/Coverage.antt =====
-- No nonce is lost: the lane from the floor up has no gap that neither a reservation nor the
-- recycled pool accounts for, so a later transaction is never stuck behind a missing nonce.
pub mod Trim
pub mod Claim
pub mod Release
pub mod History
use sidecar.Prelude.{
  ℕ, ◌+◌, ◌-◌, ◌≤◌, ◌<◌, ◌≡◌, refl, max, ◌≢◌, ◌⊎◌, inl, inr, Bool, true, false, Option, none, some,
  List, [], ◌∷◌, Bytes, arith, leb, ltb, nat_beq, if◌then◌else◌, bytes_eq, bytes_beq_iff, beq_refl,
  Option-cases, Bool-cases, ◌==◌,
}
use sidecar.Prelude.Map
use sidecar.Prelude.Map.{Map}
use sidecar.Prelude.NatSet
use sidecar.Prelude.Result.{ok, err}
use sidecar.Nonce.{
  ReservedRange, Inner, Call, reserves, confirms, aborts, resets, fresh, live_end, max_end, u64_max,
  raise_floor, pick_start, claim, reserve, saturating_add, release_confirmed, release_aborted,
  reset, confirm_range, abort_range, step, run, remove_run,
}
use sidecar.Nonce.Lanes.{contains-remove_run, contains-recycle_run, floor-le-max_end}
use sidecar.Nonce.Exclusive.{Holds}

-- `n` is reserved or waits in the pool.
abbrev pub IsCovered : Inner → ℕ → Type 0
IsCovered s n = (NatSet.contains n s.recycled ≡ true) ⊎ ((i : Bytes) × Holds s i n)

pub record HasNoGap (s : Inner) : Type 0 where
  pub distinct : Map.HasDistinctKeys s.live
  pub nonempty : (i : Bytes) (r : ReservedRange) → Map.lookup i s.live ≡ some r → r.start < r.end
  pub filled : (n m : ℕ) → s.canonical_floor ≤ n → n ≤ m → IsCovered s m → IsCovered s n

pub fresh-HasNoGap : HasNoGap fresh
fresh-HasNoGap = record {
  distinct = tt;
  nonempty = λ i r e. absurd (impossible e);
  filled = λ n m lo le c. absurd (nothing c);
}
  where
    impossible : {r : ReservedRange} → none ≡ some r → ⊥
    impossible e = cc

    nothing : {m : ℕ} → IsCovered fresh m → ⊥
    nothing (inl e) = cc
    nothing (inr (i, h)) = impossible h.found

-- The reservation is new, asks for something, and does not run into the largest `u64`.
pub record IsFreshClaim (id : Bytes) (count : ℕ) (s : Inner) : Type 0 where
  pub asks : 0 < count
  pub absent : Map.lookup id s.live ≡ none
  pub fits : pick_start count s + count ≤ u64_max
