-- ===== src/Nonce.antt =====
-- crates/coordinator/coordinator/src/nonce_manager.rs: `DeferredNonceManager`. Each method runs
-- under the manager's mutex from its first to its last line, so it is one function of the state;
-- the answer of `fetch_canonical` is an argument of `reserve`.
mod Lanes
pub mod Exclusive
pub mod Coverage
pub mod Floor
mod Tests
use sidecar.Prelude.{
  ℕ, zero, suc, ◌+◌, ◌-◌, ◌^◌, min, max, Bool, true, false, Option, none, some, List, [], ◌∷◌,
  Bytes, leb, ltb, keep_if, nat_beq, if◌then◌else◌, bytes_eq,
}
use sidecar.Prelude.Map
use sidecar.Prelude.Map.{Map}
use sidecar.Prelude.NatSet
use sidecar.Prelude.Result.{Result, ok, err}
use sidecar.Errors.{CoordinatorError}

-- `start..end`, half open.
pub record ReservedRange : Type 0 where
  pub start : ℕ
  pub end : ℕ

pub record Inner : Type 0 where
  pub canonical_floor : ℕ
  pub initialized : Bool
  pub live : Map Bytes ReservedRange
  pub recycled : List ℕ

-- `Inner::default()`
abbrev pub fresh : Inner
fresh = record { canonical_floor = 0; initialized = false; live = []; recycled = [] }

abbrev pub u64_max : ℕ
u64_max = 2 ^ 64 - 1

-- `u64::saturating_add`
abbrev pub saturating_add : ℕ → ℕ → ℕ
saturating_add a b = min (a + b) u64_max

-- The largest end of a live range, or `floor`.
pub max_end : ℕ → Map Bytes ReservedRange → ℕ
max_end floor [] = floor
max_end floor ((_, r) ∷ m) = max r.end (max_end floor m)

unfoldable pub live_end : Inner → ℕ
unfolding max_end
live_end s = max_end s.canonical_floor s.live

-- The merge of a fetched nonce: the floor rises, and what lies below it is dropped.
unfoldable pub raise_floor : ℕ → Inner → Inner
raise_floor canonical s =
    let floor = max s.canonical_floor canonical in
    record {
      canonical_floor = floor;
      initialized = true;
      live = Map.retain (λ _ r. ltb floor r.end) s.live;
      recycled = keep_if (λ n. leb floor n) s.recycled;
    }

-- `for n in start..end { recycled.remove(&n) }`, for the given number of rounds.
unfoldable pub remove_run : ℕ → ℕ → List ℕ → List ℕ
remove_run zero n xs = xs
remove_run (suc rounds) n xs = remove_run rounds (n + 1) (NatSet.remove n xs)

abbrev pub first_or : List ℕ → ℕ → ℕ
first_or [] d = d
first_or (x ∷ xs) d = x

unfoldable pub pick_start : ℕ → Inner → ℕ
pick_start count s = if nat_beq count 1 then first_or s.recycled (live_end s) else live_end s

-- The part of `reserve` after the trims.
unfoldable pub claim : Bytes → ℕ → Inner → ℕ × Inner
unfolding pick_start
claim id count s =
    let start = pick_start count s in
    let end = saturating_add start count in
    (
      start,
      record s {
        live = Map.insert id (record { start = start; end = end }) s.live;
        recycled = remove_run (end - start) start s.recycled;
      },
    )

unfoldable pub reserve :
    Bytes → ℕ → Result CoordinatorError ℕ → Inner → Result CoordinatorError ℕ × Inner
reserve id count (err e) s = (err e, s)
reserve id count (ok canonical) s =
    let (start, s') = claim id count (raise_floor canonical s) in (ok start, s')

pub confirm_range : Bytes → Option ReservedRange → Inner → Inner
confirm_range id none s = s
confirm_range id (some r) s = record s {
  live = Map.remove id s.live;
  canonical_floor = max s.canonical_floor r.end;
}

pub release_confirmed : Bytes → Inner → Inner
unfolding confirm_range
release_confirmed id s = confirm_range id (Map.lookup id s.live) s

-- `for n in start..end { if n >= floor { recycled.insert(n) } }`
pub recycle_run : ℕ → ℕ → ℕ → List ℕ → List ℕ
recycle_run floor zero n xs = xs
recycle_run floor (suc rounds) n xs =
    recycle_run floor rounds (n + 1) (if leb floor n then NatSet.insert n xs else xs)

pub abort_range : Bytes → Option ReservedRange → Inner → Inner
abort_range id none s = s
abort_range id (some r) s = record s {
  live = Map.remove id s.live;
  recycled = recycle_run s.canonical_floor (r.end - r.start) r.start s.recycled;
}

pub release_aborted : Bytes → Inner → Inner
unfolding abort_range
release_aborted id s = abort_range id (Map.lookup id s.live) s

unfoldable pub reset : Inner → Inner
reset s = fresh

-- One call of the manager; the argument of `reserves` after the count is what the chain answers.
pub data Call : Type 0 where
  reserves : Bytes → ℕ → Result CoordinatorError ℕ → Call
  confirms : Bytes → Call
  aborts : Bytes → Call
  resets : Call

pub step : Inner → Call → Inner
step s (reserves id count answer) = (reserve id count answer s).1
step s (confirms id) = release_confirmed id s
step s (aborts id) = release_aborted id s
step s resets = reset s

-- A history of calls, in the order in which they take the lock.
pub run : Inner → List Call → Inner
run s [] = s
run s (c ∷ cs) = run (step s c) cs
