-- ===== src/Nonce/Tests.antt =====
-- Runs of the nonce manager, and instances of its theorems.
use sidecar.Prelude.{ℕ, ◌≤◌, max, ◌≡◌, refl, some, List, [], ◌∷◌, inr, Bytes, arith, bytes_eq}
use sidecar.Prelude.Map
use sidecar.Prelude.Result.{ok}
use sidecar.Nonce.{
  Inner, Call, reserves, aborts, fresh, reserve, step, run, claim, raise_floor, release_aborted,
  release_confirmed, remove_run, recycle_run, pick_start, saturating_add, live_end,
}
use sidecar.Nonce.Exclusive.{IsExclusive, run-IsExclusive}
use sidecar.Nonce.Coverage.{IsCovered}
use sidecar.Nonce.Coverage.History.{run-HasNoGap}
use sidecar.Nonce.Floor.{reserve_bounds}

abbrev xt1 : Bytes
xt1 = 1 ∷ []

abbrev xt2 : Bytes
xt2 = 2 ∷ []

abbrev xt3 : Bytes
xt3 = 3 ∷ []

program : Unit {0}
unfolding run step reserve claim raise_floor release_aborted release_confirmed remove_run
    recycle_run pick_start live_end
program = tt

-- Two reservations, and an abort of the first.
abbrev history : List Call
history = reserves xt1 2 (ok 7) ∷ reserves xt2 1 (ok 7) ∷ aborts xt1 ∷ []

history_pool : (run fresh history).recycled ≡ 7 ∷ 8 ∷ []
unfolding program
history_pool = refl

recycled_next : (reserve xt3 1 (ok 7) (run fresh history)).0 ≡ ok 7
unfolding program
recycled_next = refl

after_live : (reserve xt3 2 (ok 7) (run fresh history)).0 ≡ ok 10
unfolding program
after_live = refl

caught_up : (reserve xt3 1 (ok 12) (run fresh history)).0 ≡ ok 12
unfolding program
caught_up = refl

run-IsExclusive_example : IsExclusive (run fresh history)
run-IsExclusive_example = run-IsExclusive history

run-HasNoGap_example : IsCovered (run fresh history) 8
unfolding program
run-HasNoGap_example =
    run-HasNoGap history 8 9
      (
        record { asks = omega arith; absent = refl; fits = omega arith },
        (record { asks = omega arith; absent = refl; fits = omega arith }, (tt, tt)),
      )
      (omega arith) (omega arith)
      (inr (
        xt2,
        record {
          range = record { start = 9; end = 10 };
          found = refl;
          above = omega arith;
          below = omega arith;
        },
      ))

reserve_bounds_example :
    (start : ℕ) × (s' : Inner) × (reserve xt3 1 (ok 7) (run fresh history) ≡ (ok start, s'))
    × (max (run fresh history).canonical_floor 7 ≤ start)
    × (s'.canonical_floor ≡ max (run fresh history).canonical_floor 7)
    × (Map.lookup xt3 s'.live ≡ some (record { start = start; end = saturating_add start 1 }))
reserve_bounds_example = reserve_bounds xt3 1 7 (run fresh history)
