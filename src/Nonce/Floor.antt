-- ===== src/Nonce/Floor.antt =====
-- The canonical floor, and which nonces a reservation gets.
use sidecar.Prelude.{
  ℕ, zero, suc, ◌+◌, ◌-◌, ◌≤◌, ◌<◌, ◌≡◌, refl, max, ◌≢◌, true, some, List, [], ◌∷◌, Bytes, arith,
  leb, ltb, nat_beq, keep_if, bytes_eq, beq_refl, Option-cases, Bool-cases, inl, inr,
}
use sidecar.Prelude.Map
use sidecar.Prelude.NatSet
use sidecar.Prelude.Result.{ok, err}
use sidecar.Nonce.{
  ReservedRange, Inner, Call, reserves, confirms, aborts, resets, fresh, live_end, max_end,
  raise_floor, pick_start, claim, reserve, saturating_add, release_confirmed, release_aborted,
  reset, abort_range, recycle_run, remove_run, step, run, first_or,
}
use sidecar.Nonce.Lanes.{contains-recycle_run, floor-le-max_end}

floor-le-first_or :
    (floor d : ℕ) (xs : List ℕ) → floor ≤ d → floor ≤ first_or (keep_if (λ n. leb floor n) xs) d
floor-le-first_or floor d [] h = h
floor-le-first_or floor d (y ∷ ys) h = ground (arith, floor-le-first_or floor d ys h)

floor-le-pick_start :
    (count c : ℕ) (s : Inner) → max s.canonical_floor c ≤ pick_start count (raise_floor c s)
unfolding pick_start raise_floor live_end
floor-le-pick_start count c s = elim (Bool-cases (nat_beq count 1)) [
  | inl one ↦ rw one (floor-le-first_or (max s.canonical_floor c) _ s.recycled at_end)
  | inr many ↦ rw many at_end
]
  where
    at_end :
        max s.canonical_floor c
        ≤ max_end
            (max s.canonical_floor c)
            (Map.retain (λ _ r. ltb (max s.canonical_floor c) r.end) s.live)
    at_end = floor-le-max_end _ _

-- A reservation succeeds whenever the chain answers. It starts at or above both the answer and the
-- old floor, and is recorded as exactly `count` nonces unless that would pass the largest `u64`.
pub reserve_bounds :
    (id : Bytes) (count c : ℕ) (s : Inner)
    → (start : ℕ) × (s' : Inner) × (reserve id count (ok c) s ≡ (ok start, s'))
      × (max s.canonical_floor c ≤ start)
      × (s'.canonical_floor ≡ max s.canonical_floor c)
      × (Map.lookup id s'.live ≡ some (record { start = start; end = saturating_add start count }))
unfolding reserve claim raise_floor
reserve_bounds id count c s =
    let start = pick_start count (raise_floor c s) in
    let range : ReservedRange = record { start = start; end = saturating_add start count } in
    (
      start,
      (claim id count (raise_floor c s)).1,
      refl,
      floor-le-pick_start count c s,
      refl,
      rw (Map.lookup-insert id id range (raise_floor c s).live, beq_refl id),
    )

confirm_floor :
    (id : Bytes) (s : Inner) → s.canonical_floor ≤ (release_confirmed id s).canonical_floor
unfolding release_confirmed
confirm_floor id s = ground arith

abort_floor : (id : Bytes) (s : Inner) → s.canonical_floor ≤ (release_aborted id s).canonical_floor
unfolding release_aborted
abort_floor id s = ground arith

-- Every call but a reset leaves the canonical floor where it is or raises it.
pub floor-le-step :
    (s : Inner) (c : Call) → c ≢ resets → s.canonical_floor ≤ (step s c).canonical_floor
unfolding step reserve claim raise_floor
floor-le-step s (reserves id count (ok c)) h = omega arith
floor-le-step s (reserves id count (err e)) h = omega arith
floor-le-step s (confirms id) h = confirm_floor id s
floor-le-step s (aborts id) h = abort_floor id s
floor-le-step s resets h = absurd (h refl)

Ascends-recycle_run :
    (floor rounds n : ℕ) (xs : List ℕ)
    → NatSet.Ascends 0 xs
    → NatSet.Ascends 0 (recycle_run floor rounds n xs)
unfolding recycle_run
Ascends-recycle_run floor zero n xs a = a
Ascends-recycle_run floor (suc rounds) n xs a =
    Ascends-recycle_run floor rounds (n + 1) _
      (ground (arith, NatSet.Ascends-insert 0 n xs (omega arith) a))

Ascends-remove_run :
    (rounds n : ℕ) (xs : List ℕ) → NatSet.Ascends 0 xs → NatSet.Ascends 0 (remove_run rounds n xs)
unfolding remove_run
Ascends-remove_run zero n xs a = a
Ascends-remove_run (suc rounds) n xs a =
    Ascends-remove_run rounds (n + 1) (NatSet.remove n xs) (NatSet.Ascends-remove 0 n xs a)

abbrev HasOrderedPool : Inner → Type 0
HasOrderedPool s = NatSet.Ascends 0 s.recycled

-- The pool stays in ascending order.
step-HasOrderedPool : (s : Inner) (c : Call) → HasOrderedPool s → HasOrderedPool (step s c)
unfolding step reserve claim raise_floor reset release_confirmed release_aborted
step-HasOrderedPool s (reserves id count (ok c)) a =
    Ascends-remove_run _ _ _
      (NatSet.Ascends-keep_if (λ n. leb (max s.canonical_floor c) n) 0 s.recycled a)
step-HasOrderedPool s (reserves id count (err e)) a = a
step-HasOrderedPool s (confirms id) a = ground arith
step-HasOrderedPool s (aborts id) a = elim (Option-cases (Map.lookup id s.live)) [
  | inl gone ↦ rw (release_aborted, gone, abort_range) a
  | inr (r, e) ↦ rw (release_aborted, e, abort_range) (Ascends-recycle_run _ _ _ s.recycled a)
]
step-HasOrderedPool s resets a = tt

run-HasOrderedPool : (cs : List Call) (s : Inner) → HasOrderedPool s → HasOrderedPool (run s cs)
unfolding run
run-HasOrderedPool [] s a = a
run-HasOrderedPool (c ∷ cs) s a = run-HasOrderedPool cs (step s c) (step-HasOrderedPool s c a)

first_or-le :
    (n d : ℕ) (xs : List ℕ) → NatSet.Ascends 0 xs → NatSet.contains n xs ≡ true → first_or xs d ≤ n
first_or-le n d [] a h = absurd (ground arith)
first_or-le n d (x ∷ xs) a h = NatSet.head-le-of_contains 0 x n xs a h

-- After an abort, the next single reservation gets a nonce that is no larger than any of the
-- aborted ones which the chain has not passed: aborted nonces are handed out again, smallest first.
pub abort_then_reserve :
    (cs : List Call) (id next : Bytes) (r : ReservedRange) (c n : ℕ)
    → Map.lookup id (run fresh cs).live ≡ some r
    → r.start ≤ n
    → n < r.end
    → (run fresh cs).canonical_floor ≤ n
    → c ≤ n
    → (start : ℕ) × ((reserve next 1 (ok c) (release_aborted id (run fresh cs))).0 ≡ ok start)
      × (start ≤ n)
unfolding reserve claim release_aborted step raise_floor
abort_then_reserve cs id next r c n e lo hi above answered =
    (pick_start 1 (raise_floor c t), refl, smallest)
  where
    s : Inner
    s = run fresh cs

    t : Inner
    t = release_aborted id s

    ordered : HasOrderedPool t
    ordered = step-HasOrderedPool s (aborts id) (run-HasOrderedPool cs fresh tt)

    pooled : (t.canonical_floor ≤ n) × (NatSet.contains n t.recycled ≡ true)
    pooled =
        rw (release_aborted, e, abort_range)
          (
            above,
            ground (
              arith,
              contains-recycle_run s.canonical_floor (r.end - r.start) r.start n s.recycled,
            ),
          )

    smallest : pick_start 1 (raise_floor c t) ≤ n
    smallest =
        first_or-le n _ _
          (NatSet.Ascends-keep_if (λ k. leb (max t.canonical_floor c) k) 0 t.recycled ordered)
          (ground (
            arith,
            pooled,
            NatSet.contains-keep_if (λ k. leb (max t.canonical_floor c) k) n t.recycled,
          ))
