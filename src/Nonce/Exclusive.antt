-- ===== src/Nonce/Exclusive.antt =====
-- No nonce is held twice: not by two transactions, and not by one and the recycled pool.
use sidecar.Prelude.{
  ℕ, ◌-◌, max, ◌≤◌, ◌<◌, ◌≡◌, refl, ◌≢◌, ◌⊎◌, inl, inr, false, Option, none, some, List, [], ◌∷◌,
  Bytes, arith, leb, ltb, if◌then◌else◌, bytes_eq, bytes_beq_iff, Option-cases, Bool-cases, ◌==◌,
}
use sidecar.Prelude.Map
use sidecar.Prelude.NatSet
use sidecar.Prelude.Result.{ok, err}
use sidecar.Nonce.{
  ReservedRange, Inner, Call, reserves, confirms, aborts, resets, fresh, live_end, raise_floor,
  pick_start, claim, reserve, saturating_add, release_confirmed, release_aborted, reset,
  confirm_range, abort_range, step, run, remove_run,
}
use sidecar.Nonce.Lanes.{contains-remove_run, contains-recycle_run, end-le-max_end}

-- The nonce `n` is reserved for the transaction `i`.
pub record Holds (s : Inner) (i : Bytes) (n : ℕ) : Type 0 where
  pub range : ReservedRange
  pub found : Map.lookup i s.live ≡ some range
  pub above : range.start ≤ n
  pub below : n < range.end

pub record IsExclusive (s : Inner) : Type 0 where
  pub distinct : Map.HasDistinctKeys s.live
  pub disjoint : (i j : Bytes) (n : ℕ) → Holds s i n → Holds s j n → i ≡ j
  pub apart : (i : Bytes) (n : ℕ) → Holds s i n → NatSet.contains n s.recycled ≡ false

fresh-IsExclusive : IsExclusive fresh
fresh-IsExclusive = record {
  distinct = tt;
  disjoint = λ i j n h k. absurd (absurd_found h.found);
  apart = λ i n h. refl;
}
  where
    absurd_found : {r : ReservedRange} → none ≡ some r → ⊥
    absurd_found e = cc

-- What a trimmed state holds, the state held before.
Holds-raise_floor :
    (c : ℕ) (s : Inner) (i : Bytes) (n : ℕ)
    → Map.HasDistinctKeys s.live
    → Holds (raise_floor c s) i n
    → Holds s i n
unfolding raise_floor
Holds-raise_floor c s i n d h = record {
  range = h.range;
  found =
      ground
        (arith, h.found, Map.lookup-retain (λ _ r. ltb (max s.canonical_floor c) r.end) i s.live d);
  above = h.above;
  below = h.below;
}

raise_floor-IsExclusive : (c : ℕ) (s : Inner) → IsExclusive s → IsExclusive (raise_floor c s)
unfolding raise_floor
raise_floor-IsExclusive c s v = record {
  distinct = Map.HasDistinctKeys-retain (λ _ r. ltb _ r.end) s.live v.distinct;
  disjoint = λ i j n h k.
      v.disjoint i j n (Holds-raise_floor c s i n v.distinct h)
        (Holds-raise_floor c s j n v.distinct k);
  apart = λ i n h. ground (
    arith,
    v.apart i n (Holds-raise_floor c s i n v.distinct h),
    NatSet.contains-keep_if (λ n. leb (max s.canonical_floor c) n) n s.recycled,
  );
}

-- The nonces that `claim` hands out are held by nobody.
claim_clear :
    (count : ℕ) (s : Inner) (i : Bytes) (n : ℕ)
    → IsExclusive s
    → Holds s i n
    → pick_start count s ≤ n
    → n < saturating_add (pick_start count s) count
    → ⊥
unfolding pick_start live_end
claim_clear count s i n v h lo hi =
    ground (arith, v.apart i n h, end-le-max_end s.canonical_floor s.live i h.range h.found)

Holds-claim :
    (id : Bytes) (count : ℕ) (s : Inner) (i : Bytes) (n : ℕ)
    → Holds (claim id count s).1 i n
    → ((id ≡ i) × (pick_start count s ≤ n) × (n < saturating_add (pick_start count s) count))
      ⊎ Holds s i n
unfolding claim
Holds-claim id count s i n h = elim (Bool-cases (id == i)) [
  | inl same ↦
      inl (ground (arith, bytes_beq_iff id i, found), ground (arith, found), ground (arith, found))
  | inr other ↦
      inr (record {
        range = h.range;
        found = ground (arith, found);
        above = h.above;
        below = h.below;
      })
]
  where
    start : ℕ
    start = pick_start count s

    found :
        (if id == i
          then some (record { start = start; end = saturating_add start count })
          else Map.lookup i s.live)
        ≡ some h.range
    found =
        rw
          (← Map.lookup-insert id i (record { start = start; end = saturating_add start count })
            s.live)
          h.found

claim-IsExclusive :
    (id : Bytes) (count : ℕ) (s : Inner) → IsExclusive s → IsExclusive (claim id count s).1
unfolding claim
claim-IsExclusive id count s v = record {
  distinct = Map.HasDistinctKeys-insert id _ s.live v.distinct;
  disjoint = λ i j n h k. both i j n (Holds-claim id count s i n h) (Holds-claim id count s j n k);
  apart = λ i n h. free n (Holds-claim id count s i n h);
}
  where
    start : ℕ
    start = pick_start count s

    free :
        {i : Bytes} (n : ℕ)
        → ((id ≡ i) × (start ≤ n) × (n < saturating_add start count)) ⊎ Holds s i n
        → NatSet.contains n (remove_run (saturating_add start count - start) start s.recycled)
          ≡ false
    free n (inl a) =
        ground (arith, contains-remove_run (saturating_add start count - start) start n s.recycled)
    free {i} n (inr a) = ground (
      arith,
      v.apart i n a,
      contains-remove_run (saturating_add start count - start) start n s.recycled,
    )

    both :
        (i j : Bytes) (n : ℕ)
        → ((id ≡ i) × (start ≤ n) × (n < saturating_add start count)) ⊎ Holds s i n
        → ((id ≡ j) × (start ≤ n) × (n < saturating_add start count)) ⊎ Holds s j n
        → i ≡ j
    both i j n (inl a) (inl b) = cc
    both i j n (inl a) (inr b) = absurd (claim_clear count s j n v b a.1 a.2)
    both i j n (inr a) (inl b) = absurd (claim_clear count s i n v a b.1 b.2)
    both i j n (inr a) (inr b) = v.disjoint i j n a b

-- Both releases take the entry of `id` out and leave the others.
Holds-removed :
    (id i : Bytes) (n : ℕ) (s t : Inner)
    → t.live ≡ Map.remove id s.live
    → Holds t i n
    → (id ≢ i) × Holds s i n
Holds-removed id i n s t e h = elim (Bool-cases (id == i)) [
  | inl same ↦ absurd (absurd_found (ground (arith, found)))
  | inr other ↦ (
    ground (arith, bytes_beq_iff id i),
    record { range = h.range; found = ground (arith, found); above = h.above; below = h.below },
  )
]
  where
    absurd_found : none ≡ some h.range → ⊥
    absurd_found e = cc

    found : (if id == i then none else Map.lookup i s.live) ≡ some h.range
    found = rw (← Map.lookup-remove id i s.live, ← e) h.found

confirm_range-IsExclusive :
    (id : Bytes) (o : Option ReservedRange) (s : Inner)
    → IsExclusive s
    → IsExclusive (confirm_range id o s)
unfolding confirm_range
confirm_range-IsExclusive id none s v = v
confirm_range-IsExclusive id (some r) s v = record {
  distinct = Map.HasDistinctKeys-remove id s.live v.distinct;
  disjoint = λ i j n h k. v.disjoint i j n (old i n h) (old j n k);
  apart = λ i n h. v.apart i n (old i n h);
}
  where
    old : (i : Bytes) (n : ℕ) → Holds (confirm_range id (some r) s) i n → Holds s i n
    old i n h = (Holds-removed id i n s (confirm_range id (some r) s) refl h).1

abort_range-IsExclusive :
    (id : Bytes) (r : ReservedRange) (s : Inner)
    → Map.lookup id s.live ≡ some r
    → IsExclusive s
    → IsExclusive (abort_range id (some r) s)
unfolding abort_range
abort_range-IsExclusive id r s e v = record {
  distinct = Map.HasDistinctKeys-remove id s.live v.distinct;
  disjoint = λ i j n h k. v.disjoint i j n (old i n h).1 (old j n k).1;
  apart = λ i n h. free i n (old i n h);
}
  where
    old : (i : Bytes) (n : ℕ) → Holds (abort_range id (some r) s) i n → (id ≢ i) × Holds s i n
    old i n h = Holds-removed id i n s (abort_range id (some r) s) refl h

    outside : (i : Bytes) (n : ℕ) → (id ≢ i) × Holds s i n → r.start ≤ n → n < r.end → ⊥
    outside i n h lo hi =
        h.0 (v.disjoint id i n (record { range = r; found = e; above = lo; below = hi }) h.1)

    free :
        (i : Bytes) (n : ℕ)
        → (id ≢ i) × Holds s i n
        → NatSet.contains n (abort_range id (some r) s).recycled ≡ false
    free i n h = ground (
      arith,
      v.apart i n h.1,
      outside i n h,
      contains-recycle_run s.canonical_floor (r.end - r.start) r.start n s.recycled,
    )

release_aborted-IsExclusive :
    (id : Bytes) (s : Inner) → IsExclusive s → IsExclusive (release_aborted id s)
unfolding release_aborted
release_aborted-IsExclusive id s v = elim (Option-cases (Map.lookup id s.live)) [
  | inl gone ↦ rw (gone, release_aborted) v
  | inr (r, e) ↦ rw (e, release_aborted) (abort_range-IsExclusive id r s e v)
]

-- Every call keeps the reservations disjoint from one another and from the pool.
step-IsExclusive : (s : Inner) (c : Call) → IsExclusive s → IsExclusive (step s c)
unfolding step reserve release_confirmed reset
step-IsExclusive s (reserves id count (ok c)) v =
    claim-IsExclusive id count (raise_floor c s) (raise_floor-IsExclusive c s v)
step-IsExclusive s (reserves id count (err e)) v = v
step-IsExclusive s (confirms id) v = confirm_range-IsExclusive id (Map.lookup id s.live) s v
step-IsExclusive s (aborts id) v = release_aborted-IsExclusive id s v
step-IsExclusive s resets v = fresh-IsExclusive

run_from-IsExclusive : (cs : List Call) (s : Inner) → IsExclusive s → IsExclusive (run s cs)
unfolding run
run_from-IsExclusive [] s v = v
run_from-IsExclusive (c ∷ cs) s v = run_from-IsExclusive cs (step s c) (step-IsExclusive s c v)

-- After any history of calls, whatever the chain answers: a nonce is reserved for one transaction at
-- most, a reserved nonce is not in the recycled pool, and no transaction has two reservations.
pub run-IsExclusive : (cs : List Call) → IsExclusive (run fresh cs)
run-IsExclusive cs = run_from-IsExclusive cs fresh fresh-IsExclusive
