-- ===== src/Nonce/Coverage/Claim.antt =====
-- A new reservation keeps the lane covered.
use sidecar.Prelude.{
  ℕ, ◌+◌, ◌-◌, ◌≤◌, ◌<◌, ◌≡◌, refl, ◌⊎◌, inl, inr, some, List, [], ◌∷◌, Bytes, arith, leb, ltb,
  nat_beq, if◌then◌else◌, bytes_eq, bytes_beq_iff, beq_refl, Bool-cases, ◌==◌,
}
use sidecar.Prelude.Map
use sidecar.Prelude.Map.{Map}
use sidecar.Nonce.{ReservedRange, Inner, live_end, max_end, pick_start, claim, saturating_add}
use sidecar.Nonce.Lanes.{contains-remove_run}
use sidecar.Nonce.Coverage.{IsCovered, HasNoGap, IsFreshClaim}

-- Below `live_end` and above the floor stands some range's end.
max_end-attained :
    (floor : ℕ) (m : Map Bytes ReservedRange) (n : ℕ)
    → Map.HasDistinctKeys m
    → floor ≤ n
    → n < max_end floor m
    → (i : Bytes) × (r : ReservedRange) × (Map.lookup i m ≡ some r) × (n < r.end)
unfolding max_end
max_end-attained floor [] n d lo hi = absurd (omega arith)
max_end-attained floor ((j, r) ∷ m) n d lo hi = elim (Bool-cases (ltb n r.end)) [
  | inl here ↦ (j, r, rw (beq_refl j), ground arith)
  | inr there ↦
      let (i, q, e, h) = max_end-attained floor m n d.1 lo (ground arith) in
      (i, q, ground (arith, bytes_beq_iff j i, d.0), h)
]

-- A nonce below the start of a new range, at or above the floor, is covered already.
IsCovered-below_start :
    (count : ℕ) (s : Inner) (n : ℕ)
    → HasNoGap s
    → s.canonical_floor ≤ n
    → n < pick_start count s
    → IsCovered s n
unfolding pick_start live_end
IsCovered-below_start count s n v lo hi = go s.recycled refl
  where
    below_end : n < max_end s.canonical_floor s.live → IsCovered s n
    below_end h =
        let (i, r, e, lt) = max_end-attained s.canonical_floor s.live n v.distinct lo h in
        let pos = v.nonempty i r e in
        v.filled n (r.end - 1) lo (omega arith)
          (inr (i, record { range = r; found = e; above = omega arith; below = omega arith }))

    go : (xs : List ℕ) → s.recycled ≡ xs → IsCovered s n
    go [] e = below_end (ground arith)
    go (x ∷ xs) e = elim (Bool-cases (nat_beq count 1)) [
      | inl one ↦ v.filled n x lo (ground arith) (inl (rw e (ground arith)))
      | inr many ↦ below_end (ground arith)
    ]

module _ (id : Bytes) (count : ℕ) (s : Inner) (f : IsFreshClaim id count s) where
  start : ℕ
  start = pick_start count s

  new_range : ReservedRange
  unfolding start
  new_range = record { start = start; end = saturating_add start count }

  claim-in_range : (n : ℕ) → start ≤ n → n < start + count → IsCovered (claim id count s).1 n
  unfolding claim start new_range
  claim-in_range n lo hi = inr (
    id,
    record {
      range = new_range;
      found = rw (Map.lookup-insert id id new_range s.live, beq_refl id);
      above = lo;
      below = omega (arith, f.fits);
    },
  )

  claim-kept : (n : ℕ) → IsCovered s n → IsCovered (claim id count s).1 n
  unfolding claim start new_range
  claim-kept n (inl e) = elim (Bool-cases (leb start n)) [
    | inl lo ↦ elim (Bool-cases (ltb n (start + count))) [
      | inl hi ↦ claim-in_range n (ground arith) (ground arith)
      | inr out ↦ inl (
          ground (
            arith,
            contains-remove_run (saturating_add start count - start) start n s.recycled,
            f.fits,
          ))
    ]
    | inr out ↦ inl (
        ground (arith, contains-remove_run (saturating_add start count - start) start n s.recycled))
  ]
  claim-kept n (inr (i, h)) = inr (
    i,
    record {
      range = h.range;
      found =
          rw (Map.lookup-insert id i new_range s.live)
            (ground (arith, bytes_beq_iff id i, f.absent, h.found));
      above = h.above;
      below = h.below;
    },
  )

  claim-old :
      (n : ℕ)
      → IsCovered (claim id count s).1 n
      → IsCovered s n ⊎ ((start ≤ n) × (n < start + count))
  unfolding claim start new_range
  claim-old n (inl e) = inl (
      inl (
        ground
          (arith, contains-remove_run (saturating_add start count - start) start n s.recycled)))
  claim-old n (inr (i, h)) = elim (Bool-cases (id == i)) [
    | inl same ↦ inr (ground (arith, found, h.above), ground (arith, found, h.below, f.fits))
    | inr other ↦ inl (
        inr (
          i,
          record {
            range = h.range;
            found = ground (arith, found);
            above = h.above;
            below = h.below;
          },
        ))
  ]
    where
      found : (if id == i then some new_range else Map.lookup i s.live) ≡ some h.range
      found = rw (← Map.lookup-insert id i new_range s.live) h.found

  claim-nonempty :
      HasNoGap s
      → (i : Bytes) (r : ReservedRange) → Map.lookup i (claim id count s).1.live ≡ some r
      → r.start < r.end
  unfolding claim start new_range
  claim-nonempty v i r e =
      ground (arith, Map.lookup-insert id i new_range s.live, v.nonempty i r, f.fits, f.asks)

  pub claim-HasNoGap : HasNoGap s → HasNoGap (claim id count s).1
  unfolding claim start new_range
  claim-HasNoGap v = record {
    distinct = Map.HasDistinctKeys-insert id new_range s.live v.distinct;
    nonempty = claim-nonempty v;
    filled = λ n m lo le c. fill n m lo le (claim-old m c);
  }
    where
      fill :
          (n m : ℕ)
          → s.canonical_floor ≤ n
          → n ≤ m
          → IsCovered s m ⊎ ((start ≤ m) × (m < start + count))
          → IsCovered (claim id count s).1 n
      fill n m lo le (inl old) = claim-kept n (v.filled n m lo le old)
      fill n m lo le (inr (a, b)) = elim (Bool-cases (leb start n)) [
        | inl above ↦ claim-in_range n (ground arith) (omega arith)
        | inr below ↦ claim-kept n (IsCovered-below_start count s n v lo (ground arith))
      ]
