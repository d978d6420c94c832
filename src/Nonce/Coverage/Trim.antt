-- ===== src/Nonce/Coverage/Trim.antt =====
-- Raising the floor keeps the lane covered.
use sidecar.Prelude.{ℕ, ◌≤◌, max, inl, inr, arith, leb, ltb, bytes_eq}
use sidecar.Prelude.Map
use sidecar.Prelude.Map.{Map}
use sidecar.Prelude.NatSet
use sidecar.Nonce.{Inner, raise_floor}
use sidecar.Nonce.Coverage.{IsCovered, HasNoGap}

-- The trims drop nothing that is at or above the new floor, and add nothing.
raise_floor-kept :
    (c : ℕ) (s : Inner) (n : ℕ)
    → Map.HasDistinctKeys s.live
    → max s.canonical_floor c ≤ n
    → IsCovered s n
    → IsCovered (raise_floor c s) n
unfolding raise_floor
raise_floor-kept c s n d lo (inl e) =
    inl
      (ground (arith, NatSet.contains-keep_if (λ n. leb (max s.canonical_floor c) n) n s.recycled))
raise_floor-kept c s n d lo (inr (i, h)) = inr (
  i,
  record {
    range = h.range;
    found = ground (
      arith,
      Map.lookup-retain (λ _ r. ltb (max s.canonical_floor c) r.end) i s.live d,
      h.found,
      h.below,
    );
    above = h.above;
    below = h.below;
  },
)

raise_floor-old :
    (c : ℕ) (s : Inner) (n : ℕ)
    → Map.HasDistinctKeys s.live
    → IsCovered (raise_floor c s) n
    → IsCovered s n
unfolding raise_floor
raise_floor-old c s n d (inl e) =
    inl
      (ground (arith, NatSet.contains-keep_if (λ n. leb (max s.canonical_floor c) n) n s.recycled))
raise_floor-old c s n d (inr (i, h)) = inr (
  i,
  record {
    range = h.range;
    found =
        ground (
          arith,
          Map.lookup-retain (λ _ r. ltb (max s.canonical_floor c) r.end) i s.live d,
          h.found,
        );
    above = h.above;
    below = h.below;
  },
)

pub raise_floor-HasNoGap : (c : ℕ) (s : Inner) → HasNoGap s → HasNoGap (raise_floor c s)
unfolding raise_floor
raise_floor-HasNoGap c s v = record {
  distinct =
      Map.HasDistinctKeys-retain (λ _ r. ltb (max s.canonical_floor c) r.end) s.live v.distinct;
  nonempty = λ i r e. ground (
    arith,
    Map.lookup-retain (λ _ r. ltb (max s.canonical_floor c) r.end) i s.live v.distinct,
    v.nonempty i r,
  );
  filled = λ n m lo le k.
      raise_floor-kept c s n v.distinct lo
        (v.filled n m (omega arith) le (raise_floor-old c s m v.distinct k));
}
