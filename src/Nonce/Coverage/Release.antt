-- ===== src/Nonce/Coverage/Release.antt =====
-- The two releases keep the lane covered.
use sidecar.Prelude.{
  ℕ, ◌-◌, ◌≤◌, ◌≡◌, max, inl, inr, some, Bytes, arith, bytes_eq, bytes_beq_iff, Option-cases,
  Bool-cases, ◌==◌,
}
use sidecar.Prelude.Map
use sidecar.Prelude.Map.{Map}
use sidecar.Prelude.NatSet
use sidecar.Nonce.{
  ReservedRange, Inner, release_confirmed, release_aborted, confirm_range, abort_range,
}
use sidecar.Nonce.Lanes.{contains-recycle_run}
use sidecar.Nonce.Coverage.{IsCovered, HasNoGap}

confirm_range-HasNoGap :
    (id : Bytes) (r : ReservedRange) (s : Inner)
    → Map.lookup id s.live ≡ some r
    → HasNoGap s
    → HasNoGap (confirm_range id (some r) s)
unfolding confirm_range
confirm_range-HasNoGap id r s e v = record {
  distinct = Map.HasDistinctKeys-remove id s.live v.distinct;
  nonempty = λ i q h. ground (arith, Map.lookup-remove id i s.live, v.nonempty i q);
  filled = λ n m lo le c. new n lo (v.filled n m (omega arith) le (old m c));
}
  where
    old : (m : ℕ) → IsCovered (confirm_range id (some r) s) m → IsCovered s m
    old m (inl c) = inl c
    old m (inr (i, h)) = inr (
      i,
      record {
        range = h.range;
        found = ground (arith, Map.lookup-remove id i s.live, h.found);
        above = h.above;
        below = h.below;
      },
    )

    new :
        (n : ℕ)
        → max s.canonical_floor r.end ≤ n
        → IsCovered s n
        → IsCovered (confirm_range id (some r) s) n
    new n lo (inl c) = inl c
    new n lo (inr (i, h)) = inr (
      i,
      record {
        range = h.range;
        found =
            ground (arith, Map.lookup-remove id i s.live, bytes_beq_iff id i, h.found, h.below, e);
        above = h.above;
        below = h.below;
      },
    )

abort_range-HasNoGap :
    (id : Bytes) (r : ReservedRange) (s : Inner)
    → Map.lookup id s.live ≡ some r
    → HasNoGap s
    → HasNoGap (abort_range id (some r) s)
unfolding abort_range
abort_range-HasNoGap id r s e v = record {
  distinct = Map.HasDistinctKeys-remove id s.live v.distinct;
  nonempty = λ i q h. ground (arith, Map.lookup-remove id i s.live, v.nonempty i q);
  filled = λ n m lo le c. new n lo (v.filled n m lo le (old m c));
}
  where
    old : (m : ℕ) → IsCovered (abort_range id (some r) s) m → IsCovered s m
    old m (inl c) = elim (Bool-cases (NatSet.contains m s.recycled)) [
      | inl before ↦ inl before
      | inr added ↦ inr (
        id,
        record {
          range = r;
          found = e;
          above = ground (
            arith,
            contains-recycle_run s.canonical_floor (r.end - r.start) r.start m s.recycled,
          );
          below = ground (
            arith,
            contains-recycle_run s.canonical_floor (r.end - r.start) r.start m s.recycled,
          );
        },
      )
    ]
    old m (inr (i, h)) = inr (
      i,
      record {
        range = h.range;
        found = ground (arith, Map.lookup-remove id i s.live, h.found);
        above = h.above;
        below = h.below;
      },
    )

    new : (n : ℕ) → s.canonical_floor ≤ n → IsCovered s n → IsCovered (abort_range id (some r) s) n
    new n lo (inl c) = inl (
        ground
          (arith, contains-recycle_run s.canonical_floor (r.end - r.start) r.start n s.recycled))
    new n lo (inr (i, h)) = elim (Bool-cases (id == i)) [
      | inl same ↦ inl (
          ground (
            arith,
            contains-recycle_run s.canonical_floor (r.end - r.start) r.start n s.recycled,
            bytes_beq_iff id i,
            h.found,
            h.above,
            h.below,
            e,
          ))
      | inr other ↦ inr (
        i,
        record {
          range = h.range;
          found = ground (arith, Map.lookup-remove id i s.live, h.found);
          above = h.above;
          below = h.below;
        },
      )
    ]

pub release_confirmed-HasNoGap :
    (id : Bytes) (s : Inner) → HasNoGap s → HasNoGap (release_confirmed id s)
unfolding release_confirmed confirm_range
release_confirmed-HasNoGap id s v = elim (Option-cases (Map.lookup id s.live)) [
  | inl gone ↦ rw (gone, release_confirmed) v
  | inr (r, e) ↦ rw (e, release_confirmed) (confirm_range-HasNoGap id r s e v)
]

pub release_aborted-HasNoGap :
    (id : Bytes) (s : Inner) → HasNoGap s → HasNoGap (release_aborted id s)
unfolding release_aborted abort_range
release_aborted-HasNoGap id s v = elim (Option-cases (Map.lookup id s.live)) [
  | inl gone ↦ rw (gone, release_aborted) v
  | inr (r, e) ↦ rw (e, release_aborted) (abort_range-HasNoGap id r s e v)
]
