-- ===== src/Coordinator/Sections/History.antt =====
-- Where the transactions that the coordinator of crates/coordinator/coordinator/src/coordinator.rs
-- holds come from, over any sequence of critical sections.
use sidecar.Prelude.{
  ◌≡◌, ◌≢◌, ◌⊎◌, inl, inr, true, false, Option, some, List, [], ◌∷◌, Bytes, arith, bytes_eq, nat_eq,
  bytes_beq_iff, Option-cases, Bool-cases, subst, ◌==◌,
}
use sidecar.Prelude.Map
use sidecar.Coordinator.Xt.{PendingXt}
use sidecar.Coordinator.State.{CoordinatorState, init}
use sidecar.Coordinator.World.{Env}
use sidecar.Coordinator.Lifecycle.{IsNew, Changes, unchanged, trans}
use sidecar.Coordinator.Sections.{Section, apply, reused_id, run}
use sidecar.Coordinator.Sections.Turn.{
  Table, Turn, kept, replaced, modified, rewritten, added, removed, retained, then_modified,
}
use sidecar.Coordinator.Sections.Turn.Apply.{apply-Turn}

-- A new transaction, changed: it was registered in the meantime.
abbrev IsRegistered : PendingXt → Type 0
IsRegistered xt = (new : PendingXt) × IsNew new × Changes new xt

-- A changed form of the transaction that the table held under the id.
abbrev IsContinued : Table → Bytes → PendingXt → Type 0
IsContinued m id xt = (old : PendingXt) × (Map.lookup id m ≡ some old) × Changes old xt

-- Only an id that was free, or is `own`, has a new transaction.
abbrev HasOrigin : Option Bytes → Table → Table → Type 0
HasOrigin own a b =
    (id : Bytes) (xt : PendingXt)
    → Map.lookup id b ≡ some xt
    → (IsRegistered xt × ((Map.contains_key id a ≡ false) ⊎ (own ≡ some id))) ⊎ IsContinued a id xt

turn-HasDistinctKeys :
    (own : Option Bytes) (a b : Table)
    → Turn own a b
    → Map.HasDistinctKeys a
    → Map.HasDistinctKeys b
turn-HasDistinctKeys _ _ _ (kept m) d = d
turn-HasDistinctKeys _ _ _ (replaced id old xt m e c) d = Map.HasDistinctKeys-insert id xt m d
turn-HasDistinctKeys _ _ _ (modified id f m c) d = Map.HasDistinctKeys-modify id f m d
turn-HasDistinctKeys _ _ _ (rewritten f m c) d = Map.HasDistinctKeys-map_values f m d
turn-HasDistinctKeys _ _ _ (added xt m n l f) d = Map.HasDistinctKeys-insert xt.id xt m d
turn-HasDistinctKeys _ _ _ (removed id m) d = Map.HasDistinctKeys-remove id m d
turn-HasDistinctKeys _ _ _ (retained p m) d = Map.HasDistinctKeys-retain p m d
turn-HasDistinctKeys own _ _ (then_modified id f a b t c) d =
    Map.HasDistinctKeys-modify id f b (turn-HasDistinctKeys own a b t d)

continued :
    (m : Table) (id : Bytes) (xt : PendingXt) → Map.lookup id m ≡ some xt → IsContinued m id xt
continued m id xt h = (xt, h, unchanged xt)

insert_cases :
    (k j : Bytes) (v w : PendingXt) (m : Table)
    → Map.lookup j (Map.insert k v m) ≡ some w
    → ((k ≡ j) × (v ≡ w)) ⊎ (Map.lookup j m ≡ some w)
insert_cases k j v w m h = ground (arith, bytes_beq_iff k j, Map.lookup-insert k j v m)

modify_cases :
    (k j : Bytes) (f : PendingXt → PendingXt) (w : PendingXt) (m : Table)
    → Map.lookup j (Map.modify k f m) ≡ some w
    → ((v : PendingXt) × (Map.lookup j m ≡ some v) × (f v ≡ w)) ⊎ (Map.lookup j m ≡ some w)
modify_cases k j f w m h = elim (Option-cases (Map.lookup j m)) [
  | inl e ↦ absurd (ground (arith, Map.lookup-modify k j f m))
  | inr (v, e) ↦ elim bytes_beq-cases [
    | inl b ↦ inl (v, e, ground (arith, Map.lookup-modify k j f m))
    | inr b ↦ inr (ground (arith, Map.lookup-modify k j f m))
  ]
]
  where
    bytes_beq-cases : ((k == j) ≡ true) ⊎ ((k == j) ≡ false)
    bytes_beq-cases = Bool-cases (k == j)

map_values_cases :
    (j : Bytes) (f : PendingXt → PendingXt) (w : PendingXt) (m : Table)
    → Map.lookup j (Map.map_values f m) ≡ some w
    → (v : PendingXt) × (Map.lookup j m ≡ some v) × (f v ≡ w)
map_values_cases j f w m h = elim (Option-cases (Map.lookup j m)) [
  | inl e ↦ absurd (ground (arith, Map.lookup-map_values f j m))
  | inr (v, e) ↦ (v, e, ground (arith, Map.lookup-map_values f j m))
]

module _ (own : Option Bytes) where
  replaced-HasOrigin :
      (k : Bytes) (old new : PendingXt) (m : Table)
      → Map.lookup k m ≡ some old
      → Changes old new
      → HasOrigin own m (Map.insert k new m)
  replaced-HasOrigin k old new m e c id xt h = elim (insert_cases k id new xt m h) [
    | inl (p, q) ↦
        inr (old, subst (λ j. Map.lookup j m ≡ some old) p e, subst (λ x. Changes old x) q c)
    | inr f ↦ inr (continued m id xt f)
  ]

  added-HasOrigin :
      (k : Bytes) (new : PendingXt) (m : Table)
      → IsNew new
      → (Map.contains_key k m ≡ false) ⊎ (own ≡ some k)
      → HasOrigin own m (Map.insert k new m)
  added-HasOrigin k new m n f id xt h = elim (insert_cases k id new xt m h) [
    | inl (p, q) ↦ inl (
      (new, n, subst (λ x. Changes new x) q (unchanged new)),
      subst (λ j. (Map.contains_key j m ≡ false) ⊎ (own ≡ some j)) p f,
    )
    | inr g ↦ inr (continued m id xt g)
  ]

  rewritten-HasOrigin :
      (f : PendingXt → PendingXt) (m : Table)
      → ((xt : PendingXt) → Changes xt (f xt))
      → HasOrigin own m (Map.map_values f m)
  rewritten-HasOrigin f m c id xt h =
      let (v, e, q) = map_values_cases id f xt m h in inr (v, e, subst (λ x. Changes v x) q (c v))

  -- The origin of a changed transaction is that of the one it was.
  change_origin :
      (a : Table) (id : Bytes) (v xt : PendingXt)
      → Changes v xt
      → (IsRegistered v × ((Map.contains_key id a ≡ false) ⊎ (own ≡ some id))) ⊎ IsContinued a id v
      → (IsRegistered xt × ((Map.contains_key id a ≡ false) ⊎ (own ≡ some id)))
        ⊎ IsContinued a id xt
  change_origin a id v xt c (inl ((new, n, k), f)) = inl ((new, n, trans k c), f)
  change_origin a id v xt c (inr (old, e, k)) = inr (old, e, trans k c)

  modified-HasOrigin :
      (k : Bytes) (f : PendingXt → PendingXt) (a b : Table)
      → ((xt : PendingXt) → Changes xt (f xt))
      → HasOrigin own a b
      → HasOrigin own a (Map.modify k f b)
  modified-HasOrigin k f a b c o id xt h = elim (modify_cases k id f xt b h) [
    | inl (v, e, q) ↦ change_origin a id v xt (subst (λ x. Changes v x) q (c v)) (o id v e)
    | inr e ↦ o id xt e
  ]

  same-HasOrigin : (m : Table) → HasOrigin own m m
  same-HasOrigin m id xt h = inr (continued m id xt h)

  turn-HasOrigin : (a b : Table) → Turn own a b → Map.HasDistinctKeys a → HasOrigin own a b
  turn-HasOrigin _ _ (kept m) d id xt h = same-HasOrigin m id xt h
  turn-HasOrigin _ _ (replaced k old new m e c) d id xt h =
      replaced-HasOrigin k old new m e c id xt h
  turn-HasOrigin _ _ (modified k f m c) d id xt h =
      modified-HasOrigin k f m m c (same-HasOrigin m) id xt h
  turn-HasOrigin _ _ (rewritten f m c) d id xt h = rewritten-HasOrigin f m c id xt h
  turn-HasOrigin _ _ (added new m n l f) d id xt h = added-HasOrigin new.id new m n f id xt h
  turn-HasOrigin _ _ (removed k m) d id xt h =
      inr (continued m id xt (ground (arith, Map.lookup-remove k id m)))
  turn-HasOrigin _ _ (retained p m) d id xt h = inr (
      continued m id xt
        (ground (arith, Map.lookup-retain p id m d, Option-cases (Map.lookup id m))))
  turn-HasOrigin _ _ (then_modified k f a b t c) d id xt h =
      modified-HasOrigin k f a b c (turn-HasOrigin a b t d) id xt h

module _ (env : Env) where
  apply-HasDistinctKeys :
      (c : Section) (s : CoordinatorState)
      → Map.HasDistinctKeys s.pending
      → Map.HasDistinctKeys (apply env c s).pending
  apply-HasDistinctKeys c s =
      turn-HasDistinctKeys (reused_id env c s) s.pending (apply env c s).pending
        (apply-Turn env c s)

  apply-HasOrigin :
      (c : Section) (s : CoordinatorState)
      → Map.HasDistinctKeys s.pending
      → HasOrigin (reused_id env c s) s.pending (apply env c s).pending
  apply-HasOrigin c s =
      turn-HasOrigin (reused_id env c s) s.pending (apply env c s).pending (apply-Turn env c s)

  AllRegistered : Table → Type 0
  AllRegistered m = (id : Bytes) (xt : PendingXt) → Map.lookup id m ≡ some xt → IsRegistered xt

  apply-AllRegistered :
      (c : Section) (s : CoordinatorState)
      → Map.HasDistinctKeys s.pending
      → AllRegistered s.pending
      → AllRegistered (apply env c s).pending
  unfolding AllRegistered
  apply-AllRegistered c s d a id xt h = elim (apply-HasOrigin c s d id xt h) [
    | inl r ↦ r.0
    | inr (old, e, k) ↦ let (new, n, l) = a id old e in (new, n, trans l k)
  ]

  run-AllRegistered :
      (cs : List Section) (s : CoordinatorState)
      → Map.HasDistinctKeys s.pending
      → AllRegistered s.pending
      → AllRegistered (run env cs s).pending
  unfolding run
  run-AllRegistered [] s d a = a
  run-AllRegistered (c ∷ cs) s d a =
      run-AllRegistered cs (apply env c s) (apply-HasDistinctKeys c s d)
        (apply-AllRegistered c s d a)

  -- Whatever the coordinator holds was registered as new and has changed since only as the handlers
  -- change a transaction.
  pub run-init-IsRegistered :
      (cs : List Section) (id : Bytes) (xt : PendingXt)
      → Map.lookup id (run env cs init).pending ≡ some xt
      → IsRegistered xt
  unfolding AllRegistered
  run-init-IsRegistered cs id xt h =
      run-AllRegistered cs init tt (λ k v e. absurd (ground arith)) id xt h

  -- A transaction is pending under the id after every section of a run, and no standalone submission
  -- takes the id.
  abbrev pub StaysPending : Bytes → List Section → CoordinatorState → Type 0
  StaysPending id [] s = Unit
  StaysPending id (c ∷ cs) s =
      (reused_id env c s ≢ some id)
      × (Map.contains_key id (apply env c s).pending ≡ true)
      × StaysPending id cs (apply env c s)

  apply_continues :
      (c : Section) (s : CoordinatorState) (id : Bytes) (old : PendingXt)
      → Map.HasDistinctKeys s.pending
      → Map.lookup id s.pending ≡ some old
      → reused_id env c s ≢ some id
      → Map.contains_key id (apply env c s).pending ≡ true
      → (xt : PendingXt) × (Map.lookup id (apply env c s).pending ≡ some xt) × Changes old xt
  apply_continues c s id old d e n p = elim (Option-cases (Map.lookup id (apply env c s).pending)) [
    | inl q ↦ absurd (ground arith)
    | inr (xt, q) ↦ elim (apply-HasOrigin c s d id xt q) [
      | inl (r, inl f) ↦ absurd (ground arith)
      | inl (r, inr f) ↦ absurd (n f)
      | inr (old', f, k) ↦
          let same : old' ≡ old = ground arith in (xt, q, subst (λ x. Changes x xt) same k)
    ]
  ]

  -- While a transaction stays pending, it changes only as the handlers change a transaction,
  -- whatever critical sections run and in whatever order.
  pub run_continues :
      (cs : List Section) (s : CoordinatorState) (id : Bytes) (old : PendingXt)
      → Map.HasDistinctKeys s.pending
      → Map.lookup id s.pending ≡ some old
      → StaysPending id cs s
      → (xt : PendingXt) × (Map.lookup id (run env cs s).pending ≡ some xt) × Changes old xt
  unfolding run
  run_continues [] s id old d e p = (old, e, unchanged old)
  run_continues (c ∷ cs) s id old d e p =
      let (mid, f, k) = apply_continues c s id old d e p.0 p.1 in
      let (xt, g, l) =
        run_continues cs (apply env c s) id mid (apply-HasDistinctKeys c s d) f p.2 in
      (xt, g, trans k l)
