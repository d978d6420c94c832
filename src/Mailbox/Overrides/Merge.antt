-- ===== src/Mailbox/Overrides/Merge.antt =====
-- The overlay wins: what is read of the merged overrides.
use sidecar.Prelude.{
  ◌≡◌, refl, sym, ap, ◌∙◌, true, false, Option, none, some, [], ◌∷◌, Bytes, arith, bytes_eq,
  bytes_beq, bytes_beq_iff, if◌then◌else◌, is_some, ◌++◌, Option-cases, inl, inr,
}
use mathlib.Core.List.{append-nil, append_assoc}
use sidecar.Prelude.Map
use sidecar.Mailbox.Overrides.{
  SlotMap, AccountOverride, StateOverride, insert_all, or_older, or_empty, merge_storage,
  merge_account, merge_entry, merge_overrides, merge_overrides_owned, merge_entry_owned,
  merge_storage_owned, merge_scalars,
}

-- With distinct keys, the last write to a slot is its only one.
lookup-insert_all :
    (k : Bytes) (diff base : SlotMap)
    → Map.HasDistinctKeys diff
    → Map.lookup k (insert_all diff base) ≡ or_older (Map.lookup k diff) (Map.lookup k base)
lookup-insert_all k [] base d = refl
lookup-insert_all k ((j, v) ∷ diff) base d = ground (
  arith,
  lookup-insert_all k diff (Map.insert j v base) d.1,
  Map.lookup-insert j k v base,
  bytes_beq_iff j k,
  same,
)
  where
    same : j ≡ k → Map.lookup j diff ≡ Map.lookup k diff
    same p = λ i. Map.lookup (p i) diff

abbrev read_in : Option SlotMap → Option SlotMap → Bytes → Option Bytes
read_in (some whole) diff k = Map.lookup k whole
read_in none (some diff) k = Map.lookup k diff
read_in none none k = none

-- What a call under the override reads at a slot, where the override says anything of it: a full
-- replacement hides the difference.
abbrev pub read_slot : AccountOverride → Bytes → Option Bytes
read_slot a k = read_in a.state a.state_diff k

-- The slot as the overlay alone determines it, over what the base says.
abbrev read_over : Option SlotMap → Option SlotMap → Bytes → Option Bytes → Option Bytes
read_over (some whole) diff k old = Map.lookup k whole
read_over none (some diff) k old = or_older (Map.lookup k diff) old
read_over none none k old = old

abbrev HasDistinctSlots : AccountOverride → Type 0
HasDistinctSlots a = Map.HasDistinctKeys (or_empty a.state_diff)

read-merge_storage :
    (st df : Option SlotMap) (base : AccountOverride) (k : Bytes)
    → Map.HasDistinctKeys (or_empty df)
    → read_slot (merge_storage st df base) k ≡ read_over st df k (read_slot base k)
unfolding merge_storage
read-merge_storage (some whole) df base k d = refl
read-merge_storage none none base k d = refl
read-merge_storage none (some diff) base k d = ground (
  arith,
  lookup-insert_all k diff (or_empty base.state) d,
  lookup-insert_all k diff (or_empty base.state_diff) d,
)

-- Which of the two forms of storage an account has after a merge, and what is left as it was: by the
-- forms of the overlay and then of the base.
abbrev pub HasStorage :
    Option SlotMap → Option SlotMap → Option SlotMap → Option SlotMap → AccountOverride → Type 0
HasStorage (some whole) diff base_state base_diff merged =
    (merged.state ≡ some whole) × (merged.state_diff ≡ none)
HasStorage none (some diff) (some base_whole) base_diff merged =
    (is_some merged.state ≡ true) × (merged.state_diff ≡ base_diff)
HasStorage none (some diff) none base_diff merged =
    (merged.state ≡ none) × (is_some merged.state_diff ≡ true)
HasStorage none none base_state base_diff merged =
    (merged.state ≡ base_state) × (merged.state_diff ≡ base_diff)

HasStorage-merge_storage :
    (st df : Option SlotMap) (base : AccountOverride)
    → HasStorage st df base.state base.state_diff (merge_storage st df base)
unfolding merge_storage
HasStorage-merge_storage (some whole) df base = (refl, refl)
HasStorage-merge_storage none none base = (refl, refl)
HasStorage-merge_storage none (some diff) base = by_form base.state refl
  where
    by_form :
        (o : Option SlotMap)
        → base.state ≡ o
        → HasStorage none (some diff) o base.state_diff (merge_storage none (some diff) base)
    by_form none e = (ground arith, ground arith)
    by_form (some whole) e = (ground arith, ground arith)

HasStorage-merge_scalars :
    (st df bs bd : Option SlotMap) (overlay merged : AccountOverride)
    → HasStorage st df bs bd merged
    → HasStorage st df bs bd (merge_scalars overlay merged)
HasStorage-merge_scalars (some whole) df bs bd overlay merged h = h
HasStorage-merge_scalars none (some diff) (some whole) bd overlay merged h = h
HasStorage-merge_scalars none (some diff) none bd overlay merged h = h
HasStorage-merge_scalars none none bs bd overlay merged h = h

-- After a merge of accounts every slot reads as the overlay says: all of them where it replaces the
-- storage, those of its difference otherwise, and the base's value elsewhere. A replacement by the
-- overlay is taken over and the base's difference reset; a difference of the overlay goes into the
-- base's replacement, if it has one, else into its difference, and leaves the other as it was. Each
-- of nonce, balance and code is the overlay's where it has one, else the base's.
pub merge_account_reads :
    (overlay base : AccountOverride) (k : Bytes)
    → HasDistinctSlots overlay
    → (read_slot (merge_account overlay base) k
        ≡ read_over overlay.state overlay.state_diff k (read_slot base k))
      × HasStorage overlay.state overlay.state_diff base.state base.state_diff
          (merge_account overlay base)
      × ((merge_account overlay base).nonce ≡ or_older overlay.nonce base.nonce)
      × ((merge_account overlay base).balance ≡ or_older overlay.balance base.balance)
      × ((merge_account overlay base).code ≡ or_older overlay.code base.code)
unfolding merge_account
merge_account_reads overlay base k d =
    let reads = read-merge_storage overlay.state overlay.state_diff base k d in
    let storage = HasStorage-merge_storage overlay.state overlay.state_diff base in
    (
      reads,
      HasStorage-merge_scalars overlay.state overlay.state_diff base.state base.state_diff overlay
          (merge_storage overlay.state overlay.state_diff base) storage,
      ground arith,
      ground arith,
      ground arith,
    )

-- An address after the merge: merged where both have it, else the one that is there.
abbrev merged_entry : Option AccountOverride → Option AccountOverride → Option AccountOverride
merged_entry none old = old
merged_entry (some o) none = some o
merged_entry (some o) (some b) = some (merge_account o b)

lookup-merge_entry :
    (addr : Bytes) (o : AccountOverride) (base : StateOverride) (a : Bytes)
    → Map.lookup a (merge_entry (Map.lookup addr base) addr o base)
      ≡ (if bytes_beq addr a then merged_entry (some o) (Map.lookup a base) else Map.lookup a base)
unfolding merge_entry
lookup-merge_entry addr o base a = elim (Option-cases (Map.lookup addr base)) [
  | inl e ↦ rw (e, merge_entry, Map.lookup-insert) (ground (arith, e, bytes_beq_iff addr a, same))
  | inr (b, e) ↦
      rw (e, merge_entry, Map.lookup-insert) (ground (arith, e, bytes_beq_iff addr a, same))
]
  where
    same : addr ≡ a → Map.lookup addr base ≡ Map.lookup a base
    same p = λ i. Map.lookup (p i) base

-- The merge goes address by address: an address that only one side has is taken from it unchanged,
-- and one that both have is merged with the overlay winning.
pub lookup-merge_overrides :
    (overlay base : StateOverride) (a : Bytes)
    → Map.HasDistinctKeys overlay
    → Map.lookup a (merge_overrides base overlay)
      ≡ merged_entry (Map.lookup a overlay) (Map.lookup a base)
unfolding merge_overrides
lookup-merge_overrides [] base a d = refl
lookup-merge_overrides ((addr, o) ∷ overlay) base a d = ground (
  arith,
  lookup-merge_overrides overlay (merge_entry (Map.lookup addr base) addr o base) a d.1,
  lookup-merge_entry addr o base a,
  bytes_beq_iff addr a,
  same,
)
  where
    same : addr ≡ a → Map.lookup addr overlay ≡ Map.lookup a overlay
    same p = λ i. Map.lookup (p i) overlay

insert_absent :
    (k v : Bytes) (base : SlotMap)
    → Map.contains_key k base ≡ false
    → Map.insert k v base ≡ base ++ (k, v) ∷ []
insert_absent k v [] h = refl
insert_absent k v ((j, w) ∷ base) h = ground (arith, insert_absent k v base)

lookup-append :
    (k : Bytes) (xs ys : SlotMap)
    → Map.lookup k (xs ++ ys) ≡ or_older (Map.lookup k xs) (Map.lookup k ys)
lookup-append k [] ys = refl
lookup-append k ((j, v) ∷ xs) ys = ground (arith, lookup-append k xs ys)

-- No slot of `diff` is in `base`.
abbrev AreNew : SlotMap → SlotMap → Type 0
AreNew diff base = (k : Bytes) → is_some (Map.lookup k diff) ≡ true → Map.lookup k base ≡ none

insert_all-new :
    (diff base : SlotMap)
    → Map.HasDistinctKeys diff
    → AreNew diff base
    → insert_all diff base ≡ base ++ diff
insert_all-new [] base d n = sym (append-nil base)
insert_all-new ((j, v) ∷ diff) base d n =
    rw (insert_absent j v base (ground (arith, n j, bytes_beq_iff j j)))
      (insert_all-new diff (base ++ (j, v) ∷ []) d.1 later ∙ append_assoc base ((j, v) ∷ []) diff)
  where
    later : AreNew diff (base ++ (j, v) ∷ [])
    later k h =
        ground (arith, lookup-append k base ((j, v) ∷ []), n k, bytes_beq_iff j k, same, d.0)
      where
        same : j ≡ k → Map.lookup j diff ≡ Map.lookup k diff
        same p = λ i. Map.lookup (p i) diff

insert_all-empty : (diff : SlotMap) → Map.HasDistinctKeys diff → insert_all diff [] ≡ diff
insert_all-empty diff d = insert_all-new diff [] d (λ k h. refl)

-- Every account of the overlay has each slot of its difference once, as a `HashMap` does.
abbrev AllDistinctSlots : StateOverride → Type 0
AllDistinctSlots [] = Unit
AllDistinctSlots ((addr, o) ∷ overlay) = HasDistinctSlots o × AllDistinctSlots overlay

storage_owned :
    (st df : Option SlotMap) (base : AccountOverride)
    → Map.HasDistinctKeys (or_empty df)
    → merge_storage_owned st df base ≡ merge_storage st df base
unfolding merge_storage_owned merge_storage
storage_owned (some whole) df base d = refl
storage_owned none none base d = refl
storage_owned none (some diff) base d = ground (arith, insert_all-empty diff d)

entry_owned :
    (found : Option AccountOverride) (addr : Bytes) (o : AccountOverride) (base : StateOverride)
    → HasDistinctSlots o
    → merge_entry_owned found addr o base ≡ merge_entry found addr o base
unfolding merge_entry_owned merge_entry merge_account
entry_owned none addr o base d = refl
entry_owned (some b) addr o base d =
    ap (λ s. Map.insert addr (merge_scalars o s) base) (storage_owned o.state o.state_diff b d)

-- The variant that consumes the overlay gives the same overrides as the one that copies it.
pub merge_overrides_owned_lem :
    (overlay base : StateOverride)
    → AllDistinctSlots overlay
    → merge_overrides_owned base overlay ≡ merge_overrides base overlay
unfolding merge_overrides_owned merge_overrides
merge_overrides_owned_lem [] base d = refl
merge_overrides_owned_lem ((addr, o) ∷ overlay) base d =
    rw (entry_owned (Map.lookup addr base) addr o base d.0)
      (merge_overrides_owned_lem overlay _ d.1)
