-- ===== src/Mailbox/Overrides.antt =====
-- crates/mailbox/src/overrides.rs: how state overrides are merged, and in Build how those of the
-- mailbox are made. Of an account's override the fields that the code reads are kept; slots and
-- values of storage are their bytes.
pub mod Merge
pub mod Build
use sidecar.Prelude.{ℕ, Option, none, some, List, [], ◌∷◌, Bytes, bytes_eq, is_some, if◌then◌else◌}
use sidecar.Prelude.Map
use sidecar.Prelude.Map.{Map}

abbrev pub SlotMap : Type 0
SlotMap = Map Bytes Bytes

pub record AccountOverride : Type 0 where
  pub balance : Option ℕ
  pub nonce : Option ℕ
  pub code : Option Bytes
  pub state : Option SlotMap
  pub state_diff : Option SlotMap

abbrev pub StateOverride : Type 0
StateOverride = Map Bytes AccountOverride

-- `for (k, v) in diff { base.insert(k, v) }`
abbrev pub insert_all : SlotMap → SlotMap → SlotMap
insert_all [] base = base
insert_all ((k, v) ∷ diff) base = insert_all diff (Map.insert k v base)

abbrev pub or_older {ℓ} : {A : Type ℓ} → Option A → Option A → Option A
or_older none old = old
or_older (some a) old = some a

-- `get_or_insert_default`
abbrev pub or_empty : Option SlotMap → SlotMap
or_empty none = []
or_empty (some m) = m

apply_diff : Option SlotMap → SlotMap → AccountOverride → AccountOverride
apply_diff (some base_state) diff base = record base { state = some (insert_all diff base_state) }
apply_diff none diff base = record base {
  state_diff = some (insert_all diff (or_empty base.state_diff));
}

-- The storage part of the merge.
pub merge_storage : Option SlotMap → Option SlotMap → AccountOverride → AccountOverride
unfolding apply_diff
merge_storage (some overlay_state) diff base = record base {
  state = some overlay_state;
  state_diff = none;
}
merge_storage none (some overlay_diff) base = apply_diff base.state overlay_diff base
merge_storage none none base = base

abbrev pub merge_scalars : AccountOverride → AccountOverride → AccountOverride
merge_scalars overlay base = record base {
  nonce = or_older overlay.nonce base.nonce;
  balance = or_older overlay.balance base.balance;
  code = or_older overlay.code base.code;
}

pub merge_account : AccountOverride → AccountOverride → AccountOverride
unfolding merge_storage
merge_account overlay base =
    merge_scalars overlay (merge_storage overlay.state overlay.state_diff base)

-- One round of the loop: the entry of the address is occupied or vacant.
pub merge_entry : Option AccountOverride → Bytes → AccountOverride → StateOverride → StateOverride
unfolding merge_account
merge_entry (some base_acct) addr overlay_acct base =
    Map.insert addr (merge_account overlay_acct base_acct) base
merge_entry none addr overlay_acct base = Map.insert addr overlay_acct base

pub merge_overrides : StateOverride → StateOverride → StateOverride
unfolding merge_entry
merge_overrides base [] = base
merge_overrides base ((addr, overlay_acct) ∷ overlay) =
    merge_overrides (merge_entry (Map.lookup addr base) addr overlay_acct base) overlay

-- `merge_overrides_owned` takes the overlay's difference over whole where the base has none.
apply_diff_owned : Option SlotMap → Option SlotMap → SlotMap → AccountOverride → AccountOverride
apply_diff_owned (some base_state) old diff base = record base {
  state = some (insert_all diff base_state);
}
apply_diff_owned none (some base_diff) diff base = record base {
  state_diff = some (insert_all diff base_diff);
}
apply_diff_owned none none diff base = record base { state_diff = some diff }

pub merge_storage_owned : Option SlotMap → Option SlotMap → AccountOverride → AccountOverride
unfolding apply_diff_owned
merge_storage_owned (some overlay_state) diff base = record base {
  state = some overlay_state;
  state_diff = none;
}
merge_storage_owned none (some overlay_diff) base =
    apply_diff_owned base.state base.state_diff overlay_diff base
merge_storage_owned none none base = base

pub merge_entry_owned :
    Option AccountOverride → Bytes → AccountOverride → StateOverride → StateOverride
unfolding merge_storage_owned
merge_entry_owned (some base_acct) addr overlay_acct base =
    Map.insert addr
      (merge_scalars overlay_acct
        (merge_storage_owned overlay_acct.state overlay_acct.state_diff base_acct))
      base
merge_entry_owned none addr overlay_acct base = Map.insert addr overlay_acct base

pub merge_overrides_owned : StateOverride → StateOverride → StateOverride
unfolding merge_entry_owned
merge_overrides_owned base [] = base
merge_overrides_owned base ((addr, overlay_acct) ∷ overlay) =
    merge_overrides_owned (merge_entry_owned (Map.lookup addr base) addr overlay_acct base) overlay
