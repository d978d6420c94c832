-- ===== src/Simulation/Diff.antt =====
-- crates/simulation/src/rpc.rs: the state overrides that carry the effect of a simulated transaction,
-- made of the difference that the prestate tracer reports. A `BTreeMap` lists its keys in order.
pub mod Effect
use sidecar.Prelude.{
  ℕ, zero, suc, Bool, ◌||◌, Option, none, some, List, [], ◌∷◌, Bytes, bytes_eq, is_empty, is_some,
  zeros, if◌then◌else◌,
}
use sidecar.Prelude.Map
use sidecar.Prelude.Map.{Map}
use sidecar.Prelude.Text.{codes}
use sidecar.Prelude.Result.{Result, ok, err}
use sidecar.Mailbox.Overrides.{SlotMap, AccountOverride, StateOverride}
use sidecar.Simulation.Types.{SimulationError, other}

-- The tracer's account and its two kinds of answer, as the RPC library declares them.
pub record AccountState : Type 0 where
  pub balance : Option ℕ
  pub nonce : Option ℕ
  pub code : Option Bytes
  pub storage : SlotMap

pub record DiffMode : Type 0 where
  pub pre : Map Bytes AccountState
  pub post : Map Bytes AccountState

pub data PreStateFrame : Type 0 where
  default : Map Bytes AccountState → PreStateFrame
  diff : DiffMode → PreStateFrame

-- `B256::ZERO`
abbrev pub zero_word : Bytes
zero_word = zeros 32

-- The slots of the pre-state that are not in the post-state are set to zero.
abbrev pub clear_slots : SlotMap → SlotMap → SlotMap
clear_slots [] state_diff = state_diff
clear_slots ((slot, value) ∷ storage) state_diff =
    clear_slots storage (
      if Map.contains_key slot state_diff then state_diff else Map.insert slot zero_word state_diff)

abbrev pub diff_of : Option AccountState → AccountState → SlotMap
diff_of none post_state = post_state.storage
diff_of (some pre_state) post_state = clear_slots pre_state.storage post_state.storage

abbrev pub some_nonempty {ℓ} : {A : Type ℓ} → List A → Option (List A)
some_nonempty [] = none
some_nonempty (x ∷ xs) = some (x ∷ xs)

abbrev pub account_override : Option AccountState → AccountState → AccountOverride
account_override pre_state post_state = record {
  balance = post_state.balance;
  nonce = post_state.nonce;
  code = post_state.code;
  state = none;
  state_diff = some_nonempty (diff_of pre_state post_state);
}

abbrev pub says_something : AccountOverride → Bool
says_something account =
    is_some account.balance
    || is_some account.nonce
    || is_some account.code
    || is_some account.state_diff

abbrev pub add_account : Bytes → AccountOverride → StateOverride → StateOverride
add_account address account overrides =
    if says_something account then Map.insert address account overrides else overrides

-- The loop over the post-states takes the pre-states of its addresses away.
pub add_posts :
    Map Bytes AccountState
    → Map Bytes AccountState
    → StateOverride
    → Map Bytes AccountState × StateOverride
add_posts [] pre overrides = (pre, overrides)
add_posts ((address, post_state) ∷ post) pre overrides =
    add_posts post (Map.remove address pre)
      (add_account address (account_override (Map.lookup address pre) post_state) overrides)

-- An account that is gone.
abbrev pub destroyed : AccountOverride
destroyed = record {
  balance = some 0;
  nonce = some 0;
  code = some [];
  state = some [];
  state_diff = none;
}

pub add_destroyed : Map Bytes AccountState → StateOverride → StateOverride
add_destroyed [] overrides = overrides
add_destroyed ((address, pre_state) ∷ pre) overrides =
    add_destroyed pre (Map.insert address destroyed overrides)

pub state_overrides_from_diff : DiffMode → Option StateOverride
unfolding add_posts add_destroyed
state_overrides_from_diff d =
    let (pre, overrides) = add_posts d.post d.pre [] in some_nonempty (add_destroyed pre overrides)

abbrev pub trace_state_overrides : PreStateFrame → Result SimulationError (Option StateOverride)
unfolding state_overrides_from_diff
trace_state_overrides (default accounts) =
    err (other (codes "prestate tracer returned non-diff response"))
trace_state_overrides (diff d) = ok (state_overrides_from_diff d)

abbrev pub overrides_or_none : Result SimulationError (Option StateOverride) → Option StateOverride
overrides_or_none (ok overrides) = overrides
overrides_or_none (err error) = none

pub optional_trace_state_overrides : Result SimulationError PreStateFrame → Option StateOverride
unfolding trace_state_overrides
optional_trace_state_overrides (ok trace) = overrides_or_none (trace_state_overrides trace)
optional_trace_state_overrides (err error) = none
