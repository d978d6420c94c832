-- ===== src/Permissions.antt =====
-- crates/permissions/src: the policy snapshot (snapshot.rs), the engine that evaluates it (engine.rs)
-- and the stream that keeps it up to date (stream.rs). A frame comes parsed, or not at all.
pub mod Evaluation
pub mod Updates
mod Tests
use sidecar.Prelude.{
  ℕ, ◌+◌, Bool, true, false, not, ◌&&◌, ◌||◌, Option, none, some, List, [], ◌∷◌, Bytes, bytes_eq,
  nat_eq, any, bytes_beq, leb, nat_beq, is_empty, is_some, if◌then◌else◌,
}
use sidecar.Prelude.Text.{codes}
use sidecar.Prelude.HashSet
use sidecar.Prelude.Map
use sidecar.Prelude.Map.{Map}
use sidecar.Prelude.Result.{Result, ok, err}

pub data NetworkScope : Type 0 where
  all restricted : NetworkScope

-- `eq_ignore_ascii_case`
abbrev pub lower : Bytes → Bytes
lower [] = []
lower (b ∷ bytes) = (if leb 65 b && leb b 90 then b + 32 else b) ∷ lower bytes

abbrev pub parse_scope : Bytes → NetworkScope
parse_scope raw = if bytes_beq (lower raw) (codes "restricted") then restricted else all

pub record RuleGroup : Type 0 where
  pub send_native : Bool
  pub can_deploy_contract : Bool
  pub network_scope : NetworkScope
  pub allowed_peers : List ℕ

pub record WalletPolicy : Type 0 where
  pub entity_active : Bool
  pub group : Option RuleGroup

pub record PolicySnapshot : Type 0 where
  pub version : ℕ
  pub received_at : ℕ
  pub wallets : Map Bytes WalletPolicy

-- The payload of the stream.
pub record WireEntity : Type 0 where
  pub is_active : Bool
  pub rule_group_id : Bytes
  pub wallet_addresses : List Bytes

pub record WireRuleGroup : Type 0 where
  pub rule_group_id : Bytes
  pub send_native : Bool
  pub can_deploy_contract : Bool
  pub network_scope : Bytes
  pub rollups : List ℕ

pub record SnapshotData : Type 0 where
  pub version : ℕ
  pub entities : List WireEntity
  pub rule_groups : List WireRuleGroup

pub data SnapshotError : Type 0 where
  invalid_address : Bytes → SnapshotError
  unknown_rule_group : Bytes → SnapshotError

abbrev pub rule_group : WireRuleGroup → RuleGroup
rule_group g = record {
  send_native = g.send_native;
  can_deploy_contract = g.can_deploy_contract;
  network_scope = parse_scope g.network_scope;
  allowed_peers = g.rollups;
}

-- The groups collected into a map: a later group takes the place of one with the same id.
abbrev pub collect_groups : List WireRuleGroup → Map Bytes RuleGroup → Map Bytes RuleGroup
collect_groups [] m = m
collect_groups (g ∷ gs) m = collect_groups gs (Map.insert g.rule_group_id (rule_group g) m)

abbrev pub group_or_error : Bytes → Option RuleGroup → Result SnapshotError (Option RuleGroup)
group_or_error id none = err (unknown_rule_group id)
group_or_error id (some g) = ok (some g)

abbrev pub group_of : Map Bytes RuleGroup → WireEntity → Result SnapshotError (Option RuleGroup)
group_of groups entity =
    if is_empty entity.rule_group_id
    then ok none
    else group_or_error entity.rule_group_id (Map.lookup entity.rule_group_id groups)

-- `parse_address` is the address type's parser.
module _ (parse_address : Bytes → Option Bytes) where
  pub add_wallets :
      WalletPolicy
      → List Bytes
      → Map Bytes WalletPolicy
      → Result SnapshotError (Map Bytes WalletPolicy)
  add_wallets policy [] m = ok m
  add_wallets policy (raw ∷ raws) m = elim (parse_address raw) [
    | none ↦ err (invalid_address raw)
    | some address ↦ add_wallets policy raws (Map.insert address policy m)
  ]

  abbrev pub add_entity :
      WireEntity
      → Result SnapshotError (Option RuleGroup)
      → Map Bytes WalletPolicy
      → Result SnapshotError (Map Bytes WalletPolicy)
  add_entity entity (err e) m = err e
  add_entity entity (ok group) m =
      add_wallets (record { entity_active = entity.is_active; group = group })
        entity.wallet_addresses m

  pub add_entities :
      Map Bytes RuleGroup
      → List WireEntity
      → Result SnapshotError (Map Bytes WalletPolicy)
      → Result SnapshotError (Map Bytes WalletPolicy)
  unfolding add_wallets
  add_entities groups entities (err e) = err e
  add_entities groups [] (ok m) = ok m
  add_entities groups (entity ∷ entities) (ok m) =
      add_entities groups entities (add_entity entity (group_of groups entity) m)

  abbrev pub indexed :
      SnapshotData
      → ℕ
      → Result SnapshotError (Map Bytes WalletPolicy)
      → Result SnapshotError PolicySnapshot
  indexed payload now (err e) = err e
  indexed payload now (ok wallets) =
      ok (record { version = payload.version; received_at = now; wallets = wallets })

  pub from_wire : SnapshotData → ℕ → Result SnapshotError PolicySnapshot
  unfolding add_entities
  from_wire payload now =
      indexed payload now
        (add_entities (collect_groups payload.rule_groups []) payload.entities (ok []))

-- The engine: `Inner` of engine.rs.
pub record Engine : Type 0 where
  pub enabled : Bool
  pub connected : Bool
  pub snapshot : Option PolicySnapshot

abbrev pub new : Bool → Engine
new enabled = record { enabled = enabled; connected = false; snapshot = none }

abbrev pub store : PolicySnapshot → Engine → Engine
store snapshot e = record e { snapshot = some snapshot }

abbrev pub set_connected : Bool → Engine → Engine
set_connected connected e = record e { connected = connected }

abbrev pub fresh : Engine → Option PolicySnapshot
fresh e = if e.connected then e.snapshot else none

abbrev pub is_ready : Engine → Bool
is_ready e = not e.enabled || is_some (fresh e)

pub data DenyReason : Type 0 where
  config_unavailable entity_inactive native_send_blocked contract_deploy_blocked
        peer_chain_not_whitelisted :
      DenyReason

pub data Decision : Type 0 where
  allow : Decision
  deny : DenyReason → Decision

abbrev pub policy_group : Option WalletPolicy → Result DenyReason (Option RuleGroup)
policy_group none = ok none
policy_group (some wallet) = if wallet.entity_active then ok wallet.group else err entity_inactive

abbrev pub group_in : Bytes → Option PolicySnapshot → Result DenyReason (Option RuleGroup)
group_in address none = err config_unavailable
group_in address (some snapshot) = policy_group (Map.lookup address snapshot.wallets)

pub resolve_group : Engine → Bytes → Result DenyReason (Option RuleGroup)
resolve_group e address = if e.enabled then group_in address (fresh e) else ok none

abbrev pub tx_decision : Result DenyReason (Option RuleGroup) → Bool → Bool → Decision
tx_decision (err reason) is_create has_value = deny reason
tx_decision (ok none) is_create has_value = allow
tx_decision (ok (some group)) is_create has_value =
    if has_value && not group.send_native
    then deny native_send_blocked
    else if is_create && not group.can_deploy_contract
    then deny contract_deploy_blocked
    else allow

pub evaluate_tx : Engine → Bytes → Bool → Bool → Decision
unfolding resolve_group
evaluate_tx e address is_create has_value =
    tx_decision (resolve_group e address) is_create has_value

abbrev pub is_restricted : NetworkScope → Bool
is_restricted all = false
is_restricted restricted = true

abbrev pub xt_decision : Result DenyReason (Option RuleGroup) → ℕ → List ℕ → Decision
xt_decision (err reason) home involved = deny reason
xt_decision (ok none) home involved = allow
xt_decision (ok (some group)) home involved =
    if is_restricted group.network_scope
      && any (λ chain. not (nat_beq chain home) && not (HashSet.contains chain group.allowed_peers))
          involved
    then deny peer_chain_not_whitelisted
    else allow

pub evaluate_xt : Engine → Bytes → ℕ → List ℕ → Decision
unfolding resolve_group
evaluate_xt e sender home involved = xt_decision (resolve_group e sender) home involved

-- What the policy stream tells its handler. `frame` has the time of receipt.
pub data StreamEvent : Type 0 where
  connects disconnects : StreamEvent
  frame : Bytes → SnapshotData → ℕ → StreamEvent
  bad_frame : StreamEvent

abbrev pub store_result : Result SnapshotError PolicySnapshot → Engine → Engine
store_result (ok snapshot) e = store snapshot e
store_result (err error) e = e

unfoldable pub handle : (Bytes → Option Bytes) → StreamEvent → Engine → Engine
unfolding from_wire
handle parse_address connects e = set_connected true e
handle parse_address disconnects e = set_connected false e
handle parse_address (frame kind payload now) e =
    if bytes_beq kind (codes "snapshot")
    then store_result (from_wire parse_address payload now) e
    else e
handle parse_address bad_frame e = e

unfoldable pub handle_all : (Bytes → Option Bytes) → List StreamEvent → Engine → Engine
unfolding handle
handle_all parse_address [] e = e
handle_all parse_address (event ∷ events) e =
    handle_all parse_address events (handle parse_address event e)
