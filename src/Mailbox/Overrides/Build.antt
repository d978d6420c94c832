-- ===== src/Mailbox/Overrides/Build.antt =====
-- crates/mailbox/src/overrides.rs: the storage slots in which the mailbox contract keeps its
-- messages, and the overrides that fill them with the fulfilled dependencies. The hash is foreign.
pub mod Chunks
pub mod Storage
use sidecar.Prelude.{
  ℕ, zero, suc, ◌+◌, ◌-◌, ◌*◌, ◌%◌, ◌^◌, min, Option, none, some, List, [], ◌∷◌, ◌++◌, Bytes,
  bytes_eq, length, take, drop, leb, nat_beq, zeros, if◌then◌else◌,
}
use sidecar.Prelude.Map
use sidecar.Mailbox.Types.{CrossRollupDependency}
use sidecar.Mailbox.Wire.{WordCodec}
use sidecar.Mailbox.Overrides.{SlotMap, StateOverride}

abbrev pub inbox_mapping_slot : ℕ
inbox_mapping_slot = 5

abbrev pub created_keys_mapping_slot : ℕ
created_keys_mapping_slot = 7

-- Up to 31 bytes stand in the word itself, with twice their number in its last byte.
pub encode_short_bytes : Bytes → Bytes
encode_short_bytes payload =
    let len = min (length payload) 31 in
    take len payload ++ (zeros (31 - len) ++ (len % 256 * 2) ∷ [])

-- `chunks(32)`, on fuel for one byte of each chunk.
abbrev pub chunks : ℕ → Bytes → List Bytes
chunks zero payload = []
chunks (suc fuel) [] = []
chunks (suc fuel) (b ∷ bytes) = take 32 (b ∷ bytes) ∷ chunks fuel (drop 32 (b ∷ bytes))

abbrev pub pad_word : Bytes → Bytes
pad_word chunk = chunk ++ zeros (32 - length chunk)

module _ (codec : WordCodec) (keccak256 : Bytes → Bytes) where
  abbrev pub mapping_slot : Bytes → ℕ → Bytes
  mapping_slot key slot = keccak256 (key ++ codec.to_be_bytes slot)

  -- The sum of two `U256` wraps.
  abbrev pub insert_chunks : ℕ → ℕ → List Bytes → SlotMap → SlotMap
  insert_chunks base_slot i [] state_diff = state_diff
  insert_chunks base_slot i (chunk ∷ rest) state_diff =
      insert_chunks base_slot (suc i) rest
        (Map.insert (codec.to_be_bytes ((base_slot + i) % 2 ^ 256)) (pad_word chunk) state_diff)

  abbrev pub long_word : ℕ → Bytes
  long_word len = codec.to_be_bytes ((len * 2 + 1) % 2 ^ 256)

  pub apply_bytes_to_state_diff : Bytes → Bytes → SlotMap → SlotMap
  unfolding encode_short_bytes
  apply_bytes_to_state_diff slot payload state_diff =
      if leb (length payload) 31
      then Map.insert slot (encode_short_bytes payload) state_diff
      else insert_chunks (codec.from_be_slice (keccak256 slot)) 0 (chunks (length payload) payload)
          (Map.insert slot (long_word (length payload)) state_diff)

  pub mailbox_key : ℕ → CrossRollupDependency → Bytes
  mailbox_key chain_id dep = keccak256 (
      codec.to_be_bytes dep.source_chain_id
      ++ (codec.to_be_bytes chain_id
          ++ (dep.sender ++ (dep.receiver ++ (codec.to_be_bytes dep.session_id ++ dep.label)))))

  abbrev pub insert_message : Bytes → Bytes → SlotMap → SlotMap
  unfolding apply_bytes_to_state_diff
  insert_message key payload state_diff =
      Map.insert (mapping_slot key created_keys_mapping_slot) (codec.to_be_bytes 1)
        (apply_bytes_to_state_diff (mapping_slot key inbox_mapping_slot) payload state_diff)

  abbrev pub insert_payload : ℕ → CrossRollupDependency → Option Bytes → SlotMap → SlotMap
  insert_payload chain_id dep none state_diff = state_diff
  insert_payload chain_id dep (some payload) state_diff =
      insert_message (mailbox_key chain_id dep) payload state_diff

  -- A dependency of another chain, or one with no payload yet, is passed over.
  pub insert_dependencies : ℕ → List CrossRollupDependency → SlotMap → SlotMap
  unfolding mailbox_key insert_message
  insert_dependencies chain_id [] state_diff = state_diff
  insert_dependencies chain_id (dep ∷ deps) state_diff = insert_dependencies chain_id deps (
      if nat_beq dep.dest_chain_id chain_id
      then insert_payload chain_id dep dep.payload state_diff
      else state_diff)

  abbrev pub overrides_of_slots : Bytes → SlotMap → Option StateOverride
  overrides_of_slots mailbox_address [] = none
  overrides_of_slots mailbox_address (entry ∷ slots) = some (
      (
        mailbox_address,
        record {
          balance = none;
          nonce = none;
          code = none;
          state = none;
          state_diff = some (entry ∷ slots);
        },
      )
      ∷ [])

  pub build_mailbox_state_overrides : ℕ → Bytes → List CrossRollupDependency → Option StateOverride
  unfolding insert_dependencies
  build_mailbox_state_overrides chain_id mailbox_address deps =
      overrides_of_slots mailbox_address (insert_dependencies chain_id deps [])
