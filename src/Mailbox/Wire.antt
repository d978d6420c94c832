-- ===== src/Mailbox/Wire.antt =====
-- crates/mailbox/src/wire.rs. The big-endian bytes of a `U256` are those of its library.
use sidecar.Prelude.{ℕ, ◌^◌, ◌<◌, ◌≡◌, Option, none, some, Bytes, length, nat_beq, if◌then◌else◌}

-- `U256::to_be_bytes::<32>` and `U256::from_be_slice`.
pub record WordCodec : Type 0 where
  pub to_be_bytes : ℕ → Bytes
  pub from_be_slice : Bytes → ℕ

-- What their documentation says of them.
pub record IsWordCodec (c : WordCodec) : Type 0 where
  pub width : (n : ℕ) → length (c.to_be_bytes n) ≡ 32
  pub inverse : (n : ℕ) → n < 2 ^ 256 → c.from_be_slice (c.to_be_bytes n) ≡ n

abbrev session_id_bytes : ℕ
session_id_bytes = 32

module _ (c : WordCodec) where
  unfoldable pub encode_session_id : ℕ → Bytes
  encode_session_id session_id = c.to_be_bytes session_id

  unfoldable pub decode_session_id : Bytes → Option ℕ
  decode_session_id bytes =
      if nat_beq (length bytes) session_id_bytes then some (c.from_be_slice bytes) else none
