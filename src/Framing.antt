-- ===== src/Framing.antt =====
-- crates/net/transport/src/framing.rs: the codec of frames, four bytes of length and a payload.
pub mod RoundTrip
mod Tests
use sidecar.Prelude.{
  ℕ, ◌+◌, ◌*◌, ◌/◌, ◌%◌, ◌^◌, Bytes, [], ◌∷◌, ◌++◌, Option, none, some, length, take, drop, ltb,
  if◌then◌else◌,
}
use sidecar.Prelude.Result.{Result, ok, err}

-- `TransportError`, with a formatted text as its bytes.
pub data TransportError : Type 0 where
  connection_closed timeout : TransportError
  connection_refused tls quic codec io other : Bytes → TransportError
  message_too_large : ℕ → ℕ → TransportError

pub record LengthPrefixCodec : Type 0 where
  pub max_message_size : ℕ

-- 4 MiB
abbrev pub default : LengthPrefixCodec
default = record { max_message_size = 4 * 1024 * 1024 }

-- `put_u32` of a length cast to `u32`: four bytes, the highest first.
abbrev pub put_u32 : ℕ → Bytes → Bytes
put_u32 n rest =
    let word = n % 2 ^ 32 in
    word / 2 ^ 24 ∷ word / 2 ^ 16 % 256 ∷ word / 2 ^ 8 % 256 ∷ word % 256 ∷ rest

abbrev pub from_be_bytes : ℕ → ℕ → ℕ → ℕ → ℕ
from_be_bytes a b c d = ((a * 256 + b) * 256 + c) * 256 + d

unfoldable pub encode : LengthPrefixCodec → Bytes → Result TransportError Bytes
encode this payload =
    if ltb this.max_message_size (length payload)
    then err (message_too_large (length payload) this.max_message_size)
    else ok (put_u32 (length payload) payload)

abbrev pub checked_length : LengthPrefixCodec → ℕ → Result TransportError ℕ
checked_length this n =
    if ltb this.max_message_size n then err (message_too_large n this.max_message_size) else ok n

abbrev pub decode_length : LengthPrefixCodec → ℕ → ℕ → ℕ → ℕ → Result TransportError ℕ
decode_length this a b c d = checked_length this (from_be_bytes a b c d)

-- A frame of a payload of `n` bytes, with `buf` the whole buffer and `body` what follows its header.
abbrev pub split_frame :
    Bytes → Bytes → Result TransportError ℕ → Result TransportError (Option Bytes) × Bytes
split_frame buf body (err e) = (err e, buf)
split_frame buf body (ok n) =
    if ltb (length buf) (4 + n) then (ok none, buf) else (ok (some (take n body)), drop n body)

-- The payload, and the buffer afterwards.
pub decode_frame : LengthPrefixCodec → Bytes → Result TransportError (Option Bytes) × Bytes
decode_frame this (a ∷ b ∷ c ∷ d ∷ body) =
    split_frame (a ∷ b ∷ c ∷ d ∷ body) body (checked_length this (from_be_bytes a b c d))
decode_frame this buf = (ok none, buf)
