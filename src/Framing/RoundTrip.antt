-- ===== src/Framing/RoundTrip.antt =====
-- `encode` and `decode_frame` of crates/net/transport/src/framing.rs against each other.
use sidecar.Prelude.{
  ℕ, zero, suc, ◌+◌, ◌/◌, ◌%◌, ◌^◌, ◌≤◌, ◌<◌, ◌≡◌, refl, ap, subst, ◌∙◌, Bytes, ◌++◌, none, some,
  length, take, drop, take-append, drop-append, length-take, length-append, true, false, ltb,
  if◌then◌else◌, arith,
}
use sidecar.Prelude.Result.{ok}
use sidecar.Framing.{
  LengthPrefixCodec, put_u32, from_be_bytes, encode, checked_length, split_frame, decode_frame,
}

from_be_bytes_lem :
    (n : ℕ)
    → n < 2 ^ 32
    → from_be_bytes
        (n % 2 ^ 32 / 2 ^ 24)
        (n % 2 ^ 32 / 2 ^ 16 % 256)
        (n % 2 ^ 32 / 2 ^ 8 % 256)
        (n % 2 ^ 32 % 256)
      ≡ n
from_be_bytes_lem n h = omega arith

checked_length_lem :
    (this : LengthPrefixCodec) (n : ℕ) → n ≤ this.max_message_size → checked_length this n ≡ ok n
checked_length_lem this n h = ground arith

decode_header :
    (this : LengthPrefixCodec) (n : ℕ) (body : Bytes)
    → n ≤ this.max_message_size
    → this.max_message_size < 2 ^ 32
    → decode_frame this (put_u32 n body) ≡ split_frame (put_u32 n body) body (ok n)
unfolding decode_frame
decode_header this n body h bound =
    ap (λ k. split_frame (put_u32 n body) body (checked_length this k))
      (from_be_bytes_lem n (omega arith))
    ∙ ap (split_frame (put_u32 n body) body) (checked_length_lem this n h)

encode_lem :
    (this : LengthPrefixCodec) (payload : Bytes)
    → length payload ≤ this.max_message_size
    → encode this payload ≡ ok (put_u32 (length payload) payload)
unfolding encode
encode_lem this payload h = ground arith

whole_frame :
    (payload rest : Bytes)
    → split_frame
        (put_u32 (length payload) (payload ++ rest))
        (payload ++ rest)
        (ok (length payload))
      ≡ (ok (some payload), rest)
whole_frame payload rest =
    ap
      (λ t. if t then (ok none, put_u32 (length payload) (payload ++ rest)) else (
        ok (some (take (length payload) (payload ++ rest))),
        drop (length payload) (payload ++ rest),
      ))
      enough
    ∙ (λ i. (ok (some (take-append payload rest i)), drop-append payload rest i))
  where
    enough : ltb (length (put_u32 (length payload) (payload ++ rest))) (4 + length payload) ≡ false
    enough = ground (arith, length-append payload rest)

-- A payload within the limit of a codec whose limit fits 32 bits is encoded, and its frame, followed
-- by any bytes, is decoded to the payload and leaves exactly those bytes in the buffer.
pub decode_frame-encode :
    (this : LengthPrefixCodec) (payload : Bytes)
    → this.max_message_size < 2 ^ 32
    → length payload ≤ this.max_message_size
    → (framed : Bytes) × (encode this payload ≡ ok framed)
      × ((rest : Bytes) → decode_frame this (framed ++ rest) ≡ (ok (some payload), rest))
decode_frame-encode this payload bound h = (
  put_u32 (length payload) payload,
  encode_lem this payload h,
  λ rest. decode_header this (length payload) (payload ++ rest) h bound ∙ whole_frame payload rest,
)

cut_body :
    (n k : ℕ) (body : Bytes)
    → k < n
    → length body ≡ n
    → split_frame (put_u32 n (take k body)) (take k body) (ok n)
      ≡ (ok none, put_u32 n (take k body))
cut_body n k body h e =
    ap
      (λ t.
        if t
        then (ok none, put_u32 n (take k body))
        else (ok (some (take n (take k body))), drop n (take k body)))
      few
  where
    few : ltb (length (put_u32 n (take k body))) (4 + n) ≡ true
    few = ground (arith, length-take k body)

cut_frame :
    (this : LengthPrefixCodec) (payload : Bytes) (n : ℕ)
    → this.max_message_size < 2 ^ 32
    → length payload ≤ this.max_message_size
    → n < length (put_u32 (length payload) payload)
    → decode_frame this (take n (put_u32 (length payload) payload))
      ≡ (ok none, take n (put_u32 (length payload) payload))
unfolding decode_frame
cut_frame this payload zero bound h few = refl
cut_frame this payload (suc zero) bound h few = refl
cut_frame this payload (suc (suc zero)) bound h few = refl
cut_frame this payload (suc (suc (suc zero))) bound h few = refl
cut_frame this payload (suc (suc (suc (suc k)))) bound h few =
    decode_header this (length payload) (take k payload) h bound
    ∙ cut_body (length payload) k payload (omega arith) refl

-- A frame, of a payload within a limit that fits 32 bits, that has only come in part is left in the
-- buffer, and no error is raised.
pub decode_frame-take :
    (this : LengthPrefixCodec) (payload framed : Bytes) (n : ℕ)
    → this.max_message_size < 2 ^ 32
    → length payload ≤ this.max_message_size
    → encode this payload ≡ ok framed
    → n < length framed
    → decode_frame this (take n framed) ≡ (ok none, take n framed)
decode_frame-take this payload framed n bound h e few =
    subst (λ f. n < length f → decode_frame this (take n f) ≡ (ok none, take n f)) same
      (cut_frame this payload n bound h) few
  where
    same : put_u32 (length payload) payload ≡ framed
    same = ground (arith, encode_lem this payload h)
