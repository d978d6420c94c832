-- ===== src/Framing/Tests.antt =====
-- Runs of the codec, and instances of its theorems.
use sidecar.Prelude.{◌≡◌, refl, Bytes, [], ◌∷◌, ◌++◌, take, some, none, arith}
use sidecar.Prelude.Result.{ok, err}
use sidecar.Framing.{default, encode, decode_frame, message_too_large}
use sidecar.Framing.RoundTrip.{decode_frame-encode, decode_frame-take}

abbrev hello : Bytes
hello = 104 ∷ 101 ∷ 108 ∷ 108 ∷ 111 ∷ []

abbrev hello_frame : Bytes
hello_frame = 0 ∷ 0 ∷ 0 ∷ 5 ∷ hello

hello_encoded : encode default hello ≡ ok hello_frame
unfolding encode
hello_encoded = refl

oversized : encode (record { max_message_size = 4 }) hello ≡ err (message_too_large 5 4)
unfolding encode
oversized = refl

decode_frame-encode_example :
    (framed : Bytes) × (encode default hello ≡ ok framed)
    × ((rest : Bytes) → decode_frame default (framed ++ rest) ≡ (ok (some hello), rest))
decode_frame-encode_example = decode_frame-encode default hello (omega arith) (omega arith)

decode_frame-take_example :
    decode_frame default (take 6 hello_frame) ≡ (ok none, 0 ∷ 0 ∷ 0 ∷ 5 ∷ 104 ∷ 101 ∷ [])
decode_frame-take_example =
    decode_frame-take default hello hello_frame 6 (omega arith) (omega arith) hello_encoded
      (omega arith)
