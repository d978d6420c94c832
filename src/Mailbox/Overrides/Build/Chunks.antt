-- ===== src/Mailbox/Overrides/Build/Chunks.antt =====
-- The padded chunks of `apply_bytes_to_state_diff`, crates/mailbox/src/overrides.rs, hold the message.
use sidecar.Prelude.{
  ℕ, zero, suc, ◌+◌, ◌-◌, ◌/◌, ◌≤◌, ◌<◌, ◌≡◌, refl, ap, ◌∙◌, false, List, [], ◌∷◌, ◌++◌, Bytes,
  bytes_eq, leb→le, length, take, drop, length-take, length-drop, take-append, take-append_past,
  take_all, append-take-drop, zeros, leb, Bool-cases, inl, inr, arith, map,
}
use mathlib.Core.List.{append-nil, append_assoc}
use sidecar.Mailbox.Overrides.Build.{chunks, pad_word}

leb→lt : (n m : ℕ) → leb n m ≡ false → m < n
leb→lt n m e = ground arith

abbrev pub concat : List Bytes → Bytes
concat [] = []
concat (xs ∷ rest) = xs ++ concat rest

pub fits : (bytes z rest : Bytes) → take (length bytes) ((bytes ++ z) ++ rest) ≡ bytes
fits bytes z rest =
    ap (take (length bytes)) (append_assoc bytes z rest) ∙ take-append bytes (z ++ rest)

continues :
    (n k : ℕ) (bytes rest later : Bytes)
    → k ≡ 0
    → length bytes ≤ n
    → take (n - length bytes) rest ≡ later
    → take n ((bytes ++ zeros k) ++ rest) ≡ bytes ++ later
continues n k bytes rest later none_padded h e =
    ap (λ j. take n ((bytes ++ zeros j) ++ rest)) none_padded
    ∙ ap (λ l. take n (l ++ rest)) (append-nil bytes)
    ∙ take-append_past n bytes rest h
    ∙ ap (λ l. bytes ++ l) e

-- The padded chunks begin with the message.
pub take-concat-chunks :
    (fuel : ℕ) (payload : Bytes)
    → length payload ≤ fuel
    → take (length payload) (concat (map pad_word (chunks fuel payload))) ≡ payload
take-concat-chunks zero [] h = refl
take-concat-chunks zero (b ∷ bytes) h = absurd (omega arith)
take-concat-chunks (suc fuel) [] h = refl
take-concat-chunks (suc fuel) (b ∷ bytes) h = elim (Bool-cases (leb (length bytes) 31)) [
  | inl e ↦
      ap (λ l. b ∷ l)
        (ap (λ t. take (length bytes) ((t ++ zeros (32 - suc (length t))) ++ rest))
            (take_all 31 bytes (leb→le (length bytes) 31 e))
          ∙ fits bytes (zeros (32 - suc (length bytes))) rest)
  | inr e ↦
      ap (λ l. b ∷ l)
        (continues (length bytes) (32 - suc (length (take 31 bytes))) (take 31 bytes) rest
            (drop 31 bytes) (omega (arith, leb→lt (length bytes) 31 e, length-take 31 bytes))
            (omega (arith, leb→lt (length bytes) 31 e, length-take 31 bytes))
            (ap (λ n. take n rest)
                (omega
                  (arith, leb→lt (length bytes) 31 e, length-take 31 bytes, length-drop 31 bytes))
              ∙ take-concat-chunks fuel (drop 31 bytes) (omega (arith, length-drop 31 bytes)))
          ∙ append-take-drop 31 bytes)
]
  where
    rest : Bytes
    rest = concat (map pad_word (chunks fuel (drop 31 bytes)))

pub length-chunks :
    (fuel : ℕ) (payload : Bytes)
    → length payload ≤ fuel
    → length (chunks fuel payload) ≡ (length payload + 31) / 32
length-chunks zero [] h = omega arith
length-chunks zero (b ∷ bytes) h = absurd (omega arith)
length-chunks (suc fuel) [] h = omega arith
length-chunks (suc fuel) (b ∷ bytes) h = omega (
  arith,
  length-drop 31 bytes,
  length-chunks fuel (drop 31 bytes) (omega (arith, length-drop 31 bytes)),
)
