-- ===== src/Mailbox/Overrides/Build/Storage.antt =====
-- `apply_bytes_to_state_diff` of crates/mailbox/src/overrides.rs against a reader of the layout in
-- which a contract keeps `bytes`.
use sidecar.Prelude.{
  ℕ, zero, suc, ◌+◌, ◌-◌, ◌*◌, ◌/◌, ◌%◌, ◌^◌, ◌≤◌, ◌<◌, ◌≡◌, ◌≢◌, refl, sym, ap, ◌∙◌, Bool, true,
  false, Option, none, some, List, [], ◌∷◌, ◌++◌, Bytes, bytes_eq, bytes_beq, bytes_beq_iff,
  beq_refl, min, leb→le, length, take, take_all, zeros, leb, nat_beq, if◌then◌else◌, Bool-cases,
  inl, inr, arith, map,
}
use mathlib.Core.List.{append_assoc}
use sidecar.Prelude.Map
use sidecar.Mailbox.Wire.{WordCodec, IsWordCodec}
use sidecar.Mailbox.Overrides.{SlotMap}
use sidecar.Mailbox.Overrides.Build.{
  encode_short_bytes, chunks, pad_word, insert_chunks, long_word, apply_bytes_to_state_diff,
}
use sidecar.Mailbox.Overrides.Build.Chunks.{concat, fits, take-concat-chunks, length-chunks}

abbrev pub word_or_zero : Option Bytes → Bytes
word_or_zero none = zeros 32
word_or_zero (some word) = word

abbrev pub last_byte : Bytes → ℕ
last_byte [] = 0
last_byte (b ∷ []) = b
last_byte (b ∷ c ∷ bytes) = last_byte (c ∷ bytes)

module _ (codec : WordCodec) (keccak256 : Bytes → Bytes) where
  -- The slot of the word `i` of a message whose words begin at `base`.
  abbrev pub word_slot : ℕ → ℕ → Bytes
  word_slot base i = codec.to_be_bytes ((base + i) % 2 ^ 256)

  abbrev pub read_words : SlotMap → ℕ → ℕ → ℕ → Bytes
  read_words storage base i zero = []
  read_words storage base i (suc n) =
      word_or_zero (Map.lookup (word_slot base i) storage) ++ read_words storage base (suc i) n

  -- What the contract reads at a slot: an even last byte is twice the length of bytes that stand in
  -- the word itself, an odd word is twice the length, and one, of bytes that stand behind its hash.
  abbrev pub read_long : SlotMap → Bytes → ℕ → Bytes
  read_long storage slot len =
      take len (read_words storage (codec.from_be_slice (keccak256 slot)) 0 ((len + 31) / 32))

  abbrev pub read_bytes : SlotMap → Bytes → Bytes
  read_bytes storage slot =
      let word = word_or_zero (Map.lookup slot storage) in
      if nat_beq (last_byte word % 2) 0
      then take (last_byte word / 2) word
      else read_long storage slot (codec.from_be_slice word / 2)

last_byte-append : (xs : Bytes) (b : ℕ) → last_byte (xs ++ b ∷ []) ≡ b
last_byte-append [] b = refl
last_byte-append (x ∷ []) b = refl
last_byte-append (x ∷ y ∷ xs) b = last_byte-append (y ∷ xs) b

mod_distinct :
    (base i j : ℕ) → i < j → j < i + 2 ^ 256 → (base + i) % 2 ^ 256 ≢ (base + j) % 2 ^ 256
mod_distinct base i j h k e = omega arith

mod_range : (n : ℕ) → n % 2 ^ 256 < 2 ^ 256
mod_range n = omega arith

module _ (codec : WordCodec) (keccak256 : Bytes → Bytes) where
  word_slot-injective :
      (base i j : ℕ)
      → IsWordCodec codec
      → word_slot codec keccak256 base i ≡ word_slot codec keccak256 base j
      → (base + i) % 2 ^ 256 ≡ (base + j) % 2 ^ 256
  word_slot-injective base i j v e =
      sym (v.inverse ((base + i) % 2 ^ 256) (mod_range (base + i)))
      ∙ ap codec.from_be_slice e
      ∙ v.inverse ((base + j) % 2 ^ 256) (mod_range (base + j))

  lookup-insert_chunks :
      (slot : Bytes) (base i : ℕ) (rest : List Bytes) (state_diff : SlotMap)
      → ((j : ℕ) → i ≤ j → j < i + length rest → word_slot codec keccak256 base j ≢ slot)
      → Map.lookup slot (insert_chunks codec keccak256 base i rest state_diff)
        ≡ Map.lookup slot state_diff
  lookup-insert_chunks slot base i [] state_diff h = refl
  lookup-insert_chunks slot base i (chunk ∷ rest) state_diff h =
      lookup-insert_chunks slot base (suc i) rest (Map.insert at_i (pad_word chunk) state_diff)
        (λ j l r. h j (omega arith) (omega arith))
      ∙ Map.lookup-insert at_i slot (pad_word chunk) state_diff
      ∙ other (bytes_beq at_i slot) refl
    where
      at_i : Bytes
      at_i = word_slot codec keccak256 base i

      other :
          (b : Bool)
          → bytes_beq at_i slot ≡ b
          → (if b then some (pad_word chunk) else Map.lookup slot state_diff)
            ≡ Map.lookup slot state_diff
      other true e = absurd (h i (omega arith) (omega arith) ((bytes_beq_iff at_i slot).0 e))
      other false e = refl

  -- The words that have been written are read again.
  read_words-insert_chunks :
      (base i : ℕ) (rest : List Bytes) (state_diff : SlotMap)
      → IsWordCodec codec
      → length rest < 2 ^ 256
      → read_words codec keccak256
          (insert_chunks codec keccak256 base i rest state_diff)
          base
          i
          (length rest)
        ≡ concat (map pad_word rest)
  read_words-insert_chunks base i [] state_diff v h = refl
  read_words-insert_chunks base i (chunk ∷ rest) state_diff v h =
      ap (λ o. word_or_zero o ++ read_words codec keccak256 storage base (suc i) (length rest))
        found
      ∙ ap (λ bytes. pad_word chunk ++ bytes)
          (read_words-insert_chunks base (suc i) rest (Map.insert at_i (pad_word chunk) state_diff)
            v (omega arith))
    where
      at_i : Bytes
      at_i = word_slot codec keccak256 base i

      storage : SlotMap
      storage =
          insert_chunks codec keccak256 base (suc i) rest
            (Map.insert at_i (pad_word chunk) state_diff)

      found : Map.lookup at_i storage ≡ some (pad_word chunk)
      found =
          lookup-insert_chunks at_i base (suc i) rest (Map.insert at_i (pad_word chunk) state_diff)
            (λ j l r e.
              mod_distinct base i j (omega arith) (omega arith)
                (word_slot-injective base i j v (sym e)))
          ∙ Map.lookup-insert at_i at_i (pad_word chunk) state_diff
          ∙ rw (beq_refl at_i) refl

  abbrev read_word : SlotMap → Bytes → Bytes → Bytes
  read_word storage slot word =
      if nat_beq (last_byte word % 2) 0
      then take (last_byte word / 2) word
      else read_long codec keccak256 storage slot (codec.from_be_slice word / 2)

  read_even :
      (storage : SlotMap) (slot word : Bytes) (n : ℕ)
      → last_byte word ≡ n * 2
      → read_word storage slot word ≡ take n word
  read_even storage slot word n e =
      rw e (even (n * 2 % 2) (omega arith) ∙ ap (λ k. take k word) (omega arith))
    where
      even :
          (k : ℕ)
          → k ≡ 0
          → (if nat_beq k 0
              then take (n * 2 / 2) word
              else read_long codec keccak256 storage slot (codec.from_be_slice word / 2))
            ≡ take (n * 2 / 2) word
      even k z = rw z refl

  read_odd :
      (storage : SlotMap) (slot word : Bytes) (n : ℕ)
      → last_byte word % 2 ≡ 1
      → codec.from_be_slice word ≡ n * 2 + 1
      → read_word storage slot word ≡ read_long codec keccak256 storage slot n
  read_odd storage slot word n e f = rw (e, f) (ap (read_long codec keccak256 storage slot) half)
    where
      half : (n * 2 + 1) / 2 ≡ n
      half = omega arith

  encode_short_bytes_lem :
      (payload : Bytes)
      → length payload ≤ 31
      → encode_short_bytes payload
        ≡ (payload ++ zeros (31 - length payload)) ++ length payload * 2 ∷ []
  unfolding encode_short_bytes
  encode_short_bytes_lem payload h =
      ap (λ n. take n payload ++ (zeros (31 - n) ++ n % 256 * 2 ∷ [])) whole
      ∙ ap (λ t. t ++ (zeros (31 - length payload) ++ length payload % 256 * 2 ∷ []))
          (take_all (length payload) payload (omega arith))
      ∙ ap (λ n. payload ++ (zeros (31 - length payload) ++ n ∷ [])) doubled
      ∙ sym (append_assoc payload (zeros (31 - length payload)) (length payload * 2 ∷ []))
    where
      whole : min (length payload) 31 ≡ length payload
      whole = omega arith

      doubled : length payload % 256 * 2 ≡ length payload * 2
      doubled = omega arith

  read_short :
      (payload slot : Bytes) (storage : SlotMap)
      → length payload ≤ 31
      → read_word storage slot (encode_short_bytes payload) ≡ payload
  read_short payload slot storage h =
      ap (read_word storage slot) (encode_short_bytes_lem payload h)
      ∙ read_even storage slot ((payload ++ zeros (31 - length payload)) ++ length payload * 2 ∷ [])
          (length payload)
          (last_byte-append (payload ++ zeros (31 - length payload)) (length payload * 2))
      ∙ fits payload (zeros (31 - length payload)) (length payload * 2 ∷ [])

  read_back_long :
      (payload slot : Bytes) (storage : SlotMap)
      → IsWordCodec codec
      → ((n : ℕ) → n < 2 ^ 256 → last_byte (codec.to_be_bytes n) ≡ n % 256)
      → length payload < 2 ^ 255
      → read_long codec keccak256 storage slot (length payload) ≡ payload
      → read_word storage slot (long_word codec keccak256 (length payload)) ≡ payload
  read_back_long payload slot storage v ends h e =
      read_odd storage slot (long_word codec keccak256 (length payload)) (length payload)
        (omega (arith, ends word (mod_range (length payload * 2 + 1))))
        (omega (arith, v.inverse word (mod_range (length payload * 2 + 1))))
      ∙ e
    where
      word : ℕ
      word = (length payload * 2 + 1) % 2 ^ 256

  -- The contract finds a payload in the slot to which it has been written, short or long, with a
  -- library whose big-endian words end in the lowest byte, if no word of it stands in that slot.
  pub read_bytes-apply_bytes_to_state_diff :
      (payload slot : Bytes) (state_diff : SlotMap)
      → IsWordCodec codec
      → ((n : ℕ) → n < 2 ^ 256 → last_byte (codec.to_be_bytes n) ≡ n % 256)
      → length payload < 2 ^ 255
      → ((i : ℕ)
          → i < (length payload + 31) / 32
          → word_slot codec keccak256 (codec.from_be_slice (keccak256 slot)) i ≢ slot)
      → read_bytes codec keccak256
          (apply_bytes_to_state_diff codec keccak256 slot payload state_diff)
          slot
        ≡ payload
  unfolding apply_bytes_to_state_diff
  read_bytes-apply_bytes_to_state_diff payload slot state_diff v ends h apart =
      elim (Bool-cases (leb (length payload) 31)) [
        | inl e ↦ rw e (
            read_at (Map.insert slot (encode_short_bytes payload) state_diff)
              (encode_short_bytes payload)
              (Map.lookup-insert slot slot (encode_short_bytes payload) state_diff
                ∙ rw (beq_refl slot) refl)
            ∙ read_short payload slot (Map.insert slot (encode_short_bytes payload) state_diff)
                (leb→le (length payload) 31 e))
        | inr e ↦
            rw e (read_at long long_length kept ∙ read_back_long payload slot long v ends h words)
      ]
    where
      base : ℕ
      base = codec.from_be_slice (keccak256 slot)

      parts : List Bytes
      parts = chunks (length payload) payload

      long_length : Bytes
      long_length = long_word codec keccak256 (length payload)

      long : SlotMap
      long = insert_chunks codec keccak256 base 0 parts (Map.insert slot long_length state_diff)

      count : length parts ≡ (length payload + 31) / 32
      count = length-chunks (length payload) payload (omega arith)

      read_at :
          (storage : SlotMap) (word : Bytes)
          → Map.lookup slot storage ≡ some word
          → read_bytes codec keccak256 storage slot ≡ read_word storage slot word
      read_at storage word e = ap (λ o. read_word storage slot (word_or_zero o)) e

      kept : Map.lookup slot long ≡ some long_length
      kept =
          lookup-insert_chunks slot base 0 parts (Map.insert slot long_length state_diff)
            (λ j l r. apart j (omega (arith, count)))
          ∙ Map.lookup-insert slot slot long_length state_diff
          ∙ rw (beq_refl slot) refl

      words : read_long codec keccak256 long slot (length payload) ≡ payload
      words =
          ap (λ n. take (length payload) (read_words codec keccak256 long base 0 n)) (sym count)
          ∙ ap (take (length payload)) (
              read_words-insert_chunks base 0 parts (Map.insert slot long_length state_diff) v
                (omega (arith, count)))
          ∙ take-concat-chunks (length payload) payload (omega arith)
