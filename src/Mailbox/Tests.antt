-- ===== src/Mailbox/Tests.antt =====
-- Instances of the theorems on crates/mailbox/src, with big-endian words of 32 bytes.
use sidecar.Prelude.{
  ℕ, zero, suc, ◌+◌, ◌*◌, ◌/◌, ◌%◌, ◌^◌, ◌<◌, ◌≡◌, ◌≢◌, sym, ◌++◌, refl, ap, ◌∙◌, ◌↔◌, true, none,
  some, [], ◌∷◌, Bytes, arith, length, bytes_eq,
}
use sidecar.Mailbox.Types.{CrossRollupDependency, CrossRollupMessage, MailboxMessage}
use sidecar.Mailbox.Wire.{WordCodec, IsWordCodec}
use sidecar.Mailbox.Matching.{dependency_key, matches_dependency}
use sidecar.Mailbox.Routing.{mailbox_message, write_key, IsWrite, matches_dependency_iff}
use sidecar.Mailbox.Overrides.{AccountOverride, merge_account}
use sidecar.Mailbox.Overrides.Build.{apply_bytes_to_state_diff}
use sidecar.Mailbox.Overrides.Build.Storage.{
  last_byte, word_slot, read_bytes, read_bytes-apply_bytes_to_state_diff,
}
use sidecar.Mailbox.Overrides.Merge.{read_slot, HasStorage, merge_account_reads}

big_endian : ℕ → ℕ → Bytes → Bytes
big_endian zero n bytes = bytes
big_endian (suc k) n bytes = big_endian k (n / 256) (n % 256 ∷ bytes)

value_of : ℕ → Bytes → ℕ
value_of n [] = n
value_of n (b ∷ bytes) = value_of (n * 256 + b) bytes

places : ℕ → ℕ
places zero = 1
places (suc k) = 256 * places k

value_of-big_endian :
    (k n : ℕ) (bytes : Bytes) → n < places k → value_of 0 (big_endian k n bytes) ≡ value_of n bytes
unfolding value_of big_endian places
value_of-big_endian zero n bytes h = ap (λ k. value_of k bytes) (ground arith)
value_of-big_endian (suc k) n bytes h =
    value_of-big_endian k (n / 256) (n % 256 ∷ bytes) (smaller (places k) h)
    ∙ ap (λ m. value_of m bytes) (omega arith)
  where
    smaller : (p : ℕ) → n < 256 * p → n / 256 < p
    smaller p l = omega arith

length-big_endian : (k n : ℕ) (bytes : Bytes) → length (big_endian k n bytes) ≡ k + length bytes
unfolding big_endian
length-big_endian zero n bytes = ground arith
length-big_endian (suc k) n bytes = ground (arith, length-big_endian k (n / 256) (n % 256 ∷ bytes))

abbrev codec : WordCodec
codec = record { to_be_bytes = λ n. big_endian 32 n []; from_be_slice = value_of 0 }

codec-IsWordCodec : IsWordCodec codec
unfolding value_of places
codec-IsWordCodec = record {
  width = λ n. length-big_endian 32 n [];
  inverse = λ n h. value_of-big_endian 32 n [] h;
}

last_byte-big_endian :
    (k n b : ℕ) (bytes : Bytes) → last_byte (big_endian k n (b ∷ bytes)) ≡ last_byte (b ∷ bytes)
unfolding big_endian
last_byte-big_endian zero n b bytes = refl
last_byte-big_endian (suc k) n b bytes = last_byte-big_endian k (n / 256) (n % 256) (b ∷ bytes)

lowest_last : (n : ℕ) → n < 2 ^ 256 → last_byte (codec.to_be_bytes n) ≡ n % 256
unfolding big_endian
lowest_last n h = last_byte-big_endian 31 (n / 256) (n % 256) []

abbrev address : ℕ → Bytes
address n = n ∷ n ∷ n ∷ n ∷ n ∷ n ∷ n ∷ n ∷ n ∷ n ∷ n ∷ n ∷ n ∷ n ∷ n ∷ n ∷ n ∷ n ∷ n ∷ n ∷ []

-- A write of chain 1 for chain 2, and what chain 2 waits for.
abbrev write : CrossRollupMessage
write = record {
  source_chain_id = 1;
  dest_chain_id = 2;
  sender = address 7;
  receiver = address 8;
  label = 65 ∷ [];
  payload = 9 ∷ 9 ∷ [];
  session_id = 42;
}

abbrev need : CrossRollupDependency
need = record {
  source_chain_id = 1;
  dest_chain_id = 2;
  sender = address 7;
  receiver = address 8;
  label = 65 ∷ [];
  payload = none;
  session_id = 42;
}

abbrev id1 : Bytes
id1 = 1 ∷ []

abbrev id2 : Bytes
id2 = 2 ∷ []

write-IsWrite : IsWrite write
write-IsWrite = record { sender_width = refl; receiver_width = refl; session_range = omega arith }

matches_dependency_iff_example :
    (matches_dependency codec (mailbox_message codec id1 write) need ≡ true)
    ↔ (write_key write ≡ dependency_key need)
matches_dependency_iff_example =
    matches_dependency_iff codec id1 write need codec-IsWordCodec write-IsWrite

abbrev message : Bytes → ℕ → MailboxMessage
message id n = record {
  instance_id = id;
  source_chain = 1;
  destination_chain = 2;
  sender = address 7;
  receiver = address 8;
  session_id = [];
  label = n ∷ [];
  payload = [];
}

-- An override of two slots, and one that replaces a slot and the nonce.
abbrev base_account : AccountOverride
base_account = record {
  balance = some 5;
  nonce = some 1;
  code = none;
  state = none;
  state_diff = some ((id1, 1 ∷ []) ∷ (id2, 2 ∷ []) ∷ []);
}

abbrev overlay_account : AccountOverride
overlay_account = record {
  balance = none;
  nonce = some 4;
  code = none;
  state = none;
  state_diff = some ((id2, 3 ∷ []) ∷ []);
}

merge_account_reads_example :
    (read_slot (merge_account overlay_account base_account) id2 ≡ some (3 ∷ []))
    × HasStorage overlay_account.state overlay_account.state_diff base_account.state
        base_account.state_diff
        (merge_account overlay_account base_account)
    × ((merge_account overlay_account base_account).nonce ≡ some 4)
    × ((merge_account overlay_account base_account).balance ≡ some 5)
    × ((merge_account overlay_account base_account).code ≡ none)
merge_account_reads_example = merge_account_reads overlay_account base_account id2 (refl, tt)

-- A message of two words behind a slot whose hash is that of the slot 0.
abbrev long_message : Bytes
long_message = 7 ∷ address 7 ++ address 8

apart :
    (i : ℕ)
    → i < (length long_message + 31) / 32
    → word_slot codec (λ _. []) 0 i ≢ codec.to_be_bytes 9
apart i l e = absurd (omega (arith, at_nine))
  where
    at_nine : (0 + i) % 2 ^ 256 ≡ 9
    at_nine =
        sym (codec-IsWordCodec.inverse ((0 + i) % 2 ^ 256) (omega arith))
        ∙ ap codec.from_be_slice e
        ∙ codec-IsWordCodec.inverse 9 (omega arith)

read_bytes-apply_bytes_to_state_diff_example :
    read_bytes codec
      (λ _. [])
      (apply_bytes_to_state_diff codec (λ _. []) (codec.to_be_bytes 9) long_message [])
      (codec.to_be_bytes 9)
    ≡ long_message
unfolding value_of
read_bytes-apply_bytes_to_state_diff_example =
    read_bytes-apply_bytes_to_state_diff codec (λ _. []) long_message (codec.to_be_bytes 9) []
      codec-IsWordCodec lowest_last (omega arith) apart
