-- ===== src/Peer/RoundTrip.antt =====
-- The transactions of a forwarded request, crates/net/peer/src/types.rs.
use sidecar.Prelude.{◌≡◌, refl, List, [], ◌∷◌, Bytes, ℕ, map}
use sidecar.Prelude.Map.{Map}
use sidecar.Prelude.Result.{ok}
use sidecar.Peer.{
  HexCodec, new, encode_transactions, decode_all, decode_entries, decode_transactions,
}

-- Hex text is decoded to what it was made of.
abbrev pub IsHexCodec : HexCodec → Type 0
IsHexCodec hex = (bytes : Bytes) → hex.decode (hex.encode bytes) ≡ ok bytes

decode_all-map :
    (hex : HexCodec) (txs : List Bytes)
    → IsHexCodec hex
    → decode_all hex (map hex.encode txs) ≡ ok txs
unfolding decode_all
decode_all-map hex [] v = refl
decode_all-map hex (tx ∷ txs) v = rw (v tx, decode_all-map hex txs v) refl

decode_entries-encode_transactions :
    (hex : HexCodec) (txs : Map ℕ (List Bytes))
    → IsHexCodec hex
    → decode_entries hex (encode_transactions hex txs) ≡ ok txs
unfolding decode_entries
decode_entries-encode_transactions hex [] v = refl
decode_entries-encode_transactions hex ((chain_id, chain_txs) ∷ txs) v =
    rw (decode_all-map hex chain_txs v, decode_entries-encode_transactions hex txs v) refl

-- The receiver of a forwarded request reads the transactions that the sender put into it.
pub decode_transactions-new :
    (hex : HexCodec) (instance_id : Bytes) (txs : Map ℕ (List Bytes)) (origin_chain origin_seq : ℕ)
    → IsHexCodec hex
    → decode_transactions hex (new hex instance_id txs origin_chain origin_seq) ≡ ok txs
unfolding decode_transactions
decode_transactions-new hex instance_id txs origin_chain origin_seq v =
    decode_entries-encode_transactions hex txs v
