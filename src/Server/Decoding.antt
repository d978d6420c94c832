-- ===== src/Server/Decoding.antt =====
-- The hex strings of a submission, handlers/xt.rs: what is decoded of them.
use sidecar.Prelude.{
  ℕ, zero, suc, ◌++◌, bytes_beq, bytes_beq_iff, ◌≡◌, refl, subst, ap, ◌∙◌, false, List, [], ◌∷◌,
  Bytes, nat_eq, arith, Bool-cases, inl, inr,
}
use sidecar.Prelude.Result.{Result, ok, err, ◌>>=◌}
use sidecar.Errors.{Message}
use sidecar.Simulation.Trace.{trim_prefixes}
use sidecar.Peer.{HexCodec}
use sidecar.Server.{ServerError, as_invalid_hex, decode_chain}

abbrev pub with_prefixes : ℕ → Bytes → Bytes
with_prefixes zero bare = bare
with_prefixes (suc n) bare = b'0' ∷ b'x' ∷ with_prefixes n bare

-- The string does not begin with `0x`.
abbrev pub IsBare : Bytes → Type 0
IsBare (a ∷ b ∷ rest) = bytes_beq (a ∷ b ∷ []) (b'0' ∷ b'x' ∷ []) ≡ false
IsBare _ = Unit

-- A string and its transaction: what the hex library makes of it without the prefixes `0x`.
abbrev pub IsRead : HexCodec → Bytes → Bytes → Type 0
IsRead hex hex_tx tx =
    (n : ℕ) × (bare : Bytes) × (hex_tx ≡ with_prefixes n bare)
    × IsBare bare
    × (hex.decode bare ≡ ok tx)

-- One transaction for each string, in order.
abbrev pub DecodesTo : HexCodec → List Bytes → List Bytes → Type 0
DecodesTo hex [] [] = Unit
DecodesTo hex (hex_tx ∷ hex_txs) (tx ∷ txs) = IsRead hex hex_tx tx × DecodesTo hex hex_txs txs
DecodesTo hex _ _ = ⊥

trim_prefixes_lem :
    (s : Bytes) → (n : ℕ) × (s ≡ with_prefixes n (trim_prefixes s)) × IsBare (trim_prefixes s)
trim_prefixes_lem [] = (0, refl, tt)
trim_prefixes_lem (a ∷ []) = (0, refl, tt)
trim_prefixes_lem (a ∷ b ∷ rest) =
    let (n, e, bare) = trim_prefixes_lem rest in
    elim (Bool-cases (bytes_beq (a ∷ b ∷ []) (b'0' ∷ b'x' ∷ []))) [
      | inl q ↦ rw q (
        suc n,
        ap (λ start. start ++ rest) ((bytes_beq_iff (a ∷ b ∷ []) (b'0' ∷ b'x' ∷ [])).0 q)
            ∙ ap (λ r. b'0' ∷ b'x' ∷ r) e,
        bare,
      )
      | inr q ↦ rw q (0, refl, q)
    ]

pub decode_chain-DecodesTo :
    (hex : HexCodec) (hex_txs txs : List Bytes)
    → decode_chain hex hex_txs ≡ ok txs
    → DecodesTo hex hex_txs txs
unfolding decode_chain
decode_chain-DecodesTo hex [] [] e = tt
decode_chain-DecodesTo hex [] (tx ∷ txs) e = absurd (ground arith)
decode_chain-DecodesTo hex (hex_tx ∷ hex_txs) txs e =
    first (decode_chain-DecodesTo hex hex_txs) (hex.decode (trim_prefixes hex_tx)) refl e
  where
    rest :
        (ih : (later : List Bytes)
          → decode_chain hex hex_txs ≡ ok later
          → DecodesTo hex hex_txs later)
        (tx : Bytes) (r : Result ServerError (List Bytes))
        → hex.decode (trim_prefixes hex_tx) ≡ ok tx
        → decode_chain hex hex_txs ≡ r
        → (r >>= λ later. ok (tx ∷ later)) ≡ ok txs
        → DecodesTo hex (hex_tx ∷ hex_txs) txs
    rest ih tx (err x) d q g = absurd (ground arith)
    rest ih tx (ok later) d q g =
        let (n, whole, bare) = trim_prefixes_lem hex_tx in
        subst (DecodesTo hex (hex_tx ∷ hex_txs)) (same g)
          ((n, trim_prefixes hex_tx, whole, bare, d), ih later q)
      where
        same :
            ◌≡◌ {A = Result ServerError (List Bytes)} (ok (tx ∷ later)) (ok txs) → tx ∷ later ≡ txs
        same p = ground arith

    first :
        (ih : (later : List Bytes)
          → decode_chain hex hex_txs ≡ ok later
          → DecodesTo hex hex_txs later)
        (r : Result Message Bytes)
        → hex.decode (trim_prefixes hex_tx) ≡ r
        → (as_invalid_hex r >>= λ tx. decode_chain hex hex_txs >>= λ later. ok (tx ∷ later))
          ≡ ok txs
        → DecodesTo hex (hex_tx ∷ hex_txs) txs
    first ih (err x) d g = absurd (ground arith)
    first ih (ok tx) d g = rest ih tx (decode_chain hex hex_txs) d refl g
