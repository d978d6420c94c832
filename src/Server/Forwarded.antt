-- ===== src/Server/Forwarded.antt =====
-- Transactions on their way from one sidecar to another, and from a user to the coordinator.
use sidecar.Prelude.{
  ℕ, ◌≡◌, ◌≢◌, refl, sym, subst, ap, ◌∙◌, Bool, true, false, Option, none, some, List, [], ◌∷◌,
  Bytes, nat_eq, nat_beq, nat_beq_iff, arith, Bool-cases, inl, inr, if◌then◌else◌,
}
use sidecar.Prelude.Map
use sidecar.Prelude.Map.{Map}
use sidecar.Prelude.Result.{Result, ok, err, ◌>>=◌}
use sidecar.Mailbox.Overrides.{or_older}
use sidecar.Peer.{HexCodec, new}
use sidecar.Peer.RoundTrip.{IsHexCodec, decode_transactions-new}
use sidecar.Coordinator.World.{Env, World}
use sidecar.Coordinator.Handlers.ForwardedXt.{handle_forwarded_xt}
use sidecar.Server.Decoding.{DecodesTo, decode_chain-DecodesTo}
use sidecar.Server.{
  ServerError, answered, forward_decoded, handle_forward_xt, decode_chain, enter_chain,
  decode_chains, some_transactions, submitted_transactions,
}

-- A sidecar that receives a forwarded request handles the transactions that the sender put into it.
pub handle_forward_xt-new :
    (env : Env) (hex : HexCodec) (is_closed : ℕ → Bool) (id : Bytes) (txs : Map ℕ (List Bytes))
    (origin_chain origin_seq : ℕ) (w : World)
    → IsHexCodec hex
    → handle_forward_xt env hex is_closed (new hex id txs origin_chain origin_seq) w
      ≡ answered (handle_forwarded_xt env is_closed id txs origin_chain origin_seq w)
unfolding handle_forward_xt
handle_forward_xt-new env hex is_closed id txs origin_chain origin_seq w v =
    ap (λ r. forward_decoded env is_closed (new hex id txs origin_chain origin_seq) r w)
      (decode_transactions-new hex id txs origin_chain origin_seq v)

-- The transactions of a chain, if they can be decoded and there are some.
abbrev nonempty : Result ServerError (List Bytes) → Option (List Bytes)
nonempty (err e) = none
nonempty (ok []) = none
nonempty (ok (tx ∷ txs)) = some (tx ∷ txs)

abbrev entered : HexCodec → Option (List Bytes) → Option (List Bytes)
entered hex none = none
entered hex (some hex_txs) = nonempty (decode_chain hex hex_txs)

-- From the strings of a chain in the request to its transactions, where either may be missing.
abbrev pub IsEntered : HexCodec → Option (List Bytes) → Option (List Bytes) → Type 0
IsEntered hex none handed = handed ≡ none
IsEntered hex (some []) handed = handed ≡ none
IsEntered hex (some (hex_tx ∷ hex_txs)) handed =
    (txs : List Bytes) × (handed ≡ some txs) × DecodesTo hex (hex_tx ∷ hex_txs) txs

abbrev pub IsDecoded : HexCodec → Map ℕ (List Bytes) → Map ℕ (List Bytes) → Type 0
IsDecoded hex transactions txs =
    (c : ℕ) → IsEntered hex (Map.lookup c transactions) (Map.lookup c txs)

-- No chain of an accepted request fails to be decoded.
abbrev IsReadable : HexCodec → Option (List Bytes) → Type 0
IsReadable hex none = Unit
IsReadable hex (some hex_txs) = (txs : List Bytes) × (decode_chain hex hex_txs ≡ ok txs)

decode_chains-IsReadable :
    (hex : HexCodec) (c : ℕ) (transactions acc txs : Map ℕ (List Bytes))
    → decode_chains hex transactions acc ≡ ok txs
    → IsReadable hex (Map.lookup c transactions)
unfolding decode_chains
decode_chains-IsReadable hex c [] acc txs h = tt
decode_chains-IsReadable hex c ((k, hex_txs) ∷ rest) acc txs h =
    chosen (λ decoded. decode_chains-IsReadable hex c rest (enter_chain k decoded acc) txs)
      (decode_chain hex hex_txs) refl h
  where
    chosen :
        (ih : (decoded : List Bytes)
          → decode_chains hex rest (enter_chain k decoded acc) ≡ ok txs
          → IsReadable hex (Map.lookup c rest))
        (r : Result ServerError (List Bytes))
        → decode_chain hex hex_txs ≡ r
        → (r >>= λ decoded. decode_chains hex rest (enter_chain k decoded acc)) ≡ ok txs
        → IsReadable hex (Map.lookup c ((k, hex_txs) ∷ rest))
    chosen ih (err e) q g = absurd (ground arith)
    chosen ih (ok decoded) q g = elim (Bool-cases (nat_beq k c)) [
      | inl e ↦ rw e (decoded, q)
      | inr e ↦ rw e (ih decoded g)
    ]

nonempty-IsEntered :
    (hex : HexCodec) (hex_txs txs : List Bytes)
    → DecodesTo hex hex_txs txs
    → IsEntered hex (some hex_txs) (nonempty (ok txs))
nonempty-IsEntered hex [] [] d = refl
nonempty-IsEntered hex [] (tx ∷ txs) d = absurd d
nonempty-IsEntered hex (hex_tx ∷ hex_txs) [] d = absurd d
nonempty-IsEntered hex (hex_tx ∷ hex_txs) (tx ∷ txs) d = (tx ∷ txs, refl, d)

entered-IsEntered :
    (hex : HexCodec) (o : Option (List Bytes)) → IsReadable hex o → IsEntered hex o (entered hex o)
entered-IsEntered hex none h = refl
entered-IsEntered hex (some hex_txs) (txs, q) =
    subst (λ r. IsEntered hex (some hex_txs) (nonempty r)) (sym q)
      (nonempty-IsEntered hex hex_txs txs (decode_chain-DecodesTo hex hex_txs txs q))

lookup-enter_chain :
    (k c : ℕ) (decoded : List Bytes) (acc : Map ℕ (List Bytes))
    → Map.lookup c (enter_chain k decoded acc) ≡ (
        if nat_beq k c
        then or_older (nonempty (ok decoded)) (Map.lookup c acc)
        else Map.lookup c acc)
lookup-enter_chain k c [] acc = ground arith
lookup-enter_chain k c (tx ∷ txs) acc = Map.lookup-insert k c (tx ∷ txs) acc ∙ ground arith

-- One round: the chain of the round is not among the later ones.
enter_chain_lem :
    (hex : HexCodec) (k c : ℕ) (hex_txs decoded : List Bytes) (rest acc : Map ℕ (List Bytes))
    → Map.contains_key k rest ≡ false
    → decode_chain hex hex_txs ≡ ok decoded
    → or_older (entered hex (Map.lookup c rest)) (Map.lookup c (enter_chain k decoded acc))
      ≡ or_older (entered hex (Map.lookup c ((k, hex_txs) ∷ rest))) (Map.lookup c acc)
enter_chain_lem hex k c hex_txs decoded rest acc fresh q =
    ap (or_older (entered hex (Map.lookup c rest))) (lookup-enter_chain k c decoded acc)
    ∙ (elim (Bool-cases (nat_beq k c)) [ inl e ↦ rw (e, absent e, q) refl | inr e ↦ rw e refl ])
  where
    absent : nat_beq k c ≡ true → Map.lookup c rest ≡ none
    absent e =
        let same : Map.lookup k rest ≡ Map.lookup c rest =
          λ i. Map.lookup ((nat_beq_iff k c).0 e i) rest in
        ground arith

decode_chains_lem :
    (hex : HexCodec) (c : ℕ) (transactions acc txs : Map ℕ (List Bytes))
    → Map.HasDistinctKeys transactions
    → decode_chains hex transactions acc ≡ ok txs
    → Map.lookup c txs ≡ or_older (entered hex (Map.lookup c transactions)) (Map.lookup c acc)
unfolding decode_chains
decode_chains_lem hex c [] acc txs d h = ground arith
decode_chains_lem hex c ((k, hex_txs) ∷ rest) acc txs d h =
    chosen (decode_chain hex hex_txs) refl
      (λ decoded. decode_chains_lem hex c rest (enter_chain k decoded acc) txs d.1) h
  where
    chosen :
        (r : Result ServerError (List Bytes))
        → decode_chain hex hex_txs ≡ r
        → ((decoded : List Bytes)
            → decode_chains hex rest (enter_chain k decoded acc) ≡ ok txs
            → Map.lookup c txs
              ≡ or_older
                  (entered hex (Map.lookup c rest))
                  (Map.lookup c (enter_chain k decoded acc)))
        → (r >>= λ decoded. decode_chains hex rest (enter_chain k decoded acc)) ≡ ok txs
        → Map.lookup c txs
          ≡ or_older (entered hex (Map.lookup c ((k, hex_txs) ∷ rest))) (Map.lookup c acc)
    chosen (err e) q ih g = absurd (ground arith)
    chosen (ok decoded) q ih g =
        ih decoded g ∙ enter_chain_lem hex k c hex_txs decoded rest acc d.0 q

or_older-none : (o : Option (List Bytes)) → or_older o none ≡ o
or_older-none none = refl
or_older-none (some a) = refl

-- A submission with distinct chains that is accepted hands the coordinator, for each chain that has
-- strings in the request, one transaction for each of them in order, what the hex library makes of
-- it without the prefixes `0x`; nothing for the other chains; and at least one chain.
pub submitted_transactions-IsDecoded :
    (hex : HexCodec) (transactions txs : Map ℕ (List Bytes))
    → Map.HasDistinctKeys transactions
    → submitted_transactions hex transactions ≡ ok txs
    → IsDecoded hex transactions txs × (txs ≢ [])
unfolding submitted_transactions
submitted_transactions-IsDecoded hex transactions txs d h =
    settle (decode_chains hex transactions []) refl h
  where
    settle :
        (r : Result ServerError (Map ℕ (List Bytes)))
        → decode_chains hex transactions [] ≡ r
        → (r >>= some_transactions) ≡ ok txs
        → IsDecoded hex transactions txs × (txs ≢ [])
    settle (err e) q g = absurd (ground arith)
    settle (ok []) q g = absurd (ground arith)
    settle (ok (entry ∷ rest)) q g = (
      (λ c.
          subst (IsEntered hex (Map.lookup c transactions))
            (sym (
              decode_chains_lem hex c transactions [] txs d (q ∙ g)
              ∙ or_older-none (entered hex (Map.lookup c transactions))))
            (entered-IsEntered hex (Map.lookup c transactions)
              (decode_chains-IsReadable hex c transactions [] txs (q ∙ g)))),
      λ e. ground arith,
    )
