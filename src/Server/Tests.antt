-- ===== src/Server/Tests.antt =====
-- Two sidecars, a user, and instances of the theorems on what goes between them.
use sidecar.Prelude.{ℕ, ◌≡◌, ◌≢◌, refl, false, nat_beq, if◌then◌else◌, List, [], ◌∷◌, Bytes}
use sidecar.Prelude.Map.{Map}
use sidecar.Prelude.Text.{codes}
use sidecar.Prelude.Result.{ok}
use sidecar.Peer.{PeerEntry, HexCodec, Http, new}
use sidecar.Coordinator.Handlers.ForwardedXt.{handle_forwarded_xt}
use sidecar.Coordinator.Tests.{env, id1, world}
use sidecar.Server.{
  answered, handle_forward_xt, submitted_transactions, decode_chains, decode_chain,
}
use sidecar.Server.Forwarded.{handle_forward_xt-new, IsDecoded, submitted_transactions-IsDecoded}

abbrev hex : HexCodec
hex = record { encode = λ bytes. bytes; decode = λ bytes. ok bytes }

abbrev sent : Map ℕ (List Bytes)
sent = (1, (5 ∷ []) ∷ []) ∷ (2, (6 ∷ []) ∷ []) ∷ []

abbrev peers : List PeerEntry
peers =
    record { chain_id = 2; addr = codes "http://two/" }
    ∷ record { chain_id = 3; addr = codes "http://three" }
    ∷ []

-- The second peer is not to be found.
abbrev http : Http
http = record { post = λ i _ _. if nat_beq i 0 then ok 200 else ok 404; status_text = λ _. [] }

handle_forward_xt-new_example :
    handle_forward_xt env hex (λ _. false) (new hex id1 sent 1 4) world
    ≡ answered (handle_forwarded_xt env (λ _. false) id1 sent 1 4 world)
handle_forward_xt-new_example =
    handle_forward_xt-new env hex (λ _. false) id1 sent 1 4 world (λ bytes. refl)

-- The chain 3 has no transactions.
abbrev requested : Map ℕ (List Bytes)
requested = (1, codes "0x5" ∷ []) ∷ (3, []) ∷ (2, codes "6" ∷ []) ∷ []

abbrev accepted : Map ℕ (List Bytes)
accepted = (1, codes "5" ∷ []) ∷ (2, codes "6" ∷ []) ∷ []

two_chains : submitted_transactions hex requested ≡ ok accepted
unfolding submitted_transactions decode_chains decode_chain
two_chains = refl

submitted_transactions-IsDecoded_example : IsDecoded hex requested accepted × (accepted ≢ [])
submitted_transactions-IsDecoded_example =
    submitted_transactions-IsDecoded hex requested accepted (refl, (refl, (refl, tt))) two_chains
