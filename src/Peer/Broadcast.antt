-- ===== src/Peer/Broadcast.antt =====
-- When a request to all peers succeeds, crates/net/peer/src/coordinator.rs.
use sidecar.Prelude.{ℕ, suc, ◌≡◌, Bool, true, false, List, [], ◌∷◌, Bytes}
use sidecar.Prelude.Map.{Map}
use sidecar.Prelude.Result.{Result, ok, err}
use sidecar.Errors.{Message}
use sidecar.Peer.{PeerEntry, peer_url, Http, is_success}

-- The answer is a status of success.
abbrev pub is_accepted : Result Message ℕ → Bool
is_accepted (ok status) = is_success status
is_accepted (err e) = false

-- Every peer accepts its request; the first of them has the number `i`.
abbrev pub AllAccept : Http → Bytes → Bytes → ℕ → List PeerEntry → Type 0
AllAccept http path body i [] = Unit
AllAccept http path body i (p ∷ peers) =
    (is_accepted (http.post i (peer_url p path) body) ≡ true)
    × AllAccept http path body (suc i) peers
