-- ===== src/PolicyStream/Tests.antt =====
-- An instance of the theorem on the policy stream: a connection with a snapshot, a refused one, and
-- one that brings nothing.
use sidecar.Prelude.{ℕ, ◌≡◌, true, Option, none, some, List, [], ◌∷◌, Bytes}
use sidecar.Prelude.Text.{codes}
use sidecar.Permissions.{SnapshotData, new, handle_all, evaluate_xt, deny, config_unavailable}
use sidecar.Permissions.Updates.{last_brought}
use sidecar.PolicyStream.{
  WsClient, text, close, message, idle, Attempt, refused, established, run, next_url,
}
use sidecar.PolicyStream.Between.{resumed, between_connections}

-- A text of one byte is a snapshot of that version.
abbrev parse : Bytes → Option (Bytes × SnapshotData × ℕ)
parse (v ∷ []) = some (codes "snapshot", record { version = v; entities = []; rule_groups = [] }, 1)
parse _ = none

abbrev client : WsClient
client = record { base_url = codes "ws://policies" }

abbrev attempts : List Attempt
attempts =
    established (message (text (7 ∷ [])) ∷ message (text []) ∷ message close ∷ [])
    ∷ refused
    ∷ established (idle ∷ message (text (8 ∷ [])) ∷ [])
    ∷ []

between_connections_example :
    (evaluate_xt
        (handle_all (λ raw. some raw) (run (λ _. true) parse attempts) (new true))
        (9 ∷ [])
        1
        (1 ∷ 2 ∷ [])
      ≡ deny config_unavailable)
    × (next_url (λ _. true) parse (λ raw. some raw) client attempts (new true)
        ≡ resumed client.base_url (last_brought (λ raw. some raw) (run (λ _. true) parse attempts)))
between_connections_example =
    between_connections (λ _. true) parse (λ raw. some raw) client attempts (9 ∷ []) 1 (1 ∷ 2 ∷ [])
