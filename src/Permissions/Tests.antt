-- ===== src/Permissions/Tests.antt =====
-- Instances of the theorems on permissions.
use sidecar.Prelude.{ℕ, ◌≡◌, refl, ◌↔◌, true, some, List, [], ◌∷◌, Bytes}
use sidecar.Prelude.Text.{codes}
use sidecar.Permissions.{
  PolicySnapshot, SnapshotData, Engine, restricted, allow, evaluate_xt, StreamEvent, frame,
  bad_frame, handle_all, from_wire, add_entities,
}
use sidecar.Permissions.Evaluation.{PolicyPermits, evaluate_xt_iff}
use sidecar.Permissions.Updates.{newer, last_brought, handle_all-last_brought}

abbrev wallet : Bytes
wallet = 9 ∷ []

-- Chain 1, with the peer 2.
abbrev snapshot : PolicySnapshot
snapshot = record {
  version = 4;
  received_at = 0;
  wallets =
      (
        wallet,
        record {
          entity_active = true;
          group = some (record {
            send_native = true;
            can_deploy_contract = true;
            network_scope = restricted;
            allowed_peers = 2 ∷ [];
          });
        },
      )
      ∷ [];
}

abbrev engine : Engine
engine = record { enabled = true; connected = true; snapshot = some snapshot }

evaluate_xt_iff_example :
    (evaluate_xt engine wallet 1 (1 ∷ 3 ∷ []) ≡ allow) ↔ PolicyPermits engine wallet 1 (1 ∷ 3 ∷ [])
evaluate_xt_iff_example = evaluate_xt_iff engine wallet 1 (1 ∷ 3 ∷ []) refl

abbrev payload_of : ℕ → SnapshotData
payload_of version = record { version = version; entities = []; rule_groups = [] }

-- A snapshot frame, a frame of another kind and a bad one.
abbrev events : List StreamEvent
events = frame (codes "snapshot") (payload_of 5) 1 ∷ frame [] (payload_of 6) 2 ∷ bad_frame ∷ []

abbrev fifth : PolicySnapshot
fifth = record { version = 5; received_at = 1; wallets = [] }

fifth_brought : last_brought (λ raw. some raw) events ≡ some fifth
unfolding from_wire add_entities
fifth_brought = refl

handle_all-last_brought_example :
    (handle_all (λ raw. some raw) events engine).snapshot
    ≡ newer (last_brought (λ raw. some raw) events) (some snapshot)
handle_all-last_brought_example = handle_all-last_brought (λ raw. some raw) events engine
