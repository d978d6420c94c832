-- ===== src/Coordinator/Submission.antt =====
-- crates/coordinator/coordinator/src/pipeline/submission.rs: requests and their fingerprints.
pub mod Order
use sidecar.Prelude.{
  ℕ, Bool, true, false, Option, none, some, List, [], ◌∷◌, Bytes, nat_eq, leb, take, is_empty,
  if◌then◌else◌,
}
use sidecar.Prelude.Map
use sidecar.Prelude.Map.{Map}
use sidecar.Coordinator.World.{Env, XtRequest}

-- `sort` on numbers
pub insert_sorted : ℕ → List ℕ → List ℕ
insert_sorted n [] = n ∷ []
insert_sorted n (x ∷ xs) = if leb n x then n ∷ x ∷ xs else x ∷ insert_sorted n xs

pub sort : List ℕ → List ℕ
unfolding insert_sorted
sort [] = []
sort (x ∷ xs) = insert_sorted x (sort xs)

abbrev pub add_request : ℕ → Option (List Bytes) → XtRequest → XtRequest
add_request chain_id none rest = rest
add_request chain_id (some []) rest = rest
add_request chain_id (some (tx ∷ txs)) rest = (chain_id, tx ∷ txs) ∷ rest

-- The `filter_map` over the sorted chains.
pub requests : Map ℕ (List Bytes) → List ℕ → XtRequest
requests txs [] = []
requests txs (chain_id ∷ ids) = add_request chain_id (Map.lookup chain_id txs) (requests txs ids)

unfoldable pub build_xt_request : Map ℕ (List Bytes) → XtRequest
unfolding sort requests
build_xt_request txs = requests txs (sort (Map.keys txs))

unfoldable pub xt_request_fingerprint : Env → XtRequest → Bytes
xt_request_fingerprint env req = env.hex_encode (take 16 (env.sha256 (env.encode_xt_request req)))
