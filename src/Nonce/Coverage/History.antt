-- ===== src/Nonce/Coverage/History.antt =====
-- Histories of calls keep the lane covered.
use sidecar.Prelude.{ℕ, ◌≤◌, List, [], ◌∷◌, bytes_eq}
use sidecar.Prelude.Result.{ok, err}
use sidecar.Nonce.{
  Inner, Call, reserves, confirms, aborts, resets, fresh, raise_floor, reserve, reset, step, run,
}
use sidecar.Nonce.Coverage.Trim.{raise_floor-HasNoGap}
use sidecar.Nonce.Coverage.Claim.{claim-HasNoGap}
use sidecar.Nonce.Coverage.Release.{release_confirmed-HasNoGap, release_aborted-HasNoGap}
use sidecar.Nonce.Coverage.{IsCovered, HasNoGap, IsFreshClaim, fresh-HasNoGap}
use sidecar.Nonce.Coverage.Trim.{raise_floor-HasNoGap}
use sidecar.Nonce.Coverage.Claim.{claim-HasNoGap}
use sidecar.Nonce.Coverage.Release.{release_confirmed-HasNoGap, release_aborted-HasNoGap}

-- Every reservation of the history is new when it is made.
abbrev IsFreshCall : Inner → Call → Type 0
IsFreshCall s (reserves id count (ok c)) = IsFreshClaim id count (raise_floor c s)
IsFreshCall s _ = Unit

abbrev AreFreshCalls : Inner → List Call → Type 0
AreFreshCalls s [] = Unit
AreFreshCalls s (c ∷ cs) = IsFreshCall s c × AreFreshCalls (step s c) cs

step-HasNoGap : (s : Inner) (c : Call) → IsFreshCall s c → HasNoGap s → HasNoGap (step s c)
unfolding step reserve reset
step-HasNoGap s (reserves id count (ok c)) f v =
    claim-HasNoGap id count (raise_floor c s) f (raise_floor-HasNoGap c s v)
step-HasNoGap s (reserves id count (err e)) f v = v
step-HasNoGap s (confirms id) f v = release_confirmed-HasNoGap id s v
step-HasNoGap s (aborts id) f v = release_aborted-HasNoGap id s v
step-HasNoGap s resets f v = fresh-HasNoGap

run_from-HasNoGap :
    (cs : List Call) (s : Inner) → AreFreshCalls s cs → HasNoGap s → HasNoGap (run s cs)
unfolding run
run_from-HasNoGap [] s f v = v
run_from-HasNoGap (c ∷ cs) s f v = run_from-HasNoGap cs (step s c) f.1 (step-HasNoGap s c f.0 v)

-- After a history in which no transaction reserves while it holds a reservation, each reservation
-- asks for at least one nonce and none reaches past the largest `u64`: if a nonce is reserved or
-- recycled, then so is every smaller one that is not below the canonical floor.
pub run-HasNoGap :
    (cs : List Call) (n m : ℕ)
    → AreFreshCalls fresh cs
    → (run fresh cs).canonical_floor ≤ n
    → n ≤ m
    → IsCovered (run fresh cs) m
    → IsCovered (run fresh cs) n
run-HasNoGap cs n m f lo le = (run_from-HasNoGap cs fresh f fresh-HasNoGap).filled n m lo le
