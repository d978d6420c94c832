-- ===== src/Simulation/Rpc/Success.antt =====
-- When `result_from_traces` of crates/simulation/src/rpc.rs calls a simulation successful.
use sidecar.Prelude.{
  ℕ, ◌≡◌, ◌↔◌, refl, ◌∙◌, true, false, some, List, [], ◌∷◌, Bytes, arith, is_empty, All,
}
use sidecar.Prelude.Text.{codes}
use sidecar.Prelude.Result.{Result}
use sidecar.Simulation.Types.{SimulationError}
use sidecar.Simulation.Json.{Value, get, text_of}
use sidecar.Simulation.Trace.{MailboxCall, SimulationState, or_empty_text}
use sidecar.Simulation.Trace.Preorder.{preorder, visit_all, parse_call_trace-preorder}
use sidecar.Simulation.Diff.{PreStateFrame}
use sidecar.Simulation.Rpc.{
  RpcSimulator, unmet, mailbox_data, extract_at, extract_mailbox_data, result_from_traces,
}

-- The mailbox calls of the frames in preorder.
abbrev pub calls_of : RpcSimulator → Bytes → ℕ → Value → SimulationState
calls_of sim mailbox chain_id trace =
    visit_all sim.abi mailbox chain_id (preorder trace 0) (record { reads = []; writes = [] })

-- No error, or an empty one, on the frame at the top, and no read that reverted anywhere.
abbrev pub Succeeds : RpcSimulator → Bytes → ℕ → Value → Type 0
Succeeds sim mailbox chain_id trace =
    (or_empty_text (text_of (get (codes "error") trace)) ≡ [])
    × All (λ (call : MailboxCall). call.reverted ≡ false)
        (calls_of sim mailbox chain_id trace).reads

unmet_none :
    (calls : List MailboxCall)
    → (is_empty (unmet calls) ≡ true) ↔ All (λ (call : MailboxCall). call.reverted ≡ false) calls
unmet_none [] = ((λ h. tt), λ h. refl)
unmet_none (call ∷ calls) = ground (arith, unmet_none calls)

empty_iff : (bytes : Bytes) → (is_empty bytes ≡ true) ↔ (bytes ≡ [])
empty_iff [] = ((λ h. refl), λ h. refl)
empty_iff (b ∷ bytes) = ground arith

dependencies_lem :
    (sim : RpcSimulator) (mailbox : Bytes) (chain_id : ℕ) (trace : Value)
    → sim.mailbox_address ≡ some mailbox
    → (extract_mailbox_data sim trace chain_id).0
      ≡ unmet (calls_of sim mailbox chain_id trace).reads
unfolding extract_mailbox_data
dependencies_lem sim mailbox chain_id trace h =
    (λ i. (extract_at (h i) sim trace chain_id).0)
    ∙ (λ i. (mailbox_data (parse_call_trace-preorder sim.abi mailbox chain_id trace i)).0)

-- With a mailbox address, a simulation is successful exactly when the call at the top has no error
-- and no read of the mailbox reverted, at any place in the trace, even under a call that succeeded.
pub result_from_traces-success_iff :
    (sim : RpcSimulator) (mailbox : Bytes) (chain_id : ℕ) (trace : Value)
    (prestate : Result SimulationError PreStateFrame)
    → sim.mailbox_address ≡ some mailbox
    → ((result_from_traces sim chain_id trace prestate).success ≡ true)
      ↔ Succeeds sim mailbox chain_id trace
unfolding result_from_traces
result_from_traces-success_iff sim mailbox chain_id trace prestate h = ground (
  arith,
  dependencies_lem sim mailbox chain_id trace h,
  unmet_none (calls_of sim mailbox chain_id trace).reads,
  empty_iff (or_empty_text (text_of (get (codes "error") trace))),
)
